-- ===== src/Grpcsvc/Delete.antt =====
-- internal/grpcsvc/create.go `DeleteSandbox`. The teardown runs under a context of its own, so a
-- canceled request does not stop it. While the call waits for the provisioning task the lock is free:
-- `meanwhile` is what the other goroutines do to the server in that time, and may be anything.
pub mod Laws
use openshell_driver_appleco.Prelude.{
  ℕ, Bool, true, false, not, List, [], Option, none, some, if◌then◌else◌,
}
use openshell_driver_appleco.Result.{Result, ok, err}
use openshell_driver_appleco.Text.{Text, text}
use openshell_driver_appleco.Assoc.{erase}
use openshell_driver_appleco.Config.{Config}
use openshell_driver_appleco.Backend.{RuntimeError, is_not_found}
use openshell_driver_appleco.State.{valid_id}
use openshell_driver_appleco.Grpcsvc.Conditions.{deleting_condition}
use openshell_driver_appleco.Grpcsvc.Create.{container_name}
use openshell_driver_appleco.Grpcsvc.Errors.{
  RpcError, delete_container_failed, delete_record_failed,
}
use openshell_driver_appleco.Grpcsvc.Server.{
  Server, Host, Entry, write, lookup_locked, publish_sandbox, publish_deleted,
}

-- `Delete` of a container: whether it was there, or the error that ends the call.
unfoldable pub deleted_vm : Result RuntimeError (Unit {0}) → Result RuntimeError Bool
deleted_vm (ok _) = ok true
deleted_vm (err x) = if is_not_found x then ok false else err x

module _ {W F : Type 0} (host : Host W F) (cfg : Config) where
  open host use {runtime, store, now}

  -- No entry: clear an orphaned VM by its conventional name, and any record left on disk.
  unfoldable pub delete_unknown : Text → Server W → Result RpcError Bool × Server W
  delete_unknown id s =
      if not (valid_id id)
      then (ok false, s)
      else (let (r, w) = runtime.delete (container_name id) s.world in
          elim (deleted_vm r) [
            | err x ↦ (err (delete_container_failed x), record s { world = w })
            | ok deleted ↦ (ok deleted, record s { world = (store.delete id w).1 })
          ])

  -- Under the lock: the entry is marked; then the task's context is canceled.
  unfoldable pub mark_deleting : ℕ → Server W → Server W
  mark_deleting p s =
      let marked =
        write p (record (s.heap p) { deleting = true; cond = deleting_condition (now s.world) })
          s in
      let seen = publish_sandbox cfg p marked in
      let e = seen.heap p in
      write p (record e { cancel = elim e.cancel [ none ↦ none | some _ ↦ some true ] }) seen

  -- What follows the wait, with the id and container name read before it.
  unfoldable pub tear_down : Text → Text → Server W → Result RpcError Bool × Server W
  tear_down id name s =
      let (r, w) = runtime.delete name s.world in
      elim (deleted_vm r) [
        | err x ↦ (err (delete_container_failed x), record s { world = w })
        | ok deleted ↦
            let (q, w') = store.delete id w in
            let s' = record s { world = w' } in
            elim q [
              | err x ↦ (err (delete_record_failed x), s')
              | ok _ ↦ (
                ok deleted,
                publish_deleted cfg id (record s' { sandboxes = erase id s'.sandboxes }),
              )
            ]
      ]

  unfoldable pub delete_known :
      (Server W → Server W) → ℕ → Server W → Result RpcError Bool × Server W
  delete_known meanwhile p s =
      tear_down (s.heap p).rec.id (s.heap p).rec.container_name (meanwhile (mark_deleting p s))

  unfoldable pub delete_sandbox :
      (Server W → Server W) → Text → Text → Server W → Result RpcError Bool × Server W
  delete_sandbox meanwhile id name s = elim (lookup_locked id name s) [
    | none ↦ delete_unknown id s
    | some p ↦ delete_known meanwhile p s
  ]
