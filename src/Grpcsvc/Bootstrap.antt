-- ===== src/Grpcsvc/Bootstrap.antt =====
-- internal/grpcsvc/reconcile.go, `Bootstrap`: at startup the persisted records are compared with the
-- runtime's containers, the sandboxes are registered, and the VMs that no record owns are deleted. The
-- directories that the store skips are only logged.
pub mod Adoption
pub mod Restore
use openshell_driver_appleco.Prelude.{
  ℕ, suc, Bool, true, false, not, ◌&&◌, List, [], ◌∷◌, Option, none, some, if◌then◌else◌,
}
use openshell_driver_appleco.Result.{Result, ok, err}
use openshell_driver_appleco.Text.{Text, text, ◌==◌}
use openshell_driver_appleco.Assoc.{lookup, insert}
use openshell_driver_appleco.Config.{Config}
use openshell_driver_appleco.Backend.{Container, RuntimeError, label}
use openshell_driver_appleco.State.{Record, StoreError}
use openshell_driver_appleco.Grpcsvc.Conditions.{
  Condition, literal, with_tail, ready_true_condition, stopped_condition, exited_condition,
  failed_condition,
}
use openshell_driver_appleco.Grpcsvc.Errors.{ProvisionError}
use openshell_driver_appleco.Grpcsvc.Lifecycle.{state_running}
use openshell_driver_appleco.Grpcsvc.Server.{Server, Host, Entry, put}
use openshell_driver_appleco.Grpcsvc.Reconcile.{find_container, console_tail}

-- The two errors that end the driver's start.
pub data BootstrapError : Type 0 where
  list_records : StoreError → BootstrapError
  list_containers : RuntimeError → BootstrapError

abbrev pub label_managed_by : Text
label_managed_by = text "openshell.ai/managed-by"

abbrev pub managed_by_value : Text
managed_by_value = text "openshell-driver-applecontainer"

abbrev pub label_sandbox_id : Text
label_sandbox_id = text "openshell.ai/sandbox-id"

unfoldable pub is_known : List (Text × ℕ) → Text → Bool
is_known m id = elim (lookup id m) [ none ↦ false | some _ ↦ true ]

-- A container of ours that no registered sandbox owns.
unfoldable pub is_orphan : List (Text × ℕ) → Container → Bool
unfolding is_known
is_orphan m c =
    let id = label label_sandbox_id c.labels in
    label label_managed_by c.labels == managed_by_value && not (not (id == []) && is_known m id)

-- `&entry{rec: rec}` with its condition.
abbrev pub adopted : Record → Condition ProvisionError → Entry
adopted rec cond = record {
  rec = rec;
  cond = cond;
  deleting = false;
  busy = false;
  cancel = none;
  done = none;
}

unfoldable pub with_excerpt : Text → Condition ProvisionError → Condition ProvisionError
with_excerpt tail cond =
    if tail == [] then cond else (record cond { message = with_tail cond.message tail })

module _ {W F : Type 0} (host : Host W F) (cfg : Config) where
  open host use {runtime, store, now}

  -- The entry of a record, given its container.
  unfoldable pub adopt : Option Container → Record → W → Entry × W
  unfolding with_excerpt
  adopt none rec w = (
    adopted rec
        (failed_condition (literal (text "sandbox VM missing after driver restart")) (now w)),
    w,
  )
  adopt (some c) rec w =
      let (tail, w') = console_tail host cfg rec.container_name w in
      if c.state == state_running
      then (adopted rec (ready_true_condition (now w)), w)
      else if rec.stopped
      then (adopted rec (stopped_condition (now w)), w)
      else (adopted rec (with_excerpt tail (exited_condition (now w))), w')

  unfoldable pub adopt_all : List Container → List Record → W → List Entry × W
  adopt_all cs [] w = ([], w)
  adopt_all cs (rec ∷ recs) w =
      let (e, w') = adopt (find_container cs rec.container_name) rec w in
      let (es, w'') = adopt_all cs recs w' in (e ∷ es, w'')

  unfoldable pub register_all : List Entry → Server W → Server W
  register_all [] s = s
  register_all (e ∷ es) s = register_all es (record s {
    heap = put s.heap s.next_address e;
    next_address = suc s.next_address;
    sandboxes = insert e.rec.id s.next_address s.sandboxes;
  })

  -- An error of a deletion is only logged.
  unfoldable pub delete_orphans : List (Text × ℕ) → List Container → W → W
  unfolding is_orphan
  delete_orphans m [] w = w
  delete_orphans m (c ∷ cs) w =
      delete_orphans m cs (if is_orphan m c then (runtime.delete c.id w).1 else w)

  unfoldable pub reconcile_records : List Record → List Container → Server W → Server W
  reconcile_records recs cs s =
      let (es, w) = adopt_all cs recs s.world in
      let t = register_all es s in record t { world = delete_orphans t.sandboxes cs w }

  unfoldable pub bootstrap : Server W → Result BootstrapError (Unit {0}) × Server W
  bootstrap s =
      let (r, w) = store.list s.world in
      let (q, w') = runtime.list true w in
      elim r [
        | err x ↦ (err (list_records x), record s { world = w })
        | ok (recs, skipped) ↦ elim q [
          | err x ↦ (err (list_containers x), record s { world = w' })
          | ok cs ↦ (ok tt, reconcile_records recs cs (record s { world = w' }))
        ]
      ]
