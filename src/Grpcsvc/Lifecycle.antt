-- ===== src/Grpcsvc/Lifecycle.antt =====
-- internal/grpcsvc/lifecycle.go: stopping and starting a sandbox's VM. The operation's context is
-- detached from the request's, so the only cancellation is its timeout, which the runtime reports as an
-- error. The lock is free during the runtime's operation, the save and the events: before each of them,
-- and before each further hold of the lock, `others` is what the other goroutines do to the server, and
-- may be anything.
pub mod Laws
pub mod Success
use openshell_driver_appleco.Prelude.{
  ℕ, Bool, true, false, not, ◌&&◌, ◌||◌, Option, none, some, if◌then◌else◌,
}
use openshell_driver_appleco.Result.{Result, ok, err}
use openshell_driver_appleco.Text.{Text, text, ◌==◌}
use openshell_driver_appleco.Config.{Config}
use openshell_driver_appleco.Backend.{RuntimeError, is_not_found, Container, Outcome}
use openshell_driver_appleco.State.{Record}
use openshell_driver_appleco.Grpcsvc.Conditions.{
  Condition, literal, stopped_condition, ready_true_condition, same_reason, provisioning_failed,
}
use openshell_driver_appleco.Grpcsvc.Errors.{
  RpcError, sandbox_not_found, being_deleted, still_provisioning, in_progress, failed_to_provision,
  no_vm, vm_failed, lifecycle_unsaved, ProvisionError,
}
use openshell_driver_appleco.Grpcsvc.Server.{
  Server, Host, Entry, write, set_condition, lookup_locked, provision_done, publish_sandbox,
  publish_platform_event, normal,
}

unfoldable pub state_running : Text
state_running = text "running"

-- The refusals of `beginLifecycle`, in the order of its switch.
unfoldable pub refusal : Entry → Option RpcError
unfolding provision_done
refusal e =
    if e.deleting
    then some (being_deleted e.rec.id)
    else if not (provision_done e)
    then some (still_provisioning e.rec.id)
    else if e.busy
    then some (in_progress e.rec.id)
    else if same_reason e.cond.reason provisioning_failed
    then some (failed_to_provision e.rec.id)
    else none

-- After an error other than not-found, whether the VM is in the wanted state all the same.
unfoldable pub verify : Bool → Result RuntimeError Container → Bool
verify running (err _) = false
verify running (ok c) =
    let at_work = c.state == state_running in if running then at_work else not at_work

module _ {W F : Type 0} (host : Host W F) (cfg : Config) where
  open host use {runtime, store, now}

  -- Finds the entry and marks it busy.
  unfoldable pub begin_lifecycle : Text → Text → Server W → Result RpcError ℕ × Server W
  begin_lifecycle id name s = elim (lookup_locked id name s) [
    | none ↦ (err (sandbox_not_found id), s)
    | some p ↦ elim (refusal (s.heap p)) [
      | some e ↦ (err e, s)
      | none ↦ (ok p, write p (record (s.heap p) { busy = true }) s)
    ]
  ]

  -- The deferred function that `beginLifecycle` returns.
  unfoldable pub release : ℕ → Server W → Server W
  release p s = write p (record (s.heap p) { busy = false }) s

  -- Under the lock: the intent goes on the entry.
  unfoldable pub set_intent : ℕ → Bool → Server W → Server W
  set_intent p stopped s =
      let e = s.heap p in write p (record e { rec = record e.rec { stopped = stopped } }) s

module _ {W F : Type 0} (host : Host W F) (cfg : Config) (others : Server W → Server W) where
  open host use {runtime, store, now}

  -- Records the intent on the entry and on disk: what is saved is the record read under the lock.
  unfoldable pub set_stopped : ℕ → Bool → Server W → Result RpcError (Unit {0}) × Server W
  unfolding set_intent
  set_stopped p stopped s =
      let t = set_intent host cfg p stopped (others s) in
      let u = others t in
      let (r, w) = store.save (t.heap p).rec u.world in
      (elim r [ ok _ ↦ ok tt | err x ↦ err (lifecycle_unsaved x) ], record u { world = w })

  -- The condition and the two events, in this order.
  unfoldable pub report : ℕ → Condition ProvisionError → Text → Text → Server W → Server W
  report p c reason message s =
      let seen = others (publish_sandbox cfg p (others (set_condition p c s))) in
      publish_platform_event cfg now (seen.heap p).rec.id normal reason (literal message) seen

  -- What follows a stop or start that the runtime did, or had done before.
  unfoldable pub settle :
      ℕ
      → Bool
      → (ℕ → Condition ProvisionError)
      → Text
      → Text
      → Server W
      → Result RpcError (Unit {0}) × Server W
  unfolding report
  settle p stopped cond reason message s =
      let (r, s') = set_stopped p stopped s in
      let t = others s' in
      elim r [
        | err x ↦ (err x, s')
        | ok _ ↦ (ok tt, report p (cond (now t.world)) reason message t)
      ]

  -- The body of both calls, once the entry is marked: `op` is the runtime's operation.
  unfoldable pub operate :
      (Text → W → Outcome W (Unit {0}))
      → Bool
      → (ℕ → Server W → Result RpcError (Unit {0}) × Server W)
      → ℕ
      → Server W
      → Result RpcError (Unit {0}) × Server W
  operate op running finish p s =
      let name = (s.heap p).rec.container_name in
      let t = others s in
      let (r, w) = op name t.world in
      let t' = record t { world = w } in
      elim r [
        | ok _ ↦ finish p t'
        | err x ↦
            if is_not_found x
            then (err (no_vm (t'.heap p).rec.id), t')
            else (let u = others t' in
                let (c, w') = runtime.get name u.world in
                let u' = record u { world = w' } in
                if verify running c then finish p u' else (err (vm_failed x), u'))
      ]

  abbrev pub Body : Type 0
  Body = ℕ → Server W → Result RpcError (Unit {0}) × Server W

  -- The rest of a call behind `beginLifecycle`: an error is returned; otherwise the body runs, and the
  -- deferred release behind it on every path.
  unfoldable pub with_release :
      Body → Result RpcError ℕ × Server W → Result RpcError (Unit {0}) × Server W
  with_release body (err x, s) = (err x, s)
  with_release body (ok p, s) = let (r, s') = body p s in (r, release host cfg p (others s'))

  unfoldable pub bracket : Text → Text → Body → Server W → Result RpcError (Unit {0}) × Server W
  unfolding with_release
  bracket id name body s = with_release body (begin_lifecycle host cfg id name s)

  abbrev pub finish_stop : ℕ → Server W → Result RpcError (Unit {0}) × Server W
  finish_stop p = settle p true stopped_condition (text "Stopped") (text "Sandbox VM stopped")

  abbrev pub finish_start : ℕ → Server W → Result RpcError (Unit {0}) × Server W
  finish_start p = settle p false ready_true_condition (text "Started") (text "Sandbox VM started")

  unfoldable pub stop_sandbox : Text → Text → Server W → Result RpcError (Unit {0}) × Server W
  stop_sandbox id name = bracket id name (operate runtime.stop false finish_stop)

  unfoldable pub start_sandbox : Text → Text → Server W → Result RpcError (Unit {0}) × Server W
  start_sandbox id name = bracket id name (operate runtime.start true finish_start)
