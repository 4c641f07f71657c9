-- ===== src/Grpcsvc/System.antt =====
-- The service as a whole: internal/grpcsvc as a system of steps. A step is one hold of the server's lock
-- (with the save that CreateSandbox does inside it), a change of the watch streams, or a change of the
-- host. The handlers, the poller and the provisioning tasks are sequences of steps, between any two of
-- which the others may take theirs.
pub mod Growth
pub mod Invariant
pub mod Tasks
pub mod Handlers
mod Tests
use openshell_driver_appleco.Prelude.{ℕ, Bool, true, List, Option, none, some, ◌≡◌, ◌∷◌, ◌<◌}
use openshell_driver_appleco.Text.{Text}
use openshell_driver_appleco.Assoc.{erase}
use openshell_driver_appleco.Config.{Config}
use openshell_driver_appleco.Backend.{Container}
use openshell_driver_appleco.State.{Record}
use openshell_driver_appleco.Grpcsvc.Hub.{Hub}
use openshell_driver_appleco.Grpcsvc.Proto.{DriverSandbox}
use openshell_driver_appleco.Grpcsvc.Errors.{ProvisionError}
use openshell_driver_appleco.Grpcsvc.Conditions.{Condition, deleting_condition}
use openshell_driver_appleco.Grpcsvc.Server.{Server, Host, Event, Task, write, set_condition}
use openshell_driver_appleco.Grpcsvc.Create.{register}
use openshell_driver_appleco.Grpcsvc.Lifecycle.{begin_lifecycle, set_intent, release}
use openshell_driver_appleco.Grpcsvc.Reconcile.{visit, find_container}
use openshell_driver_appleco.Grpcsvc.Provision.Pipeline.{set_digest}
use openshell_driver_appleco.Grpcsvc.Provision.Finish.{finish_task}

module _ {W F : Type 0} (host : Host W F) (cfg : Config) where
  abbrev pub alone : Server W → Server W
  alone s = s

  -- The two writes of a deletion to its entry.
  abbrev pub marked_deleting : ℕ → Server W → Server W
  marked_deleting p s =
      write p (record (s.heap p) { deleting = true; cond = deleting_condition (host.now s.world) })
        s

  abbrev pub task_canceled : ℕ → Server W → Server W
  task_canceled p s =
      let e = s.heap p in
      write p (record e { cancel = elim e.cancel [ none ↦ none | some _ ↦ some true ] }) s

  -- `hears` is a change of the watch streams; `waits` is a change of the host.
  pub data Move : Server W → Server W → Type 0 where
    registers :
        (sb : DriverSandbox) (rec : Record) (s : Server W) → Move s (register host cfg sb rec s).1
    launches :
        (t : Task) (s : Server W)
        → t.entry < s.next_address
        → Move s (record s { tasks = t ∷ s.tasks })
    begins : (id name : Text) (s : Server W) → Move s (begin_lifecycle host cfg id name s).1
    intends : (p : ℕ) (stopped : Bool) (s : Server W) → Move s (set_intent host cfg p stopped s)
    sets : (p : ℕ) (c : Condition ProvisionError) (s : Server W) → Move s (set_condition p c s)
    releases : (p : ℕ) (s : Server W) → Move s (release host cfg p s)
    marks : (p : ℕ) (s : Server W) → Move s (marked_deleting p s)
    cancels : (p : ℕ) (s : Server W) → Move s (task_canceled p s)
    erases : (id : Text) (s : Server W) → Move s (record s { sandboxes = erase id s.sandboxes })
    visits :
        (now : ℕ) (cs : List Container) (s : Server W)
        → Move s (record s { heap = (visit now (find_container cs) s.sandboxes s.heap).0 })
    pins : (p : ℕ) (digest : Text) (s : Server W) → Move s (set_digest host cfg alone p digest s).1
    finishes : (p : ℕ) (s : Server W) → Move s (finish_task p s)
    hears : (h : Hub Event) (s : Server W) → Move s (record s { hub = h })
    waits : (w : W) (s : Server W) → Move s (record s { world = w })

  pub data Run (s : Server W) : Server W → Type 0 where
    here : Run s s
    next : {t u : Server W} → Run s t → Move t u → Run s u

  pub Run-trans : {s t u : Server W} → Run s t → Run t u → Run s u
  Run-trans r here = r
  Run-trans r (next q m) = next (Run-trans r q) m

  pub Run-move : {s t : Server W} → Move s t → Run s t
  Run-move m = next here m

  pub Run-then : {s t u : Server W} → Run s t → Move t u → Run s u
  Run-then r m = next r m
