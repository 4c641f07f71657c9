-- ===== src/Grpcsvc/Server.antt =====
-- internal/grpcsvc/service.go: the server's state, the registry of sandboxes and the read-only calls.
-- An entry is shared by pointer between the registry, the handlers and its provisioning task, so the
-- entries live in a heap of their own, and the registry maps an id to an address in it. The lock is not
-- in the state: each step below is what one goroutine does while it holds the lock, or between two
-- holds.
use openshell_driver_appleco.Seed.{Materials}
use openshell_driver_appleco.Prelude.{
  ℕ, Bool, true, not, ◌&&◌, List, [], ◌∷◌, Option, none, some, map, eqb, if◌then◌else◌,
}
use openshell_driver_appleco.Result.{Result, ok, err}
use openshell_driver_appleco.Text.{Text, ◌==◌}
use openshell_driver_appleco.Assoc.{lookup}
use openshell_driver_appleco.Config.{Config}
use openshell_driver_appleco.Backend.{Labels, Runtime, Outcome}
use openshell_driver_appleco.State.{Record, Store}
use openshell_driver_appleco.Grpcsvc.DriverConfig.{DriverConfig}
use openshell_driver_appleco.Grpcsvc.Quantity.{Floats}
use openshell_driver_appleco.Grpcsvc.Env.{MainProcess}
use openshell_driver_appleco.Grpcsvc.Hub.{Hub, publish}
use openshell_driver_appleco.Grpcsvc.Conditions.{Condition, Message}
use openshell_driver_appleco.Grpcsvc.Proto.{DriverSandbox}
use openshell_driver_appleco.Grpcsvc.Errors.{RpcError, sandbox_not_found, ProvisionError}

-- What the service calls outside its package: the container runtime, the record store, the supervisor
-- extractor and seed writer, the host's file system and clock, and the encoders.
pub record Host (W : Type 0) (F : Type 0) : Type 0 where
  pub runtime : Runtime W
  pub store : Store W
  pub floats : Floats F
  pub now : W → ℕ
  pub file_exists : W → Text → Bool
  pub eval_symlinks : W → Text → Option Text
  pub ensure : Text → W → Outcome W Text
  pub write_seed : Text → Materials → W → Outcome W (Unit {0})
  pub sandbox_dir : Text → Text
  pub encode_sandbox : DriverSandbox → Option Text
  pub encode_user : Labels → Option Text
  pub encode_main : MainProcess → Option Text
  pub has_fields : Text → Bool
  pub decode_config : Text → Option DriverConfig

-- `cancel` holds whether the task's context is canceled, `done` whether its channel is closed; `none`
-- is nil.
pub record Entry : Type 0 where
  pub rec : Record
  pub cond : Condition ProvisionError
  pub deleting : Bool
  pub busy : Bool
  pub cancel : Option Bool
  pub done : Option Bool

-- What the gateway is shown of a sandbox.
pub record Snapshot : Type 0 where
  pub id : Text
  pub name : Text
  pub namespace : Text
  pub workspace : Text
  pub sandbox_name : Text
  pub instance_id : Text
  pub condition : Condition ProvisionError
  pub deleting : Bool

pub data EventType : Type 0 where
  normal warning : EventType

pub record PlatformEvent : Type 0 where
  pub sandbox_id : Text
  pub timestamp : ℕ
  pub kind : EventType
  pub reason : Text
  pub message : Message ProvisionError

pub data Event : Type 0 where
  sandbox_event : Snapshot → Event
  deleted_event : Text → Event
  platform_event : PlatformEvent → Event

-- A provisioning goroutine that has been started and has not finished.
pub record Task : Type 0 where
  pub entry : ℕ
  pub sandbox : DriverSandbox
  pub token : Text

pub record Server (W : Type 0) : Type 0 where
  pub world : W
  pub heap : ℕ → Entry
  pub next_address : ℕ
  pub sandboxes : List (Text × ℕ)
  pub hub : Hub Event
  pub tasks : List Task

abbrev pub put : (ℕ → Entry) → ℕ → Entry → ℕ → Entry
put h p e q = if eqb p q then e else h q

-- The entry with that name, in the map's order.
by_name : Text → (ℕ → Entry) → List (Text × ℕ) → Option ℕ
by_name name h [] = none
by_name name h ((_, p) ∷ m) = if (h p).rec.name == name then some p else by_name name h m

unfoldable pub provision_done : Entry → Bool
provision_done e = elim e.done [ none ↦ true | some closed ↦ closed ]

-- The poller may act on the entry.
unfoldable pub pollable : Entry → Bool
unfolding provision_done
pollable e = not e.deleting && not e.busy && provision_done e

module _ {W : Type 0} where
  -- A write through the pointer `p`.
  abbrev pub write : ℕ → Entry → Server W → Server W
  write p e s = record s { heap = put s.heap p e }

  unfoldable pub set_condition : ℕ → Condition ProvisionError → Server W → Server W
  set_condition p c s = write p (record (s.heap p) { cond = c }) s

  unfoldable pub lookup_locked : Text → Text → Server W → Option ℕ
  unfolding by_name
  lookup_locked id name s = elim (lookup id s.sandboxes) [
    | some p ↦ some p
    | none ↦ if name == [] then none else by_name name s.heap s.sandboxes
  ]

module _ (cfg : Config) where
  unfoldable pub snapshot : Entry → Snapshot
  snapshot e = record {
    id = e.rec.id;
    name = e.rec.name;
    namespace = cfg.namespace;
    workspace = e.rec.workspace;
    sandbox_name = e.rec.container_name;
    instance_id = e.rec.container_name;
    condition = e.cond;
    deleting = e.deleting;
  }

  module _ {W : Type 0} where
    pub emit : Event → Server W → Server W
    emit ev s = record s { hub = publish ev s.hub }

    unfoldable pub publish_sandbox : ℕ → Server W → Server W
    unfolding emit
    publish_sandbox p s = emit (sandbox_event (snapshot (s.heap p))) s

    unfoldable pub publish_deleted : Text → Server W → Server W
    unfolding emit
    publish_deleted id s = emit (deleted_event id) s

    unfoldable pub publish_platform_event :
        (W → ℕ) → Text → EventType → Text → Message ProvisionError → Server W → Server W
    unfolding emit
    publish_platform_event now id kind reason message s =
        emit
          (platform_event (record {
            sandbox_id = id;
            timestamp = now s.world;
            kind = kind;
            reason = reason;
            message = message;
          }))
          s

    pub get_sandbox : Text → Text → Server W → Result RpcError Snapshot
    get_sandbox id name s = elim (lookup_locked id name s) [
      | none ↦ err (sandbox_not_found id)
      | some p ↦ ok (snapshot (s.heap p))
    ]

    pub list_sandboxes : Server W → List Snapshot
    list_sandboxes s = map (λ ((_, p) : Text × ℕ). snapshot (s.heap p)) s.sandboxes
