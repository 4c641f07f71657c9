-- ===== src/Backend/Fake.antt =====
-- internal/backend/fake.go: the operations of the in-memory runtime on containers and networks. Its
-- contexts are never canceled and `RunBlock` is nil. The operations on images, and the copy of a file
-- to the real disk, are left out.
pub mod Contract
mod Tests
use openshell_driver_appleco.Prelude.{
  ℕ, ◌+◌, ◌*◌, ◌^◌, Bool, true, false, not, ◌&&◌, List, [], ◌∷◌, ◌++◌, Option, none, some,
  if◌then◌else◌,
}
use openshell_driver_appleco.Int.{ℤ, pos, negsuc}
use openshell_driver_appleco.Result.{Result, ok, err}
use openshell_driver_appleco.Text.{Text, text, ◌==◌}
use openshell_driver_appleco.Assoc.{lookup, insert, erase}
use openshell_driver_appleco.Backend.{
  Runtime, RuntimeError, not_found, Container, RunSpec, Image, Network, Outcome,
}

pub record FakeContainer : Type 0 where
  pub ctr : Container
  pub console : Text

pub record FakeState : Type 0 where
  pub containers : List (Text × FakeContainer)
  pub images : List Image
  pub networks : List Network
  pub run_calls : List RunSpec
  pub pulls : List Text
  pub stops : List Text
  pub starts : List Text
  pub run_error : Option RuntimeError
  pub stop_error : Option RuntimeError
  pub start_error : Option RuntimeError
  pub network_list_error : Option RuntimeError
  pub version_string : Text

-- `spec.MemoryMB << 20`, below the bound of an int64.
unfoldable pub shift_mib : ℤ → ℤ
shift_mib (pos n) = pos (n * 2 ^ 20)
shift_mib (negsuc n) = negsuc (n * 2 ^ 20 + 1048575)

unfoldable pub container_of_spec : RunSpec → Container
container_of_spec spec = record {
  id = spec.name;
  state = text "running";
  image_ref = spec.image;
  image_digest = [];
  labels = spec.labels;
  networks =
      record {
        network = spec.network;
        hostname = spec.name;
        ipv4_address = text "192.168.65.9/24";
        ipv4_gateway = text "192.168.65.1";
      }
      ∷ [];
  cpus = spec.cpus;
  memory_bytes = shift_mib spec.memory_mb;
  created_at = [];
  started_at = [];
}

unfoldable pub fake_run : RunSpec → FakeState → Outcome FakeState Text
fake_run spec f =
    let called = record f { run_calls = f.run_calls ++ spec ∷ [] } in
    elim f.run_error [
      | some x ↦ (err x, record called { run_error = none })
      | none ↦
          let c : FakeContainer = record { ctr = container_of_spec spec; console = [] } in
          (ok spec.name, record called { containers = insert spec.name c f.containers })
    ]

unfoldable pub fake_delete : Text → FakeState → Outcome FakeState (Unit {0})
fake_delete name f = elim (lookup name f.containers) [
  | none ↦ (err not_found, f)
  | some _ ↦ (ok tt, record f { containers = erase name f.containers })
]

-- `SetState`, and what Stop and Start do to a container.
unfoldable pub set_state : Text → Text → FakeState → Outcome FakeState (Unit {0})
set_state name state f = elim (lookup name f.containers) [
  | none ↦ (err not_found, f)
  | some c ↦
      let changed = record c { ctr = record c.ctr { state = state } } in
      (ok tt, record f { containers = insert name changed f.containers })
]

unfoldable pub fake_stop : Text → FakeState → Outcome FakeState (Unit {0})
fake_stop name f =
    let called = record f { stops = f.stops ++ name ∷ [] } in
    elim f.stop_error [
      | some x ↦ (err x, record called { stop_error = none })
      | none ↦ set_state name (text "stopped") called
    ]

unfoldable pub fake_start : Text → FakeState → Outcome FakeState (Unit {0})
fake_start name f =
    let called = record f { starts = f.starts ++ name ∷ [] } in
    elim f.start_error [
      | some x ↦ (err x, record called { start_error = none })
      | none ↦ set_state name (text "running") called
    ]

unfoldable pub listed : Bool → List (Text × FakeContainer) → List Container
listed all [] = []
listed all ((_, c) ∷ m) =
    let rest = listed all m in
    if not all && not (c.ctr.state == text "running") then rest else c.ctr ∷ rest

unfoldable pub fake_list : Bool → FakeState → Outcome FakeState (List Container)
unfolding listed
fake_list all f = (ok (listed all f.containers), f)

unfoldable pub fake_get : Text → FakeState → Outcome FakeState Container
fake_get name f = elim (lookup name f.containers) [
  | none ↦ (err not_found, f)
  | some c ↦ (ok c.ctr, f)
]

unfoldable pub fake_logs : Text → ℕ → FakeState → Outcome FakeState Text
fake_logs name lines f = elim (lookup name f.containers) [
  | none ↦ (err not_found, f)
  | some c ↦ (ok c.console, f)
]

unfoldable pub fake_networks : FakeState → Outcome FakeState (List Network)
fake_networks f = elim f.network_list_error [ none ↦ (ok f.networks, f) | some x ↦ (err x, f) ]

unfoldable pub fake_network_create : Text → FakeState → Outcome FakeState (Unit {0})
fake_network_create name f =
    let n : Network = record {
      name = name;
      ipv4_gateway = text "192.168.65.1";
      ipv4_subnet = text "192.168.65.0/24";
    } in
    (ok tt, record f { networks = f.networks ++ n ∷ [] })
