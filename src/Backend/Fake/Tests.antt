-- ===== src/Backend/Fake/Tests.antt =====
-- The in-memory runtime of internal/backend/fake.go at a concrete container.
use openshell_driver_appleco.Prelude.{[], none, ◌≡◌, refl}
use openshell_driver_appleco.Int.{pos}
use openshell_driver_appleco.Result.{ok}
use openshell_driver_appleco.Text.{text, ◌==◌}
use openshell_driver_appleco.Backend.{RunSpec}
use openshell_driver_appleco.Backend.Fake.{
  FakeState, container_of_spec, fake_run, fake_delete, fake_stop, fake_get, set_state,
}
use openshell_driver_appleco.Assoc.{insert, lookup}

abbrev spec : RunSpec
spec = record {
  name = text "a";
  image = text "img";
  network = text "net";
  volumes = [];
  tmpfs = [];
  env = [];
  labels = [];
  cpus = pos 2;
  memory_mb = pos 1;
  entrypoint = [];
  args = [];
  kernel = [];
  uid = none;
  gid = none;
  cap_add = [];
}

abbrev empty_state : FakeState
empty_state = record {
  containers = [];
  images = [];
  networks = [];
  run_calls = [];
  pulls = [];
  stops = [];
  starts = [];
  run_error = none;
  stop_error = none;
  start_error = none;
  network_list_error = none;
  version_string = [];
}

abbrev booted : FakeState
booted = (fake_run spec empty_state).1

boots : (fake_run spec empty_state).0 ≡ ok (text "a")
unfolding fake_run
boots = refl

deletes : (fake_delete (text "a") booted).0 ≡ ok tt
unfolding fake_delete lookup fake_run insert ◌==◌
deletes = refl

reads : (fake_get (text "a") booted).0 ≡ ok (container_of_spec spec)
unfolding fake_get lookup fake_run insert ◌==◌
reads = refl

halts : (fake_stop (text "a") booted).0 ≡ ok tt
unfolding fake_stop fake_run set_state lookup insert ◌==◌
halts = refl
