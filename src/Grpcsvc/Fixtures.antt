-- ===== src/Grpcsvc/Fixtures.antt =====
-- Test data for the modules of internal/grpcsvc: a small host with a list of VMs and a list of saved
-- records, a configuration, and a server that knows one running sandbox.
use openshell_driver_appleco.Prelude.{
  ℕ, Bool, true, false, List, [], ◌∷◌, none, some, map, eqb, if◌then◌else◌,
}
use openshell_driver_appleco.Int.{pos}
use openshell_driver_appleco.Result.{ok, err}
use openshell_driver_appleco.Text.{Text, text}
use openshell_driver_appleco.Assoc.{lookup, insert, erase}
use openshell_driver_appleco.Config.{Config}
use openshell_driver_appleco.Backend.{Runtime, not_found, Container, RunSpec, Outcome}
use openshell_driver_appleco.State.{Record, Store}
use openshell_driver_appleco.Grpcsvc.DriverConfig.{empty_config}
use openshell_driver_appleco.Grpcsvc.Quantity.{Floats}
use openshell_driver_appleco.Grpcsvc.Conditions.{ready_true_condition}
use openshell_driver_appleco.Grpcsvc.Hub.{new_hub}
use openshell_driver_appleco.Grpcsvc.Proto.{DriverSandbox}
use openshell_driver_appleco.Grpcsvc.Server.{Server, Host, Entry}

-- The VMs with whether each runs, and the saved records.
pub record World : Type 0 where
  pub vms : List (Text × Bool)
  pub records : List (Text × Record)

abbrev pub container_of : Text → Bool → Container
container_of name running = record {
  id = name;
  state = if running then text "running" else text "stopped";
  image_ref = text "img";
  image_digest = [];
  labels = [];
  networks = [];
  cpus = pos 2;
  memory_bytes = pos 0;
  created_at = [];
  started_at = [];
}

abbrev pub boot_vm : RunSpec → World → Outcome World Text
boot_vm spec w = (ok spec.name, record w { vms = insert spec.name true w.vms })

abbrev pub delete_vm : Text → World → Outcome World (Unit {0})
delete_vm name w = elim (lookup name w.vms) [
  | none ↦ (err not_found, w)
  | some _ ↦ (ok tt, record w { vms = erase name w.vms })
]

abbrev pub switch_vm : Bool → Text → World → Outcome World (Unit {0})
switch_vm running name w = elim (lookup name w.vms) [
  | none ↦ (err not_found, w)
  | some _ ↦ (ok tt, record w { vms = insert name running w.vms })
]

abbrev pub get_vm : Text → World → Outcome World Container
get_vm name w = elim (lookup name w.vms) [
  | none ↦ (err not_found, w)
  | some running ↦ (ok (container_of name running), w)
]

abbrev pub runtime : Runtime World
runtime = record {
  run = boot_vm;
  delete = delete_vm;
  stop = switch_vm false;
  start = switch_vm true;
  list = λ all w. (ok (map (λ (v : Text × Bool). container_of v.0 v.1) w.vms), w);
  get = get_vm;
  image_list = λ w. (
    ok (record { reference = text "img"; digest = text "sha256:1"; user = text "root" } ∷ []),
    w,
  );
  image_pull = λ image platform w. (ok tt, w);
  create = λ name image w. (ok name, w);
  copy_from = λ name source target w. (ok tt, w);
  networks = λ w. (ok [], w);
  network_create = λ name w. (ok tt, w);
  logs = λ name lines w. (ok (text "last words"), w);
  system_start = λ w. (ok tt, w);
  version = λ w. (ok (text "1.0.0"), w);
}

abbrev pub store : Store World
store = record {
  save = λ rec w. (ok tt, record w { records = insert rec.id rec w.records });
  delete = λ id w. (ok tt, record w { records = erase id w.records });
  list = λ w. (ok (map (λ (r : Text × Record). r.1) w.records, []), w);
}

-- No text is a number here: an empty quantity is accepted before it is parsed.
abbrev pub floats : Floats ℕ
floats = record {
  parse_float = λ s. none;
  of_ℕ = λ n. n;
  times = λ a b. a;
  over = λ a b. a;
  is_negative = λ a. false;
  is_nan = λ a. false;
  is_inf = λ a. false;
  is_zero = λ a. eqb a 0;
  ceil = λ a. pos a;
}

abbrev pub host : Host World ℕ
host = record {
  runtime = runtime;
  store = store;
  floats = floats;
  now = λ w. 7;
  file_exists = λ w path. true;
  eval_symlinks = λ w path. some path;
  ensure = λ image w. (ok (text "/supervisor"), w);
  write_seed = λ dir materials w. (ok tt, w);
  sandbox_dir = λ id. id;
  encode_sandbox = λ sb. some (text "encoded");
  encode_user = λ env. some (text "user");
  encode_main = λ main. some (text "main");
  has_fields = λ s. false;
  decode_config = λ s. some empty_config;
}

abbrev pub cfg : Config
cfg = record {
  socket = text "/run/driver.sock";
  state_dir = text "/state";
  network = text "openshell";
  default_image = text "img";
  supervisor_image = text "sup";
  supervisor_image_explicit = false;
  grpc_endpoint = text "http://gateway";
  guest_tls_ca = [];
  guest_tls_cert = [];
  guest_tls_key = [];
  namespace = text "openshell";
  cpus = pos 2;
  memory_mb = pos 2048;
  kernel = [];
  allow_host_mounts = true;
  host_mount_root = text "/data";
  allowed_networks = [];
  network_policy_file = [];
  log_level = text "info";
}

abbrev pub sandbox : DriverSandbox
sandbox = record {
  id = text "b";
  name = text "beta";
  namespace = [];
  workspace = text "w";
  spec = some (record {
    log_level = [];
    environment = [];
    template = none;
    gpu = false;
    sandbox_token = text "secret";
    command = [];
    tty = false;
  });
}

abbrev pub known_record : Record
known_record = record {
  id = text "a";
  name = text "alpha";
  namespace = text "openshell";
  workspace = text "w";
  container_name = text "oshl-a";
  image_ref = text "img";
  image_digest = [];
  created_at = 3;
  stopped = false;
  sandbox = [];
}

abbrev pub known_entry : Entry
known_entry = record {
  rec = known_record;
  cond = ready_true_condition 5;
  deleting = false;
  busy = false;
  cancel = none;
  done = none;
}

-- The sandbox "a" runs; nobody watches.
abbrev pub server : Server World
server = record {
  world = record { vms = (text "oshl-a", true) ∷ []; records = (text "a", known_record) ∷ [] };
  heap = λ p. known_entry;
  next_address = 1;
  sandboxes = (text "a", 0) ∷ [];
  hub = new_hub;
  tasks = [];
}

-- The same, with the VM and the record gone.
abbrev pub lost_server : Server World
lost_server = record server { world = record { vms = []; records = [] } }
