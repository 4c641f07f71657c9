-- ===== src/Backend/Cli/Tests.antt =====
-- The command line at concrete inputs.
use openshell_driver_appleco.Prelude.{true, false, [], ◌∷◌, none, some, ◌≡◌, refl}
use openshell_driver_appleco.Int.{pos}
use openshell_driver_appleco.Result.{ok}
use openshell_driver_appleco.Text.{text, ◌==◌, has_prefix, contains_code, split}
use openshell_driver_appleco.Text.Search.{fields, trim}
use openshell_driver_appleco.Assoc.{lookup}
use openshell_driver_appleco.Compat.{read_number}
use openshell_driver_appleco.Backend.{RunSpec, label}
use openshell_driver_appleco.Backend.Cli.Args.{run_args, keys}
use openshell_driver_appleco.Backend.Cli.Decode.{LsEntry, parse_version_output}
use openshell_driver_appleco.Backend.Cli.Reader.{read_run}
use openshell_driver_appleco.Backend.Cli.Reading.{IsReadBack, run_args-IsReadBack}
use openshell_driver_appleco.Backend.Cli.Commands.{Cli, succeeded}

abbrev spec : RunSpec
spec = record {
  name = text "oshl-a";
  image = text "img@sha256:1";
  network = text "oshl";
  volumes =
      record { host_path = text "/s/seed"; guest_path = text "/openshell-seed"; read_only = true }
      ∷ record { host_path = text "/data"; guest_path = text "/work"; read_only = false }
      ∷ [];
  tmpfs = text "/tmp" ∷ [];
  env = (text "B", text "--name") ∷ (text "A", text "x=y") ∷ [];
  labels = (text "l", []) ∷ [];
  cpus = pos 2;
  memory_mb = pos 2048;
  entrypoint = text "/boot.sh";
  args = text "--detach" ∷ [];
  kernel = [];
  uid = some (pos 0);
  gid = none;
  cap_add = text "CAP_SYSLOG" ∷ [];
}

run_args_test :
    run_args (record spec { volumes = []; tmpfs = []; cap_add = []; labels = [] })
    ≡ text "run"
      ∷ text "--detach"
      ∷ text "--name"
      ∷ text "oshl-a"
      ∷ text "--network"
      ∷ text "oshl"
      ∷ text "--env"
      ∷ text "A=x=y"
      ∷ text "--env"
      ∷ text "B=--name"
      ∷ text "--cpus"
      ∷ text "2"
      ∷ text "--memory"
      ∷ text "2048M"
      ∷ text "--uid"
      ∷ text "0"
      ∷ text "--entrypoint"
      ∷ text "/boot.sh"
      ∷ text "img@sha256:1"
      ∷ text "--detach"
      ∷ []
unfolding run_args ◌==◌ label lookup
run_args_test = refl

parse_version_output_test :
    parse_version_output (text "container CLI version 1.3.0 (build: release)") ≡ text "1.3.0"
unfolding parse_version_output fields trim split read_number
parse_version_output_test = refl

run_args-IsReadBack_example : IsReadBack spec (read_run (run_args spec))
unfolding has_prefix contains_code keys
run_args-IsReadBack_example =
    run_args-IsReadBack spec refl (refl, (refl, tt)) (refl, tt) ((refl, refl), ((refl, refl), tt))

abbrev entry : LsEntry
entry = record {
  id = text "oshl-a";
  status = record { state = text "running"; started = []; networks = [] };
  configuration = record {
    creation_date = [];
    image_reference = text "img";
    image_digest = [];
    labels = [];
    cpus = pos 2;
    memory_in_bytes = pos 0;
  };
}

-- A host on which every command succeeds and one container is listed.
abbrev cli : Cli (Unit {0})
cli = record {
  bin = text "container";
  runner = λ bin args w. (record { stdout = []; stderr = []; ending = succeeded }, w);
  decode_containers = λ out. ok (entry ∷ []);
  decode_images = λ out. ok [];
  decode_networks = λ out. ok [];
}
