-- ===== src/Grpcsvc/Provision/Tests.antt =====
-- The theorems on the provisioning task at a concrete host.
use openshell_driver_appleco.Prelude.{false, [], ◌∷◌, none, some, ◌≡◌, refl, arith, if◌then◌else◌}
use openshell_driver_appleco.Result.{Result, ok, err}
use openshell_driver_appleco.Assoc.{lookup, insert}
use openshell_driver_appleco.Backend.{Labels}
use openshell_driver_appleco.Grpcsvc.Proto.{DriverSandbox}
use openshell_driver_appleco.Int.{pos}
use openshell_driver_appleco.Text.{text, ◌==◌, has_prefix, trim_space, contains_any, contains_code}
use openshell_driver_appleco.Grpcsvc.DriverConfig.{empty_config}
use openshell_driver_appleco.Grpcsvc.Fixtures.{World, host, cfg, sandbox, known_record}
use openshell_driver_appleco.Grpcsvc.Server.{Server}
use openshell_driver_appleco.Grpcsvc.Env.{
  EnvError, sandbox_env, kept_user, driver_env, user_env, overlay, main_process_from_spec, is_owned,
}
use openshell_driver_appleco.Grpcsvc.Env.Owned.{bare}
use openshell_driver_appleco.Grpcsvc.Provision.Guest.{told, told-Owned}
use openshell_driver_appleco.Grpcsvc.Provision.Spec.{Findings, run_spec, ref_with_digest}
use openshell_driver_appleco.Grpcsvc.Provision.Spec.Confined.{IsConfined, run_spec-IsConfined}

abbrev still : Server World → Server World
still s = s

ref_with_digest_test :
    ref_with_digest (text "reg:5/a:1") (text "sha256:1") ≡ text "reg:5/a@sha256:1"
unfolding ref_with_digest contains_code
ref_with_digest_test = refl

abbrev findings : Findings
findings = record {
  rec = known_record;
  image = text "img@sha256:1";
  user = text "root";
  seed_dir = text "/state/a/seed";
  env = (text "A", text "1") ∷ [];
  template_labels = (text "openshell.ai/sandbox-id", text "z") ∷ [];
  cpus = pos 0;
  memory_mb = pos 0;
  driver_config = empty_config;
}

run_spec-IsConfined_example : IsConfined findings (run_spec cfg findings)
run_spec-IsConfined_example = run_spec-IsConfined cfg findings

-- A request that sets two of the driver's variables, one of them in disguise.
abbrev asking : DriverSandbox
asking = record sandbox {
  spec = some (record {
    log_level = [];
    environment =
        (text "OPENSHELL_SANDBOX_ID", text "z") ∷ (text "A", text "OPENSHELL_SANDBOX_ID=z") ∷ [];
    template = none;
    gpu = false;
    sandbox_token = [];
    command = [];
    tty = false;
  });
}

abbrev env_of : Result EnvError Labels → Labels
env_of (ok env) = env
env_of (err _) = []

abbrev asked_env : Labels
asked_env = env_of (sandbox_env host.encode_user host.encode_main cfg asking false)

abbrev asked : Findings
asked = record findings { env = asked_env }

told-Owned_example :
    (plain : Labels) × (sandbox_env host.encode_user host.encode_main cfg (bare asking) false
      ≡ ok plain)
    × (told (text "OPENSHELL_SANDBOX_ID") (run_spec cfg asked) ≡ (
        if text "OPENSHELL_OCI_IMAGE_USER" == text "OPENSHELL_SANDBOX_ID"
        then some asked.user
        else lookup (text "OPENSHELL_SANDBOX_ID") plain))
unfolding sandbox_env kept_user driver_env user_env overlay main_process_from_spec is_owned
    has_prefix insert trim_space contains_any contains_code ◌==◌
told-Owned_example =
    told-Owned host.encode_user host.encode_main cfg asking false asked
      (text "OPENSHELL_SANDBOX_ID") refl (λ e. ground (arith, e)) refl refl
