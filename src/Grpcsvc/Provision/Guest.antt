-- ===== src/Grpcsvc/Provision/Guest.antt =====
-- internal/grpcsvc/create.go and env.go with internal/backend/cli.go: the environment of a sandbox on
-- its way to the container runtime's command line.
use openshell_driver_appleco.Prelude.{
  Bool, true, false, Option, some, if◌then◌else◌, ◌≡◌, ◌≢◌, refl, ◌∙◌, ap, [],
}
use openshell_driver_appleco.Result.{ok}
use openshell_driver_appleco.Text.{Text, text, ◌==◌, has_prefix, contains_code}
use openshell_driver_appleco.Assoc.{lookup, lookup-insert}
use openshell_driver_appleco.Config.{Config}
use openshell_driver_appleco.Backend.{Labels, RunSpec}
use openshell_driver_appleco.Backend.Cli.Args.{run_args}
use openshell_driver_appleco.Backend.Cli.Reader.{read_run, values, read_settings}
use openshell_driver_appleco.Backend.Cli.Reading.{run_args-env}
use openshell_driver_appleco.Grpcsvc.Proto.{DriverSandbox}
use openshell_driver_appleco.Grpcsvc.Env.{env_user_environment, is_owned, MainProcess, sandbox_env}
use openshell_driver_appleco.Grpcsvc.Env.Names.{insert-Plain, sandbox_env-Plain}
use openshell_driver_appleco.Grpcsvc.Env.Owned.{bare, sandbox_env-bare_lem}
use openshell_driver_appleco.Grpcsvc.Provision.Spec.{Findings, run_spec}

-- The value of a variable, as a reader of the arguments of the run takes it.
abbrev pub told : Text → RunSpec → Option Text
told k spec = lookup k (read_settings [] (values (text "--env") (read_run (run_args spec)).flags))

module _ (encode_user : Labels → Option Text) (encode_main : MainProcess → Option Text)
    (cfg : Config) where
  told-run_spec :
      (sb : DriverSandbox) (tok : Bool) (f : Findings) (k : Text)
      → sandbox_env encode_user encode_main cfg sb tok ≡ ok f.env
      → has_prefix f.image (text "-") ≡ false
      → told k (run_spec cfg f)
        ≡ (if text "OPENSHELL_OCI_IMAGE_USER" == k then some f.user else lookup k f.env)
  unfolding run_spec contains_code
  told-run_spec sb tok f k h image =
      run_args-env (run_spec cfg f) k image (
        insert-Plain (text "OPENSHELL_OCI_IMAGE_USER") f.user f.env refl
          (sandbox_env-Plain encode_user encode_main cfg sb tok f.env h))
      ∙ lookup-insert (text "OPENSHELL_OCI_IMAGE_USER") k f.user f.env

  -- The command line that boots a sandbox with the environment of its request, and with an image that
  -- does not start with a dash, is told the image's user, and for every other variable that the driver
  -- owns, but for the one that carries the user's variables in encoded form, what it would be told if
  -- the user's variables were left out: no name or value that the sandbox's author chooses turns into
  -- another setting on the way.
  pub told-Owned :
      (sb : DriverSandbox) (tok : Bool) (f : Findings) (k : Text)
      → is_owned k ≡ true
      → k ≢ env_user_environment
      → sandbox_env encode_user encode_main cfg sb tok ≡ ok f.env
      → has_prefix f.image (text "-") ≡ false
      → (plain : Labels) × (sandbox_env encode_user encode_main cfg (bare sb) tok ≡ ok plain)
        × (told k (run_spec cfg f)
            ≡ (if text "OPENSHELL_OCI_IMAGE_USER" == k then some f.user else lookup k plain))
  told-Owned sb tok f k owned ne h image =
      let (plain, built, same) =
        sandbox_env-bare_lem encode_user encode_main cfg sb tok f.env k owned ne h in
      (
        plain,
        built,
        told-run_spec sb tok f k h image
            ∙ ap
                (λ (o : Option Text).
                  if text "OPENSHELL_OCI_IMAGE_USER" == k then some f.user else o)
                same,
      )
