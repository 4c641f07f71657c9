-- ===== src/Hostsetup/Status/Exit.antt =====
-- cmd/openshell-driver-applecontainer/status.go: the exit status of the command that prints the report.
use openshell_driver_appleco.Prelude.{
  ℕ, Bool, true, false, [], Option, none, some, ◌≡◌, ◌↔◌, refl, arith, ap, ◌∙◌,
}
use openshell_driver_appleco.Result.{Result, ok, err}
use openshell_driver_appleco.Text.{Text}
use openshell_driver_appleco.Config.{Config}
use openshell_driver_appleco.Config.Parse.{
  Surroundings, ParseError, parse_config, resolve_supervisor_image,
}
use openshell_driver_appleco.Hostsetup.Status.{StatusOptions, HostView}
use openshell_driver_appleco.Hostsetup.Status.Report.{status, status_exit}
use openshell_driver_appleco.Hostsetup.Status.Health.{IsHealthy, status_iff}

module _ (sources : Surroundings) (version : Text) where
  -- From the defaults of the driver's own configuration.
  unfoldable pub status_options : Config → StatusOptions
  unfolding resolve_supervisor_image
  status_options defaults =
      let cfg = resolve_supervisor_image sources defaults in
      record {
        network = cfg.network;
        socket = cfg.socket;
        tls_dir = [];
        supervisor_image = cfg.supervisor_image;
        driver_version = version;
      }

  -- Behind the command's own flags: the defaults, and what the host answers unless the home directory or
  -- the binary's path is unknown.
  unfoldable pub report_exit : Result ParseError Config → Option HostView → ℕ
  unfolding status_options status status_exit
  report_exit (err _) host = 1
  report_exit (ok defaults) none = 1
  report_exit (ok defaults) (some host) = status_exit (status host (status_options defaults))

  -- `runStatus`; the first argument says whether its flags parse.
  unfoldable pub run_status : Bool → Option HostView → ℕ
  unfolding report_exit parse_config
  run_status false host = 2
  run_status true host = report_exit (parse_config sources []) host

  -- What the report is about.
  pub record Reports (parsed : Result ParseError Config) (found : Option HostView) : Type 0 where
    pub defaults : Config
    pub is_parsed : parsed ≡ ok defaults
    pub host : HostView
    pub is_found : found ≡ some host
    pub healthy : IsHealthy host (status_options defaults)

  report_exit_iff :
      (parsed : Result ParseError Config) (found : Option HostView)
      → (report_exit parsed found ≡ 0) ↔ Reports parsed found
  unfolding report_exit
  report_exit_iff (err x) found =
      (λ h. absurd (ground (arith, h)), λ r. absurd (ground (arith, r.is_parsed)))
  report_exit_iff (ok defaults) none =
      (λ h. absurd (ground (arith, h)), λ r. absurd (ground (arith, r.is_found)))
  report_exit_iff (ok defaults) (some host) = (
    λ h. record {
      defaults = defaults;
      is_parsed = refl;
      host = host;
      is_found = refl;
      healthy = (status_iff host (status_options defaults)).0 h;
    },
    λ r.
        ap (λ z. report_exit z (some host)) r.is_parsed
        ∙ ap (report_exit (ok r.defaults)) r.is_found
        ∙ (status_iff r.host (status_options r.defaults)).1 r.healthy,
  )

  -- The status command exits with 0 exactly if its flags parse, the driver's configuration can be read
  -- from the environment, the home directory and the binary's path are known, and everything that a
  -- sandbox needs is in place: the runtime is installed, runs, is not older than the oldest supported
  -- release and has a kernel; the network has an address, if the networks can be listed; the gateway is
  -- installed, is not too old, and listens or is not Homebrew's to start; its environment file has the
  -- managed block and selects the driver; its certificate can be read and names the address, if that is
  -- known; the driver's service is installed, loaded and has a process; and the driver answers. So a
  -- warning in the report alone does not make it fail.
  pub run_status_iff :
      (parses : Bool) (found : Option HostView)
      → (run_status parses found ≡ 0) ↔ ((parses ≡ true) × Reports (parse_config sources []) found)
  unfolding run_status
  run_status_iff false found =
      (λ h. absurd (ground (arith, h)), λ (e, r). absurd (ground (arith, e)))
  run_status_iff true found = (
    λ h. (refl, (report_exit_iff (parse_config sources []) found).0 h),
    λ (e, r). (report_exit_iff (parse_config sources []) found).1 r,
  )
