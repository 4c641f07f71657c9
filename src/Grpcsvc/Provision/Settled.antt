-- ===== src/Grpcsvc/Provision/Settled.antt =====
-- internal/grpcsvc/create.go, `provision`: the three ways in which a provisioning task ends.
use openshell_driver_appleco.Prelude.{ℕ, true, false, ◌≡◌, ◌⊎◌}
use openshell_driver_appleco.Result.{Result, ok, err}
use openshell_driver_appleco.Text.{Text}
use openshell_driver_appleco.Config.{Config}
use openshell_driver_appleco.Grpcsvc.Conditions.{of_error, backend_ready, provisioning_failed}
use openshell_driver_appleco.Grpcsvc.Errors.{ProvisionError}
use openshell_driver_appleco.Grpcsvc.Proto.{DriverSandbox}
use openshell_driver_appleco.Grpcsvc.Server.{Server, Host}
use openshell_driver_appleco.Grpcsvc.Provision.Spec.{Findings, run_spec}
use openshell_driver_appleco.Grpcsvc.Provision.Spec.Confined.{IsConfined}
use openshell_driver_appleco.Grpcsvc.Provision.Pipeline.{is_aborted}
use openshell_driver_appleco.Grpcsvc.Provision.Outcome.{Prepared}
use openshell_driver_appleco.Grpcsvc.Provision.Finish.{is_cancellation}

module _ {W F : Type 0} (host : Host W F) (cfg : Config) (others : Server W → Server W) where
  -- The VM runs: it was booted with a confined specification, made from what was found out about the
  -- record and the request, and the entry says so.
  pub record Booted (p : ℕ) (sb : DriverSandbox) (token : Text) (s u : Server W) : Type 0 where
    pub findings : Findings
    pub prepared : Prepared host cfg others (s.heap p).rec sb token findings
    pub confined : IsConfined findings (run_spec cfg findings)
    pub ran : (w : W) × (name : Text) × ((host.runtime.run (run_spec cfg findings) w).0 ≡ ok name)
    pub reason : (u.heap p).cond.reason ≡ backend_ready
    pub status : (u.heap p).cond.status ≡ true

  -- The task was canceled: it leaves everything to the deletion that canceled it.
  abbrev pub Abandoned : ℕ → Result ProvisionError Text × Server W → Server W → Type 0
  Abandoned p r u =
      (x : ProvisionError) × (r.0 ≡ err x)
      × ((is_cancellation x ≡ true) ⊎ (is_aborted p r.1 ≡ true))
      × (u ≡ r.1)

  -- The task failed: the entry says with which error.
  abbrev pub Failed : ℕ → Result ProvisionError Text × Server W → Server W → Type 0
  Failed p r u =
      (x : ProvisionError) × (r.0 ≡ err x)
      × (is_aborted p r.1 ≡ false)
      × ((u.heap p).cond.reason ≡ provisioning_failed)
      × ((u.heap p).cond.status ≡ false)
      × ((u.heap p).cond.message ≡ of_error x)
