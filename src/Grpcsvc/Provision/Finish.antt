-- ===== src/Grpcsvc/Provision/Finish.antt =====
-- internal/grpcsvc/create.go, `provision` and the goroutine that CreateSandbox starts: what becomes of
-- the result of the boot pipeline.
use openshell_driver_appleco.Prelude.{
  ℕ, Bool, true, false, ◌||◌, List, [], ◌∷◌, some, eqb, if◌then◌else◌,
}
use openshell_driver_appleco.Result.{Result, ok, err}
use openshell_driver_appleco.Text.{Text, text}
use openshell_driver_appleco.Config.{Config}
use openshell_driver_appleco.Backend.{is_canceled}
use openshell_driver_appleco.Grpcsvc.Conditions.{
  literal, of_error, ready_true_condition, failed_condition,
}
use openshell_driver_appleco.Grpcsvc.Proto.{DriverSandbox}
use openshell_driver_appleco.Grpcsvc.Errors.{
  ProvisionError, bad_config, list_images, pull_image, clear_stale, boot, not_present_after_pull,
  persist_digest, supervisor_unusable, policy_file_unusable, kernel_unusable, seed_failed,
  bad_environment, unsized, context_canceled,
}
use openshell_driver_appleco.Grpcsvc.Server.{
  Server, Host, Task, write, set_condition, publish_sandbox, publish_platform_event, normal,
  warning,
}
use openshell_driver_appleco.Grpcsvc.Provision.Pipeline.{is_aborted, provision_inner}

-- `errors.Is(err, context.Canceled)`
unfoldable pub is_cancellation : ProvisionError → Bool
is_cancellation context_canceled = true
is_cancellation (list_images x) = is_canceled x
is_cancellation (pull_image x) = is_canceled x
is_cancellation (clear_stale x) = is_canceled x
is_cancellation (boot x) = is_canceled x
is_cancellation (supervisor_unusable x) = is_canceled x
is_cancellation (seed_failed x) = is_canceled x
is_cancellation (bad_config _) = false
is_cancellation (not_present_after_pull _) = false
is_cancellation (persist_digest _) = false
is_cancellation (policy_file_unusable _) = false
is_cancellation (kernel_unusable _) = false
is_cancellation (bad_environment _) = false
is_cancellation (unsized _) = false

unfoldable pub drop_task : ℕ → List Task → List Task
drop_task p [] = []
drop_task p (t ∷ ts) = let rest = drop_task p ts in if eqb t.entry p then rest else t ∷ rest

-- `close(e.done)`, and the goroutine ends.
unfoldable pub finish_task : {W : Type 0} → ℕ → Server W → Server W
unfolding drop_task
finish_task p s =
    let closed = write p (record (s.heap p) { done = some true }) s in
    record closed { tasks = drop_task p s.tasks }

module _ {W F : Type 0} (host : Host W F) (cfg : Config) (others : Server W → Server W) where
  open host use {now}

  unfoldable pub settle_ready : ℕ → Server W → Server W
  settle_ready p s =
      let seen = publish_sandbox cfg p (set_condition p (ready_true_condition (now s.world)) s) in
      publish_platform_event cfg now (seen.heap p).rec.id normal (text "Started")
        (literal (text "Sandbox VM started")) seen

  unfoldable pub settle_failed : ℕ → ProvisionError → Server W → Server W
  settle_failed p x s =
      let seen =
        publish_sandbox cfg p (set_condition p (failed_condition (of_error x) (now s.world)) s) in
      publish_platform_event cfg now (seen.heap p).rec.id warning (text "ProvisioningFailed")
        (of_error x) seen

  unfoldable pub settle_task : ℕ → Result ProvisionError Text × Server W → Server W
  unfolding settle_ready settle_failed
  settle_task p (ok name, s) = settle_ready p (others s)
  settle_task p (err x, s) =
      if is_cancellation x || is_aborted p s then s else settle_failed p x (others s)

  unfoldable pub provision : ℕ → DriverSandbox → Text → Server W → Server W
  unfolding settle_task
  provision p sb token s = settle_task p (provision_inner host cfg others p sb token s)

  -- The whole goroutine.
  unfoldable pub run_task : Task → Server W → Server W
  unfolding provision finish_task
  run_task t s = finish_task t.entry (others (provision t.entry t.sandbox t.token s))
