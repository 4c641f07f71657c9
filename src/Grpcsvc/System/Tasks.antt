-- ===== src/Grpcsvc/System/Tasks.antt =====
-- internal/grpcsvc/create.go: a provisioning task is a sequence of the system's steps, whatever steps the
-- others take in between.
use openshell_driver_appleco.Prelude.{ℕ, [], Option, none, some, inl, inr, ◌||◌, Bool-cases}
use openshell_driver_appleco.Result.{Result, ok, err}
use openshell_driver_appleco.Text.{Text, text, ◌==◌}
use openshell_driver_appleco.Config.{Config, pinned_supervisor_image}
use openshell_driver_appleco.Backend.{Image}
use openshell_driver_appleco.State.{Record}
use openshell_driver_appleco.Grpcsvc.Proto.{DriverSandbox}
use openshell_driver_appleco.Grpcsvc.Errors.{
  ProvisionError, list_images, pull_image, clear_stale, boot, persist_digest, supervisor_unusable,
  seed_failed, bad_config, bad_environment, unsized, policy_file_unusable, kernel_unusable,
}
use openshell_driver_appleco.Grpcsvc.Server.{
  Server, Host, Task, set_condition, publish_sandbox, publish_platform_event,
}
use openshell_driver_appleco.Grpcsvc.Delete.{deleted_vm}
use openshell_driver_appleco.Grpcsvc.Provision.Action.{
  Action, ◌>>=◌, ◌>>◌, next, answer, call, check, pure,
}
use openshell_driver_appleco.Grpcsvc.Provision.Spec.{Findings, run_spec}
use openshell_driver_appleco.Grpcsvc.Provision.Pipeline.{
  announce, find_image, pull, or_pull, obtain_image, set_digest, pin, or_pinned, obtain_supervisor,
  must_exist, prepare, not_aborted, run_vm, provision_inner, must_be_present, is_aborted,
}
use openshell_driver_appleco.Grpcsvc.Provision.Finish.{
  settle_task, settle_ready, settle_failed, provision, run_task, is_cancellation,
}
use openshell_driver_appleco.Grpcsvc.System.{
  Run, Run-trans, Run-move, Run-then, sets, pins, finishes, hears, waits, here,
}

module _ {W F : Type 0} (host : Host W F) (cfg : Config) (others : Server W → Server W)
    (yields : (s : Server W) → Run host cfg s (others s)) where
  -- The action is a sequence of steps, however it ends.
  record IsRun {A : Type 0} (m : Action W A) : Type 0 where
    steps : (s : Server W) → Run host cfg s (m s).1

  next-Run :
      {A B : Type 0} (f : A → Action W B) (s : Server W) (r : Result ProvisionError A × Server W)
      → ((a : A) → IsRun (f a))
      → Run host cfg s r.1
      → Run host cfg s (next f r).1
  unfolding next
  next-Run f s (ok a, t) k r = Run-trans host cfg r ((k a).steps t)
  next-Run f s (err x, t) k r = r

  bind-IsRun :
      {A B : Type 0} {m : Action W A} {f : A → Action W B}
      → IsRun m
      → ((a : A) → IsRun (f a))
      → IsRun (m >>= f)
  unfolding ◌>>=◌
  bind-IsRun {A} {B} {m} {f} h k = record { steps = λ s. next-Run f s (m s) k (h.steps s) }

  seq-IsRun :
      {B : Type 0} {m : Action W (Unit {0})} {k : Action W B} → IsRun m → IsRun k → IsRun (m >> k)
  unfolding ◌>>◌
  seq-IsRun {B} {m} {k} h g = record { steps = λ s. next-Run (λ _. k) s (m s) (λ _. g) (h.steps s) }

  answer-Run :
      {E A : Type 0} (f : E → ProvisionError) (t : Server W) (r : Result E A × W)
      → Run host cfg t (answer f t r).1
  answer-Run f t (ok a, w) = Run-move host cfg (waits w t)
  answer-Run f t (err x, w) = Run-move host cfg (waits w t)

  call-IsRun :
      {E A : Type 0} (f : E → ProvisionError) (op : W → Result E A × W) → IsRun (call others f op)
  call-IsRun f op = record {
    steps = λ s. Run-trans host cfg (yields s) (answer-Run f (others s) (op (others s).world));
  }

  check-Run :
      {E A : Type 0} (f : E → ProvisionError) (r : Result E A) (s : Server W)
      → Run host cfg s (check {W = W} f r s).1
  check-Run f (ok a) s = here
  check-Run f (err x) s = here

  check-IsRun : {E A : Type 0} (f : E → ProvisionError) (r : Result E A) → IsRun (check f r)
  check-IsRun f r = record { steps = check-Run f r }

  pure-IsRun : {A : Type 0} (a : A) → IsRun (pure a)
  pure-IsRun a = record { steps = λ s. here }

  announce-IsRun : (id reason message : Text) → IsRun (announce host cfg others id reason message)
  unfolding announce publish_platform_event
  announce-IsRun id reason message = record {
    steps = λ s. Run-trans host cfg (yields s) (Run-move host cfg (hears _ (others s)));
  }

  find_image-IsRun : (ref : Text) → IsRun (find_image host cfg others ref)
  unfolding find_image
  find_image-IsRun ref =
      bind-IsRun (call-IsRun list_images host.runtime.image_list) (λ images. pure-IsRun _)

  must_be_present-IsRun : (ref : Text) (found : Option Image) → IsRun (must_be_present ref found)
  unfolding must_be_present
  must_be_present-IsRun ref none = record { steps = λ s. here }
  must_be_present-IsRun ref (some img) = record { steps = λ s. here }

  pull-IsRun : (rec : Record) → IsRun (pull host cfg others rec)
  unfolding pull
  pull-IsRun rec = seq-IsRun (announce-IsRun _ _ _) (
      seq-IsRun (call-IsRun pull_image (host.runtime.image_pull rec.image_ref (text "linux/arm64")))
        (seq-IsRun (announce-IsRun _ _ _)
          (bind-IsRun (find_image-IsRun rec.image_ref) (must_be_present-IsRun rec.image_ref))))

  or_pull-IsRun : (rec : Record) (found : Option Image) → IsRun (or_pull host cfg others rec found)
  unfolding or_pull
  or_pull-IsRun rec none = pull-IsRun rec
  or_pull-IsRun rec (some img) = record { steps = λ s. here }

  obtain_image-IsRun : (rec : Record) → IsRun (obtain_image host cfg others rec)
  unfolding obtain_image
  obtain_image-IsRun rec = bind-IsRun (find_image-IsRun rec.image_ref) (or_pull-IsRun rec)

  set_digest-IsRun : (p : ℕ) (digest : Text) → IsRun (set_digest host cfg others p digest)
  unfolding set_digest
  set_digest-IsRun p digest = record {
    steps = λ s. Run-trans host cfg (yields s) (Run-move host cfg (pins p digest (others s)));
  }

  pin-IsRun : (p : ℕ) (rec : Record) (img : Image) → IsRun (pin host cfg others p rec img)
  unfolding pin
  pin-IsRun p rec img = elim (Bool-cases (img.digest == [])) [
    | inl b ↦ rw b (pure-IsRun _)
    | inr b ↦ rw b (
        bind-IsRun (set_digest-IsRun p img.digest)
          (λ pinned. seq-IsRun (call-IsRun persist_digest (host.store.save pinned)) (pure-IsRun _)))
  ]

  or_pinned-Run :
      (s : Server W) (r : Result ProvisionError Text × Server W)
      → Run host cfg s r.1
      → Run host cfg s (or_pinned host cfg others r).1
  unfolding or_pinned
  or_pinned-Run s (ok path, t) h = h
  or_pinned-Run s (err x, t) h =
      elim (Bool-cases
        (cfg.supervisor_image_explicit || pinned_supervisor_image == cfg.supervisor_image)) [
          | inl b ↦ rw b h
          | inr b ↦ rw b (
              Run-trans host cfg h
                ((call-IsRun supervisor_unusable (host.ensure pinned_supervisor_image)).steps t))
        ]

  obtain_supervisor-IsRun : IsRun (obtain_supervisor host cfg others)
  unfolding obtain_supervisor
  obtain_supervisor-IsRun = record {
    steps = λ s.
        or_pinned-Run s _
          ((call-IsRun supervisor_unusable (host.ensure cfg.supervisor_image)).steps s);
  }

  must_exist-IsRun :
      (x : Text → ProvisionError) (path : Text) → IsRun (must_exist host cfg others x path)
  unfolding must_exist
  must_exist-IsRun x path = record {
    steps = λ s. elim (Bool-cases (path == [] || host.file_exists (others s).world path)) [
      | inl b ↦ rw b (yields s)
      | inr b ↦ rw b (yields s)
    ];
  }

  not_aborted-IsRun : (p : ℕ) → IsRun (not_aborted host cfg others p)
  unfolding not_aborted
  not_aborted-IsRun p = record {
    steps = λ s. elim (Bool-cases (is_aborted p (others s))) [
      | inl b ↦ rw b (yields s)
      | inr b ↦ rw b (yields s)
    ];
  }

  run_vm-IsRun : (p : ℕ) (f : Findings) → IsRun (run_vm host cfg others p f)
  unfolding run_vm
  run_vm-IsRun p f =
      bind-IsRun
        (call-IsRun clear_stale
          (λ w. let (r, w') = host.runtime.delete f.rec.container_name w in (deleted_vm r, w')))
        (λ cleared.
          seq-IsRun (not_aborted-IsRun p) (call-IsRun boot (host.runtime.run (run_spec cfg f))))

  prepare-IsRun :
      (p : ℕ) (sb : DriverSandbox) (token : Text) → IsRun (prepare host cfg others p sb token)
  unfolding prepare
  prepare-IsRun p sb token = record {
    steps = λ s.
        (bind-IsRun (check-IsRun bad_config _) (λ dcfg.
            bind-IsRun (obtain_image-IsRun (s.heap p).rec) (λ img.
              bind-IsRun (pin-IsRun p (s.heap p).rec img) (λ pinned.
                bind-IsRun obtain_supervisor-IsRun (λ supervisor.
                  seq-IsRun (must_exist-IsRun policy_file_unusable _) (
                    seq-IsRun (call-IsRun seed_failed (host.write_seed _ _)) (
                      bind-IsRun (check-IsRun bad_environment _) (λ env.
                        bind-IsRun (check-IsRun unsized _) (λ cpus.
                          bind-IsRun (check-IsRun unsized _) (λ memory.
                            seq-IsRun (must_exist-IsRun kernel_unusable _)
                              (pure-IsRun _))))))))))).steps
          s;
  }

  settle_ready-Run : (p : ℕ) (s : Server W) → Run host cfg s (settle_ready host cfg others p s)
  unfolding settle_ready set_condition publish_sandbox publish_platform_event
  settle_ready-Run p s = Run-then host cfg (Run-move host cfg (sets p _ s)) (hears _ _)

  settle_failed-Run :
      (p : ℕ) (x : ProvisionError) (s : Server W)
      → Run host cfg s (settle_failed host cfg others p x s)
  unfolding settle_failed set_condition publish_sandbox publish_platform_event
  settle_failed-Run p x s = Run-then host cfg (Run-move host cfg (sets p _ s)) (hears _ _)

  settle_task-Run :
      (p : ℕ) (s : Server W) (r : Result ProvisionError Text × Server W)
      → Run host cfg s r.1
      → Run host cfg s (settle_task host cfg others p r)
  unfolding settle_task
  settle_task-Run p s (ok name, t) h =
      Run-trans host cfg h (Run-trans host cfg (yields t) (settle_ready-Run p (others t)))
  settle_task-Run p s (err x, t) h = elim (Bool-cases (is_cancellation x || is_aborted p t)) [
    | inl b ↦ rw b h
    | inr b ↦
        rw b
          (Run-trans host cfg h (Run-trans host cfg (yields t) (settle_failed-Run p x (others t))))
  ]

  -- A provisioning task, from its start to the end of its goroutine, is a sequence of the system's
  -- steps, if what the others do between its own is.
  pub run_task-Run : (t : Task) (s : Server W) → Run host cfg s (run_task host cfg others t s)
  unfolding run_task provision provision_inner
  run_task-Run t s =
      let booted = provision_inner host cfg others t.entry t.sandbox t.token s in
      let settled = settle_task host cfg others t.entry booted in
      Run-trans host cfg
        (settle_task-Run t.entry s booted
          ((bind-IsRun (prepare-IsRun t.entry t.sandbox t.token) (run_vm-IsRun t.entry)).steps s))
        (Run-trans host cfg (yields settled)
          (Run-move host cfg (finishes t.entry (others settled))))
