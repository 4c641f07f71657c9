-- ===== src/Grpcsvc/Provision/Pipeline.antt =====
-- internal/grpcsvc/create.go, `provisionInner`: from an accepted request to a running VM.
use openshell_driver_appleco.Prelude.{
  ℕ, Bool, false, not, ◌||◌, List, [], ◌∷◌, ◌++◌, Option, none, some, if◌then◌else◌,
}
use openshell_driver_appleco.Result.{Result, ok, err}
use openshell_driver_appleco.Text.{Text, text, ◌==◌}
use openshell_driver_appleco.Config.{Config, pinned_supervisor_image}
use openshell_driver_appleco.Backend.{Image}
use openshell_driver_appleco.State.{Record}
use openshell_driver_appleco.Grpcsvc.DriverConfig.{parse_driver_config}
use openshell_driver_appleco.Grpcsvc.Quantity.{
  parse_cpu_quantity, parse_memory_quantity_mb, first_quantity,
}
use openshell_driver_appleco.Grpcsvc.Conditions.{literal}
use openshell_driver_appleco.Grpcsvc.Env.{sandbox_env}
use openshell_driver_appleco.Grpcsvc.Proto.{
  DriverSandbox, read, get_template, get_driver_config, get_resources,
}
use openshell_driver_appleco.Grpcsvc.Errors.{
  ProvisionError, bad_config, list_images, pull_image, clear_stale, boot, not_present_after_pull,
  persist_digest, supervisor_unusable, policy_file_unusable, kernel_unusable, seed_failed,
  bad_environment, unsized, context_canceled,
}
use openshell_driver_appleco.Grpcsvc.Server.{Server, Host, write, publish_platform_event, normal}
use openshell_driver_appleco.Grpcsvc.Delete.{deleted_vm}
use openshell_driver_appleco.Grpcsvc.Provision.Action.{
  Action, ◌>>=◌, ◌>>◌, pure, stop, check, perform, call,
}
use openshell_driver_appleco.Grpcsvc.Provision.Spec.{Findings, ref_with_digest, run_spec, kernel_of}

-- The first image with that reference.
unfoldable pub with_reference : Text → List Image → Option Image
with_reference ref [] = none
with_reference ref (img ∷ images) =
    let later = with_reference ref images in if img.reference == ref then some img else later

-- The task's context has been canceled.
unfoldable pub is_aborted : {W : Type 0} → ℕ → Server W → Bool
is_aborted p s = elim (s.heap p).cancel [ none ↦ false | some aborted ↦ aborted ]

unfoldable pub must_be_present : {W : Type 0} → Text → Option Image → Action W Image
must_be_present ref none = stop (not_present_after_pull ref)
must_be_present ref (some img) = pure img

module _ {W F : Type 0} (host : Host W F) (cfg : Config) (others : Server W → Server W) where
  open host use {
    runtime, store, floats, now, file_exists, ensure, write_seed, sandbox_dir, encode_user,
    encode_main, has_fields, decode_config,
  }

  -- An event, behind whatever the others did.
  unfoldable pub announce : Text → Text → Text → Action W (Unit {0})
  announce id reason message =
      perform (λ s. publish_platform_event cfg now id normal reason (literal message) (others s))

  unfoldable pub find_image : Text → Action W (Option Image)
  unfolding with_reference
  find_image ref = do
    images ← call others list_images runtime.image_list
    pure (with_reference ref images)

  unfoldable pub pull : Record → Action W Image
  unfolding announce find_image must_be_present
  pull rec = do
    announce rec.id (text "Pulling") (text "Pulling image " ++ rec.image_ref)
    call others pull_image (runtime.image_pull rec.image_ref (text "linux/arm64"))
    announce rec.id (text "Pulled") (text "Pulled image " ++ rec.image_ref)
    found ← find_image rec.image_ref
    must_be_present rec.image_ref found

  unfoldable pub or_pull : Record → Option Image → Action W Image
  unfolding pull
  or_pull rec none = pull rec
  or_pull rec (some img) = pure img

  -- The local image, or the one that a pull brings.
  unfoldable pub obtain_image : Record → Action W Image
  unfolding or_pull find_image
  obtain_image rec = do found ← find_image rec.image_ref; or_pull rec found

  -- Under the lock: the digest goes on the entry, whose record is read again.
  unfoldable pub set_digest : ℕ → Text → Action W Record
  set_digest p digest s =
      let t = others s in
      let e = t.heap p in
      let rec = record e.rec { image_digest = digest } in
      (ok rec, write p (record e { rec = rec }) t)

  -- The reference to boot, and the record.
  unfoldable pub pin : ℕ → Record → Image → Action W (Text × Record)
  unfolding set_digest
  pin p rec img = if img.digest == [] then pure (rec.image_ref, rec) else (do
    pinned ← set_digest p img.digest
    call others persist_digest (store.save pinned)
    pure (ref_with_digest rec.image_ref img.digest, pinned))

  -- The pinned release in place of a supervisor image that is unusable, unless that image is the
  -- operator's choice or the pinned one already.
  unfoldable pub or_pinned :
      Result ProvisionError Text × Server W → Result ProvisionError Text × Server W
  or_pinned (ok path, s) = (ok path, s)
  or_pinned (err x, s) =
      if cfg.supervisor_image_explicit || pinned_supervisor_image == cfg.supervisor_image
      then (err x, s)
      else call others supervisor_unusable (ensure pinned_supervisor_image) s

  unfoldable pub obtain_supervisor : Action W Text
  unfolding or_pinned
  obtain_supervisor s = or_pinned (call others supervisor_unusable (ensure cfg.supervisor_image) s)

  -- A configured file has to be there.
  unfoldable pub must_exist : (Text → ProvisionError) → Text → Action W (Unit {0})
  must_exist x path s =
      let t = others s in
      if path == [] || file_exists t.world path then (ok tt, t) else (err (x path), t)

  unfoldable pub seed_dir_of : Record → Text
  seed_dir_of rec = sandbox_dir rec.id ++ text "/seed"

  -- Everything before the run: what the VM is to be booted with.
  unfoldable pub prepare : ℕ → DriverSandbox → Text → Action W Findings
  unfolding obtain_image pin obtain_supervisor must_exist seed_dir_of
  prepare p sb token s =
      let rec = (s.heap p).rec in
      let template = get_template sb.spec in
      let res = get_resources template in
      (do
        dcfg ←
            check bad_config
              (parse_driver_config has_fields decode_config (get_driver_config template))
        img ← obtain_image rec
        pinned ← pin p rec img
        supervisor ← obtain_supervisor
        must_exist policy_file_unusable cfg.network_policy_file
        call others seed_failed (
            write_seed (seed_dir_of pinned.1) (record {
              supervisor_path = supervisor;
              ca_path = cfg.guest_tls_ca;
              cert_path = cfg.guest_tls_cert;
              key_path = cfg.guest_tls_key;
              token = token;
              policy_overlay_path = cfg.network_policy_file;
            }))
        env ← check bad_environment (sandbox_env encode_user encode_main cfg sb (not (token == [])))
        cpus ← check unsized (
            first_quantity (parse_cpu_quantity floats)
              (read [] (λ r. r.cpu_limit) res ∷ read [] (λ r. r.cpu_request) res ∷ []))
        memory ← check unsized (
            first_quantity (parse_memory_quantity_mb floats)
              (read [] (λ r. r.memory_limit) res ∷ read [] (λ r. r.memory_request) res ∷ []))
        must_exist kernel_unusable (kernel_of cfg dcfg)
        pure (record {
          rec = pinned.1;
          image = pinned.0;
          user = img.user;
          seed_dir = seed_dir_of pinned.1;
          env = env;
          template_labels = read [] (λ t. t.labels) template;
          cpus = cpus;
          memory_mb = memory;
          driver_config = dcfg;
        }))
        s

  -- `ctx.Err()`
  unfoldable pub not_aborted : ℕ → Action W (Unit {0})
  not_aborted p s =
      let t = others s in if is_aborted p t then (err context_canceled, t) else (ok tt, t)

  -- A leftover VM of that name is cleared, and the VM is run.
  unfoldable pub run_vm : ℕ → Findings → Action W Text
  unfolding not_aborted
  run_vm p f = do
    cleared ←
        call others clear_stale
          (λ w. let (r, w') = runtime.delete f.rec.container_name w in (deleted_vm r, w'))
    not_aborted p
    call others boot (runtime.run (run_spec cfg f))

  unfoldable pub provision_inner : ℕ → DriverSandbox → Text → Action W Text
  unfolding prepare run_vm
  provision_inner p sb token = do f ← prepare p sb token; run_vm p f
