-- ===== src/Grpcsvc/Provision/Outcome.antt =====
-- internal/grpcsvc/create.go: what a provisioning task that booted its VM has found out.
use openshell_driver_appleco.Prelude.{
  ℕ, not, List, [], ◌∷◌, Option, none, some, ◌≡◌, ◌⊎◌, inl, inr, refl, arith, ap, subst, Bool-cases,
}
use openshell_driver_appleco.Result.{Result, ok, ok_inj, Result-cases}
use openshell_driver_appleco.Text.{Text, ◌==◌}
use openshell_driver_appleco.Text.Laws.{eq_iff}
use openshell_driver_appleco.Config.{Config}
use openshell_driver_appleco.Backend.{Image}
use openshell_driver_appleco.State.{Record}
use openshell_driver_appleco.Grpcsvc.DriverConfig.{parse_driver_config}
use openshell_driver_appleco.Grpcsvc.Env.{sandbox_env}
use openshell_driver_appleco.Grpcsvc.Proto.{DriverSandbox, read, get_template, get_driver_config}
use openshell_driver_appleco.Grpcsvc.Errors.{ProvisionError}
use openshell_driver_appleco.Grpcsvc.Server.{Server, Host}
use openshell_driver_appleco.Grpcsvc.Provision.Action.{call, bind_ok, seq_ok, check_ok}
use openshell_driver_appleco.Grpcsvc.Provision.Spec.{Findings, ref_with_digest, run_spec}
use openshell_driver_appleco.Grpcsvc.Provision.Pipeline.{
  with_reference, obtain_image, find_image, or_pull, pull, must_be_present, pin, set_digest,
  prepare, run_vm, provision_inner, seed_dir_of,
}

with_reference_ok :
    (ref : Text) (images : List Image) (img : Image)
    → with_reference ref images ≡ some img
    → img.reference ≡ ref
unfolding with_reference
with_reference_ok ref [] img h = absurd (ground arith)
with_reference_ok ref (x ∷ images) img h =
    ground (arith, eq_iff x.reference ref, with_reference_ok ref images img)

module _ {W F : Type 0} (host : Host W F) (cfg : Config) (others : Server W → Server W) where
  call_ok :
      {E A : Type 0} (f : E → ProvisionError) (op : W → Result E A × W) (s t : Server W) (a : A)
      → call others f op s ≡ (ok a, t)
      → (w : W) × ((op w).0 ≡ ok a)
  call_ok f op s t a h = (
    (others s).world,
    elim (Result-cases (op (others s).world).0) [
      | inl (b, e) ↦ ground (arith, e, h)
      | inr (x, e) ↦ absurd (ground (arith, e, h))
    ],
  )

  find_image_ok :
      (ref : Text) (s t : Server W) (img : Image)
      → find_image host cfg others ref s ≡ (ok (some img), t)
      → img.reference ≡ ref
  unfolding find_image
  find_image_ok ref s t img h =
      let (images, _, _, g, _) =
        bind_ok _ _ s (some img)
          (ap (λ (r : Result ProvisionError (Option Image) × Server W). r.0) h) in
      with_reference_ok ref images img (ground (arith, g))

  found_ok :
      (ref : Text) (s : Server W) (img : Image) (found : Option Image) (t : Server W)
      → (must_be_present ref found t).0 ≡ ok img
      → find_image host cfg others ref s ≡ (ok found, t)
      → img.reference ≡ ref
  unfolding must_be_present
  found_ok ref s img none t h e = absurd (ground arith)
  found_ok ref s img (some x) t h e = ground (arith, h, find_image_ok ref s t x e)

  pull_ok :
      (rec : Record) (s : Server W) (img : Image)
      → (pull host cfg others rec s).0 ≡ ok img
      → img.reference ≡ rec.image_ref
  unfolding pull
  pull_ok rec s img h =
      let (s1, _, h1, _) = seq_ok _ _ s img h in
      let (s2, _, h2, _) = seq_ok _ _ s1 img h1 in
      let (s3, _, h3, _) = seq_ok _ _ s2 img h2 in
      let (found, s4, e4, h4, _) = bind_ok _ _ s3 img h3 in
      found_ok rec.image_ref s3 img found s4 h4 e4

  or_pull_ok :
      (rec : Record) (s : Server W) (img : Image) (found : Option Image) (t : Server W)
      → (or_pull host cfg others rec found t).0 ≡ ok img
      → find_image host cfg others rec.image_ref s ≡ (ok found, t)
      → img.reference ≡ rec.image_ref
  unfolding or_pull
  or_pull_ok rec s img none t h e = pull_ok rec t img h
  or_pull_ok rec s img (some x) t h e = ground (arith, h, find_image_ok rec.image_ref s t x e)

  obtain_image_ok :
      (rec : Record) (s : Server W) (img : Image)
      → (obtain_image host cfg others rec s).0 ≡ ok img
      → img.reference ≡ rec.image_ref
  unfolding obtain_image
  obtain_image_ok rec s img h =
      let (found, t, e, g, _) = bind_ok _ _ s img h in or_pull_ok rec s img found t g e

  -- The reference to boot and the record behind the pinning: an image with a digest is booted by it,
  -- and the record that holds the digest was saved.
  abbrev pub Pinned : Record → Image → Text → Record → Type 0
  Pinned rec img image pinned =
      ((img.digest ≡ []) × (image ≡ rec.image_ref) × (pinned ≡ rec))
      ⊎ ((image ≡ ref_with_digest rec.image_ref img.digest)
          × (pinned.image_digest ≡ img.digest)
          × ((w : W) × ((host.store.save pinned w).0 ≡ ok tt)))

  set_digest_ok :
      (p : ℕ) (digest : Text) (s t : Server W) (rec : Record)
      → set_digest host cfg others p digest s ≡ (ok rec, t)
      → rec.image_digest ≡ digest
  unfolding set_digest
  set_digest_ok p digest s t rec e = ground (arith, e)

  pin_ok :
      (p : ℕ) (rec : Record) (img : Image) (s : Server W) (pinned : Text × Record)
      → (pin host cfg others p rec img s).0 ≡ ok pinned
      → Pinned rec img pinned.0 pinned.1
  unfolding pin
  pin_ok p rec img s pinned h = elim (Bool-cases (img.digest == [])) [
    | inl b ↦
        let g : ◌≡◌ {A = Result ProvisionError (Text × Record)} (ok (rec.image_ref, rec))
            (ok pinned) =
          rw b at h in
        inl ((eq_iff img.digest []).0 b, ground (arith, g), ground (arith, g))
    | inr b ↦
        let (r, s1, e1, h1, _) = bind_ok _ _ s pinned (rw b at h) in
        let (s2, e2, h2, _) = seq_ok _ _ s1 pinned h1 in
        let digest = set_digest_ok p img.digest s s1 r e1 in
        let saved = call_ok _ (host.store.save r) s1 s2 tt e2 in
        inr (ground (arith, h2), ground (arith, h2, digest), (saved.0, ground (arith, h2, saved.1)))
  ]

  -- What the task has found out when it boots the VM of the entry `p`.
  pub record Prepared (rec : Record) (sb : DriverSandbox) (token : Text) (f : Findings)
      : Type 0 where
    pub img : Image
    pub reference : img.reference ≡ rec.image_ref
    pub pinned : Pinned rec img f.image f.rec
    pub user : f.user ≡ img.user
    pub seed_dir : f.seed_dir ≡ seed_dir_of host cfg others f.rec
    pub env : sandbox_env host.encode_user host.encode_main cfg sb (not (token == [])) ≡ ok f.env
    pub template_labels : f.template_labels ≡ read [] (λ t. t.labels) (get_template sb.spec)
    pub config :
        parse_driver_config host.has_fields host.decode_config
          (get_driver_config (get_template sb.spec))
        ≡ ok f.driver_config

  prepare_ok :
      (p : ℕ) (sb : DriverSandbox) (token : Text) (s : Server W) (f : Findings)
      → (prepare host cfg others p sb token s).0 ≡ ok f
      → Prepared (s.heap p).rec sb token f
  unfolding prepare
  prepare_ok p sb token s f h =
      let (dcfg, s1, e1, h1, _) = bind_ok _ _ s f h in
      let (img, s2, e2, h2, _) = bind_ok _ _ s1 f h1 in
      let (pinned, s3, e3, h3, _) = bind_ok _ _ s2 f h2 in
      let (supervisor, s4, e4, h4, _) = bind_ok _ _ s3 f h3 in
      let (s5, e5, h5, _) = seq_ok _ _ s4 f h4 in
      let (s6, e6, h6, _) = seq_ok _ _ s5 f h5 in
      let (env, s7, e7, h7, _) = bind_ok _ _ s6 f h6 in
      let (cpus, s8, e8, h8, _) = bind_ok _ _ s7 f h7 in
      let (memory, s9, e9, h9, _) = bind_ok _ _ s8 f h8 in
      let (s10, e10, h10, _) = seq_ok _ _ s9 f h9 in
      let rec = (s.heap p).rec in
      let image_found =
        obtain_image_ok rec s1 img (ap (λ (r : Result ProvisionError Image × Server W). r.0) e2) in
      let image_pinned =
        pin_ok p rec img s2 pinned
          (ap (λ (r : Result ProvisionError (Text × Record) × Server W). r.0) e3) in
      subst (λ (x : Findings). Prepared rec sb token x) (ok_inj h10)
        (record {
          img = img;
          reference = image_found;
          pinned = image_pinned;
          user = refl;
          seed_dir = refl;
          env = (check_ok _ _ s6 s7 env e7).0;
          template_labels = refl;
          config = (check_ok _ _ s s1 dcfg e1).0;
        })

  run_vm_ok :
      (p : ℕ) (f : Findings) (s : Server W) (name : Text)
      → (run_vm host cfg others p f s).0 ≡ ok name
      → (w : W) × ((host.runtime.run (run_spec cfg f) w).0 ≡ ok name)
  unfolding run_vm
  run_vm_ok p f s name h =
      let (_, s1, _, h1, _) = bind_ok _ _ s name h in
      let (s2, _, h2, _) = seq_ok _ _ s1 name h1 in
      elim (Result-cases (host.runtime.run (run_spec cfg f) (others s2).world).0) [
        | inl (x, e) ↦ ((others s2).world, ground (arith, e, h2))
        | inr (x, e) ↦ absurd (ground (arith, e, h2))
      ]

  -- A task that ends without an error has run a VM, with the specification of findings that hold of
  -- the entry's record and of the request.
  pub provision_inner_ok :
      (p : ℕ) (sb : DriverSandbox) (token : Text) (s : Server W) (name : Text)
      → (provision_inner host cfg others p sb token s).0 ≡ ok name
      → (f : Findings) × Prepared (s.heap p).rec sb token f
        × ((w : W) × ((host.runtime.run (run_spec cfg f) w).0 ≡ ok name))
  unfolding provision_inner
  provision_inner_ok p sb token s name h =
      let (f, t, e, g, _) = bind_ok _ _ s name h in
      (
        f,
        prepare_ok p sb token s f (ap (λ (r : Result ProvisionError Findings × Server W). r.0) e),
        run_vm_ok p f t name g,
      )
