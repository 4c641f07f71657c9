-- ===== src/Grpcsvc/Provision/Spec/Confined.antt =====
-- internal/grpcsvc/create.go: what holds of every run specification, whatever the request asks for.
use openshell_driver_appleco.Prelude.{
  true, List, [], ◌∷◌, some, ◌≡◌, ◌⊎◌, inl, inr, refl, sym, ◌∙◌, All, Bool-cases,
}
use openshell_driver_appleco.Text.{Text, text, ◌==◌}
use openshell_driver_appleco.Text.Laws.{eq_iff}
use openshell_driver_appleco.Assoc.{lookup, lookup-insert}
use openshell_driver_appleco.Config.{Config}
use openshell_driver_appleco.Backend.{VolumeMount, RunSpec, Labels}
use openshell_driver_appleco.State.{Record}
use openshell_driver_appleco.Grpcsvc.DriverConfig.{MountConfig, is_read_only, guest_seed_dir}
use openshell_driver_appleco.Grpcsvc.Bootstrap.{
  label_managed_by, managed_by_value, label_sandbox_id,
}
use openshell_driver_appleco.Grpcsvc.Env.{overlay}
use openshell_driver_appleco.Grpcsvc.Provision.Spec.{Findings, run_spec, labels_of, volumes_of}

-- One of the mounts of kind volume asks for that volume.
abbrev pub Comes : List MountConfig → VolumeMount → Type 0
Comes [] v = ⊥
Comes (m ∷ ms) v =
    ((m.kind ≡ text "volume")
      × (v.host_path ≡ m.source)
      × (v.guest_path ≡ m.target)
      × (v.read_only ≡ is_read_only m))
    ⊎ Comes ms v

abbrev weaken :
    (m : MountConfig) (ms : List MountConfig) (vs : List VolumeMount)
    → All (Comes ms) vs
    → All (Comes (m ∷ ms)) vs
weaken m ms [] h = tt
weaken m ms (v ∷ vs) (h, hs) = (inr h, weaken m ms vs hs)

volumes_of-Comes : (ms : List MountConfig) → All (Comes ms) (volumes_of ms)
unfolding volumes_of
volumes_of-Comes [] = tt
volumes_of-Comes (m ∷ ms) = elim (Bool-cases (m.kind == text "volume")) [
  | inl b ↦ rw b (
    inl ((eq_iff m.kind (text "volume")).0 b, refl, refl, refl),
    weaken m ms (volumes_of ms) (volumes_of-Comes ms),
  )
  | inr b ↦ rw b (weaken m ms (volumes_of ms) (volumes_of-Comes ms))
]

-- What the driver guarantees of a specification.
pub record IsConfined (f : Findings) (spec : RunSpec) : Type 0 where
  pub managed : lookup label_managed_by spec.labels ≡ some managed_by_value
  pub owner : lookup label_sandbox_id spec.labels ≡ some f.rec.id
  pub user : lookup (text "OPENSHELL_OCI_IMAGE_USER") spec.env ≡ some f.user
  pub env :
      (k : Text) → (k ≡ text "OPENSHELL_OCI_IMAGE_USER") ⊎ (lookup k spec.env ≡ lookup k f.env)
  pub mounts :
      (rest : List VolumeMount) × (spec.volumes
        ≡ record { host_path = f.seed_dir; guest_path = guest_seed_dir; read_only = true } ∷ rest)
      × All (Comes f.driver_config.mounts) rest
  pub name : spec.name ≡ f.rec.container_name
  pub image : spec.image ≡ f.image

labels_of-managed :
    (template : Labels) (rec : Record)
    → (lookup label_managed_by (labels_of template rec) ≡ some managed_by_value)
      × (lookup label_sandbox_id (labels_of template rec) ≡ some rec.id)
unfolding labels_of overlay ◌==◌
labels_of-managed template rec = (simp lookup-insert, simp lookup-insert)

-- Every specification that the pipeline runs carries the driver's mark and the sandbox's id whatever
-- labels the template brings, gives the guest the image's user and otherwise the environment that was
-- assembled, mounts the seed directory first and read-only, and beside it only what the accepted
-- mounts of kind volume ask for.
pub run_spec-IsConfined : (cfg : Config) (f : Findings) → IsConfined f (run_spec cfg f)
unfolding run_spec
run_spec-IsConfined cfg f = record {
  managed = (labels_of-managed f.template_labels f.rec).0;
  owner = (labels_of-managed f.template_labels f.rec).1;
  user = unfold ◌==◌ in simp lookup-insert;
  env = λ k. elim (Bool-cases (text "OPENSHELL_OCI_IMAGE_USER" == k)) [
    | inl b ↦ inl (sym ((eq_iff (text "OPENSHELL_OCI_IMAGE_USER") k).0 b))
    | inr b ↦ inr (lookup-insert (text "OPENSHELL_OCI_IMAGE_USER") k f.user f.env ∙ rw b refl)
  ];
  mounts = (volumes_of f.driver_config.mounts, refl, volumes_of-Comes f.driver_config.mounts);
  name = refl;
  image = refl;
}
