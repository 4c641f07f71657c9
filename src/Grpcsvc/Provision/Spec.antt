-- ===== src/Grpcsvc/Provision/Spec.antt =====
-- internal/grpcsvc/create.go: the run specification of a sandbox's VM, as far as it is computed from
-- the request, the configuration, the record and the image.
pub mod Confined
use openshell_driver_appleco.Prelude.{
  ℕ, suc, Bool, true, false, not, ◌&&◌, List, [], ◌∷◌, ◌++◌, Option, none, some, ltb, eqb, take,
  length, if◌then◌else◌,
}
use openshell_driver_appleco.Int.{ℤ, pos, is_zero}
use openshell_driver_appleco.Text.{Text, text, ◌==◌, contains_code}
use openshell_driver_appleco.Assoc.{insert}
use openshell_driver_appleco.Config.{Config}
use openshell_driver_appleco.Backend.{VolumeMount, RunSpec, Labels}
use openshell_driver_appleco.State.{Record}
use openshell_driver_appleco.Grpcsvc.DriverConfig.{
  DriverConfig, MountConfig, is_read_only, guest_seed_dir,
}
use openshell_driver_appleco.Grpcsvc.Bootstrap.{
  label_managed_by, managed_by_value, label_sandbox_id,
}
use openshell_driver_appleco.Grpcsvc.Env.{overlay}

-- `strings.LastIndex(s, c)` for one code point, from `i` on; `best` is the last one before.
unfoldable pub last_index_from : ℕ → Text → ℕ → Option ℕ → Option ℕ
last_index_from c [] i best = best
last_index_from c (x ∷ s) i best = last_index_from c s (suc i) (if eqb x c then some i else best)

unfoldable pub last_index : Text → ℕ → Option ℕ
unfolding last_index_from
last_index s c = last_index_from c s 0 none

-- `a > b` where none is -1.
unfoldable pub above : Option ℕ → Option ℕ → Bool
above none b = false
above (some i) none = true
above (some i) (some j) = ltb j i

-- The reference without its tag.
unfoldable pub name_of : Text → Option ℕ → Option ℕ → Text
unfolding above
name_of ref none slash = ref
name_of ref (some i) slash = if above (some i) slash then take i ref else ref

unfoldable pub ref_with_digest : Text → Text → Text
unfolding name_of last_index
ref_with_digest ref digest =
    if contains_code ref b'@'
    then ref
    else name_of ref (last_index ref b':') (last_index ref b'/') ++ b'@' ∷ digest

-- The labels of the template, with the driver's own over them.
unfoldable pub labels_of : Labels → Record → Labels
labels_of template rec = overlay (overlay [] template) (
    (label_managed_by, managed_by_value)
    ∷ (label_sandbox_id, rec.id)
    ∷ (text "openshell.ai/sandbox-name", rec.name)
    ∷ (text "openshell.ai/sandbox-namespace", rec.namespace)
    ∷ (text "openshell.ai/sandbox-workspace", rec.workspace)
    ∷ [])

-- `if x == 0 { x = def }` and `if s != "" { x = s }`
unfoldable pub or_default : ℤ → ℤ → ℤ
or_default n def = if is_zero n then def else n

unfoldable pub override : Text → Text → Text
override def given = if given == [] then def else given

-- The loop over the mounts: volumes and tmpfs targets.
unfoldable pub volumes_of : List MountConfig → List VolumeMount
volumes_of [] = []
volumes_of (m ∷ ms) =
    let rest = volumes_of ms in
    if m.kind == text "volume"
    then record { host_path = m.source; guest_path = m.target; read_only = is_read_only m } ∷ rest
    else rest

unfoldable pub tmpfs_of : List MountConfig → List Text
tmpfs_of [] = []
tmpfs_of (m ∷ ms) =
    let rest = tmpfs_of ms in if m.kind == text "tmpfs" then m.target ∷ rest else rest

-- What the pipeline has found out when it boots the VM.
pub record Findings : Type 0 where
  pub rec : Record
  pub image : Text
  pub user : Text
  pub seed_dir : Text
  pub env : Labels
  pub template_labels : Labels
  pub cpus : ℤ
  pub memory_mb : ℤ
  pub driver_config : DriverConfig

unfoldable pub kernel_of : Config → DriverConfig → Text
unfolding override
kernel_of cfg dcfg = override cfg.kernel dcfg.kernel

unfoldable pub run_spec : Config → Findings → RunSpec
unfolding labels_of or_default override volumes_of tmpfs_of kernel_of
run_spec cfg f = record {
  name = f.rec.container_name;
  image = f.image;
  network = override cfg.network f.driver_config.network;
  volumes =
      record { host_path = f.seed_dir; guest_path = guest_seed_dir; read_only = true }
      ∷ volumes_of f.driver_config.mounts;
  tmpfs = tmpfs_of f.driver_config.mounts;
  env = insert (text "OPENSHELL_OCI_IMAGE_USER") f.user f.env;
  labels = labels_of f.template_labels f.rec;
  cpus = or_default f.cpus cfg.cpus;
  memory_mb = or_default f.memory_mb cfg.memory_mb;
  entrypoint = guest_seed_dir ++ text "/boot.sh";
  args = [];
  kernel = kernel_of cfg f.driver_config;
  uid = some (pos 0);
  gid = some (pos 0);
  cap_add =
      text "CAP_SYS_ADMIN" ∷ text "CAP_NET_ADMIN" ∷ text "CAP_SYS_PTRACE" ∷ text "CAP_SYSLOG" ∷ [];
}
