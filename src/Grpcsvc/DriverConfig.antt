-- ===== src/Grpcsvc/DriverConfig.antt =====
-- internal/grpcsvc/driverconfig.go: the per-sandbox driver config, its structural validation and the
-- operator's mount and network policy. Errors are values, one constructor for each message.
-- Decoding the request's `Struct` (protobuf and JSON) is a parameter, and so is the host's
-- `filepath.EvalSymlinks`.
pub mod Targets
pub mod Mounts
pub mod Policy
mod Tests
use openshell_driver_appleco.Prelude.{
  ℕ, suc, Bool, true, false, not, ◌&&◌, ◌||◌, List, [], ◌∷◌, ◌++◌, Option, none, some, any,
  if◌then◌else◌,
}
use openshell_driver_appleco.Result.{Result, ok, err, ◌>>=◌, ◌>>◌, fail_if, wrap}
use openshell_driver_appleco.Text.{Text, text, ◌==◌, has_prefix, contains_any}
use openshell_driver_appleco.Text.Path.{slash, clean}
use openshell_driver_appleco.Config.{Config}

pub record MountConfig : Type 0 where
  pub kind : Text
  pub source : Text
  pub target : Text
  pub read_only : Option Bool

pub record DriverConfig : Type 0 where
  pub mounts : List MountConfig
  pub network : Text
  pub kernel : Text

abbrev pub empty_config : DriverConfig
empty_config = record { mounts = []; network = []; kernel = [] }

unfoldable pub is_read_only : MountConfig → Bool
is_read_only m = elim m.read_only [ none ↦ true | some b ↦ b ]

-- The messages of validateMountTarget, with their arguments.
pub data TargetError : Type 0 where
  required must_be_root : TargetError
  not_absolute not_normalized : Text → TargetError
  shadows : Text → Text → TargetError

pub data SourceError : Type 0 where
  root_unusable source_unusable : Text → SourceError
  resolves_outside : Text → Text → Text → SourceError
  outside : Text → Text → SourceError

pub data ConfigError : Type 0 where
  undecodable : ConfigError
  bad_target : ℕ → TargetError → ConfigError
  duplicate_target : ℕ → Text → ConfigError
  relative_source tmpfs_source : ℕ → ConfigError
  unsupported_type : ℕ → Text → ConfigError
  invalid_network : Text → ConfigError
  relative_kernel : ConfigError
  mounts_disabled : ℕ → ConfigError
  bad_source : ℕ → SourceError → ConfigError
  network_forbidden : Text → List Text → ConfigError

unfoldable pub guest_seed_dir : Text
guest_seed_dir = text "/openshell-seed"

unfoldable pub reserved_mount_targets : List Text
unfolding guest_seed_dir
reserved_mount_targets =
    text "/opt/openshell"
    ∷ text "/etc/openshell"
    ∷ text "/etc/openshell-tls"
    ∷ text "/run/netns"
    ∷ text "/sandbox"
    ∷ guest_seed_dir
    ∷ []

-- The loop over the reserved paths.
check_reserved : Text → List Text → Result TargetError (Unit {0})
check_reserved target [] = ok tt
check_reserved target (r ∷ rs) = do
  fail_if (target == r || has_prefix target (r ++ slash)) (shadows target r)
  check_reserved target rs

pub validate_mount_target : Text → Result TargetError (Unit {0})
validate_mount_target target = do
  fail_if (target == []) required
  fail_if (not (has_prefix target slash)) (not_absolute target)
  fail_if (not (clean target == target)) (not_normalized target)
  fail_if (target == slash) must_be_root
  check_reserved target reserved_mount_targets

-- The switch on the mount's type, in the round for `mounts[i]`.
check_kind : ℕ → MountConfig → Result ConfigError (Unit {0})
check_kind i m =
    if m.kind == text "volume"
    then fail_if (not (has_prefix m.source slash)) (relative_source i)
    else if m.kind == text "tmpfs"
    then fail_if (not (m.source == [])) (tmpfs_source i)
    else err (unsupported_type i m.kind)

-- The loop of `validate`, with the targets seen so far.
check_mounts : ℕ → List Text → List MountConfig → Result ConfigError (Unit {0})
check_mounts i seen [] = ok tt
check_mounts i seen (m ∷ ms) = do
  wrap (bad_target i) (validate_mount_target m.target)
  fail_if (any (λ t. t == m.target) seen) (duplicate_target i m.target)
  check_kind i m
  check_mounts (suc i) (m.target ∷ seen) ms

abbrev blanks : Text
blanks = b' ' ∷ b'\t' ∷ b'\n' ∷ []

unfoldable pub validate : DriverConfig → Result ConfigError (Unit {0})
unfolding check_mounts check_kind
validate c = do
  check_mounts 0 [] c.mounts
  fail_if (contains_any c.network blanks) (invalid_network c.network)
  fail_if (not (c.kernel == []) && not (has_prefix c.kernel slash)) relative_kernel

-- `Struct` is protobuf's; `decode` is protojson.Marshal followed by the strict JSON decoder.
module _ {Struct : Type 0} (has_fields : Struct → Bool)
    (decode : Struct → Option DriverConfig) where
  -- A decoded config is returned only if it is valid.
  checked : Option DriverConfig → Result ConfigError DriverConfig
  checked none = err undecodable
  checked (some c) = do validate c; ok c

  unfoldable pub parse_driver_config : Option Struct → Result ConfigError DriverConfig
  unfolding checked
  parse_driver_config none = ok empty_config
  parse_driver_config (some st) = if has_fields st then checked (decode st) else ok empty_config

unfoldable pub allowed_networks : Config → List Text
allowed_networks cfg = cfg.network ∷ cfg.allowed_networks

unfoldable pub network_allowed : Config → Text → Bool
unfolding allowed_networks
network_allowed cfg name = any (λ n. n == name) (allowed_networks cfg)

pub path_within : Text → Text → Bool
path_within root p =
    let root' = clean root in let p' = clean p in p' == root' || has_prefix p' (root' ++ slash)

-- `filepath.EvalSymlinks` on the host: `none` is an error.
module _ (eval_symlinks : Text → Option Text) where
  -- The tests once both paths are resolved.
  check_real : Text → Text → Text → Text → Result SourceError (Unit {0})
  check_real root source real_root real_source =
      if path_within real_root real_source
      then ok tt
      else if not (real_source == clean source)
      then err (resolves_outside source real_source root)
      else err (outside source root)

  pub check_source_within_root : Text → Text → Result SourceError (Unit {0})
  unfolding check_real
  check_source_within_root root source = elim (eval_symlinks root) [
    | none ↦ err (root_unusable root)
    | some real_root ↦ elim (eval_symlinks source) [
      | none ↦ err (source_unusable source)
      | some real_source ↦ check_real root source real_root real_source
    ]
  ]

  -- The round for one mount.
  check_mount_policy : Config → ℕ → MountConfig → Result ConfigError (Unit {0})
  check_mount_policy cfg i m =
      if not (m.kind == text "volume")
      then ok tt
      else if not cfg.allow_host_mounts
      then err (mounts_disabled i)
      else if not (cfg.host_mount_root == [])
      then wrap (bad_source i) (check_source_within_root cfg.host_mount_root m.source)
      else ok tt

  check_mounts_policy : Config → ℕ → List MountConfig → Result ConfigError (Unit {0})
  check_mounts_policy cfg i [] = ok tt
  check_mounts_policy cfg i (m ∷ ms) = do
    check_mount_policy cfg i m
    check_mounts_policy cfg (suc i) ms

  unfoldable pub check_driver_config_policy : Config → DriverConfig → Result ConfigError (Unit {0})
  unfolding check_mounts_policy check_mount_policy
  check_driver_config_policy cfg dcfg = do
    check_mounts_policy cfg 0 dcfg.mounts
    fail_if (not (dcfg.network == []) && not (network_allowed cfg dcfg.network))
        (network_forbidden dcfg.network (allowed_networks cfg))
