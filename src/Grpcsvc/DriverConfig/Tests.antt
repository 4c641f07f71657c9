-- ===== src/Grpcsvc/DriverConfig/Tests.antt =====
-- The theorems on internal/grpcsvc/driverconfig.go at concrete paths and configs.
use openshell_driver_appleco.Prelude.{
  true, [], ◌∷◌, Option, none, some, ◌≡◌, ◌↔◌, ◌⊎◌, inl, inr, refl, arith, All, if◌then◌else◌,
}
use openshell_driver_appleco.Result.{ok}
use openshell_driver_appleco.Text.{Text, text, ◌==◌, contains_any, has_prefix, join, split}
use openshell_driver_appleco.Text.Path.{clean}
use openshell_driver_appleco.Text.Path.Rooted.{is_plain, IsPlain-by_test}
use openshell_driver_appleco.Grpcsvc.Fixtures.{cfg}
use openshell_driver_appleco.Grpcsvc.DriverConfig.{
  DriverConfig, validate, validate_mount_target, path_within, check_driver_config_policy,
  check_reserved, check_source_within_root, reserved_mount_targets,
}
use openshell_driver_appleco.Grpcsvc.DriverConfig.Targets.{Chain, PlainChain, Within}
use openshell_driver_appleco.Grpcsvc.DriverConfig.Mounts.{IsAbsolute, IsValidConfig, validate_iff}
use openshell_driver_appleco.Grpcsvc.DriverConfig.Policy.{
  IsCanonical, IsPermitted, Listed, path_within_iff, policy_sound,
}

abbrev data_dir : Chain
data_dir = (text "data", [])

abbrev below : Chain
below = (text "data", text "x" ∷ [])

plain_dir : PlainChain data_dir
unfolding is_plain
plain_dir = IsPlain-by_test (text "data" ∷ []) refl

below_plain : PlainChain below
unfolding is_plain
below_plain = IsPlain-by_test (text "data" ∷ text "x" ∷ []) refl

-- One volume, of a directory below the permitted root, and one tmpfs.
abbrev asked : DriverConfig
asked = record {
  mounts =
      record {
        kind = text "volume";
        source = text "/data/x";
        target = text "/work";
        read_only = none;
      }
      ∷ record { kind = text "tmpfs"; source = []; target = text "/scratch"; read_only = none }
      ∷ [];
  network = [];
  kernel = [];
}

-- A host with the directories "/data" and "/data/x" and nothing else.
abbrev links : Text → Option Text
links p =
    if p == text "/data"
    then some (text "/data")
    else if p == text "/data/x"
    then some (text "/data/x")
    else none

links_cases : (p q : Text) → links p ≡ some q → (q ≡ text "/data") ⊎ (q ≡ text "/data/x")
links_cases p q h = ground arith

links-IsCanonical : (p q : Text) → IsAbsolute p → links p ≡ some q → IsCanonical q
links-IsCanonical p q a h = elim (links_cases p q h) [
  | inl e ↦ inr (data_dir, e, plain_dir)
  | inr e ↦ inr (below, e, below_plain)
]

validate_iff_example : (validate asked ≡ ok tt) ↔ IsValidConfig asked
validate_iff_example = validate_iff asked

path_within_iff_example :
    (path_within (text "/data") (text "/data/x") ≡ true) ↔ Within data_dir below
path_within_iff_example = path_within_iff data_dir below plain_dir below_plain

asked_valid : validate asked ≡ ok tt
unfolding validate validate_mount_target ◌==◌ has_prefix clean join split check_reserved
    reserved_mount_targets contains_any
asked_valid = refl

asked_allowed : check_driver_config_policy links cfg asked ≡ ok tt
unfolding check_driver_config_policy ◌==◌ check_source_within_root path_within clean has_prefix join
    split
asked_allowed = refl

policy_sound_example :
    All (IsPermitted links cfg) asked.mounts
    × ((asked.network ≡ []) ⊎ Listed asked.network (cfg.network ∷ cfg.allowed_networks))
policy_sound_example =
    policy_sound links links-IsCanonical cfg (inr (text "data", refl)) asked asked_valid
      asked_allowed
