-- ===== src/Grpcsvc/DriverConfig/Mounts.antt =====
-- internal/grpcsvc/driverconfig.go, `validate`: which driver configs are well formed.
use openshell_driver_appleco.Prelude.{
  ℕ, suc, true, false, List, [], ◌∷◌, ◌≡◌, ◌≢◌, ◌↔◌, ◌⊎◌, arith, All, any,
}
use openshell_driver_appleco.Result.{ok}
use openshell_driver_appleco.Text.{Text, text, ◌==◌, has_prefix, contains_any, contains_code}
use openshell_driver_appleco.Text.Laws.{eq_iff}
use openshell_driver_appleco.Text.Path.{slash}
use openshell_driver_appleco.Grpcsvc.DriverConfig.{
  DriverConfig, MountConfig, check_kind, check_mounts, validate, blanks,
}
use openshell_driver_appleco.Grpcsvc.DriverConfig.Targets.{
  IsAllowedTarget, validate_mount_target_iff,
}

abbrev pub IsAbsolute : Text → Type 0
IsAbsolute p = (rest : Text) × (p ≡ b'/' ∷ rest)

-- A bind of an absolute host directory, or a tmpfs with no source.
abbrev pub HasKind : MountConfig → Type 0
HasKind m =
    ((m.kind ≡ text "volume") × IsAbsolute m.source) ⊎ ((m.kind ≡ text "tmpfs") × (m.source ≡ []))

abbrev pub IsValidMount : MountConfig → Type 0
IsValidMount m = IsAllowedTarget m.target × HasKind m

abbrev pub Avoids : List Text → Text → Type 0
Avoids seen t = All (λ s. s ≢ t) seen

-- No two mounts share a target, nor does one have a target of `seen`.
abbrev pub Distinct : List Text → List MountConfig → Type 0
Distinct seen [] = Unit
Distinct seen (m ∷ ms) = Avoids seen m.target × Distinct (m.target ∷ seen) ms

pub IsAbsolute-iff : (p : Text) → (has_prefix p slash ≡ true) ↔ IsAbsolute p
unfolding has_prefix
IsAbsolute-iff [] = ground arith
IsAbsolute-iff (x ∷ []) = (λ h. ([], ground arith), λ h. ground arith)
IsAbsolute-iff (x ∷ y ∷ p) = (λ h. (y ∷ p, ground arith), λ h. ground arith)

Avoids-iff : (seen : List Text) (t : Text) → (any (λ s. s == t) seen ≡ false) ↔ Avoids seen t
Avoids-iff [] t = ground arith
Avoids-iff (s ∷ seen) t = ground (arith, eq_iff s t, Avoids-iff seen t)

kinds_differ : (k : Text) → (k == text "volume") ≡ true → (k == text "tmpfs") ≡ false
kinds_differ k h = ground (arith, eq_iff k (text "volume"), eq_iff k (text "tmpfs"))

check_kind_iff : (i : ℕ) (m : MountConfig) → (check_kind i m ≡ ok tt) ↔ HasKind m
unfolding check_kind
check_kind_iff i m = ground (
  arith,
  eq_iff m.kind (text "volume"),
  eq_iff m.kind (text "tmpfs"),
  eq_iff m.source [],
  IsAbsolute-iff m.source,
)

-- The result of a unit step is `ok tt` or an error.
check_mounts_iff :
    (i : ℕ) (seen : List Text) (ms : List MountConfig)
    → (check_mounts i seen ms ≡ ok tt) ↔ (All IsValidMount ms × Distinct seen ms)
unfolding check_mounts
check_mounts_iff i seen [] = ground arith
check_mounts_iff i seen (m ∷ ms) = ground (
  arith,
  validate_mount_target_iff m.target,
  Avoids-iff seen m.target,
  check_kind_iff i m,
  check_mounts_iff (suc i) (m.target ∷ seen) ms,
)

abbrev pub HasNoBlank : Text → Type 0
HasNoBlank s = All (λ c. (c ≢ b' ') × (c ≢ b'\t') × (c ≢ b'\n')) s

HasNoBlank-iff : (s : Text) → (contains_any s blanks ≡ false) ↔ HasNoBlank s
unfolding contains_any contains_code
HasNoBlank-iff [] = ground arith
HasNoBlank-iff (c ∷ s) = ground (arith, HasNoBlank-iff s)

pub record IsValidConfig (c : DriverConfig) : Type 0 where
  pub mounts : All IsValidMount c.mounts
  pub distinct : Distinct [] c.mounts
  pub network : HasNoBlank c.network
  pub kernel : (c.kernel ≡ []) ⊎ IsAbsolute c.kernel

-- A driver config is accepted exactly when every mount has an allowed target and is a bind of an
-- absolute host path or a tmpfs with no source, no two targets are equal, the network name holds no
-- blank, and the kernel is absent or an absolute path.
pub validate_iff : (c : DriverConfig) → (validate c ≡ ok tt) ↔ IsValidConfig c
unfolding validate
validate_iff c = ground (
  arith,
  check_mounts_iff 0 [] c.mounts,
  HasNoBlank-iff c.network,
  eq_iff c.kernel [],
  IsAbsolute-iff c.kernel,
)
