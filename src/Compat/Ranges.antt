-- ===== src/Compat/Ranges.antt =====
-- internal/compat/compat.go: what the checks say of an installed version, in terms of the order of
-- release numbers.
use openshell_driver_appleco.Prelude.{◌<◌, true, false, [], ◌∷◌, some, ◌≡◌, ◌⊎◌, ◌↔◌, arith}
use openshell_driver_appleco.Text.{Text}
use openshell_driver_appleco.Compat.{
  Version, parse, less, open_shell_min, open_shell_max, apple_container_min, apple_container_max,
  apple_container_min_safe, verified, advisories, apple_range, or_verified, check_apple_container,
  check_open_shell,
}

-- The first component that differs decides.
abbrev pub Before : Version → Version → Type 0
Before a b =
    (a.major < b.major)
    ⊎ ((a.major ≡ b.major) × ((a.minor < b.minor) ⊎ ((a.minor ≡ b.minor) × (a.patch < b.patch))))

less_iff : (a b : Version) → (less a b ≡ true) ↔ Before a b
unfolding less
less_iff a b = ground arith

safe_in_range :
    (v : Version) → less v apple_container_min_safe ≡ false → less v apple_container_min ≡ false
unfolding less apple_container_min_safe apple_container_min
safe_in_range v h = ground arith

-- An installed gateway whose version can be read is reported as verified, with no other finding,
-- exactly when it is neither before the oldest nor after the newest verified release.
pub check_open_shell_iff :
    (installed : Text) (v : Version)
    → parse installed ≡ some v
    → (check_open_shell installed ≡ verified v ∷ [])
      ↔ ((¬ Before v open_shell_min) × (¬ Before open_shell_max v))
unfolding check_open_shell
check_open_shell_iff installed v h =
    rw (h, check_open_shell) (ground (arith, less_iff v open_shell_min, less_iff open_shell_max v))

-- An installed container runtime whose version can be read is reported as verified, with no other
-- finding, exactly when it is not before the first release without the known advisories and not after
-- the newest verified one.
pub check_apple_container_iff :
    (installed : Text) (v : Version)
    → parse installed ≡ some v
    → (check_apple_container installed ≡ verified v ∷ [])
      ↔ ((¬ Before v apple_container_min_safe) × (¬ Before apple_container_max v))
unfolding check_apple_container or_verified advisories apple_range
check_apple_container_iff installed v h =
    rw (h, check_apple_container)
      (ground (
        arith,
        safe_in_range v,
        less_iff v apple_container_min_safe,
        less_iff apple_container_max v,
      ))
