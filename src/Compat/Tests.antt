-- ===== src/Compat/Tests.antt =====
-- The checks of internal/compat/compat.go at concrete versions.
use openshell_driver_appleco.Prelude.{some, ◌≡◌, refl}
use openshell_driver_appleco.Text.{text, split, trim_left, trim_right, trim_space}
use openshell_driver_appleco.Compat.{Version, parse}

abbrev newest : Version
newest = record { major = 1; minor = 4; patch = 0 }

abbrev gateway : Version
gateway = record { major = 0; minor = 0; patch = 100 }

newest_read : parse (text "(v1.4.0)") ≡ some newest
unfolding parse split trim_right trim_left trim_space
newest_read = refl

gateway_read : parse (text " 0.0.100") ≡ some gateway
unfolding parse split trim_right trim_left trim_space
gateway_read = refl
