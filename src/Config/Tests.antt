-- ===== src/Config/Tests.antt =====
-- A command line on a host with one setting in the environment.
use openshell_driver_appleco.Prelude.{false, [], ◌∷◌, none, some, ◌≡◌, ◌↔◌, refl, if◌then◌else◌}
use openshell_driver_appleco.Int.{negsuc}
use openshell_driver_appleco.Result.{ok, err}
use openshell_driver_appleco.Text.{
  Text, text, ◌==◌, has_prefix, split, trim_space, trim_left, trim_right,
}
use openshell_driver_appleco.Text.Search.{fields}
use openshell_driver_appleco.Text.Path.{clean}
use openshell_driver_appleco.Assoc.{lookup}
use openshell_driver_appleco.Config.Values.{split_list, parse_int, version_in}
use openshell_driver_appleco.Config.Parse.{
  Flags, Surroundings, relative_mount_root, resolved, parse_config,
}
use openshell_driver_appleco.Config.Usable.{IsUsable}
use openshell_driver_appleco.Config.Precedence.{IsResolved, parse_config-IsResolved}

abbrev flags : Flags
flags = record {
  text_flag = λ name. if name == text "network" then some (text "lab") else none;
  int_flag = λ name. none;
  bool_flag = λ name. none;
}

-- The host, given the root of host mounts in its environment.
abbrev host : Text → Surroundings
host root = record {
  env = (text "OSHL_AC_NETWORK", text "oshl") ∷ (text "OSHL_AC_HOST_MOUNT_ROOT", root) ∷ [];
  home = some (text "/Users/u");
  exists = λ path. false;
  parse_flags = λ args. some flags;
  gateway_output = none;
}

list_test : split_list (text " a,, b ,") ≡ text "a" ∷ text "b" ∷ []
unfolding split_list split trim_space trim_left trim_right ◌==◌
list_test = refl

int_test : parse_int (text "-12") ≡ some (negsuc 11)
unfolding parse_int
int_test = refl

version_test : version_in (some (text "openshell-gateway v0.0.97")) ≡ text "0.0.97"
unfolding version_in split fields ◌==◌
version_test = refl

relative_test : parse_config (host (text "data")) [] ≡ err relative_mount_root
unfolding parse_config ◌==◌ lookup clean has_prefix
relative_test = refl

precedence_test : (resolved (host (text "/data")) flags).network ≡ text "lab"
unfolding resolved ◌==◌
precedence_test = refl

environment_test : (resolved (host (text "/data")) flags).host_mount_root ≡ text "/data"
unfolding resolved ◌==◌ lookup
environment_test = refl

parse_config-IsResolved_example :
    (parse_config (host (text "/data")) [] ≡ ok (resolved (host (text "/data")) flags)) ↔ (
      (given : Flags) × ((host (text "/data")).parse_flags [] ≡ some given)
      × IsResolved (host (text "/data")) given (resolved (host (text "/data")) flags)
      × IsUsable (resolved (host (text "/data")) flags))
parse_config-IsResolved_example =
    parse_config-IsResolved (host (text "/data")) [] (resolved (host (text "/data")) flags)
