-- ===== src/Hostsetup/Status.antt =====
-- internal/hostsetup/status.go: the report on everything that setup wires together. What is asked of the
-- host is a record of answers. A detail has one constructor for each format string.
pub mod Report
mod Findings
mod Blocks
pub mod Health
pub mod Exit
pub mod Wiring
mod Tests
use openshell_driver_appleco.Prelude.{
  ℕ, suc, Bool, true, false, not, ◌&&◌, ◌||◌, List, [], ◌∷◌, ◌++◌, Option, none, some, eqb, drop,
  length, if◌then◌else◌,
}
use openshell_driver_appleco.Result.{Result, ok, err}
use openshell_driver_appleco.Text.{Text, text, ◌==◌, has_prefix, split, join, trim_space}
use openshell_driver_appleco.Text.Search.{contains_text}
use openshell_driver_appleco.Text.Path.{clean}
use openshell_driver_appleco.Text.Decimal.{decimal}
use openshell_driver_appleco.Compat.{
  Finding, undetermined, has_advisories, too_old, too_new, verified, check_apple_container,
  check_open_shell,
}
use openshell_driver_appleco.Backend.{Network, RuntimeError}
use openshell_driver_appleco.Backend.Cli.Decode.{parse_version_output}
use openshell_driver_appleco.Hostsetup.Block.{block_begin, shell_quote}

-- "ok", "warn" and "fail".
pub data Level : Type 0 where
  healthy warn fail : Level

pub data Detail : Type 0 where
  no_cli no_kernel kernel_set no_gateway no_agent not_loaded not_running : Detail
  runtime_down runtime_up no_network listening silent unmanaged running : Text → Detail
  no_env_file no_block unreadable_cert unverified bad_cert no_answer summary : Text → Detail
  network_at other_socket wired no_san covers answers mismatch matches : Text → Text → Detail
  old_build : Text → Text → Text → Detail
  of_finding : Finding → Detail

pub record Check : Type 0 where
  pub name : Text
  pub level : Level
  pub detail : Detail

pub record StatusOptions : Type 0 where
  pub network : Text
  pub socket : Text
  pub tls_dir : Text
  pub supervisor_image : Text
  pub driver_version : Text

-- A sandbox as the driver's answer shows it: whether it is being deleted, and the status and the reason
-- of its conditions.
pub record Seen : Type 0 where
  pub deleting : Bool
  pub conditions : List (Text × Text)

-- What the host answers. `container_output` and `gateway_output` are what the two commands print as
-- their versions, `agent_output` is what `launchctl print` does, and `driver` is the answer on the
-- socket: the driver's version and its sandboxes. The networks are asked for twice.
pub record HostView : Type 0 where
  pub container_output : Option Text
  pub first_networks : Result RuntimeError (List Network)
  pub networks : Result RuntimeError (List Network)
  pub has_kernel : Bool
  pub gateway_output : Option Text
  pub is_listening : Bool
  pub has_open_shell : Bool
  pub config_dir : Text
  pub default_tls_dir : Text
  pub read_file : Text → Option Text
  pub cert_has_ip_san : Text → Text → Option Bool
  pub has_agent : Bool
  pub agent_output : Option Text
  pub driver : Option (Text × List Seen)

unfoldable pub is_fail : Level → Bool
is_fail fail = true
is_fail warn = false
is_fail healthy = false

-- `probeVersion`
unfoldable pub probe_version : Option Text → Text
probe_version none = []
probe_version (some output) = parse_version_output output

-- The level of a finding, by way of `mapLevel`.
unfoldable pub map_level : Finding → Level
map_level undetermined = warn
map_level (has_advisories _) = warn
map_level (too_old _) = fail
map_level (too_new _) = warn
map_level (verified _) = healthy

unfoldable pub finding_checks : Text → List Finding → List Check
finding_checks name [] = []
finding_checks name (f ∷ fs) =
    let check : Check = record { name = name; level = map_level f; detail = of_finding f } in
    let rest = finding_checks name fs in
    elim (map_level f) [ healthy ↦ rest | warn ↦ check ∷ rest | fail ↦ check ∷ rest ]

abbrev pub one : Text → Level → Detail → List Check
one name level detail = record { name = name; level = level; detail = detail } ∷ []

abbrev apple_container : Text
apple_container = text "apple/container"

unfoldable pub runtime_check : Text → Result RuntimeError (List Network) → List Check
runtime_check version (err _) = one apple_container fail (runtime_down version)
runtime_check version (ok _) = one apple_container healthy (runtime_up version)

unfoldable pub kernel_check : Bool → List Check
kernel_check true = one (text "guest kernel") healthy kernel_set
kernel_check false = one (text "guest kernel") fail no_kernel

-- The gateway address of the last network with that name; empty if there is none.
unfoldable pub address_of : Text → Text → List Network → Text
address_of name ip [] = ip
address_of name ip (n ∷ ns) = address_of name (if n.name == name then n.ipv4_gateway else ip) ns

unfoldable pub gateway_ip : Text → Result RuntimeError (List Network) → Text
unfolding address_of
gateway_ip name (err _) = []
gateway_ip name (ok ns) = address_of name [] ns

unfoldable pub network_check : Text → Result RuntimeError (List Network) → List Check
unfolding address_of
network_check name (err _) = []
network_check name (ok ns) =
    let ip = address_of name [] ns in
    if ip == []
    then one (text "vmnet network") fail (no_network name)
    else one (text "vmnet network") healthy (network_at name ip)

-- The wiring of the gateway, from the content of its environment file.
unfoldable pub wiring_check : Text → Text → Option Text → List Check
wiring_check path socket none = one (text "gateway wiring") fail (no_env_file path)
wiring_check path socket (some content) =
    if not (contains_text content block_begin)
      || not (contains_text content (text "OPENSHELL_DRIVERS=applecontainer"))
    then one (text "gateway wiring") fail (no_block path)
    else if not
        (contains_text content (text "OPENSHELL_COMPUTE_DRIVER_SOCKET=" ++ shell_quote socket))
    then one (text "gateway wiring") warn (other_socket path socket)
    else one (text "gateway wiring") healthy (wired path socket)

unfoldable pub san_check : Text → Text → Text → Option Bool → List Check
san_check path ip dir none = one (text "gateway certificate") fail (bad_cert path)
san_check path ip dir (some false) = one (text "gateway certificate") fail (no_san path ip)
san_check path ip dir (some true) = one (text "gateway certificate") healthy (covers ip dir)

-- `launchctlPID`
unfoldable pub pid_in : List Text → Text
pid_in [] = []
pid_in (line ∷ lines) =
    let s = trim_space line in
    let rest = pid_in lines in
    if has_prefix s (text "pid = ") then trim_space (drop (length (text "pid = ")) s) else rest

unfoldable pub launchctl_pid : Text → Text
unfolding pid_in
launchctl_pid out = pid_in (split out 10)

unfoldable pub agent_check : Bool → Option Text → List Check
unfolding launchctl_pid
agent_check false out = one (text "driver service") fail no_agent
agent_check true none = one (text "driver service") fail not_loaded
agent_check true (some out) =
    if launchctl_pid out == []
    then one (text "driver service") fail not_running
    else one (text "driver service") healthy (running (launchctl_pid out))
