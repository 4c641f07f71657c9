-- ===== src/Config/Parse.antt =====
-- internal/config/config.go: how the configuration is resolved from flags and the environment. The flag
-- package and the output of the gateway's command are parameters; the warnings are left out.
use openshell_driver_appleco.Prelude.{
  Bool, true, false, not, ◌&&◌, ◌||◌, List, [], ◌++◌, Option, none, some, if◌then◌else◌,
}
use openshell_driver_appleco.Int.{ℤ, pos}
use openshell_driver_appleco.Result.{Result, ok, err}
use openshell_driver_appleco.Text.{Text, text, ◌==◌, has_prefix}
use openshell_driver_appleco.Text.Path.{clean}
use openshell_driver_appleco.Assoc.{lookup}
use openshell_driver_appleco.Config.{Config, pinned_supervisor_image}
use openshell_driver_appleco.Config.Values.{value_or, parse_bool, parse_int, split_list, version_in}

-- The value of each flag that is given, by its name.
pub record Flags : Type 0 where
  pub text_flag : Text → Option Text
  pub int_flag : Text → Option ℤ
  pub bool_flag : Text → Option Bool

-- `home` is `os.UserHomeDir`, `exists` says that `os.Stat` is no error, and `gateway_output` is what the
-- gateway prints as its version.
pub record Surroundings : Type 0 where
  pub env : List (Text × Text)
  pub home : Option Text
  pub exists : Text → Bool
  pub parse_flags : List Text → Option Flags
  pub gateway_output : Option Text

pub data ParseError : Type 0 where
  bad_flags no_socket no_state_dir relative_mount_root relative_policy_file : ParseError

unfoldable pub is_relative : Text → Bool
is_relative path = not (path == []) && not (has_prefix path (text "/"))

unfoldable pub check_config : Config → Result ParseError Config
unfolding is_relative
check_config cfg =
    if cfg.socket == []
    then err no_socket
    else if cfg.state_dir == []
    then err no_state_dir
    else if is_relative cfg.host_mount_root
    then err relative_mount_root
    else if is_relative cfg.network_policy_file
    then err relative_policy_file
    else ok cfg

unfoldable pub is_given {ℓ} : {A : Type ℓ} → Option A → Bool
is_given none = false
is_given (some _) = true

unfoldable pub homebrew_gateway_tls_dir : Text
homebrew_gateway_tls_dir = text "/opt/homebrew/var/openshell/tls"

module _ (host : Surroundings) where
  unfoldable pub env_var : Text → Option Text
  env_var name = lookup (text "OSHL_AC_" ++ name) host.env

  unfoldable pub env_or : Text → Text → Text
  unfolding env_var value_or
  env_or name x = value_or (env_var name) x

  unfoldable pub env_or_int : Text → ℤ → ℤ
  unfolding env_var value_or parse_int
  env_or_int name x = elim (env_var name) [ none ↦ x | some v ↦ value_or (parse_int v) x ]

  unfoldable pub env_or_bool : Text → Bool → Bool
  unfolding env_var value_or parse_bool
  env_or_bool name x = elim (env_var name) [ none ↦ x | some v ↦ value_or (parse_bool v) x ]

  -- `os.Getenv`
  unfoldable pub getenv : Text → Text
  unfolding value_or
  getenv name = value_or (lookup name host.env) []

  unfoldable pub default_state_dir : Text
  unfolding getenv
  default_state_dir =
      let v = getenv (text "XDG_STATE_HOME") in
      if not (v == []) then clean (v ++ text "/openshell-applecontainer") else (elim host.home [
        | none ↦ text "state"
        | some home ↦ clean (home ++ text "/.local/state/openshell-applecontainer")
      ])

  unfoldable pub xdg_tls_dir : Text
  unfolding getenv
  xdg_tls_dir =
      let v = getenv (text "XDG_STATE_HOME") in
      if not (v == []) then clean (v ++ text "/openshell/tls") else (elim host.home [
        | none ↦ []
        | some home ↦ clean (home ++ text "/.local/state/openshell/tls")
      ])

  unfoldable pub has_bundle : Text → Bool
  has_bundle dir = not (dir == []) && host.exists (clean (dir ++ text "/ca.crt"))

  unfoldable pub default_guest_tls_dir : Text
  unfolding getenv homebrew_gateway_tls_dir xdg_tls_dir has_bundle
  default_guest_tls_dir =
      let v = getenv (text "OPENSHELL_LOCAL_TLS_DIR") in
      if not (v == [])
      then v
      else if has_bundle homebrew_gateway_tls_dir
      then homebrew_gateway_tls_dir
      else if has_bundle xdg_tls_dir
      then xdg_tls_dir
      else if not (xdg_tls_dir == [])
      then xdg_tls_dir
      else homebrew_gateway_tls_dir

  -- The flags over the environment over the defaults.
  unfoldable pub resolved : Flags → Config
  unfolding env_or env_or_int env_or_bool default_state_dir default_guest_tls_dir split_list
      is_given value_or
  resolved flags =
      let tls_dir = default_guest_tls_dir in
      let setting : Text → Text → Text → Text =
        λ name variable x. value_or (flags.text_flag name) (env_or variable x) in
      record {
        socket = setting (text "socket") (text "SOCKET") (text "/tmp/oshl-ac/driver.sock");
        state_dir = setting (text "state-dir") (text "STATE_DIR") default_state_dir;
        network = setting (text "network") (text "NETWORK") (text "oshl");
        default_image =
            setting (text "default-image") (text "DEFAULT_IMAGE")
              (text "ghcr.io/nvidia/openshell-community/sandboxes/base:latest");
        supervisor_image =
            setting (text "supervisor-image") (text "SUPERVISOR_IMAGE") pinned_supervisor_image;
        supervisor_image_explicit =
            is_given (env_var (text "SUPERVISOR_IMAGE"))
            || is_given (flags.text_flag (text "supervisor-image"));
        grpc_endpoint = setting (text "grpc-endpoint") (text "GRPC_ENDPOINT") [];
        guest_tls_ca =
            setting (text "guest-tls-ca") (text "GUEST_TLS_CA") (clean (tls_dir ++ text "/ca.crt"));
        guest_tls_cert =
            setting (text "guest-tls-cert") (text "GUEST_TLS_CERT")
              (clean (tls_dir ++ text "/client/tls.crt"));
        guest_tls_key =
            setting (text "guest-tls-key") (text "GUEST_TLS_KEY")
              (clean (tls_dir ++ text "/client/tls.key"));
        namespace = setting (text "namespace") (text "NAMESPACE") (text "default");
        cpus = value_or (flags.int_flag (text "cpus")) (env_or_int (text "CPUS") (pos 2));
        memory_mb =
            value_or (flags.int_flag (text "memory")) (env_or_int (text "MEMORY_MB") (pos 2048));
        kernel = setting (text "kernel") (text "KERNEL") [];
        allow_host_mounts =
            value_or (flags.bool_flag (text "allow-host-mounts"))
              (env_or_bool (text "ALLOW_HOST_MOUNTS") false);
        host_mount_root = setting (text "host-mount-root") (text "HOST_MOUNT_ROOT") [];
        allowed_networks =
            split_list (setting (text "allowed-networks") (text "ALLOWED_NETWORKS") []);
        network_policy_file = setting (text "network-policy-file") (text "NETWORK_POLICY_FILE") [];
        log_level = setting (text "log-level") (text "LOG_LEVEL") (text "info");
      }

  unfoldable pub with_flags : Option Flags → Result ParseError Config
  unfolding check_config resolved
  with_flags none = err bad_flags
  with_flags (some flags) = check_config (resolved flags)

  unfoldable pub parse_config : List Text → Result ParseError Config
  unfolding with_flags
  parse_config args = with_flags (host.parse_flags args)

  unfoldable pub resolve_supervisor_image : Config → Config
  unfolding version_in
  resolve_supervisor_image cfg =
      let version = version_in host.gateway_output in
      if cfg.supervisor_image_explicit || version == []
      then cfg
      else record cfg { supervisor_image = text "ghcr.io/nvidia/openshell/supervisor:" ++ version }
