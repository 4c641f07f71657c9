-- ===== src/Grpcsvc/Env.antt =====
-- internal/grpcsvc/env.go: the environment of a sandbox's guest. The two JSON encoders are parameters.
-- A map is an association list, in any order.
pub mod Owned
pub mod Names
use openshell_driver_appleco.Prelude.{
  ℕ, Bool, true, false, ◌||◌, List, [], ◌∷◌, ◌++◌, Option, none, some, any, if◌then◌else◌,
}
use openshell_driver_appleco.Result.{Result, ok, err, ◌>>=◌, ◌>>◌, fail_if}
use openshell_driver_appleco.Text.{
  Text, text, ◌==◌, has_prefix, contains_any, contains_code, trim_space,
}
use openshell_driver_appleco.Assoc.{insert}
use openshell_driver_appleco.Config.{Config}
use openshell_driver_appleco.Backend.{Labels}
use openshell_driver_appleco.Grpcsvc.Proto.{
  DriverSandbox, Spec, Template, read, get_template, get_command,
}

abbrev pub env_user_environment : Text
env_user_environment = text "OPENSHELL_USER_ENVIRONMENT"

unfoldable pub driver_owned_env : List Text
driver_owned_env =
    text "OPENSHELL_ENDPOINT"
    ∷ text "OPENSHELL_SANDBOX_ID"
    ∷ text "OPENSHELL_SANDBOX"
    ∷ text "OPENSHELL_SSH_SOCKET_PATH"
    ∷ text "OPENSHELL_MAIN_PROCESS_SPEC"
    ∷ text "OPENSHELL_LOG_LEVEL"
    ∷ text "OPENSHELL_TELEMETRY_ENABLED"
    ∷ text "OPENSHELL_NETWORK_RUNTIME_CAPABILITIES"
    ∷ text "OPENSHELL_USER_ENVIRONMENT"
    ∷ text "OPENSHELL_TLS_CA"
    ∷ text "OPENSHELL_TLS_CERT"
    ∷ text "OPENSHELL_TLS_KEY"
    ∷ text "OPENSHELL_GATEWAY_TLS_SERVER_NAME"
    ∷ text "OPENSHELL_SANDBOX_TOKEN"
    ∷ text "OPENSHELL_SANDBOX_TOKEN_FILE"
    ∷ text "OPENSHELL_OCI_IMAGE_USER"
    ∷ text "OPENSHELL_SANDBOX_UID"
    ∷ text "OPENSHELL_SANDBOX_GID"
    ∷ text "PATH"
    ∷ []

unfoldable pub is_owned : Text → Bool
unfolding driver_owned_env
is_owned k = any (λ o. o == k) driver_owned_env

pub record MainProcess : Type 0 where
  pub command : List Text
  pub tty : Bool

-- The command of the sandbox, or the default one.
unfoldable pub main_process : List Text → Bool → MainProcess
main_process [] tty = record { command = text "/bin/bash" ∷ text "-l" ∷ []; tty = true }
main_process (arg ∷ args) tty = record { command = arg ∷ args; tty = tty }

unfoldable pub main_process_from_spec : Option Spec → MainProcess
unfolding main_process
main_process_from_spec spec = main_process (get_command spec) (read false (λ s. s.tty) spec)

pub data EnvError : Type 0 where
  empty_name : EnvError
  invalid_variable : Text → EnvError
  user_unencodable main_unencodable : EnvError

-- Assignments, one after the other.
unfoldable pub overlay : Labels → Labels → Labels
overlay m [] = m
overlay m ((k, v) ∷ more) = overlay (insert k v m) more

unfoldable pub base_env : Labels
base_env =
    (text "HOME", text "/root")
    ∷ (text "PATH", text "/usr/local/sbin:/usr/local/bin:/usr/sbin:/usr/bin:/sbin:/bin")
    ∷ (text "TERM", text "xterm")
    ∷ []

-- The loop over the user's variables: those that are kept.
unfoldable pub kept_user : Labels → Result EnvError Labels
kept_user [] = ok []
kept_user ((k, v) ∷ user) = do
  let rest = kept_user user
  fail_if (trim_space k == []) empty_name
  fail_if (contains_any k (b'=' ∷ 0 ∷ []) || contains_code v 0) (invalid_variable k)
  kept ← rest
  ok (if is_owned k then kept else (k, v) ∷ kept)

-- The driver's own assignments, last.
unfoldable pub driver_env : Config → DriverSandbox → Bool → Text → Labels
driver_env cfg sb has_token main =
    let template = get_template sb.spec in
    let asked_level = read [] (λ s. s.log_level) sb.spec in
    let asked_socket = read [] (λ t. t.agent_socket_path) template in
    (text "OPENSHELL_ENDPOINT", cfg.grpc_endpoint)
    ∷ (text "OPENSHELL_SANDBOX_ID", sb.id)
    ∷ (text "OPENSHELL_SANDBOX", sb.name)
    ∷ (
      text "OPENSHELL_SSH_SOCKET_PATH",
      if asked_socket == [] then text "/run/openshell/ssh.sock" else asked_socket,
    )
    ∷ (text "OPENSHELL_MAIN_PROCESS_SPEC", main)
    ∷ (text "OPENSHELL_LOG_LEVEL", if asked_level == [] then cfg.log_level else asked_level)
    ∷ (text "OPENSHELL_TELEMETRY_ENABLED", text "false")
    ∷ (text "OPENSHELL_NETWORK_RUNTIME_CAPABILITIES", [])
    ∷ (text "OPENSHELL_SANDBOX_UID", [])
    ∷ (text "OPENSHELL_SANDBOX_GID", [])
    ∷ ((if has_prefix cfg.grpc_endpoint (text "https://")
          then (text "OPENSHELL_TLS_CA", text "/openshell-seed/tls/ca.crt")
            ∷ (text "OPENSHELL_TLS_CERT", text "/openshell-seed/tls/tls.crt")
            ∷ (text "OPENSHELL_TLS_KEY", text "/openshell-seed/tls/tls.key")
            ∷ []
          else [])
        ++ (if has_token
            then (text "OPENSHELL_SANDBOX_TOKEN_FILE", text "/openshell-seed/auth/sandbox.jwt") ∷ []
            else []))

-- The template's variables and then the spec's.
unfoldable pub user_env : DriverSandbox → Labels
user_env sb =
    overlay (overlay [] (read [] (λ t. t.environment) (get_template sb.spec)))
      (read [] (λ s. s.environment) sb.spec)

module _ (encode_user : Labels → Option Text) (encode_main : MainProcess → Option Text) where
  -- `env[envUserEnvironment] = ...`, if a variable is kept.
  unfoldable pub add_user : Labels → Labels → Result EnvError Labels
  add_user [] env = ok env
  add_user (x ∷ kept) env = elim (encode_user (x ∷ kept)) [
    | none ↦ err user_unencodable
    | some blob ↦ ok (insert env_user_environment blob env)
  ]

  unfoldable pub sandbox_env : Config → DriverSandbox → Bool → Result EnvError Labels
  unfolding add_user
  sandbox_env cfg sb has_token = do
    kept ← kept_user (user_env sb)
    env ← add_user kept (overlay base_env kept)
    elim (encode_main (main_process_from_spec sb.spec)) [
      | none ↦ err main_unencodable
      | some main ↦ ok (overlay env (driver_env cfg sb has_token main))
    ]
