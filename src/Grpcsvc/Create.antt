-- ===== src/Grpcsvc/Create.antt =====
-- internal/grpcsvc/service.go `validateSandbox` and create.go `CreateSandbox`: checking a request and
-- accepting it. Provisioning runs behind the call, as the task that the call leaves in the server.
pub mod Accept
pub mod Refusal
use openshell_driver_appleco.Prelude.{
  ℕ, suc, Bool, true, false, not, List, [], ◌∷◌, ◌++◌, Option, none, some, eqb, if◌then◌else◌,
}
use openshell_driver_appleco.Result.{Result, ok, err, ◌>>=◌, ◌>>◌, fail_if, wrap}
use openshell_driver_appleco.Text.{Text, text, ◌==◌, has_prefix}
use openshell_driver_appleco.Assoc.{lookup, insert}
use openshell_driver_appleco.Config.{Config}
use openshell_driver_appleco.State.{Record, valid_id}
use openshell_driver_appleco.Grpcsvc.DriverConfig.{parse_driver_config, check_driver_config_policy}
use openshell_driver_appleco.Grpcsvc.Quantity.{parse_cpu_quantity, parse_memory_quantity_mb}
use openshell_driver_appleco.Grpcsvc.Conditions.{literal, starting_condition}
use openshell_driver_appleco.Grpcsvc.Proto.{
  DriverSandbox, Spec, read, get_template, get_image, get_driver_config, get_resources, get_token,
  get_command,
}
use openshell_driver_appleco.Grpcsvc.Errors.{
  RpcError, sandbox_required, invalid_sandbox_id, gpu_unsupported, bad_driver_config, invalid_image,
  empty_command, bad_quantity, no_endpoint, encode_failed, sandbox_exists, persist_failed,
}
use openshell_driver_appleco.Grpcsvc.Server.{
  Server, Host, Entry, Task, put, publish_sandbox, publish_platform_event, normal,
}

unfoldable pub container_name : Text → Text
container_name id = text "oshl-" ++ id

-- `len(cmd) > 0 && cmd[0] == ""`
starts_empty : List Text → Bool
starts_empty [] = false
starts_empty (arg ∷ _) = arg == []

-- Each of the texts parses.
all_parse {ℓ} : {E : Type 0} {A : Type ℓ} → (Text → Result E A) → List Text → Result E (Unit {0})
all_parse parse [] = ok tt
all_parse parse (q ∷ qs) = do _ ← parse q; all_parse parse qs

-- The accepted request with its secret token taken out: what is written to disk.
unfoldable pub redact : DriverSandbox → DriverSandbox
redact sb = record sb {
  spec = elim sb.spec [ none ↦ none | some spec ↦ some (record spec { sandbox_token = [] }) ];
}

module _ {W F : Type 0} (host : Host W F) (cfg : Config) where
  open host use {store, floats, now, eval_symlinks, encode_sandbox, has_fields, decode_config}

  -- The checks behind the one for a missing message.
  check_request : W → DriverSandbox → Result RpcError (Unit {0})
  unfolding starts_empty all_parse
  check_request w sb = do
    let template = get_template sb.spec
    let res = get_resources template
    fail_if (not (valid_id sb.id)) (invalid_sandbox_id sb.id)
    fail_if (read false (λ s. s.gpu) sb.spec) gpu_unsupported
    dcfg ←
        wrap bad_driver_config
          (parse_driver_config has_fields decode_config (get_driver_config template))
    wrap bad_driver_config (check_driver_config_policy (eval_symlinks w) cfg dcfg)
    fail_if (has_prefix (get_image template) (text "-")) (invalid_image (get_image template))
    fail_if (starts_empty (get_command sb.spec)) empty_command
    wrap bad_quantity (
        all_parse (parse_cpu_quantity floats)
          (read [] (λ r. r.cpu_request) res ∷ read [] (λ r. r.cpu_limit) res ∷ []))
    wrap bad_quantity (
        all_parse (parse_memory_quantity_mb floats)
          (read [] (λ r. r.memory_request) res ∷ read [] (λ r. r.memory_limit) res ∷ []))

  unfoldable pub validate_sandbox : W → Option DriverSandbox → Result RpcError (Unit {0})
  unfolding check_request
  validate_sandbox w none = err sandbox_required
  validate_sandbox w (some sb) = check_request w sb

  -- The record of an accepted request.
  unfoldable pub new_record : W → DriverSandbox → Text → Record
  new_record w sb encoded = record {
    id = sb.id;
    name = sb.name;
    namespace = cfg.namespace;
    workspace = sb.workspace;
    container_name = container_name sb.id;
    image_ref =
        let image = get_image (get_template sb.spec) in
        if image == [] then cfg.default_image else image;
    image_digest = [];
    created_at = now w;
    stopped = false;
    sandbox = encoded;
  }

  unfoldable pub new_entry : W → Record → Entry
  new_entry w rec = record {
    rec = rec;
    cond = starting_condition (now w);
    deleting = false;
    busy = false;
    cancel = some false;
    done = some false;
  }

  -- Under the lock: refuse a known id, persist the record, and only then register the entry.
  unfoldable pub register : DriverSandbox → Record → Server W → Result RpcError ℕ × Server W
  register sb rec s = elim (lookup rec.id s.sandboxes) [
    | some _ ↦ (err (sandbox_exists rec.id), s)
    | none ↦
        let (r, w) = store.save rec s.world in
        elim r [
          | err x ↦ (err (persist_failed x), record s { world = w })
          | ok _ ↦
              let p = s.next_address in
              (
                ok p,
                record s {
                  world = w;
                  heap = put s.heap p (new_entry w rec);
                  next_address = suc p;
                  sandboxes = insert rec.id p s.sandboxes;
                },
              )
        ]
  ]

  -- The events of an accepted request, and its provisioning task.
  unfoldable pub launch : DriverSandbox → ℕ → Server W → Server W
  launch sb p s =
      let seen = publish_sandbox cfg p s in
      let told =
        publish_platform_event cfg now (seen.heap p).rec.id normal (text "Scheduled")
          (literal (text "Sandbox accepted by the applecontainer driver")) seen in
      record told {
        tasks = record { entry = p; sandbox = sb; token = get_token sb.spec } ∷ told.tasks;
      }

  -- What follows the registration.
  unfoldable pub launch_registered :
      DriverSandbox → Result RpcError ℕ × Server W → Result RpcError (Unit {0}) × Server W
  launch_registered sb (err x, s) = (err x, s)
  launch_registered sb (ok p, s) = (ok tt, launch sb p s)

  unfoldable pub accept : DriverSandbox → Text → Server W → Result RpcError (Unit {0}) × Server W
  unfolding launch_registered
  accept sb encoded s = launch_registered sb (register sb (new_record s.world sb encoded) s)

  -- The call on a message that passed the checks.
  unfoldable pub create_valid : DriverSandbox → Server W → Result RpcError (Unit {0}) × Server W
  create_valid sb s =
      if cfg.grpc_endpoint == [] then (err no_endpoint, s) else (elim (encode_sandbox (redact sb)) [
        | none ↦ (err encode_failed, s)
        | some encoded ↦ accept sb encoded s
      ])

  unfoldable pub create_sandbox :
      Option DriverSandbox → Server W → Result RpcError (Unit {0}) × Server W
  create_sandbox none s = (err sandbox_required, s)
  create_sandbox (some sb) s = elim (validate_sandbox s.world (some sb)) [
    | err x ↦ (err x, s)
    | ok _ ↦ create_valid sb s
  ]

  unfoldable pub validate_sandbox_create :
      Option DriverSandbox → Server W → Result RpcError (Unit {0})
  validate_sandbox_create sb s = validate_sandbox s.world sb
