-- ===== src/Grpcsvc/Create/Refusal.antt =====
-- internal/grpcsvc/create.go `CreateSandbox`: what a refused request does to the server.
use openshell_driver_appleco.Prelude.{
  ℕ, [], Option, none, some, ◌≡◌, inl, inr, refl, arith, Option-cases, Bool-cases,
}
use openshell_driver_appleco.Result.{Result, ok, err, Result-cases}
use openshell_driver_appleco.Text.{Text, ◌==◌}
use openshell_driver_appleco.Config.{Config}
use openshell_driver_appleco.State.{Record}
use openshell_driver_appleco.Grpcsvc.Proto.{DriverSandbox}
use openshell_driver_appleco.Grpcsvc.Errors.{RpcError}
use openshell_driver_appleco.Grpcsvc.Server.{Server, Host}
use openshell_driver_appleco.Grpcsvc.Create.{
  validate_sandbox, new_record, register, launch_registered, accept, create_valid, create_sandbox,
  redact,
}

module _ {W F : Type 0} (host : Host W F) (cfg : Config) where
  -- A refused request has at most moved the host on: no entry, no task and no event.
  pub record Untouched (s t : Server W) : Type 0 where
    pub heap : t.heap ≡ s.heap
    pub next_address : t.next_address ≡ s.next_address
    pub sandboxes : t.sandboxes ≡ s.sandboxes
    pub hub : t.hub ≡ s.hub
    pub tasks : t.tasks ≡ s.tasks

  register-Untouched :
      (sb : DriverSandbox) (rec : Record) (s : Server W) (x : RpcError)
      → (register host cfg sb rec s).0 ≡ err x
      → Untouched s (register host cfg sb rec s).1
  unfolding register
  register-Untouched sb rec s x h = ground arith

  Untouched-refl : (s : Server W) → Untouched s s
  Untouched-refl s = record {
    heap = refl;
    next_address = refl;
    sandboxes = refl;
    hub = refl;
    tasks = refl;
  }

  launch_registered-Untouched :
      (sb : DriverSandbox) (s : Server W) (x : RpcError) (r : Result RpcError ℕ × Server W)
      → ((y : RpcError) → r.0 ≡ err y → Untouched s r.1)
      → (launch_registered host cfg sb r).0 ≡ err x
      → Untouched s (launch_registered host cfg sb r).1
  unfolding launch_registered
  launch_registered-Untouched sb s x (err y, t) u g = u y refl
  launch_registered-Untouched sb s x (ok p, t) u g = absurd (ground arith)

  accept-Untouched :
      (sb : DriverSandbox) (encoded : Text) (s : Server W) (x : RpcError)
      → (accept host cfg sb encoded s).0 ≡ err x
      → Untouched s (accept host cfg sb encoded s).1
  unfolding accept launch_registered
  accept-Untouched sb encoded s x h =
      launch_registered-Untouched sb s x
        (register host cfg sb (new_record host cfg s.world sb encoded) s)
        (register-Untouched sb (new_record host cfg s.world sb encoded) s) h

  create_valid-Untouched :
      (sb : DriverSandbox) (s : Server W) (x : RpcError)
      → (create_valid host cfg sb s).0 ≡ err x
      → Untouched s (create_valid host cfg sb s).1
  unfolding create_valid
  create_valid-Untouched sb s x h = elim (Bool-cases (cfg.grpc_endpoint == [])) [
    | inl b ↦ rw b (Untouched-refl s)
    | inr b ↦ elim (Option-cases (host.encode_sandbox (redact sb))) [
      | inl e ↦ rw b (rw (e, create_valid) (Untouched-refl s))
      | inr (encoded, e) ↦
          rw b (rw (e, create_valid) (accept-Untouched sb encoded s x (rw (b, e) at h)))
    ]
  ]

  -- A create request that is refused, by the checks, for a missing endpoint, for an id that is taken
  -- or because its record could not be saved, leaves no entry, no event and no task behind.
  pub create_sandbox-Untouched :
      (sb : Option DriverSandbox) (s : Server W) (x : RpcError)
      → (create_sandbox host cfg sb s).0 ≡ err x
      → Untouched s (create_sandbox host cfg sb s).1
  unfolding create_sandbox
  create_sandbox-Untouched none s x h = Untouched-refl s
  create_sandbox-Untouched (some sb) s x h =
      elim (Result-cases (validate_sandbox host cfg s.world (some sb))) [
        | inl (_, e) ↦
            rw (e, create_sandbox) (create_valid-Untouched sb s x (rw (e, create_sandbox) at h))
        | inr (y, e) ↦ rw (e, create_sandbox) (Untouched-refl s)
      ]
