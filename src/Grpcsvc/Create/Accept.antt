-- ===== src/Grpcsvc/Create/Accept.antt =====
-- internal/grpcsvc/create.go `CreateSandbox`: what an accepted request does to the server.
use openshell_driver_appleco.Prelude.{
  ℕ, suc, false, [], ◌∷◌, none, some, ◌≡◌, ◌≢◌, ◌⊎◌, inl, inr, refl, arith, eqb_iff, Option-cases,
  Bool-cases, if◌then◌else◌,
}
use openshell_driver_appleco.Result.{Result, ok, err, Result-cases}
use openshell_driver_appleco.Text.{Text, ◌==◌}
use openshell_driver_appleco.Text.Laws.{eq_iff}
use openshell_driver_appleco.Assoc.{lookup, insert, lookup-insert}
use openshell_driver_appleco.Config.{Config}
use openshell_driver_appleco.State.{Record}
use openshell_driver_appleco.Grpcsvc.Conditions.{starting, starting_condition}
use openshell_driver_appleco.Grpcsvc.Proto.{DriverSandbox, get_token}
use openshell_driver_appleco.Grpcsvc.Errors.{RpcError}
use openshell_driver_appleco.Grpcsvc.Server.{
  Server, Host, put, publish_sandbox, publish_platform_event,
}
use openshell_driver_appleco.Grpcsvc.Create.{
  validate_sandbox, new_record, new_entry, register, launch, launch_registered, accept,
  create_valid, create_sandbox, redact,
}

module _ {W F : Type 0} (host : Host W F) (cfg : Config) where
  -- What an accepted request has done.
  pub record Accepted (sb : DriverSandbox) (s t : Server W) : Type 0 where
    pub valid : validate_sandbox host cfg s.world (some sb) ≡ ok tt
    pub endpoint : cfg.grpc_endpoint ≢ []
    pub fresh : lookup sb.id s.sandboxes ≡ none
    pub registered :
        (k : Text)
        → lookup k t.sandboxes ≡ (if sb.id == k then some s.next_address else lookup k s.sandboxes)
    pub next : t.next_address ≡ suc s.next_address
    pub others : (q : ℕ) → (q ≡ s.next_address) ⊎ (t.heap q ≡ s.heap q)
    pub identity : (t.heap s.next_address).rec.id ≡ sb.id
    pub is_starting : (t.heap s.next_address).cond.reason ≡ starting
    pub in_flight : (t.heap s.next_address).done ≡ some false
    pub saved : (host.store.save (t.heap s.next_address).rec s.world).0 ≡ ok tt
    pub redacted : host.encode_sandbox (redact sb) ≡ some (t.heap s.next_address).rec.sandbox
    pub token_free : get_token (redact sb).spec ≡ []
    pub task :
        t.tasks
        ≡ record { entry = s.next_address; sandbox = sb; token = get_token sb.spec } ∷ s.tasks

  -- The server once the record is saved and the entry registered.
  abbrev registered_server : Record → Server W → Server W
  registered_server rec s =
      let w = (host.store.save rec s.world).1 in
      record s {
        world = w;
        heap = put s.heap s.next_address (new_entry host cfg w rec);
        next_address = suc s.next_address;
        sandboxes = insert rec.id s.next_address s.sandboxes;
      }

  register_ok :
      (sb : DriverSandbox) (rec : Record) (s : Server W) (p : ℕ)
      → (register host cfg sb rec s).0 ≡ ok p
      → (lookup rec.id s.sandboxes ≡ none)
        × ((host.store.save rec s.world).0 ≡ ok tt)
        × (register host cfg sb rec s ≡ (ok s.next_address, registered_server rec s))
  unfolding register
  register_ok sb rec s p h = ground arith

  redact-token : (sb : DriverSandbox) → get_token (redact sb).spec ≡ []
  unfolding redact
  redact-token sb = ground arith

  launch-Accepted :
      (sb : DriverSandbox) (encoded : Text) (s : Server W)
      → validate_sandbox host cfg s.world (some sb) ≡ ok tt
      → (cfg.grpc_endpoint == []) ≡ false
      → host.encode_sandbox (redact sb) ≡ some encoded
      → let rec = new_record host cfg s.world sb encoded in
        lookup rec.id s.sandboxes ≡ none
        → (host.store.save rec s.world).0 ≡ ok tt
        → Accepted sb s (launch host cfg sb s.next_address (registered_server rec s))
  unfolding launch new_record new_entry starting_condition publish_sandbox publish_platform_event
  launch-Accepted sb encoded s v b e f g = record {
    valid = v;
    endpoint = λ x. ground (arith, eq_iff cfg.grpc_endpoint []);
    fresh = f;
    registered = λ k. lookup-insert sb.id k s.next_address s.sandboxes;
    next = refl;
    others = λ q. ground (arith, eqb_iff s.next_address q);
    identity = ground arith;
    is_starting = ground arith;
    in_flight = ground arith;
    saved = ground (arith, g);
    redacted = ground (arith, e);
    token_free = redact-token sb;
    task = refl;
  }

  launch_registered_err :
      (sb : DriverSandbox) (r : Result RpcError ℕ × Server W) (x : RpcError)
      → r.0 ≡ err x
      → (launch_registered host cfg sb r).0 ≢ ok tt
  unfolding launch_registered
  launch_registered_err sb (err y, t) x f g = ground arith
  launch_registered_err sb (ok p, t) x f g = ground arith

  accept-Accepted :
      (sb : DriverSandbox) (encoded : Text) (s : Server W)
      → validate_sandbox host cfg s.world (some sb) ≡ ok tt
      → (cfg.grpc_endpoint == []) ≡ false
      → host.encode_sandbox (redact sb) ≡ some encoded
      → (accept host cfg sb encoded s).0 ≡ ok tt
      → Accepted sb s (accept host cfg sb encoded s).1
  unfolding accept launch_registered
  accept-Accepted sb encoded s v b e h =
      let rec = new_record host cfg s.world sb encoded in
      elim (Result-cases (register host cfg sb rec s).0) [
        | inr (x, f) ↦ absurd (launch_registered_err sb (register host cfg sb rec s) x f h)
        | inl (p, f) ↦
            let (fresh, saved, r) = register_ok sb rec s p f in
            rw r (launch-Accepted sb encoded s v b e fresh saved)
      ]

  create_valid-Accepted :
      (sb : DriverSandbox) (s : Server W)
      → validate_sandbox host cfg s.world (some sb) ≡ ok tt
      → (create_valid host cfg sb s).0 ≡ ok tt
      → Accepted sb s (create_valid host cfg sb s).1
  unfolding create_valid
  create_valid-Accepted sb s v h = elim (Bool-cases (cfg.grpc_endpoint == [])) [
    | inl b ↦ absurd (ground (arith, b))
    | inr b ↦ elim (Option-cases (host.encode_sandbox (redact sb))) [
      | inl e ↦ absurd (ground (arith, b, e))
      | inr (encoded, e) ↦
          rw b (rw (e, create_valid) (accept-Accepted sb encoded s v b e (rw (b, e) at h)))
    ]
  ]

  -- A create request that returns without an error came from a message that passes the checks, on a
  -- configured endpoint, with an id that the registry did not hold. The registry then maps that id to
  -- the new entry and every other id as before, the other entries are as they were, the new entry is
  -- in flight with the starting condition, its record is saved and holds the request without its
  -- token, and one provisioning task for it, with the token, is started.
  pub create_sandbox-Accepted :
      (sb : DriverSandbox) (s : Server W)
      → (create_sandbox host cfg (some sb) s).0 ≡ ok tt
      → Accepted sb s (create_sandbox host cfg (some sb) s).1
  unfolding create_sandbox
  create_sandbox-Accepted sb s h =
      elim (Result-cases (validate_sandbox host cfg s.world (some sb))) [
        | inl (tt, e) ↦
            rw (e, create_sandbox) (create_valid-Accepted sb s e (rw (e, create_sandbox) at h))
        | inr (y, e) ↦ absurd (ground (arith, e))
      ]
