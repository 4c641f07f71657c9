-- ===== src/Grpcsvc/Lifecycle/Laws.antt =====
-- internal/grpcsvc/lifecycle.go: the ways in which a stop or start goes, whatever others do meanwhile.
use openshell_driver_appleco.Prelude.{
  ℕ, Bool, true, false, not, none, some, ◌≡◌, ◌⊎◌, inl, inr, refl, arith, Option-cases, Bool-cases,
}
use openshell_driver_appleco.Result.{Result, ok, err, Result-cases}
use openshell_driver_appleco.Text.{Text, text}
use openshell_driver_appleco.Config.{Config}
use openshell_driver_appleco.Backend.{RuntimeError, is_not_found, Outcome}
use openshell_driver_appleco.State.{StoreError}
use openshell_driver_appleco.Grpcsvc.Conditions.{Condition, stopped_condition, ready_true_condition}
use openshell_driver_appleco.Grpcsvc.Errors.{
  RpcError, ProvisionError, sandbox_not_found, lifecycle_unsaved,
}
use openshell_driver_appleco.Grpcsvc.Server.{Server, Host, write, lookup_locked}
use openshell_driver_appleco.Grpcsvc.Lifecycle.{
  refusal, begin_lifecycle, release, set_intent, set_stopped, report, settle, verify, operate,
  bracket, stop_sandbox, start_sandbox,
}

module _ {W F : Type 0} (host : Host W F) (cfg : Config) (others : Server W → Server W) where
  -- The server behind the runtime's operation, and behind the look that follows its error.
  abbrev pub asked : (Text → W → Outcome W (Unit {0})) → Text → Server W → Server W
  asked op name s = record (others s) { world = (op name (others s).world).1 }

  abbrev pub looked : (Text → W → Outcome W (Unit {0})) → Text → Server W → Server W
  looked op name s =
      let t = others (asked op name s) in record t { world = (host.runtime.get name t.world).1 }

  -- The call saw the VM in the wanted state, and `t` is the server behind that: the operation
  -- succeeded, or failed and the look behind it found the VM in that state all the same.
  abbrev pub Observed :
      (Text → W → Outcome W (Unit {0})) → Bool → Text → Server W → Server W → Type 0
  Observed op running name s t =
      (((op name (others s).world).0 ≡ ok tt) × (t ≡ asked op name s))
      ⊎ ((x : RuntimeError) × ((op name (others s).world).0 ≡ err x)
          × (verify running (host.runtime.get name (others (asked op name s)).world).0 ≡ true)
          × (t ≡ looked op name s))

  -- The intent, on the entry and in what is saved.
  abbrev pub intended : ℕ → Bool → Server W → Server W
  intended p stopped s = set_intent host cfg p stopped (others s)

  abbrev pub saved : ℕ → Bool → Server W → Server W
  saved p stopped s =
      let t = intended p stopped s in
      let u = others t in record u { world = (host.store.save (t.heap p).rec u.world).1 }

  -- What the store answers to that save.
  abbrev pub save_answer : ℕ → Bool → Server W → Result StoreError (Unit {0})
  save_answer p stopped s =
      let t = intended p stopped s in (host.store.save (t.heap p).rec (others t).world).0

  pub settle_cases {ℓ} :
      (P : Result RpcError (Unit {0}) × Server W → Type ℓ) (p : ℕ) (stopped : Bool)
      (cond : ℕ → Condition ProvisionError) (reason message : Text) (s : Server W)
      → (save_answer p stopped s ≡ ok tt
          → let t = others (saved p stopped s) in
            P (ok tt, report host cfg others p (cond (host.now t.world)) reason message t))
      → ((y : StoreError)
          → save_answer p stopped s ≡ err y
          → P (err (lifecycle_unsaved y), saved p stopped s))
      → P (settle host cfg others p stopped cond reason message s)
  unfolding settle set_stopped
  settle_cases P p stopped cond reason message s done failed =
      elim (Result-cases (save_answer p stopped s)) [
        | inl (tt, e) ↦ rw (e, settle) (done e)
        | inr (y, e) ↦ rw (e, settle) (failed y e)
      ]

  module _ (op : Text → W → Outcome W (Unit {0})) (running : Bool)
      (finish : ℕ → Server W → Result RpcError (Unit {0}) × Server W) where
    -- The body ends in `finish` with the VM seen in the wanted state, or in an error behind the
    -- operation or the look.
    pub operate_cases {ℓ} :
        (P : Result RpcError (Unit {0}) × Server W → Type ℓ) (p : ℕ) (s : Server W)
        → ((t : Server W) → Observed op running (s.heap p).rec.container_name s t → P (finish p t))
        → ((x : RpcError) → P (err x, asked op (s.heap p).rec.container_name s))
        → ((x : RpcError) → P (err x, looked op (s.heap p).rec.container_name s))
        → P (operate host cfg others op running finish p s)
    unfolding operate
    operate_cases P p s done gone failed =
        let name = (s.heap p).rec.container_name in
        elim (Result-cases (op name (others s).world).0) [
          | inl (tt, e) ↦ rw (e, operate) (done (asked op name s) (inl (e, refl)))
          | inr (x, e) ↦ elim (Bool-cases (is_not_found x)) [
            | inl b ↦ rw (e, operate) (rw b (gone _))
            | inr b ↦
                elim (Bool-cases
                  (verify running (host.runtime.get name (others (asked op name s)).world).0)) [
                    | inl v ↦
                        rw (e, operate)
                          (rw b (rw v (done (looked op name s) (inr (x, e, v, refl)))))
                    | inr v ↦ rw (e, operate) (rw b (rw v (failed _)))
                  ]
          ]
        ]

  -- The call is refused with the server as it was, or the entry is marked.
  pub begin_cases :
      (id name : Text) (s : Server W)
      → ((x : RpcError) × (begin_lifecycle host cfg id name s ≡ (err x, s)))
        ⊎ ((p : ℕ) × (lookup_locked id name s ≡ some p)
            × (refusal (s.heap p) ≡ none)
            × (begin_lifecycle host cfg id name s
                ≡ (ok p, write p (record (s.heap p) { busy = true }) s)))
  unfolding begin_lifecycle
  begin_cases id name s = elim (Option-cases (lookup_locked id name s)) [
    | inl e ↦ inl (sandbox_not_found id, ground arith)
    | inr (p, e) ↦ elim (Option-cases (refusal (s.heap p))) [
      | inl f ↦ inr (p, e, f, ground arith)
      | inr (x, f) ↦ inl (x, ground arith)
    ]
  ]

  -- The server behind `beginLifecycle` of the entry at `p`.
  abbrev pub marked : ℕ → Server W → Server W
  marked p s = write p (record (s.heap p) { busy = true }) s

  -- The whole call: `p` is marked busy, the body runs, `p` is released.
  bracket_cases {ℓ} :
      (P : Result RpcError (Unit {0}) × Server W → Type ℓ) (id name : Text)
      (body : ℕ → Server W → Result RpcError (Unit {0}) × Server W) (s : Server W)
      → ((x : RpcError) → P (err x, s))
      → ((p : ℕ)
          → lookup_locked id name s ≡ some p
          → refusal (s.heap p) ≡ none
          → P ((body p (marked p s)).0, release host cfg p (others (body p (marked p s)).1)))
      → P (bracket host cfg others id name body s)
  unfolding bracket
  bracket_cases P id name body s refused run = elim (begin_cases id name s) [
    | inl (x, e) ↦ rw e (refused x)
    | inr (p, e, f, b) ↦ rw b (run p e f)
  ]

  -- The two calls: `true` starts, `false` stops.
  abbrev pub call : Bool → Text → Text → Server W → Result RpcError (Unit {0}) × Server W
  call true id name s = start_sandbox host cfg others id name s
  call false id name s = stop_sandbox host cfg others id name s

  abbrev pub operation : Bool → Text → W → Outcome W (Unit {0})
  operation true = host.runtime.start
  operation false = host.runtime.stop

  abbrev pub condition : Bool → ℕ → Condition ProvisionError
  condition true = ready_true_condition
  condition false = stopped_condition

  abbrev pub event_reason : Bool → Text
  event_reason true = text "Started"
  event_reason false = text "Stopped"

  abbrev pub event_message : Bool → Text
  event_message true = text "Sandbox VM started"
  event_message false = text "Sandbox VM stopped"

  abbrev pub finish : Bool → ℕ → Server W → Result RpcError (Unit {0}) × Server W
  finish running p =
      settle host cfg others p (not running) (condition running) (event_reason running)
        (event_message running)

  abbrev pub body : Bool → ℕ → Server W → Result RpcError (Unit {0}) × Server W
  body running = operate host cfg others (operation running) running (finish running)

  pub call-bracket :
      (running : Bool) (id name : Text) (s : Server W)
      → call running id name s ≡ bracket host cfg others id name (body running) s
  unfolding stop_sandbox start_sandbox
  call-bracket true id name s = refl
  call-bracket false id name s = refl

  -- The ways of a call. A refused one has done nothing. One that is behind `beginLifecycle` of `p`
  -- ends in the release of `p`: with an error of the runtime, or with the VM seen in the wanted state
  -- and then with an error of the store, or with the record saved and the condition reported.
  pub call_cases {ℓ} :
      (P : Result RpcError (Unit {0}) × Server W → Type ℓ) (running : Bool) (id name : Text)
      (s : Server W)
      → ((x : RpcError) → P (err x, s))
      → ((p : ℕ) (x : RpcError)
          → let vm = ((marked p s).heap p).rec.container_name in
            P (err x, release host cfg p (others (asked (operation running) vm (marked p s)))))
      → ((p : ℕ) (x : RpcError)
          → let vm = ((marked p s).heap p).rec.container_name in
            P (err x, release host cfg p (others (looked (operation running) vm (marked p s)))))
      → ((p : ℕ) (t : Server W) (y : StoreError)
          → Observed
              (operation running)
              running
              ((marked p s).heap p).rec.container_name
              (marked p s)
              t
          → save_answer p (not running) t ≡ err y
          → P (err (lifecycle_unsaved y), release host cfg p (others (saved p (not running) t))))
      → ((p : ℕ) (t : Server W)
          → lookup_locked id name s ≡ some p
          → refusal (s.heap p) ≡ none
          → Observed
              (operation running)
              running
              ((marked p s).heap p).rec.container_name
              (marked p s)
              t
          → save_answer p (not running) t ≡ ok tt
          → let u = others (saved p (not running) t) in
            P (
              ok tt,
              release host cfg p (
                  others (
                    report host cfg others p
                      (condition running (host.now u.world))
                      (event_reason running)
                      (event_message running)
                      u)),
            ))
      → P (call running id name s)
  call_cases P running id name s refused gone failed unsaved done =
      rw (call-bracket running id name s) (
        bracket_cases P id name (body running) s refused (λ p e f.
          let Q : Result RpcError (Unit {0}) × Server W → Type _ =
            λ r. P (r.0, release host cfg p (others r.1)) in
          operate_cases (operation running) running (finish running) Q p (marked p s)
            (λ t o.
              settle_cases Q p (not running) (condition running) (event_reason running)
                (event_message running) t (λ h. done p t e f o h) (λ y h. unsaved p t y o h))
            (gone p) (failed p)))
