-- ===== src/Grpcsvc/Env/Owned.antt =====
-- internal/grpcsvc/env.go, `sandboxEnv`: the variables that the driver owns do not depend on the user's.
use openshell_driver_appleco.Prelude.{
  Bool, true, false, [], ◌∷◌, Option, none, some, All, ◌≡◌, ◌≢◌, inl, inr, refl, arith, ap, sym,
  ◌∙◌, Bool-cases, Option-cases, if◌then◌else◌,
}
use openshell_driver_appleco.Result.{ok, Result-cases}
use openshell_driver_appleco.Text.{Text, ◌==◌}
use openshell_driver_appleco.Text.Laws.{eq_iff}
use openshell_driver_appleco.Assoc.{lookup, insert, lookup-insert}
use openshell_driver_appleco.Config.{Config}
use openshell_driver_appleco.Backend.{Labels}
use openshell_driver_appleco.Grpcsvc.Proto.{DriverSandbox, Spec, Template}
use openshell_driver_appleco.Grpcsvc.Env.{
  env_user_environment, is_owned, MainProcess, main_process_from_spec, overlay, base_env, kept_user,
  driver_env, user_env, add_user, sandbox_env,
}

-- No variable of the list is the driver's.
abbrev Unowned : Labels → Type 0
Unowned m = All (λ (x : Text × Text). is_owned x.0 ≡ false) m

kept_user-Unowned : (m kept : Labels) → kept_user m ≡ ok kept → Unowned kept
unfolding kept_user
kept_user-Unowned [] kept h = ground arith
kept_user-Unowned ((k, v) ∷ m) kept h = elim (Result-cases (kept_user m)) [
  | inr (x, e) ↦ absurd (ground (arith, e))
  | inl (rest, e) ↦ ground (arith, e, kept_user-Unowned m rest e)
]

overlay-Unowned :
    (k : Text) (m kept : Labels)
    → is_owned k ≡ true
    → Unowned kept
    → lookup k (overlay m kept) ≡ lookup k m
unfolding overlay
overlay-Unowned k m [] o u = refl
overlay-Unowned k m ((j, v) ∷ kept) o (here, u) =
    overlay-Unowned k (insert j v m) kept o u ∙ lookup-insert j k v m ∙ elim (Bool-cases (j == k)) [
      | inr miss ↦ rw miss refl
      | inl hit ↦ absurd (ground (arith, ap is_owned ((eq_iff j k).0 hit), here, o))
    ]

overlay-lookup :
    (k : Text) (m n more : Labels)
    → lookup k m ≡ lookup k n
    → lookup k (overlay m more) ≡ lookup k (overlay n more)
unfolding overlay
overlay-lookup k m n [] h = h
overlay-lookup k m n ((j, v) ∷ more) h = overlay-lookup k (insert j v m) (insert j v n) more (
    lookup-insert j k v m
    ∙ ap (λ (o : Option Text). if j == k then some v else o) h
    ∙ sym (lookup-insert j k v n))

-- The request with the user's variables left out.
abbrev bare_template : Option Template → Option Template
bare_template none = none
bare_template (some t) = some (record t { environment = [] })

abbrev bare_spec : Option Spec → Option Spec
bare_spec none = none
bare_spec (some s) = some (record s { environment = []; template = bare_template s.template })

abbrev pub bare : DriverSandbox → DriverSandbox
bare sb = record sb { spec = bare_spec sb.spec }

-- Leaving them out changes nothing else that the environment is made from.
abbrev Alike : Config → Option Spec → DriverSandbox → Type 0
Alike cfg spec sb =
    let plain = record sb { spec = bare_spec spec } in
    let full = record sb { spec = spec } in
    (main_process_from_spec (bare_spec spec) ≡ main_process_from_spec spec)
    × ((tok : Bool) (main : Text) → driver_env cfg plain tok main ≡ driver_env cfg full tok main)
    × (user_env plain ≡ [])

bare-Alike : (cfg : Config) (spec : Option Spec) (sb : DriverSandbox) → Alike cfg spec sb
unfolding main_process_from_spec driver_env user_env overlay
bare-Alike cfg none sb = (refl, λ tok main. refl, refl)
bare-Alike cfg (some s) sb = elim (Option-cases s.template) [
  | inl e ↦ rw e (refl, λ tok main. refl, refl)
  | inr (t, e) ↦ rw e (refl, λ tok main. refl, refl)
]

module _ (encode_user : Labels → Option Text) (encode_main : MainProcess → Option Text) where
  add_user-lookup :
      (k : Text) (kept m env : Labels)
      → k ≢ env_user_environment
      → add_user encode_user encode_main kept m ≡ ok env
      → lookup k env ≡ lookup k m
  unfolding add_user
  add_user-lookup k [] m env ne h = ground arith
  add_user-lookup k (x ∷ kept) m env ne h = elim (Option-cases (encode_user (x ∷ kept))) [
    | inl e ↦ absurd (ground (arith, e))
    | inr (blob, e) ↦
        ground
          (arith, e, lookup-insert env_user_environment k blob m, eq_iff env_user_environment k)
  ]

  sandbox_env-bare :
      (cfg : Config) (sb : DriverSandbox) (tok : Bool) (main : Text)
      → encode_main (main_process_from_spec sb.spec) ≡ some main
      → sandbox_env encode_user encode_main cfg (bare sb) tok
        ≡ ok (overlay base_env (driver_env cfg sb tok main))
  unfolding sandbox_env kept_user add_user overlay
  sandbox_env-bare cfg sb tok main e =
      let (same_main, same_driver, no_user) = bare-Alike cfg sb.spec sb in
      rw (no_user, same_main)
        (rw e (ap (λ (d : Labels). ok (overlay base_env d)) (same_driver tok main)))

  -- If the environment of a request can be built, so can that of the request with its user variables
  -- left out, and every variable that the driver owns, but for the one that carries the user's
  -- variables in encoded form, has the same value, or is as absent, in both: what the sandbox's author
  -- sets there has no effect.
  pub sandbox_env-bare_lem :
      (cfg : Config) (sb : DriverSandbox) (tok : Bool) (env : Labels) (k : Text)
      → is_owned k ≡ true
      → k ≢ env_user_environment
      → sandbox_env encode_user encode_main cfg sb tok ≡ ok env
      → (plain : Labels) × (sandbox_env encode_user encode_main cfg (bare sb) tok ≡ ok plain)
        × (lookup k env ≡ lookup k plain)
  unfolding sandbox_env
  sandbox_env-bare_lem cfg sb tok env k owned ne h = elim (Result-cases (kept_user (user_env sb))) [
    | inr (x, e) ↦ absurd (ground (arith, e))
    | inl (kept, e) ↦
        elim (Result-cases (add_user encode_user encode_main kept (overlay base_env kept))) [
          | inr (x, f) ↦ absurd (ground (arith, e, f))
          | inl (m, f) ↦ elim (Option-cases (encode_main (main_process_from_spec sb.spec))) [
            | inl g ↦ absurd (ground (arith, e, f, g))
            | inr (main, g) ↦
                let built : env ≡ overlay m (driver_env cfg sb tok main) =
                  ground (arith, e, f, g, h) in
                (
                  overlay base_env (driver_env cfg sb tok main),
                  sandbox_env-bare cfg sb tok main g,
                  ap (λ (x : Labels). lookup k x) built
                      ∙ overlay-lookup k m base_env (driver_env cfg sb tok main) (
                          add_user-lookup k kept (overlay base_env kept) m ne f
                          ∙ overlay-Unowned k base_env kept owned
                              (kept_user-Unowned (user_env sb) kept e)),
                )
          ]
        ]
  ]
