-- ===== src/Grpcsvc/Env/Names.antt =====
-- internal/grpcsvc/env.go, `sandboxEnv`: the names of the variables can be written in front of a "=".
use openshell_driver_appleco.Prelude.{
  Bool, false, [], ◌∷◌, Option, All, ◌≡◌, inl, inr, refl, arith, Bool-cases, Option-cases, subst,
}
use openshell_driver_appleco.Result.{ok, Result-cases}
use openshell_driver_appleco.Text.{Text, text, ◌==◌, contains_any, contains_code, has_prefix}
use openshell_driver_appleco.Assoc.{insert}
use openshell_driver_appleco.Config.{Config}
use openshell_driver_appleco.Backend.{Labels}
use openshell_driver_appleco.Backend.Cli.Args.{keys}
use openshell_driver_appleco.Backend.Cli.Reader.{Lacks, EqualsFree}
use openshell_driver_appleco.Grpcsvc.Proto.{DriverSandbox}
use openshell_driver_appleco.Grpcsvc.Env.{
  MainProcess, main_process_from_spec, overlay, base_env, kept_user, driver_env, user_env, add_user,
  sandbox_env, env_user_environment,
}

abbrev pub Plain : Labels → Type 0
Plain m = All EqualsFree (keys m)

contains_any-Lacks : (k : Text) → contains_any k (b'=' ∷ 0 ∷ []) ≡ false → Lacks b'=' k
unfolding contains_any contains_code
contains_any-Lacks [] h = refl
contains_any-Lacks (c ∷ k) h = ground (arith, contains_any-Lacks k)

pub insert-Plain : (k v : Text) (m : Labels) → EqualsFree k → Plain m → Plain (insert k v m)
unfolding insert keys
insert-Plain k v [] h hs = (h, tt)
insert-Plain k v ((j, w) ∷ m) h (g, hs) = elim (Bool-cases (j == k)) [
  | inl b ↦ rw b (g, hs)
  | inr b ↦ rw b (g, insert-Plain k v m h hs)
]

overlay-Plain : (m more : Labels) → Plain m → Plain more → Plain (overlay m more)
unfolding overlay keys
overlay-Plain m [] h g = h
overlay-Plain m ((k, v) ∷ more) h (g, gs) =
    overlay-Plain (insert k v m) more (insert-Plain k v m g h) gs

kept_user-Plain : (m kept : Labels) → kept_user m ≡ ok kept → Plain kept
unfolding kept_user keys
kept_user-Plain [] kept h = ground arith
kept_user-Plain ((k, v) ∷ m) kept h = elim (Result-cases (kept_user m)) [
  | inr (x, e) ↦ absurd (ground (arith, e))
  | inl (rest, e) ↦ ground (arith, e, kept_user-Plain m rest e, contains_any-Lacks k)
]

driver_env-Plain :
    (cfg : Config) (sb : DriverSandbox) (tok : Bool) (main : Text)
    → Plain (driver_env cfg sb tok main)
unfolding driver_env keys contains_code
driver_env-Plain cfg sb tok main = elim (Bool-cases tok) [
  | inl t ↦ elim (Bool-cases (has_prefix cfg.grpc_endpoint (text "https://"))) [
    | inl b ↦ rw (t, b) (ground arith)
    | inr b ↦ rw (t, b) (ground arith)
  ]
  | inr t ↦ elim (Bool-cases (has_prefix cfg.grpc_endpoint (text "https://"))) [
    | inl b ↦ rw (t, b) (ground arith)
    | inr b ↦ rw (t, b) (ground arith)
  ]
]

module _ (encode_user : Labels → Option Text) (encode_main : MainProcess → Option Text) where
  add_user-Plain :
      (kept m env : Labels) → add_user encode_user encode_main kept m ≡ ok env → Plain m → Plain env
  unfolding add_user contains_code
  add_user-Plain [] m env h g = subst Plain (ground (arith, h)) g
  add_user-Plain (x ∷ kept) m env h g = elim (Option-cases (encode_user (x ∷ kept))) [
    | inl e ↦ absurd (ground (arith, e))
    | inr (blob, e) ↦
        subst Plain (ground (arith, e)) (insert-Plain env_user_environment blob m refl g)
  ]

  pub sandbox_env-Plain :
      (cfg : Config) (sb : DriverSandbox) (tok : Bool) (env : Labels)
      → sandbox_env encode_user encode_main cfg sb tok ≡ ok env
      → Plain env
  unfolding sandbox_env base_env keys contains_code
  sandbox_env-Plain cfg sb tok env h = elim (Result-cases (kept_user (user_env sb))) [
    | inr (x, e) ↦ absurd (ground (arith, e))
    | inl (kept, e) ↦
        elim (Result-cases (add_user encode_user encode_main kept (overlay base_env kept))) [
          | inr (x, f) ↦ absurd (ground (arith, e, f))
          | inl (m, f) ↦ elim (Option-cases (encode_main (main_process_from_spec sb.spec))) [
            | inl g ↦ absurd (ground (arith, e, f, g))
            | inr (main, g) ↦
                let built : overlay m (driver_env cfg sb tok main) ≡ env =
                  ground (arith, e, f, g, h) in
                subst Plain built (
                  overlay-Plain m (driver_env cfg sb tok main)
                    (add_user-Plain kept (overlay base_env kept) m f (
                      overlay-Plain base_env kept (refl, (refl, (refl, tt)))
                        (kept_user-Plain (user_env sb) kept e)))
                    (driver_env-Plain cfg sb tok main))
          ]
        ]
  ]
