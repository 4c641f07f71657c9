-- ===== src/Config/Usable.antt =====
-- internal/config/config.go: the configurations that are accepted.
use openshell_driver_appleco.Prelude.{
  false, List, [], ◌∷◌, Option, none, some, ◌≡◌, ◌≢◌, ◌⊎◌, ◌↔◌, inl, inr, refl, arith, Bool-cases,
  sym, ◌∙◌, subst, ap,
}
use openshell_driver_appleco.Result.{Result, ok, err, ok_inj}
use openshell_driver_appleco.Text.{Text, ◌==◌, has_prefix}
use openshell_driver_appleco.Text.Laws.{eq_iff}
use openshell_driver_appleco.Config.{Config}
use openshell_driver_appleco.Config.Parse.{
  Flags, Surroundings, ParseError, no_socket, no_state_dir, relative_mount_root,
  relative_policy_file, resolved, is_relative, check_config, with_flags, parse_config,
}

-- Not set, or a path from the root.
abbrev pub IsAbsoluteOrUnset : Text → Type 0
IsAbsoluteOrUnset path = (path ≡ []) ⊎ ((rest : Text) × (path ≡ b'/' ∷ rest))

-- A driver can start on it.
pub record IsUsable (cfg : Config) : Type 0 where
  pub socket : cfg.socket ≢ []
  pub state_dir : cfg.state_dir ≢ []
  pub host_mount_root : IsAbsoluteOrUnset cfg.host_mount_root
  pub network_policy_file : IsAbsoluteOrUnset cfg.network_policy_file

is_relative_iff : (path : Text) → (is_relative path ≡ false) ↔ IsAbsoluteOrUnset path
unfolding is_relative has_prefix ◌==◌
is_relative_iff [] = (λ h. inl refl, λ h. refl)
is_relative_iff (c ∷ path) = (λ h. inr (path, ground (arith, h)), λ h. ground (arith, h))

refused :
    {c cfg : Config} (e : ParseError)
    → ¬ IsUsable c
    → (◌≡◌ {A = Result ParseError Config} (err e) (ok cfg)) ↔ ((cfg ≡ c) × IsUsable c)
refused e bad = (λ h. absurd (ground (arith, h)), λ (_, u). absurd (bad u))

check_config_iff : (c cfg : Config) → (check_config c ≡ ok cfg) ↔ ((cfg ≡ c) × IsUsable c)
unfolding check_config
check_config_iff c cfg = elim (Bool-cases (c.socket == [])) [
  | inl b ↦ rw b (refused no_socket (λ u. u.socket ((eq_iff c.socket []).0 b)))
  | inr b ↦ elim (Bool-cases (c.state_dir == [])) [
    | inl d ↦ rw (b, d) (refused no_state_dir (λ u. u.state_dir ((eq_iff c.state_dir []).0 d)))
    | inr d ↦ elim (Bool-cases (is_relative c.host_mount_root)) [
      | inl r ↦
          rw (b, d, r)
            (refused relative_mount_root (λ u.
              absurd (ground (arith, r, (is_relative_iff c.host_mount_root).1 u.host_mount_root))))
      | inr r ↦ elim (Bool-cases (is_relative c.network_policy_file)) [
        | inl p ↦
            rw (b, d, r, p)
              (refused relative_policy_file (λ u. absurd (
                ground
                  (arith, p, (is_relative_iff c.network_policy_file).1 u.network_policy_file))))
        | inr p ↦
            rw (b, d, r, p)
              (
                λ h. (
                  sym (ok_inj h),
                  record {
                    socket = λ e. ground (arith, b, e, eq_iff c.socket []);
                    state_dir = λ e. ground (arith, d, e, eq_iff c.state_dir []);
                    host_mount_root = (is_relative_iff c.host_mount_root).0 r;
                    network_policy_file = (is_relative_iff c.network_policy_file).0 p;
                  },
                ),
                λ (e, u). ap (λ (z : Config). ok z) (sym e),
              )
      ]
    ]
  ]
]

flags_inj : {a b : Flags} → ◌≡◌ {A = Option Flags} (some a) (some b) → a ≡ b
flags_inj {a} {b} e = ap flags_or e
  where
    flags_or : Option Flags → Flags
    flags_or none = a
    flags_or (some x) = x

module _ (host : Surroundings) where
  with_flags_iff :
      (o : Option Flags) (cfg : Config)
      → (with_flags host o ≡ ok cfg)
        ↔ ((flags : Flags) × (o ≡ some flags) × (cfg ≡ resolved host flags) × IsUsable cfg)
  unfolding with_flags
  with_flags_iff none cfg =
      (λ h. absurd (ground (arith, h)), λ (f, l, _, _). absurd (ground (arith, l)))
  with_flags_iff (some flags) cfg = (
    λ h.
        let (e, u) = (check_config_iff (resolved host flags) cfg).0 h in
        (flags, refl, e, subst IsUsable (sym e) u),
    λ (f, l, e, u).
        let e' : cfg ≡ resolved host flags =
          e ∙ ap (λ (z : Flags). resolved host z) (sym (flags_inj l)) in
        (check_config_iff (resolved host flags) cfg).1 (e', subst IsUsable e' u),
  )

  -- A command line gives a configuration exactly if the flag package takes it, and the flags over the
  -- environment over the defaults are that configuration, and it is usable: it names a socket and a
  -- directory for the state, and the root of host mounts and the policy file are absolute if they are
  -- set.
  pub parse_config_iff :
      (args : List Text) (cfg : Config)
      → (parse_config host args ≡ ok cfg) ↔ (
          (flags : Flags) × (host.parse_flags args ≡ some flags)
          × (cfg ≡ resolved host flags)
          × IsUsable cfg)
  unfolding parse_config
  parse_config_iff args cfg = with_flags_iff (host.parse_flags args) cfg
