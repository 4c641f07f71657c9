-- ===== src/Grpcsvc/DriverConfig/Policy.antt =====
-- internal/grpcsvc/driverconfig.go, `pathWithin` and `checkDriverConfigPolicy`: which host directories
-- and networks a sandbox may ask for.
use openshell_driver_appleco.Prelude.{
  ℕ, suc, true, false, List, [], ◌∷◌, ◌≡◌, ◌≢◌, ◌↔◌, ◌⊎◌, inl, inr, refl, arith, All, any, Option,
  some, Option-cases, Bool-cases,
}
use openshell_driver_appleco.Result.{ok}
use openshell_driver_appleco.Text.{Text, text, ◌==◌, has_prefix, split, join}
use openshell_driver_appleco.Text.Laws.{eq_iff}
use openshell_driver_appleco.Text.Path.{slash, clean}
use openshell_driver_appleco.Text.Path.Rooted.{clean_of_IsPlain}
use openshell_driver_appleco.Text.Path.Under.{under_iff}
use openshell_driver_appleco.Config.{Config}
use openshell_driver_appleco.Grpcsvc.DriverConfig.{
  DriverConfig, MountConfig, validate, path_within, network_allowed, check_source_within_root,
  check_mount_policy, check_mounts_policy, check_driver_config_policy,
}
use openshell_driver_appleco.Grpcsvc.DriverConfig.Mounts.{
  IsAbsolute, HasKind, IsValidMount, validate_iff,
}
use openshell_driver_appleco.Grpcsvc.DriverConfig.Targets.{Chain, spell, PlainChain, Within}

-- `pathWithin` of two canonical paths below the root directory says exactly that the elements of the
-- first begin those of the second: "/data" holds "/data/x" and not "/database".
pub path_within_iff :
    (r c : Chain)
    → PlainChain r
    → PlainChain c
    → (path_within (spell r) (spell c) ≡ true) ↔ Within r c
unfolding path_within
path_within_iff (r, rs) (p, ps) h k =
    ground (arith, under_iff r rs p ps h k, clean_of_IsPlain r rs h, clean_of_IsPlain p ps k)

clean-slash : clean slash ≡ slash
unfolding clean has_prefix split ◌==◌ join
clean-slash = refl

-- With the root directory as the permitted root nothing below it is within: the separator is doubled.
pub path_within-slash : (c : Chain) → PlainChain c → path_within slash (spell c) ≡ false
unfolding path_within has_prefix ◌==◌
path_within-slash ([], ps) k = absurd (k.0.0 refl)
path_within-slash (x ∷ p, ps) k = ground (arith, clean-slash, clean_of_IsPlain (x ∷ p) ps k, k.0.3)

path_within_below_only : (r : Chain) → PlainChain r → path_within (spell r) slash ≡ false
unfolding path_within has_prefix ◌==◌
path_within_below_only ([], ps) k = absurd (k.0.0 refl)
path_within_below_only (x ∷ p, ps) k = ground (arith, clean-slash, clean_of_IsPlain (x ∷ p) ps k)

-- What `filepath.EvalSymlinks` returns: the root directory, or a canonical path below it.
abbrev pub IsCanonical : Text → Type 0
IsCanonical p = (p ≡ slash) ⊎ ((c : Chain) × (p ≡ spell c) × PlainChain c)

volume_ne_tmpfs : text "volume" ≢ text "tmpfs"
volume_ne_tmpfs e = ground arith

-- `x` is one of the list.
abbrev pub Listed : Text → List Text → Type 0
Listed x [] = ⊥
Listed x (y ∷ ys) = (y ≡ x) ⊎ Listed x ys

Listed-iff : (x : Text) (ys : List Text) → (any (λ y. y == x) ys ≡ true) ↔ Listed x ys
Listed-iff x [] = ground arith
Listed-iff x (y ∷ ys) = ground (arith, eq_iff y x, Listed-iff x ys)

network_allowed_iff :
    (cfg : Config) (name : Text)
    → (network_allowed cfg name ≡ true) ↔ Listed name (cfg.network ∷ cfg.allowed_networks)
unfolding network_allowed
network_allowed_iff cfg name = Listed-iff name (cfg.network ∷ cfg.allowed_networks)

module _ (eval_symlinks : Text → Option Text) where
  -- The source resolves to the resolved root, or to something below it.
  abbrev pub Confined : Text → Text → Type 0
  Confined root source =
      ((r c : Chain) × (eval_symlinks root ≡ some (spell r))
        × (eval_symlinks source ≡ some (spell c))
        × Within r c)
      ⊎ ((eval_symlinks root ≡ some slash) × (eval_symlinks source ≡ some slash))

  abbrev pub IsPermitted : Config → MountConfig → Type 0
  IsPermitted cfg m =
      (m.kind ≢ text "volume")
      ⊎ ((cfg.allow_host_mounts ≡ true)
          × ((cfg.host_mount_root ≡ []) ⊎ Confined cfg.host_mount_root m.source))

  -- `EvalSymlinks` returns a canonical path for an absolute one.
  module _
      (canonical : (p q : Text) → IsAbsolute p → eval_symlinks p ≡ some q → IsCanonical q) where
    within-Confined :
        (root source q s : Text)
        → eval_symlinks root ≡ some q
        → eval_symlinks source ≡ some s
        → path_within q s ≡ true
        → IsCanonical q
        → IsCanonical s
        → Confined root source
    within-Confined root source q s eq es w (inl a) (inl b) = inr (ground arith, ground arith)
    within-Confined root source q s eq es w (inl a) (inr (c, b, k)) =
        absurd (ground (arith, path_within-slash c k))
    within-Confined root source q s eq es w (inr (r, a, h)) (inl b) =
        absurd (ground (arith, path_within_below_only r h))
    within-Confined root source q s eq es w (inr (r, a, h)) (inr (c, b, k)) =
        inl (r, c, ground arith, ground arith, ground (arith, path_within_iff r c h k))

    source_sound :
        (root source : Text)
        → IsAbsolute root
        → IsAbsolute source
        → check_source_within_root eval_symlinks root source ≡ ok tt
        → Confined root source
    unfolding check_source_within_root
    source_sound root source a b h = elim (Option-cases (eval_symlinks root)) [
      | inl e ↦ absurd (ground arith)
      | inr (q, e) ↦ elim (Option-cases (eval_symlinks source)) [
        | inl f ↦ absurd (ground arith)
        | inr (s, f) ↦
            within-Confined root source q s e f (ground arith) (canonical root q a e)
              (canonical source s b f)
      ]
    ]

    module _ (cfg : Config)
        (rooted_root : (cfg.host_mount_root ≡ []) ⊎ IsAbsolute cfg.host_mount_root) where
      source_permitted :
          (source : Text)
          → IsAbsolute source
          → (cfg.host_mount_root == []) ≡ false
          → check_source_within_root eval_symlinks cfg.host_mount_root source ≡ ok tt
          → Confined cfg.host_mount_root source
      source_permitted source b e h = elim rooted_root [
        | inl none_set ↦ absurd (ground (arith, eq_iff cfg.host_mount_root []))
        | inr a ↦ source_sound cfg.host_mount_root source a b h
      ]

      mount_sound :
          (i : ℕ) (m : MountConfig)
          → HasKind m
          → check_mount_policy eval_symlinks cfg i m ≡ ok tt
          → IsPermitted cfg m
      unfolding check_mount_policy
      mount_sound i m (inr (tmpfs, none_given)) h =
          inl (λ volume. absurd (ground (arith, volume_ne_tmpfs, tmpfs, volume)))
      mount_sound i m (inl (volume, b)) h = inr (elim (Bool-cases (cfg.host_mount_root == [])) [
        | inl e ↦ (ground (arith, eq_iff m.kind (text "volume")), inl ((eq_iff _ _).0 e))
        | inr e ↦ (
          ground (arith, eq_iff m.kind (text "volume")),
          inr (source_permitted m.source b e (ground (arith, eq_iff m.kind (text "volume")))),
        )
      ])

      mounts_sound :
          (i : ℕ) (ms : List MountConfig)
          → All IsValidMount ms
          → check_mounts_policy eval_symlinks cfg i ms ≡ ok tt
          → All (IsPermitted cfg) ms
      unfolding check_mounts_policy
      mounts_sound i [] v h = tt
      mounts_sound i (m ∷ ms) (v, vs) h =
          (mount_sound i m v.1 (ground arith), mounts_sound (suc i) ms vs (ground arith))

      -- A valid driver config passes the operator's policy only if each of its volume mounts is
      -- permitted, which wants host mounts switched on and, under a configured root (an absolute
      -- path), a source that resolves to what the root resolves to or to something below it, and
      -- only if its network is unset, the driver's own, or one of the allowed networks.
      pub policy_sound :
          (c : DriverConfig)
          → validate c ≡ ok tt
          → check_driver_config_policy eval_symlinks cfg c ≡ ok tt
          → All (IsPermitted cfg) c.mounts
            × ((c.network ≡ []) ⊎ Listed c.network (cfg.network ∷ cfg.allowed_networks))
      unfolding check_driver_config_policy
      policy_sound c v h = (
        mounts_sound 0 c.mounts ((validate_iff c).0 v).mounts (ground arith),
        ground (arith, eq_iff c.network [], network_allowed_iff cfg c.network),
      )
