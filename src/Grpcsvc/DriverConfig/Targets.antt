-- ===== src/Grpcsvc/DriverConfig/Targets.antt =====
-- internal/grpcsvc/driverconfig.go, `validateMountTarget` and `validate`: which targets pass, in terms
-- of the elements of the path.
use openshell_driver_appleco.Prelude.{
  true, List, [], ◌∷◌, ◌++◌, map, ◌≡◌, ◌≢◌, ◌↔◌, refl, sym, ap, ◌∙◌, arith, All, all,
}
use openshell_driver_appleco.Result.{ok}
use openshell_driver_appleco.Text.{Text, text, ◌==◌, has_prefix, join}
use openshell_driver_appleco.Text.Laws.{eq_iff, eq_refl}
use openshell_driver_appleco.Text.Path.{slash, clean}
use openshell_driver_appleco.Text.Path.Rooted.{
  IsPlain, rooted, is_plain, IsPlain-by_test, clean-rooted, clean_of_IsPlain, join-rooted_lem,
}
use openshell_driver_appleco.Text.Path.Under.{Extends, under_iff}
use openshell_driver_appleco.Grpcsvc.DriverConfig.{
  reserved_mount_targets, check_reserved, validate_mount_target,
}

-- A nonempty chain of elements, and the rooted path that it spells.
abbrev pub Chain : Type 0
Chain = Text × List Text

abbrev pub spell : Chain → Text
spell (p, ps) = rooted (p ∷ ps)

abbrev pub PlainChain : Chain → Type 0
PlainChain (p, ps) = All IsPlain (p ∷ ps)

-- `c` is the directory `r`, or lies below it.
abbrev pub Within : Chain → Chain → Type 0
Within (r, rs) (p, ps) = Extends (r ∷ rs) (p ∷ ps)

abbrev pub reserved_chains : List Chain
reserved_chains =
    (text "opt", text "openshell" ∷ [])
    ∷ (text "etc", text "openshell" ∷ [])
    ∷ (text "etc", text "openshell-tls" ∷ [])
    ∷ (text "run", text "netns" ∷ [])
    ∷ (text "sandbox", [])
    ∷ (text "openshell-seed", [])
    ∷ []

reserved_spelled : reserved_mount_targets ≡ map spell reserved_chains
unfolding reserved_mount_targets
reserved_spelled = refl

plain_chains : (cs : List Chain) → all (λ c. all is_plain (c.0 ∷ c.1)) cs ≡ true → All PlainChain cs
plain_chains [] h = tt
plain_chains ((p, ps) ∷ cs) h =
    (IsPlain-by_test (p ∷ ps) (ground arith), plain_chains cs (ground arith))

reserved_plain : All PlainChain reserved_chains
unfolding is_plain
reserved_plain = plain_chains reserved_chains refl

check_reserved_iff :
    (c : Chain) (rs : List Chain)
    → PlainChain c
    → All PlainChain rs
    → (check_reserved (spell c) (map spell rs) ≡ ok tt) ↔ All (λ r. ¬ Within r c) rs
unfolding check_reserved
check_reserved_iff c [] h k = ground arith
check_reserved_iff (p, ps) ((r, rs) ∷ more) h (k, ks) =
    ground (arith, under_iff r rs p ps k h, check_reserved_iff (p, ps) more h ks)

-- A target that names something strictly below the root, by plain elements, and that is not a
-- reserved path or anything below one.
pub record IsAllowedTarget (target : Text) : Type 0 where
  pub chain : Chain
  pub spelled : target ≡ spell chain
  pub plain : PlainChain chain
  pub free : All (λ r. ¬ Within r chain) reserved_chains

-- The tests before the loop over the reserved paths all pass a spelled chain.
spelled_passes :
    (c : Chain)
    → PlainChain c
    → validate_mount_target (spell c) ≡ check_reserved (spell c) reserved_mount_targets
unfolding validate_mount_target has_prefix ◌==◌
spelled_passes ([], ps) plain = absurd (plain.0.0 refl)
spelled_passes (x ∷ p, ps) plain =
    ground (arith, clean_of_IsPlain (x ∷ p) ps plain, eq_refl (p ++ rooted ps))

chain_of_clean :
    (target : Text) (ps : List Text)
    → target ≡ slash ++ join ps slash
    → target ≢ slash
    → All IsPlain ps
    → (c : Chain) × (target ≡ spell c) × PlainChain c
unfolding join
chain_of_clean target [] e ne h = absurd (ne e)
chain_of_clean target (p ∷ ps) e ne h = ((p, ps), e ∙ join-rooted_lem p ps, h)

chain_of_accepted :
    (target : Text)
    → validate_mount_target target ≡ ok tt
    → (c : Chain) × (target ≡ spell c) × PlainChain c
unfolding validate_mount_target
chain_of_accepted target h =
    let (ps, e, plain) = clean-rooted target (ground arith) in
    chain_of_clean target ps (ground (arith, eq_iff (clean target) target, e))
      (ground (arith, eq_iff target slash)) plain

reserved_iff :
    (c : Chain)
    → PlainChain c
    → (check_reserved (spell c) reserved_mount_targets ≡ ok tt)
      ↔ All (λ r. ¬ Within r c) reserved_chains
reserved_iff c h = rw reserved_spelled (check_reserved_iff c reserved_chains h reserved_plain)

-- A mount target is accepted exactly when it is a rooted path of plain elements (none of them empty,
-- "." or ".."), has at least one, and is neither a reserved path nor below one.
pub validate_mount_target_iff :
    (target : Text) → (validate_mount_target target ≡ ok tt) ↔ IsAllowedTarget target
validate_mount_target_iff target = (sound, complete)
  where
    sound : validate_mount_target target ≡ ok tt → IsAllowedTarget target
    sound h =
        let (c, e, plain) = chain_of_accepted target h in
        record {
          chain = c;
          spelled = e;
          plain = plain;
          free = (reserved_iff c plain).0 (sym (spelled_passes c plain) ∙ (rw e at h));
        }

    complete : IsAllowedTarget target → validate_mount_target target ≡ ok tt
    complete a =
        ap validate_mount_target a.spelled
        ∙ spelled_passes a.chain a.plain
        ∙ (reserved_iff a.chain a.plain).1 a.free
