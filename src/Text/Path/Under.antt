-- ===== src/Text/Path/Under.antt =====
-- The driver's test that a cleaned path is a directory or lies below it, `p == r` or
-- `strings.HasPrefix(p, r+"/")`, decides the prefix order on the elements of the paths.
use openshell_driver_appleco.Prelude.{
  Bool, true, List, [], ◌∷◌, ◌++◌, ◌≡◌, ◌↔◌, sym, ap, ◌∙◌, ◌||◌, arith, All, append_assoc,
  append-nil, Bool-cases, inl, inr,
}
use openshell_driver_appleco.Text.{Text, ◌==◌, has_prefix, split, split_from}
use openshell_driver_appleco.Text.Laws.{eq_iff, eq_refl, has_prefix_append, has_prefix_rest}
use openshell_driver_appleco.Text.Path.{slash}
use openshell_driver_appleco.Text.Path.Rooted.{
  NoSlash, IsPlain, rooted, rooted-append, split_from-plain, split-rooted,
}

-- The directory with elements `rs` holds the path with elements `ps`, or is that path.
abbrev pub Extends : List Text → List Text → Type 0
Extends rs ps = (rest : List Text) × (ps ≡ rs ++ rest)

-- The test, as the driver writes it in two places.
abbrev pub under : Text → Text → Bool
under r p = p == r || has_prefix p (r ++ slash)

split_from-below :
    (p : Text) (rs : List Text) (t : Text)
    → NoSlash p
    → All IsPlain rs
    → split_from b'/' [] (p ++ (rooted rs ++ (slash ++ t))) ≡ p ∷ (rs ++ split t b'/')
unfolding split
split_from-below p [] t h k = split_from-plain [] p t h
split_from-below p (r ∷ rs) t h (k, ks) =
    ap (λ (s : Text). split_from b'/' [] (p ++ (slash ++ s)))
      (append_assoc r (rooted rs) (slash ++ t))
    ∙ split_from-plain [] p (r ++ (rooted rs ++ (slash ++ t))) h
    ∙ ap (◌∷◌ p) (split_from-below r rs t k.3 ks)

split-below :
    (r : Text) (rs : List Text) (t : Text)
    → All IsPlain (r ∷ rs)
    → split (rooted (r ∷ rs) ++ (slash ++ t)) b'/' ≡ [] ∷ r ∷ (rs ++ split t b'/')
unfolding split split_from
split-below r rs t (k, ks) =
    ap (λ (s : Text). [] ∷ split_from b'/' [] s) (append_assoc r (rooted rs) (slash ++ t))
    ∙ ap (◌∷◌ []) (split_from-below r rs t k.3 ks)

module _ (r : Text) (rs : List Text) (p : Text) (ps : List Text) (plain_root : All IsPlain (r ∷ rs))
    (plain_path : All IsPlain (p ∷ ps)) where
  rooted_injective : rooted (p ∷ ps) ≡ rooted (r ∷ rs) → p ∷ ps ≡ r ∷ rs
  rooted_injective e = ground (
    arith,
    split-rooted p ps plain_path,
    split-rooted r rs plain_root,
    ap (λ (s : Text). split s b'/') e,
  )

  Extends-of_below :
      (t : Text) → rooted (p ∷ ps) ≡ rooted (r ∷ rs) ++ (slash ++ t) → Extends (r ∷ rs) (p ∷ ps)
  Extends-of_below t e = (
    split t b'/',
    ground (
      arith,
      split-rooted p ps plain_path,
      split-below r rs t plain_root,
      ap (λ (s : Text). split s b'/') e,
    ),
  )

  under_sound : under (rooted (r ∷ rs)) (rooted (p ∷ ps)) ≡ true → Extends (r ∷ rs) (p ∷ ps)
  under_sound h = elim (Bool-cases (rooted (p ∷ ps) == rooted (r ∷ rs))) [
    | inl same ↦ ([], rooted_injective ((eq_iff _ _).0 same) ∙ sym (append-nil _))
    | inr other ↦
        let (t, e) = has_prefix_rest _ (rooted (r ∷ rs) ++ slash) (ground (arith, other)) in
        Extends-of_below t (e ∙ append_assoc (rooted (r ∷ rs)) slash t)
  ]

below_complete :
    (r : Text) (rest : List Text) (rs : List Text)
    → under (rooted (r ∷ rs)) (rooted ((r ∷ rs) ++ rest)) ≡ true
below_complete r [] rs = ground (arith, append-nil (r ∷ rs), eq_refl (rooted (r ∷ rs)))
below_complete r (q ∷ rest) rs = ground (
  arith,
  rooted-append (r ∷ rs) (q ∷ rest),
  append_assoc (rooted (r ∷ rs)) slash (q ++ rooted rest),
  has_prefix_append (rooted (r ∷ rs) ++ slash) (q ++ rooted rest),
)

pub under_iff :
    (r : Text) (rs : List Text) (p : Text) (ps : List Text)
    → All IsPlain (r ∷ rs)
    → All IsPlain (p ∷ ps)
    → (under (rooted (r ∷ rs)) (rooted (p ∷ ps)) ≡ true) ↔ Extends (r ∷ rs) (p ∷ ps)
under_iff r rs p ps hr hp = (
  under_sound r rs p ps hr hp,
  λ (x : Extends (r ∷ rs) (p ∷ ps)).
      ap (λ (qs : List Text). under (rooted (r ∷ rs)) (rooted qs)) x.1 ∙ below_complete r x.0 rs,
)
