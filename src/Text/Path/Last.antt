-- ===== src/Text/Path/Last.antt =====
-- The last element of a path, and the last code point of a text.
use openshell_driver_appleco.Prelude.{
  ℕ, Bool, true, false, List, [], ◌∷◌, ◌++◌, ◌≡◌, refl, sym, ap, ◌∙◌, arith, append_assoc,
  Bool-cases, inl, inr,
}
use openshell_driver_appleco.Text.{Text, text, ◌==◌, has_prefix, split, split_from, join}
use openshell_driver_appleco.Text.Laws.{eq_iff}
use openshell_driver_appleco.Text.Path.{slash, clean, clean_part, clean_parts}
use openshell_driver_appleco.Text.Path.Rooted.{NoSlash, IsPlain, split_from-last}
use mathlib.Core.List.{reverse, reverse-cons}

unfoldable pub final : Text → ℕ
final [] = 0
final (c ∷ []) = c
final (c ∷ d ∷ s) = final (d ∷ s)

pub final-append : (s : Text) (c : ℕ) (t : Text) → final (s ++ c ∷ t) ≡ final (c ∷ t)
unfolding final
final-append [] c t = refl
final-append (x ∷ []) c t = refl
final-append (x ∷ y ∷ s) c t = final-append (y ∷ s) c t

split_from-element :
    (cur q name : Text)
    → NoSlash name
    → split_from b'/' cur (q ++ b'/' ∷ name) ≡ split_from b'/' cur q ++ name ∷ []
unfolding split_from
split_from-element cur [] name h = ap (◌∷◌ cur) (split_from-last [] name h)
split_from-element cur (x ∷ q) name h =
    ground (arith, split_from-element [] q name h, split_from-element (cur ++ x ∷ []) q name h)

module _ (name : Text) (plain : IsPlain name) where
  clean_parts-last :
      (rooted : Bool) (stack ps : List Text)
      → (qs : List Text) × (clean_parts rooted stack (ps ++ name ∷ []) ≡ qs ++ name ∷ [])
  unfolding clean_parts clean_part
  clean_parts-last rooted stack [] =
      let (a, b, c, d) = plain in
      let step : clean_part rooted stack name ≡ name ∷ stack =
        ground (arith, eq_iff name [], eq_iff name (text "."), eq_iff name (text "..")) in
      (reverse stack, ap reverse step ∙ reverse-cons name stack)
  clean_parts-last rooted stack (p ∷ ps) = clean_parts-last rooted (clean_part rooted stack p) ps

  join-last : (qs : List Text) → (t : Text) × (join (qs ++ name ∷ []) slash ≡ t ++ name)
  unfolding join
  join-last [] = ([], refl)
  join-last (q ∷ []) = (q ++ slash, sym (append_assoc q slash name))
  join-last (q ∷ r ∷ qs) =
      let (t, e) = join-last (r ∷ qs) in
      (
        q ++ (slash ++ t),
        ap (λ u. q ++ (slash ++ u)) e
            ∙ (ap (λ u. q ++ u) (sym (append_assoc slash t name))
                ∙ sym (append_assoc q (slash ++ t) name)),
      )

  body-last :
      (rooted : Bool) (q : Text)
      → (t : Text) × (join (clean_parts rooted [] (split (q ++ b'/' ∷ name) b'/')) slash
          ≡ t ++ name)
  unfolding split
  body-last rooted q =
      let (qs, e) = clean_parts-last rooted [] (split_from b'/' [] q) in
      let (t, k) = join-last qs in
      (
        t,
        ap (λ ps. join (clean_parts rooted [] ps) slash) (split_from-element [] q name plain.3)
            ∙ (ap (λ ps. join ps slash) e ∙ k),
      )

  not_empty : (t : Text) → (t ++ name == []) ≡ false
  not_empty [] = ground (arith, eq_iff name [], plain.0)
  not_empty (c ∷ t) = ground (arith, eq_iff (c ∷ t ++ name) [])

  -- A path that is joined with a plain name ends in it.
  pub clean-last : (q : Text) → (t : Text) × (clean (q ++ b'/' ∷ name) ≡ t ++ name)
  unfolding clean
  clean-last q = elim (Bool-cases (has_prefix (q ++ b'/' ∷ name) slash)) [
    | inl p ↦ let (t, e) = body-last true q in (slash ++ t, rw p (ap (λ u. slash ++ u) e))
    | inr p ↦ let (t, e) = body-last false q in (t, rw p (rw (e, not_empty t) refl))
  ]
