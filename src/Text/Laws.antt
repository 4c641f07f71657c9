-- ===== src/Text/Laws.antt =====
-- Laws of the text functions.
use openshell_driver_appleco.Prelude.{true, [], ◌∷◌, ◌++◌, ◌≡◌, ◌↔◌, refl, arith}
use openshell_driver_appleco.Text.{Text, ◌==◌, has_prefix}

pub eq_iff : (a b : Text) → ((a == b) ≡ true) ↔ (a ≡ b)
unfolding ◌==◌
eq_iff (x ∷ a) (y ∷ b) = ground (arith, eq_iff a b)
eq_iff _ _ = ground arith

pub eq_refl : (a : Text) → (a == a) ≡ true
eq_refl a = (eq_iff a a).1 refl

pub has_prefix_append : (p s : Text) → has_prefix (p ++ s) p ≡ true
unfolding has_prefix
has_prefix_append [] [] = refl
has_prefix_append [] (y ∷ s) = refl
has_prefix_append (x ∷ p) s = ground (arith, has_prefix_append p s)

pub has_prefix_rest : (s p : Text) → has_prefix s p ≡ true → (r : Text) × (s ≡ p ++ r)
unfolding has_prefix
has_prefix_rest s [] h = (s, refl)
has_prefix_rest [] (y ∷ p) h = cc
has_prefix_rest (x ∷ s) (y ∷ p) h =
    let (r, e) = has_prefix_rest s p (ground arith) in (r, ground arith)
