-- ===== src/Grpcsvc/Reconcile/Excerpt.antt =====
-- internal/grpcsvc/reconcile.go, `consoleTail`: how much of the console output is kept, and which part.
use openshell_driver_appleco.Prelude.{
  ℕ, zero, suc, ◌-◌, ◌≤◌, List, [], ◌∷◌, ◌++◌, take, drop, length, ltb, ◌≡◌, ◌⊎◌, inl, inr, refl,
  arith, ap, Bool-cases,
}
use openshell_driver_appleco.Text.{Text, text, trim_space}
use openshell_driver_appleco.Grpcsvc.Reconcile.{excerpt}

take-drop_append {ℓ} : {A : Type ℓ} (n : ℕ) (xs : List A) → xs ≡ take n xs ++ drop n xs
take-drop_append zero xs = refl
take-drop_append (suc n) [] = refl
take-drop_append (suc n) (x ∷ xs) = ap (◌∷◌ x) (take-drop_append n xs)

length-drop {ℓ} : {A : Type ℓ} (n : ℕ) (xs : List A) → length (drop n xs) ≡ length xs - n
length-drop zero xs = omega arith
length-drop (suc n) [] = omega arith
length-drop (suc n) (x ∷ xs) = omega (arith, length-drop n xs)

-- What is kept of the console output is all of it, without the white space around, if that fits the
-- limit; otherwise it is an ellipsis and the end of it, of exactly the limit's length. It is never
-- longer than the limit and one more.
pub excerpt-end_lem :
    (limit : ℕ) (out : Text)
    → (((excerpt limit out ≡ trim_space out) × (length (trim_space out) ≤ limit))
        ⊎ ((start rest : Text) × (trim_space out ≡ start ++ rest)
            × (length rest ≡ limit)
            × (excerpt limit out ≡ text "…" ++ rest)))
      × (length (excerpt limit out) ≤ suc limit)
unfolding excerpt
excerpt-end_lem limit out =
    let s = trim_space out in
    let kept = length-drop (length s - limit) s in
    elim (Bool-cases (ltb limit (length s))) [
      | inr fits ↦ rw fits (inl (refl, ground (arith, fits)), ground (arith, fits))
      | inl long ↦ rw long (
        inr (
          take (length s - limit) s,
          drop (length s - limit) s,
          take-drop_append (length s - limit) s,
          ground (arith, kept, long),
          refl,
        ),
        ground (arith, kept, long),
      )
    ]
