-- ===== src/Text/Cut.antt =====
-- `strings.Index` with the slices on both sides of what it finds, and its laws on whole lines.
use openshell_driver_appleco.Prelude.{
  ℕ, Bool, true, false, [], ◌∷◌, ◌++◌, Option, none, some, drop, length, if◌then◌else◌, ◌≡◌, ◌≢◌,
  refl, arith, Bool-cases, inl, inr, ap, ◌⊎◌, ◌∙◌,
}
use openshell_driver_appleco.Text.{Text, has_prefix, contains_code, trim_right}
use openshell_driver_appleco.Text.Laws.{has_prefix_append, has_prefix_rest}

abbrev behind : ℕ → Option (Text × Text) → Option (Text × Text)
behind x none = none
behind x (some (head, rest)) = some (x ∷ head, rest)

-- What lies before and behind the first occurrence of `m`, which is not empty.
unfoldable pub cut : Text → Text → Option (Text × Text)
cut [] m = none
cut (x ∷ s) m =
    let later = behind x (cut s m) in
    if has_prefix (x ∷ s) m then some ([], drop (length m) (x ∷ s)) else later

-- The text has no line end.
abbrev pub OneLine : Text → Type 0
OneLine m = contains_code m 10 ≡ false

has_prefix-line :
    (s m t : Text) → OneLine m → has_prefix s m ≡ false → has_prefix (s ++ 10 ∷ t) m ≡ false
unfolding has_prefix contains_code
has_prefix-line [] [] t h k = cc
has_prefix-line [] (y ∷ m) t h k = ground arith
has_prefix-line (x ∷ s) [] t h k = cc
has_prefix-line (x ∷ s) (y ∷ m) t h k = ground (arith, has_prefix-line s m t)

has_prefix-newline : (m t : Text) → OneLine m → m ≢ [] → has_prefix (10 ∷ t) m ≡ false
unfolding has_prefix contains_code
has_prefix-newline [] t h ne = absurd (ne refl)
has_prefix-newline (y ∷ m) t h ne = ground arith

drop-append : (m r : Text) → drop (length m) (m ++ r) ≡ r
drop-append [] r = refl
drop-append (x ∷ m) r = drop-append m r

pub cut_prefix : (m r : Text) → m ≢ [] → cut (m ++ r) m ≡ some ([], r)
unfolding cut
cut_prefix [] r ne = absurd (ne refl)
cut_prefix (x ∷ m) r ne = rw (has_prefix_append (x ∷ m) r, drop-append m r) refl

cut-eq_none :
    (x : ℕ) (s m : Text) → cut (x ∷ s) m ≡ none → (has_prefix (x ∷ s) m ≡ false) × (cut s m ≡ none)
unfolding cut
cut-eq_none x s m h = ground (arith, h)

-- The first occurrence in a text that a line without one precedes.
pub cut_line :
    (s m r : Text)
    → OneLine m
    → m ≢ []
    → cut s m ≡ none
    → cut (s ++ 10 ∷ (m ++ r)) m ≡ some (s ++ 10 ∷ [], r)
unfolding cut
cut_line [] m r h ne k = rw (has_prefix-newline m (m ++ r) h ne, cut_prefix m r ne) refl
cut_line (x ∷ s) m r h ne k =
    let (p, q) = cut-eq_none x s m k in
    rw (has_prefix-line (x ∷ s) m (m ++ r) h p, cut_line s m r h ne q) refl

-- Two lines without one.
pub cut_lines :
    (s m t : Text)
    → OneLine m
    → m ≢ []
    → cut s m ≡ none
    → cut t m ≡ none
    → cut (s ++ 10 ∷ t) m ≡ none
unfolding cut
cut_lines [] m t h ne k l = rw (has_prefix-newline m t h ne, l) refl
cut_lines (x ∷ s) m t h ne k l =
    let (p, q) = cut-eq_none x s m k in
    rw (has_prefix-line (x ∷ s) m t h p, cut_lines s m t h ne q l) refl

pub has_prefix_longer : (s m t : Text) → has_prefix s m ≡ true → has_prefix (s ++ t) m ≡ true
unfolding has_prefix
has_prefix_longer [] [] [] h = refl
has_prefix_longer [] [] (y ∷ t) h = refl
has_prefix_longer [] (y ∷ m) t h = absurd (ground (arith, h))
has_prefix_longer (x ∷ s) [] t h = refl
has_prefix_longer (x ∷ s) (y ∷ m) t h = ground (arith, has_prefix_longer s m t)

-- A text without an occurrence begins with texts without one.
pub cut_shorter : (s t m : Text) → cut (s ++ t) m ≡ none → cut s m ≡ none
unfolding cut
cut_shorter [] t m h = refl
cut_shorter (x ∷ s) t m h = elim (Bool-cases (has_prefix (x ∷ s) m)) [
  | inl b ↦ absurd (ground (arith, h, has_prefix_longer (x ∷ s) m t b))
  | inr b ↦ rw b (ap (behind x) (cut_shorter s t m (cut-eq_none x (s ++ t) m h).1))
]

behind-eq_some :
    (x : ℕ) (o : Option (Text × Text)) (head rest : Text)
    → behind x o ≡ some (head, rest)
    → (h : Text) × (o ≡ some (h, rest)) × (head ≡ x ∷ h)
behind-eq_some x none head rest e = absurd (ground (arith, e))
behind-eq_some x (some (h, r)) head rest e = (h, ground (arith, e), ground (arith, e))

-- What is found is the text's first occurrence.
pub cut-eq_some :
    (s m head rest : Text)
    → cut s m ≡ some (head, rest)
    → (s ≡ head ++ (m ++ rest)) × (cut head m ≡ none)
unfolding cut
cut-eq_some [] m head rest h = absurd (ground (arith, h))
cut-eq_some (x ∷ s) m head rest h = elim (Bool-cases (has_prefix (x ∷ s) m)) [
  | inl b ↦
      let e : some ([], drop (length m) (x ∷ s)) ≡ some (head, rest) = rw b at h in
      let (r, f) = has_prefix_rest (x ∷ s) m b in
      let tail : drop (length m) (x ∷ s) ≡ r = rw f (drop-append m r) in
      (ground (arith, e, f, tail), ground (arith, e))
  | inr b ↦
      let (t, e, f) = behind-eq_some x (cut s m) head rest (rw b at h) in
      let (g, k) = cut-eq_some s m t rest e in
      (
        rw (f, g) refl,
        rw f (elim (Bool-cases (has_prefix (x ∷ t) m)) [
          | inr c ↦ rw (c, k) refl
          | inl c ↦ absurd (ground (arith, b, g, has_prefix_longer (x ∷ t) m (m ++ rest) c))
        ]),
      )
]

is_empty_or : (t : Text) → (t ≡ []) ⊎ ((y : ℕ) × (r : Text) × (t ≡ y ∷ r))
is_empty_or [] = inl refl
is_empty_or (y ∷ r) = inr (y, r, refl)

-- Trimming takes off an end.
pub trim_right_front : (p : ℕ → Bool) (s : Text) → (r : Text) × (s ≡ trim_right p s ++ r)
unfolding trim_right
trim_right_front p [] = ([], refl)
trim_right_front p (x ∷ s) =
    let (r, e) = trim_right_front p s in
    elim (is_empty_or (trim_right p s)) [
      | inl empty ↦ elim (Bool-cases (p x)) [
        | inl b ↦ rw empty (rw b (x ∷ s, refl))
        | inr b ↦ rw empty (rw b (s, refl))
      ]
      | inr (y, t, full) ↦
          rw full (r, ap (λ (z : Text). x ∷ z) (e ∙ ap (λ (z : Text). z ++ r) full))
    ]
