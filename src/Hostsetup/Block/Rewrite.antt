-- ===== src/Hostsetup/Block/Rewrite.antt =====
-- internal/hostsetup/hostsetup.go: the managed block is written and taken out again.
use openshell_driver_appleco.Prelude.{
  ℕ, zero, suc, Bool, true, false, ◌&&◌, List, [], ◌∷◌, ◌++◌, none, some, length, ◌≡◌, refl, arith,
  Bool-cases, inl, inr, append_assoc, append-nil, if◌then◌else◌, ap, sym, subst, ◌∙◌,
}
use openshell_driver_appleco.Text.{
  Text, ◌==◌, has_prefix, has_suffix, trim_left, trim_right, trim_space, is_space, join,
}
use openshell_driver_appleco.Text.Laws.{eq_iff}
use openshell_driver_appleco.Text.Cut.{cut, cut_prefix, cut_line, cut_lines, cut_shorter}
use openshell_driver_appleco.Hostsetup.Block.{
  block_begin, block_end, trim_code, is_blank, Round, finished, again, after_begin, round, rounds,
  remove_managed_block, block_body, ended, upsert_managed_block,
}
use openshell_driver_appleco.Hostsetup.Block.Clean.{
  begin-OneLine, end-OneLine, begin_nonempty, end_nonempty, remove_managed_block-clean,
}

all_spaces : Text → Bool
all_spaces [] = true
all_spaces (x ∷ s) = is_space x && all_spaces s

trim_right-blank : (s : Text) → (trim_right is_space s == []) ≡ all_spaces s
unfolding trim_right all_spaces ◌==◌
trim_right-blank [] = refl
trim_right-blank (x ∷ s) = ground (arith, trim_right-blank s)

trim_left-blank : (s : Text) → (trim_right is_space (trim_left is_space s) == []) ≡ all_spaces s
unfolding trim_left trim_right all_spaces ◌==◌ is_space
trim_left-blank [] = refl
trim_left-blank (x ∷ s) = elim (Bool-cases (is_space x)) [
  | inl b ↦ rw b (trim_left-blank s)
  | inr b ↦ rw b (trim_right-blank (x ∷ s) ∙ rw b refl)
]

is_blank_iff : (s : Text) → is_blank s ≡ all_spaces s
unfolding is_blank trim_space
is_blank_iff s = trim_left-blank s

all_spaces-newline : (s : Text) → all_spaces (s ++ 10 ∷ []) ≡ all_spaces s
unfolding all_spaces is_space
all_spaces-newline [] = refl
all_spaces-newline (x ∷ s) = rw (all_spaces-newline s) refl

-- A text that ends in a newline.
has_suffix-newline : (s : Text) → has_suffix s (10 ∷ []) ≡ true → (u : Text) × (s ≡ u ++ 10 ∷ [])
unfolding has_suffix ◌==◌
has_suffix-newline [] h = absurd (ground (arith, h))
has_suffix-newline (x ∷ s) h = elim (Bool-cases ((x ∷ s) == 10 ∷ [])) [
  | inl b ↦ ([], (eq_iff (x ∷ s) (10 ∷ [])).0 b)
  | inr b ↦
      let (u, e) = has_suffix-newline s (ground (arith, h, b)) in
      (x ∷ u, ap (λ (z : Text). x ∷ z) e)
]

begin-no_end : cut block_begin block_end ≡ none
unfolding block_begin block_end cut has_prefix
begin-no_end = refl

rounds_clean : (bound : ℕ) (s : Text) → cut s block_begin ≡ none → rounds bound s ≡ s
unfolding rounds round
rounds_clean zero s h = refl
rounds_clean (suc bound) s h = rw (h, rounds) refl

module _ (lines : List Text) (intact : cut (join lines (10 ∷ [])) block_end ≡ none) where
  abbrev inner : Text
  inner = 10 ∷ (join lines (10 ∷ []) ++ 10 ∷ [])

  after_body : Text
  after_body = join lines (10 ∷ []) ++ 10 ∷ (block_end ++ 10 ∷ [])

  -- In the written block the end marker is where it was written.
  inner-cut : cut (block_begin ++ 10 ∷ after_body) block_end ≡ some (block_begin ++ inner, 10 ∷ [])
  unfolding after_body
  inner-cut =
      let line = join lines (10 ∷ []) in
      let front =
        cut_lines block_begin block_end line end-OneLine end_nonempty begin-no_end intact in
      let found =
        cut_line (block_begin ++ 10 ∷ line) block_end (10 ∷ []) end-OneLine end_nonempty front in
      subst (λ (z : Text). cut z block_end ≡ some (block_begin ++ inner, 10 ∷ []))
        (append_assoc block_begin (10 ∷ line) (10 ∷ (block_end ++ 10 ∷ [])))
        (subst
          (λ (z : Text).
            cut ((block_begin ++ 10 ∷ line) ++ 10 ∷ (block_end ++ 10 ∷ [])) block_end
            ≡ some (z, 10 ∷ []))
          (append_assoc block_begin (10 ∷ line) (10 ∷ [])) found)

  body-again :
      (head : Text)
      → after_begin head (cut (block_begin ++ 10 ∷ after_body) block_end)
        ≡ again (if is_blank head then [] else head ++ [])
  unfolding after_begin trim_code
  body-again head = rw inner-cut refl

-- A text without a marker is, with its last line ended, followed by nothing that makes one.
ended-front :
    (s : Text)
    → cut s block_begin ≡ none
    → (u : Text) × (ended s ≡ u ++ 10 ∷ []) × (cut u block_begin ≡ none)
unfolding ended
ended-front s k = elim (Bool-cases (has_suffix s (10 ∷ []))) [
  | inl b ↦
      let (u, e) = has_suffix-newline s b in
      (u, rw b e, cut_shorter u (10 ∷ []) block_begin (rw (sym e) k))
  | inr b ↦ (s, rw b refl, k)
]

ended-blank : (s : Text) → is_blank (ended s) ≡ is_blank s
unfolding ended
ended-blank s = elim (Bool-cases (has_suffix s (10 ∷ []))) [
  | inl b ↦ rw b refl
  | inr b ↦ rw b (is_blank_iff (s ++ 10 ∷ []) ∙ (all_spaces-newline s ∙ sym (is_blank_iff s)))
]

newline-suffix : (u : Text) → has_suffix (u ++ 10 ∷ []) (10 ∷ []) ≡ true
unfolding has_suffix ◌==◌
newline-suffix [] = refl
newline-suffix (x ∷ u) = rw (newline-suffix u) (ground arith)

ended-ended : (s : Text) → ended (ended s) ≡ ended s
unfolding ended
ended-ended s = elim (Bool-cases (has_suffix s (10 ∷ []))) [
  | inl b ↦ rw b (rw b refl)
  | inr b ↦ rw b (rw (newline-suffix s) refl)
]

abbrev next : ℕ → Round → Text
next bound r = elim r [ finished t ↦ t | again t ↦ rounds bound t ]

rounds-again :
    (bound : ℕ) (s head rest t : Text)
    → cut s block_begin ≡ some (head, rest)
    → after_begin head (cut (block_begin ++ rest) block_end) ≡ again t
    → cut t block_begin ≡ none
    → rounds (suc bound) s ≡ t
unfolding rounds round
rounds-again bound s head rest t found e clean =
    ap (next bound) (ap (round s) found ∙ e) ∙ rounds_clean bound t clean

remove_managed_block_lem : (s : Text) → remove_managed_block s ≡ rounds (suc (length s)) s
unfolding remove_managed_block
remove_managed_block_lem s = refl

-- A stripped text with a block behind it.
abbrev with_block : Text → List Text → Text
with_block s lines = if is_blank s then block_body lines else ended s ++ block_body lines

-- What stripping leaves of that.
abbrev settled : Text → Text
settled s = if is_blank s then [] else ended s

blank_empty : is_blank [] ≡ true
unfolding is_blank trim_space ◌==◌
blank_empty = refl

with_block-settled :
    (s : Text) (lines : List Text) → with_block (settled s) lines ≡ with_block s lines
with_block-settled s lines = elim (Bool-cases (is_blank s)) [
  | inl b ↦ rw b (rw blank_empty refl)
  | inr b ↦ rw (b, ended-blank s) (rw (b, ended-ended s) refl)
]

module _ (lines : List Text) (intact : cut (join lines (10 ∷ [])) block_end ≡ none) where
  alone : (bound : ℕ) → rounds (suc bound) (block_body lines) ≡ []
  unfolding block_body after_body cut
  alone bound =
      rounds-again bound (block_body lines) [] (10 ∷ after_body lines intact) []
        (cut_prefix block_begin (10 ∷ after_body lines intact) begin_nonempty)
        (body-again lines intact [] ∙ rw blank_empty refl) refl

  behind :
      (bound : ℕ) (s : Text)
      → cut s block_begin ≡ none
      → is_blank s ≡ false
      → rounds (suc bound) (ended s ++ block_body lines) ≡ ended s
  unfolding block_body after_body cut
  behind bound s k full =
      let (u, e, l) = ended-front s k in
      let rest = 10 ∷ after_body lines intact in
      let found : cut (ended s ++ block_body lines) block_begin ≡ some (ended s, rest) =
        rw (e, append_assoc u (10 ∷ []) (block_begin ++ rest))
          (cut_line u block_begin rest begin-OneLine begin_nonempty l) in
      rounds-again bound (ended s ++ block_body lines) (ended s) rest (ended s) found
        (body-again lines intact (ended s) ∙ rw (ended-blank s, full, append-nil (ended s)) refl)
        (rw e (cut_lines u block_begin [] begin-OneLine begin_nonempty l refl))

  -- Whatever the text was, taking the blocks out of it after one was written gives what taking them out
  -- of it gave before, with its last line ended, and nothing if only blanks were left. No line of the
  -- block has the end marker in it.
  pub remove-upsert :
      (existing : Text)
      → remove_managed_block (upsert_managed_block existing lines) ≡ (
          if is_blank (remove_managed_block existing)
          then []
          else ended (remove_managed_block existing))
  unfolding upsert_managed_block
  remove-upsert existing =
      let s = remove_managed_block existing in
      elim (Bool-cases (is_blank s)) [
        | inl b ↦
            rw b (remove_managed_block_lem (block_body lines) ∙ alone (length (block_body lines)))
        | inr b ↦
            let whole = ended s ++ block_body lines in
            rw b (
              remove_managed_block_lem whole
              ∙ behind (length whole) s (remove_managed_block-clean existing) b)
      ]

  -- Writing a second block is as if the first had not been written. No line of the first block has the
  -- end marker in it.
  pub upsert-upsert :
      (existing : Text) (lines' : List Text)
      → upsert_managed_block (upsert_managed_block existing lines) lines'
        ≡ upsert_managed_block existing lines'
  unfolding upsert_managed_block
  upsert-upsert existing lines' =
      ap (λ (s : Text). with_block s lines') (remove-upsert existing)
      ∙ with_block-settled (remove_managed_block existing) lines'
