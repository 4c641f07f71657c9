-- ===== src/Hostsetup/Block/Clean.antt =====
-- internal/hostsetup/hostsetup.go: what is left when the managed blocks are taken out.
use openshell_driver_appleco.Prelude.{
  ℕ, zero, suc, ◌+◌, ◌≤◌, ◌<◌, [], ◌∷◌, ◌++◌, Option, none, some, length, ◌≡◌, ◌≢◌, refl, arith,
  Bool-cases, inl, inr, length-append, sym,
}
use openshell_driver_appleco.Text.{Text, trim_right, contains_code}
use openshell_driver_appleco.Text.Cut.{
  OneLine, cut, cut_lines, cut_shorter, cut-eq_some, trim_right_front,
}
use openshell_driver_appleco.Hostsetup.Block.{
  block_begin, block_end, trim_code, is_line_end, is_blank, Round, finished, again, after_begin,
  round, rounds, remove_managed_block,
}

pub begin-OneLine : OneLine block_begin
unfolding block_begin contains_code
begin-OneLine = refl

pub end-OneLine : OneLine block_end
unfolding block_end contains_code
end-OneLine = refl

pub begin_nonempty : block_begin ≢ []
unfolding block_begin
begin_nonempty = ground arith

pub end_nonempty : block_end ≢ []
unfolding block_end
end_nonempty = ground arith

nonempty-length : (t : Text) → t ≢ [] → 1 ≤ length t
nonempty-length [] h = absurd (h refl)
nonempty-length (x ∷ t) h = omega arith

trim_code-length : (c : ℕ) (s : Text) → length (trim_code c s) ≤ length s
unfolding trim_code
trim_code-length c [] = omega arith
trim_code-length c (x ∷ s) = ground arith

-- A round leaves a text without a marker, or a shorter one for the next.
abbrev IsProgress : Text → Round → Type 0
IsProgress s (finished t) = cut t block_begin ≡ none
IsProgress s (again t) = length t < length s

after_begin-IsProgress :
    (s head rest : Text)
    → s ≡ head ++ (block_begin ++ rest)
    → cut head block_begin ≡ none
    → (o : Option (Text × Text)) → cut (block_begin ++ rest) block_end ≡ o
    → IsProgress s (after_begin head o)
unfolding after_begin cut
after_begin-IsProgress s head rest e k none c =
    let (r, f) = trim_right_front is_line_end head in
    let front = cut_shorter (trim_right is_line_end head) r block_begin (rw (sym f) k) in
    cut_lines (trim_right is_line_end head) block_begin [] begin-OneLine begin_nonempty front refl
after_begin-IsProgress s head rest e k (some (inner, tail)) c =
    let (g, _) = cut-eq_some (block_begin ++ rest) block_end inner tail c in
    let whole : length s ≡ length head + (length inner + (length block_end + length tail)) =
      rw
        (
          e,
          g,
          length-append head (inner ++ (block_end ++ tail)),
          length-append inner (block_end ++ tail),
          length-append block_end tail,
        )
        refl in
    let tail' = trim_code 10 (trim_code 13 tail) in
    let short : length tail' ≤ length tail =
      omega (arith, trim_code-length 10 (trim_code 13 tail), trim_code-length 13 tail) in
    let some_end = nonempty-length block_end end_nonempty in
    elim (Bool-cases (is_blank head)) [
      | inl b ↦ rw b (omega (arith, whole, short, some_end))
      | inr b ↦ rw (b, length-append head tail') (omega (arith, whole, short, some_end))
    ]

round-IsProgress :
    (s : Text) (o : Option (Text × Text)) → cut s block_begin ≡ o → IsProgress s (round s o)
unfolding round
round-IsProgress s none c = c
round-IsProgress s (some (head, rest)) c =
    let (e, k) = cut-eq_some s block_begin head rest c in
    after_begin-IsProgress s head rest e k (cut (block_begin ++ rest) block_end) refl

next_round :
    (bound : ℕ) (s : Text) (r : Round)
    → length s < suc bound
    → IsProgress s r
    → ((t : Text) → length t < bound → cut (rounds bound t) block_begin ≡ none)
    → cut (elim r [ finished t ↦ t | again t ↦ rounds bound t ]) block_begin ≡ none
next_round bound s (finished t) h p rec = p
next_round bound s (again t) h p rec = rec t (omega arith)

rounds-clean : (bound : ℕ) (s : Text) → length s < bound → cut (rounds bound s) block_begin ≡ none
unfolding rounds
rounds-clean zero s h = absurd (omega arith)
rounds-clean (suc bound) s h =
    next_round bound s (round s (cut s block_begin)) h (round-IsProgress s (cut s block_begin) refl)
      (rounds-clean bound)

-- The loop that strips the managed blocks comes to its end within as many rounds as the text has
-- characters and one more, and leaves no begin marker, whatever the text.
pub remove_managed_block-clean : (s : Text) → cut (remove_managed_block s) block_begin ≡ none
unfolding remove_managed_block
remove_managed_block-clean s = rounds-clean (suc (length s)) s (omega arith)
