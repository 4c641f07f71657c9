-- ===== src/Hostsetup/Block/Quote.antt =====
-- internal/hostsetup/hostsetup.go: the quoting of paths in the environment file.
use openshell_driver_appleco.Prelude.{
  ℕ, [], ◌∷◌, ◌++◌, Option, none, some, eqb, ◌≡◌, refl, arith, Bool-cases, inl, inr, if◌then◌else◌,
}
use openshell_driver_appleco.Text.{Text}
use openshell_driver_appleco.Hostsetup.Block.{quoted, shell_quote}

-- Where a shell is in a word.
pub data Mode : Type 0 where
  outside escaped between : Mode

begun_by : ℕ → Option Text → Option Text
begun_by x none = none
begun_by x (some s) = some (x ∷ s)

-- The text that a shell reads as one word in which every character is quoted, by single quotes or by a
-- backslash: none if a character is not, or a quote is left open.
unfoldable pub word : Mode → Text → Option Text
unfolding begun_by
word outside [] = some []
word outside (x ∷ s) =
    let quote = word between s in
    let escape = word escaped s in
    if eqb x b'\'' then quote else if eqb x b'\\' then escape else none
word escaped [] = none
word escaped (x ∷ s) = begun_by x (word outside s)
word between [] = none
word between (x ∷ s) =
    let close = word outside s in
    let inner = word between s in if eqb x b'\'' then close else begun_by x inner

quoted-word : (s : Text) → word between (quoted s ++ b'\'' ∷ []) ≡ some s
unfolding quoted word begun_by
quoted-word [] = refl
quoted-word (x ∷ s) = elim (Bool-cases (eqb x b'\'')) [
  | inl b ↦ rw b (rw (quoted-word s) (ground (arith, b)))
  | inr b ↦ rw b (rw (b, quoted-word s) refl)
]

-- A shell reads a quoted value as one word, and that word is the value, whatever its characters.
pub shell_quote-word : (s : Text) → word outside (shell_quote s) ≡ some s
unfolding shell_quote word
shell_quote-word s = quoted-word s
