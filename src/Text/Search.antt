-- ===== src/Text/Search.antt =====
-- `strings.Contains`, `strings.ToLower`, `strings.Fields`, `strings.Trim` and the order of strings.
use openshell_driver_appleco.Prelude.{
  ℕ, ◌+◌, Bool, true, false, ◌&&◌, ◌||◌, List, [], ◌∷◌, ◌++◌, ltb, leb, eqb, drop, length,
  if◌then◌else◌, ◌≡◌, refl,
}
use openshell_driver_appleco.Text.{
  Text, text, has_prefix, contains_code, is_space, trim_left, trim_right,
}

unfoldable pub contains_text : Text → Text → Bool
unfolding has_prefix
contains_text [] p = has_prefix [] p
contains_text (x ∷ s) p = has_prefix (x ∷ s) p || contains_text s p

-- As far as the result is ASCII: beside the ASCII capitals, the dotted capital I and the Kelvin sign
-- have ASCII letters for lower case.
lower_code : ℕ → ℕ
lower_code c =
    if leb b'A' c && leb c b'Z'
    then c + 32
    else if eqb c 0x130
    then b'i'
    else if eqb c 0x212a
    then b'k'
    else c

unfoldable pub to_lower : Text → Text
unfolding lower_code
to_lower [] = []
to_lower (x ∷ s) = lower_code x ∷ to_lower s

-- The words between the white space; `cur` is the one that is being read.
push_word : Text → List Text → List Text
push_word [] ws = ws
push_word (x ∷ w) ws = (x ∷ w) ∷ ws

fields_from : Text → Text → List Text
unfolding push_word is_space
fields_from cur [] = push_word cur []
fields_from cur (x ∷ s) =
    let closed = push_word cur (fields_from [] s) in
    let longer = fields_from (cur ++ x ∷ []) s in if is_space x then closed else longer

unfoldable pub fields : Text → List Text
unfolding fields_from
fields s = fields_from [] s

-- `strings.Trim(s, cutset)`
unfoldable pub trim : Text → Text → Text
unfolding trim_left trim_right contains_code
trim s cutset = trim_right (contains_code cutset) (trim_left (contains_code cutset) s)

-- `a <= b`: UTF-8 orders texts as their code points do.
unfoldable pub text_le : Text → Text → Bool
text_le [] b = true
text_le (x ∷ a) [] = false
text_le (x ∷ a) (y ∷ b) = ltb x y || (eqb x y && text_le a b)

fields_test : fields (text " a bc  d ") ≡ text "a" ∷ text "bc" ∷ text "d" ∷ []
unfolding fields
fields_test = refl

-- `strings.TrimPrefix`
unfoldable pub trim_prefix : Text → Text → Text
trim_prefix p s = if has_prefix s p then drop (length p) s else s
