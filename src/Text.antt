-- ===== src/Text.antt =====
-- Go's `string` as the list of its code points, and the functions of the standard packages
-- `strings` and `path` that the driver calls. Texts that are not valid UTF-8 are not represented.
pub mod Laws
pub mod Path
pub mod Decimal
pub mod Search
pub mod Cut
use Prim.Native.Char.{code}
use Prim.Native.String.{String}
use openshell_driver_appleco.Prelude.{
  ℕ, zero, suc, ◌+◌, Bool, true, false, not, ◌&&◌, ◌||◌, List, [], ◌∷◌, ◌++◌, Option, none, some,
  eqb, leb, if◌then◌else◌,
}

abbrev pub Text : Type 0
Text = List ℕ

-- A literal. `String` has its own `[]` and `∷`.
abbrev pub text : String → Text
text String.[] = []
text (String.◌∷◌ c s) = code c ∷ text s

infix 50 ◌==◌
unfoldable pub ◌==◌ : Text → Text → Bool
[] == [] = true
(x ∷ xs) == (y ∷ ys) = eqb x y && xs == ys
_ == _ = false

-- `strings.HasPrefix(s, p)`
unfoldable pub has_prefix : Text → Text → Bool
has_prefix s [] = true
has_prefix [] (y ∷ p) = false
has_prefix (x ∷ s) (y ∷ p) = eqb x y && has_prefix s p

-- `strings.HasSuffix(s, p)`
unfoldable pub has_suffix : Text → Text → Bool
has_suffix [] p = [] == p
has_suffix (x ∷ s) p = (x ∷ s) == p || has_suffix s p

-- `strings.Contains(s, c)` and `strings.ContainsAny(s, chars)`, one code point at a time.
unfoldable pub contains_code : Text → ℕ → Bool
contains_code [] c = false
contains_code (x ∷ s) c = eqb x c || contains_code s c

unfoldable pub contains_any : Text → Text → Bool
unfolding contains_code
contains_any [] chars = false
contains_any (x ∷ s) chars = contains_code chars x || contains_any s chars

-- `strings.Split(s, c)` for a separator of one code point: never empty.
unfoldable pub split_from : ℕ → Text → Text → List Text
split_from c cur [] = cur ∷ []
split_from c cur (x ∷ s) =
    let closed = cur ∷ split_from c [] s in
    let longer = split_from c (cur ++ x ∷ []) s in if eqb x c then closed else longer

unfoldable pub split : Text → ℕ → List Text
unfolding split_from
split s c = split_from c [] s

-- `strings.Join(parts, sep)`
unfoldable pub join : List Text → Text → Text
join [] sep = []
join (p ∷ []) sep = p
join (p ∷ q ∷ ps) sep = p ++ (sep ++ join (q ∷ ps) sep)

-- `unicode.IsSpace`
unfoldable pub is_space : ℕ → Bool
is_space c =
    (leb 9 c && leb c 13)
    || eqb c 32
    || eqb c 0x85
    || eqb c 0xa0
    || eqb c 0x1680
    || (leb 0x2000 c && leb c 0x200a)
    || eqb c 0x2028
    || eqb c 0x2029
    || eqb c 0x202f
    || eqb c 0x205f
    || eqb c 0x3000

-- `strings.TrimLeftFunc` and `strings.TrimRightFunc`
unfoldable pub trim_left : (ℕ → Bool) → Text → Text
trim_left p [] = []
trim_left p (x ∷ s) = if p x then trim_left p s else x ∷ s

unfoldable pub trim_right : (ℕ → Bool) → Text → Text
trim_right p [] = []
trim_right p (x ∷ s) = drop_blank (trim_right p s)
  where
    drop_blank : Text → Text
    drop_blank [] = if p x then [] else x ∷ []
    drop_blank (y ∷ r) = x ∷ y ∷ r

-- `strings.TrimSpace`
unfoldable pub trim_space : Text → Text
unfolding trim_left trim_right is_space
trim_space s = trim_right is_space (trim_left is_space s)
