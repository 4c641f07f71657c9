-- ===== src/Config/Values.antt =====
-- internal/config/config.go: the values that settings are read from.
use openshell_driver_appleco.Prelude.{
  ℕ, zero, suc, Bool, true, false, not, ◌&&◌, ◌||◌, List, [], ◌∷◌, Option, none, some, ltb, leb,
  eqb, all, if◌then◌else◌, ◌^◌, ◌+◌,
}
use openshell_driver_appleco.Int.{ℤ, pos, negsuc}
use openshell_driver_appleco.Text.{Text, text, ◌==◌, split, trim_space}
use openshell_driver_appleco.Text.Search.{fields}
use openshell_driver_appleco.Compat.{read_number}

unfoldable pub value_or {ℓ} : {A : Type ℓ} → Option A → A → A
value_or none x = x
value_or (some y) x = y

-- `strconv.ParseBool`
unfoldable pub parse_bool : Text → Option Bool
parse_bool s =
    if s == text "1"
      || (s == text "t"
          || (s == text "T" || (s == text "true" || (s == text "TRUE" || s == text "True"))))
    then some true
    else if s == text "0"
        || (s == text "f"
            || (s == text "F" || (s == text "false" || (s == text "FALSE" || s == text "False"))))
    then some false
    else none

unfoldable pub negated : ℕ → ℤ
negated zero = pos zero
negated (suc n) = negsuc n

unfoldable pub within : ℕ → (ℕ → ℤ) → Option ℕ → Option ℤ
within limit f none = none
within limit f (some n) = if ltb n limit then some (f n) else none

-- `strconv.ParseInt(s, 10, 64)`
unfoldable pub parse_int : Text → Option ℤ
unfolding read_number within negated
parse_int [] = none
parse_int (c ∷ s) =
    if eqb c b'+'
    then within (2 ^ 63) pos (read_number s)
    else if eqb c b'-'
    then within (2 ^ 63 + 1) negated (read_number s)
    else within (2 ^ 63) pos (read_number (c ∷ s))

unfoldable pub nonempty : List Text → List Text
nonempty [] = []
nonempty (part ∷ parts) =
    let p = trim_space part in let rest = nonempty parts in if p == [] then rest else p ∷ rest

unfoldable pub split_list : Text → List Text
unfolding nonempty
split_list s = nonempty (split s b',')

unfoldable pub is_number : Text → Bool
is_number s = not (s == []) && all (λ c. leb b'0' c && leb c b'9') s

unfoldable pub is_dotted : List Text → Bool
unfolding is_number
is_dotted (p ∷ q ∷ r ∷ []) = is_number p && (is_number q && is_number r)
is_dotted _ = false

-- The group of the expression `^v?(\d+\.\d+\.\d+)$`.
unfoldable pub without_v : Text → Text
without_v [] = []
without_v (c ∷ s) = if eqb c b'v' then s else c ∷ s

last_field : Text → List Text → Text
last_field w [] = w
last_field w (x ∷ ws) = last_field x ws

unfoldable pub version_in : Option Text → Text
unfolding is_dotted without_v last_field
version_in none = []
version_in (some output) =
    let version = without_v (last_field [] (fields output)) in
    if is_dotted (split version b'.') then version else []
