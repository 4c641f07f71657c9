-- ===== src/Compat.antt =====
-- internal/compat/compat.go: release numbers, their order, and the checks of the installed versions.
-- The texts of the findings are constructors with the values that they show.
pub mod Ranges
mod Tests
use openshell_driver_appleco.Prelude.{
  ℕ, ◌+◌, ◌*◌, ◌-◌, ◌^◌, Bool, true, false, not, ◌&&◌, ◌||◌, List, [], ◌∷◌, ◌++◌, Option, none,
  some, ltb, leb, eqb, if◌then◌else◌,
}
use openshell_driver_appleco.Text.{Text, text, split, trim_space, trim_left, trim_right}

pub record Version : Type 0 where
  pub major : ℕ
  pub minor : ℕ
  pub patch : ℕ

-- The digits of `strconv.Atoi`, with what is read of the number so far.
unfoldable pub read_digits : ℕ → Text → Option ℕ
read_digits n [] = some n
read_digits n (c ∷ s) =
    let rest = read_digits (10 * n + (c - b'0')) s in
    if leb b'0' c && leb c b'9' then rest else none

unfoldable pub read_number : Text → Option ℕ
unfolding read_digits
read_number [] = none
read_number (c ∷ s) = read_digits 0 (c ∷ s)

-- The 64-bit `n` of `strconv.Atoi(p)`, where it is no error and `n < 0` does not hold.
unfoldable pub atoi_nonnegative : Text → Option ℕ
unfolding read_number
atoi_nonnegative [] = none
atoi_nonnegative (c ∷ s) =
    let unsigned = read_number s in
    let whole = read_number (c ∷ s) in
    if eqb c b'+'
    then (elim unsigned [ none ↦ none | some n ↦ if ltb n (2 ^ 63) then some n else none ])
    else if eqb c b'-'
    then (elim unsigned [ none ↦ none | some n ↦ if eqb n 0 then some 0 else none ])
    else (elim whole [ none ↦ none | some n ↦ if ltb n (2 ^ 63) then some n else none ])

-- The loop over the parts, of which there must be three.
unfoldable pub parse_parts : List Text → Option Version
unfolding atoi_nonnegative
parse_parts (p ∷ q ∷ r ∷ []) = elim (atoi_nonnegative p) [
  | none ↦ none
  | some major ↦ elim (atoi_nonnegative q) [
    | none ↦ none
    | some minor ↦ elim (atoi_nonnegative r) [
      | none ↦ none
      | some patch ↦ some (record { major = major; minor = minor; patch = patch })
    ]
  ]
]
parse_parts _ = none

-- `strings.Trim(s, "()")`
unfoldable pub is_parenthesis : ℕ → Bool
is_parenthesis c = eqb c b'(' || eqb c b')'

-- `strings.TrimPrefix(s, "v")`
unfoldable pub trim_v : Text → Text
trim_v [] = []
trim_v (c ∷ s) = if eqb c b'v' then s else c ∷ s

unfoldable pub parse : Text → Option Version
unfolding parse_parts trim_v is_parenthesis
parse s =
    let bare = trim_right is_parenthesis (trim_left is_parenthesis (trim_space s)) in
    parse_parts (split (trim_v bare) b'.')

-- `Compare(a, b) < 0`: the sign of the first difference.
unfoldable pub less : Version → Version → Bool
less a b =
    if not (eqb a.major b.major)
    then ltb a.major b.major
    else if not (eqb a.minor b.minor)
    then ltb a.minor b.minor
    else ltb a.patch b.patch

unfoldable pub open_shell_min : Version
open_shell_min = record { major = 0; minor = 0; patch = 96 }

unfoldable pub open_shell_max : Version
open_shell_max = record { major = 0; minor = 0; patch = 116 }

unfoldable pub apple_container_min : Version
apple_container_min = record { major = 1; minor = 2; patch = 0 }

unfoldable pub apple_container_max : Version
apple_container_max = record { major = 1; minor = 4; patch = 1 }

unfoldable pub apple_container_min_safe : Version
apple_container_min_safe = record { major = 1; minor = 3; patch = 1 }

-- `Finding`: one constructor for each message, which settles the level (`too_old` is an error and
-- `verified` is ok, the others are warnings).
pub data Finding : Type 0 where
  undetermined : Finding
  has_advisories too_old too_new verified : Version → Finding

unfoldable pub advisories : Version → List Finding
unfolding less apple_container_min_safe
advisories v = if less v apple_container_min_safe then has_advisories v ∷ [] else []

unfoldable pub apple_range : Version → List Finding
unfolding less apple_container_min apple_container_max
apple_range v =
    if less v apple_container_min
    then too_old v ∷ []
    else if less apple_container_max v
    then too_new v ∷ []
    else []

-- `if len(out) == 0`
unfoldable pub or_verified : Version → List Finding → List Finding
or_verified v [] = verified v ∷ []
or_verified v (f ∷ fs) = f ∷ fs

unfoldable pub check_apple_container : Text → List Finding
unfolding advisories apple_range or_verified
check_apple_container installed = elim (parse installed) [
  | none ↦ undetermined ∷ []
  | some v ↦ or_verified v (advisories v ++ apple_range v)
]

unfoldable pub check_open_shell : Text → List Finding
unfolding less open_shell_min open_shell_max
check_open_shell installed = elim (parse installed) [
  | none ↦ undetermined ∷ []
  | some v ↦
      if less v open_shell_min
      then too_old v ∷ []
      else if less open_shell_max v
      then too_new v ∷ []
      else verified v ∷ []
]
