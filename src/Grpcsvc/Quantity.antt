-- ===== src/Grpcsvc/Quantity.antt =====
-- internal/grpcsvc/quantity.go. The double-precision numbers of the language are a parameter: the
-- operations that the two parsers use, with `ceil` for `int64(math.Ceil(x))`.
use openshell_driver_appleco.Prelude.{
  ℕ, ◌^◌, Bool, ◌||◌, List, [], ◌∷◌, Option, none, some, if◌then◌else◌, length, take, ◌-◌,
}
use openshell_driver_appleco.Int.{ℤ, pos, is_positive}
use openshell_driver_appleco.Result.{Result, ok, err, ◌>>=◌}
use openshell_driver_appleco.Text.{Text, text, ◌==◌, has_suffix, trim_space}

pub record Floats (F : Type 0) : Type 0 where
  pub parse_float : Text → Option F
  pub of_ℕ : ℕ → F
  pub times : F → F → F
  pub over : F → F → F
  pub is_negative : F → Bool
  pub is_nan : F → Bool
  pub is_inf : F → Bool
  pub is_zero : F → Bool
  pub ceil : F → ℤ

-- `strings.TrimSuffix(s, p)`
unfoldable pub trim_suffix : Text → Text → Text
trim_suffix s p = if has_suffix s p then take (length s - length p) s else s

pub data QuantityError : Type 0 where
  invalid_cpu invalid_memory : Text → QuantityError

-- `if n < 1 { n = 1 }`
unfoldable pub at_least_one : ℤ → ℤ
at_least_one n = if is_positive n then n else pos 1

-- The suffixes in the order of the table, "Ki" before "K".
unfoldable pub memory_suffixes : List (Text × ℕ)
memory_suffixes =
    (text "Ki", 2 ^ 10)
    ∷ (text "Mi", 2 ^ 20)
    ∷ (text "Gi", 2 ^ 30)
    ∷ (text "Ti", 2 ^ 40)
    ∷ (text "K", 10 ^ 3)
    ∷ (text "M", 10 ^ 6)
    ∷ (text "G", 10 ^ 9)
    ∷ (text "T", 10 ^ 12)
    ∷ []

-- The number and the factor: the loop stops at the first suffix that fits.
unfoldable pub split_suffix : Text → List (Text × ℕ) → Text × ℕ
unfolding trim_suffix
split_suffix s [] = (s, 1)
split_suffix s ((suffix, factor) ∷ more) =
    let later = split_suffix s more in
    if has_suffix s suffix then (trim_suffix s suffix, factor) else later

module _ {F : Type 0} (fl : Floats F) where
  open fl use {parse_float, of_ℕ, times, over, is_negative, is_nan, is_inf, is_zero, ceil}

  abbrev is_unusable : F → Bool
  is_unusable v = is_negative v || is_nan v || is_inf v

  -- The number of cores, before it is rounded.
  parse_cores : Text → Option F
  unfolding trim_suffix
  parse_cores s =
      if has_suffix s (text "m")
      then (elim (parse_float (trim_suffix s (text "m"))) [
        | none ↦ none
        | some milli ↦ some (over milli (of_ℕ 1000))
      ])
      else parse_float s

  whole_cpus : Text → Option F → Result QuantityError ℤ
  unfolding at_least_one
  whole_cpus s none = err (invalid_cpu s)
  whole_cpus s (some cores) =
      if is_unusable cores
      then err (invalid_cpu s)
      else if is_zero cores
      then ok (pos 0)
      else ok (at_least_one (ceil cores))

  unfoldable pub parse_cpu_quantity : Text → Result QuantityError ℤ
  unfolding parse_cores whole_cpus
  parse_cpu_quantity input =
      let s = trim_space input in if s == [] then ok (pos 0) else whole_cpus s (parse_cores s)

  whole_mib : Text → ℕ → Option F → Result QuantityError ℤ
  unfolding at_least_one
  whole_mib s factor none = err (invalid_memory s)
  whole_mib s factor (some v) =
      let bytes = times v (of_ℕ factor) in
      if is_unusable v
      then err (invalid_memory s)
      else if is_zero bytes
      then ok (pos 0)
      else ok (at_least_one (ceil (over bytes (of_ℕ (2 ^ 20)))))

  unfoldable pub parse_memory_quantity_mb : Text → Result QuantityError ℤ
  unfolding whole_mib split_suffix memory_suffixes
  parse_memory_quantity_mb input =
      let s = trim_space input in
      let (num, factor) = split_suffix s memory_suffixes in
      if s == [] then ok (pos 0) else whole_mib s factor (parse_float num)

-- create.go, `firstQuantity`: the first candidate that is not zero.
unfoldable pub first_quantity : (Text → Result QuantityError ℤ) → List Text → Result QuantityError ℤ
first_quantity parse [] = ok (pos 0)
first_quantity parse (c ∷ cs) = do
  v ← parse c
  let rest = first_quantity parse cs
  if is_positive v then ok v else rest
