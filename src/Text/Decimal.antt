-- ===== src/Text/Decimal.antt =====
-- `strconv.FormatInt(n, 10)`.
use openshell_driver_appleco.Prelude.{
  ℕ, zero, suc, ◌+◌, ◌/◌, ◌%◌, [], ◌∷◌, ◌++◌, ltb, if◌then◌else◌, ◌≡◌, refl,
}
use openshell_driver_appleco.Int.{ℤ, pos, negsuc}
use openshell_driver_appleco.Text.{Text, text}

-- A number has fewer digits than it counts, so it serves as the bound of the recursion.
unfoldable pub digits : ℕ → ℕ → Text
digits zero n = []
digits (suc bound) n =
    let higher = digits bound (n / 10) in
    if ltb n 10 then (b'0' + n) ∷ [] else higher ++ (b'0' + n % 10) ∷ []

unfoldable pub decimal : ℕ → Text
unfolding digits
decimal n = digits (suc n) n

unfoldable pub format_int : ℤ → Text
unfolding decimal
format_int (pos n) = decimal n
format_int (negsuc n) = b'-' ∷ decimal (suc n)

format_int_test : format_int (negsuc 2047) ≡ text "-2048"
unfolding format_int
format_int_test = refl
