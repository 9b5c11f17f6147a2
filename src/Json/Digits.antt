-- ===== src/Json/Digits.antt =====
-- Decimal digits of a number, and one hexadecimal digit.
use mcp_assist_memory.Prelude.{
  ℕ, zero, suc, ◌+◌, ◌/◌, ◌%◌, Text, [], ◌∷◌, ltb, if◌then◌else◌, ◌≡◌, refl, codes,
}

-- A number has fewer digits than it has units, so its successor is fuel enough.
digits_fuel : ℕ → ℕ → Text → Text
digits_fuel zero n acc = acc
digits_fuel (suc fuel) n acc =
    let more = digits_fuel fuel (n / 10) ((48 + n % 10) ∷ acc) in
    if ltb n 10 then (48 + n) ∷ acc else more

-- `str(n)`
unfoldable pub decimal : ℕ → Text
unfolding digits_fuel
decimal n = digits_fuel (suc n) n []

unfoldable pub hex_digit : ℕ → ℕ
hex_digit n = if ltb n 10 then 48 + n else 87 + n

decimal_example : decimal 1073 ≡ codes "1073"
unfolding decimal
decimal_example = refl
