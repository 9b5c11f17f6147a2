-- ===== src/Reconcile/Convert.antt =====
-- Python's `int(v)` on a JSON value, as storage/reconcile.py calls it on `meta.pr`. Its `none` is the
-- exception that it raises. Digits beyond ASCII are not read.
use mcp_assist_memory.Prelude.{
  ℕ, zero, suc, ◌+◌, ◌-◌, ◌*◌, ◌/◌, ◌%◌, ◌^◌, Text, Bool, true, false, Option, none, some, [], ◌∷◌,
  ◌&&◌, ltb, leb, ◌==◌, length, keep, if◌then◌else◌,
}
use mcp_assist_memory.Json.{Json, bool, int, float, str}
use mcp_assist_memory.Regex.{is_digit, is_space}

-- a Python `int`: whether it is negative, and its magnitude
pub record Number : Type 0 where
  pub negative : Bool
  pub magnitude : ℕ

abbrev signed : Bool → ℕ → Number
signed s zero = record { negative = false; magnitude = zero }
signed s (suc n) = record { negative = s; magnitude = suc n }

-- The digits of a text, with single underscores between them; the flag says that a digit was read
-- last.
unfoldable pub digits : Bool → ℕ → Text → Option ℕ
digits after n [] = if after then some n else none
digits after n (c ∷ s) = elim (is_digit c) [
  | true ↦ digits true (n * 10 + (c - 48)) s
  | false ↦ elim (after && (c == 95)) [ true ↦ digits false n s | false ↦ none ]
]

unfoldable pub skip_space : Text → Text
skip_space [] = []
skip_space (c ∷ s) = let rest = skip_space s in if is_space c then rest else c ∷ s

-- `rstrip`
unfoldable pub drop_space : Text → Text
drop_space [] = []
drop_space (c ∷ s) = elim (drop_space s) [
  | [] ↦ if is_space c then [] else c ∷ []
  | d ∷ t ↦ c ∷ d ∷ t
]

abbrev with_sign : Bool → Option ℕ → Option Number
with_sign s none = none
with_sign s (some n) = some (signed s n)

-- More than 4300 digits raise `ValueError`.
abbrev magnitude_of : Text → Option ℕ
magnitude_of s = if ltb 4300 (length (keep is_digit s)) then none else digits false 0 s

abbrev signed_text : Text → Option Number
signed_text [] = none
signed_text (c ∷ s) =
    if c == 45
    then with_sign true (magnitude_of s)
    else if c == 43
    then with_sign false (magnitude_of s)
    else with_sign false (magnitude_of (c ∷ s))

-- The integer part of a double, by its exponent and its fraction; an infinity and a NaN raise.
abbrev truncated : ℕ → ℕ → Option ℕ
truncated exponent fraction =
    if exponent == 2047
    then none
    else if ltb exponent 1023
    then some 0
    else if ltb exponent 1075
    then some ((2 ^ 52 + fraction) / 2 ^ (1075 - exponent))
    else some ((2 ^ 52 + fraction) * 2 ^ (exponent - 1075))

unfoldable pub int_of_float : ℕ → Option Number
int_of_float bits = with_sign (leb (2 ^ 63) bits) (truncated (bits / 2 ^ 52 % 2048) (bits % 2 ^ 52))

-- `int(v)`
unfoldable pub int_of : Json → Option Number
unfolding digits skip_space drop_space int_of_float
int_of (bool b) = some (record { negative = false; magnitude = if b then 1 else 0 })
int_of (int s n) = some (signed s n)
int_of (float bits) = int_of_float bits
int_of (str s) = signed_text (drop_space (skip_space s))
int_of _ = none
