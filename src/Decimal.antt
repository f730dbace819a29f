-- ===== src/Decimal.antt =====
-- `std::to_string` and `std::from_chars` for signed integers in base ten, as far as the program uses
-- them, and `parse_int` of src/handlers.cpp.
pub mod RoundTrip
pub mod Parse
use s_size_store.Prelude.{
  ℕ, zero, suc, ◌+◌, ◌-◌, ◌*◌, ◌/◌, ◌%◌, ◌^◌, ◌≤◌, ℤ, pos, negsuc, neg, Bool, ◌&&◌, List, [], ◌∷◌,
  Option, none, some, leb, ltb, ◌==◌, if◌then◌else◌, nat_eq,
}
use s_size_store.Bytes.{Bytes}

-- The digits of `n` in front of `out`; `n` itself is fuel enough, as each round divides it by ten.
unfoldable pub digits : ℕ → ℕ → Bytes → Bytes
digits zero n out = out
digits (suc fuel) n out =
    let more = digits fuel (n / 10) ((b'0' + n % 10) ∷ out) in if n == 0 then out else more

unfoldable pub print_ℕ : ℕ → Bytes
unfolding digits
print_ℕ n = if n == 0 then b'0' ∷ [] else digits n n []

-- `std::to_string(v)`
unfoldable pub to_string : ℤ → Bytes
unfolding print_ℕ
to_string (pos n) = print_ℕ n
to_string (negsuc n) = b'-' ∷ print_ℕ (suc n)

unfoldable pub is_digit : ℕ → Bool
is_digit c = leb b'0' c && leb c b'9'

-- The value of the longest run of digits, and what follows it.
unfoldable pub scan : Bytes → ℕ → ℕ × Bytes
unfolding is_digit
scan [] n = (n, [])
scan (c ∷ s) n = let more = scan s (n * 10 + (c - b'0')) in if is_digit c then more else (n, c ∷ s)

unfoldable pub magnitude : Bytes → Option (ℕ × Bytes)
unfolding scan
magnitude [] = none
magnitude (c ∷ s) = if is_digit c then some (scan (c ∷ s) 0) else none

abbrev at_most : ℕ → (ℕ → ℤ) → Option (ℕ × Bytes) → Option (ℤ × Bytes)
at_most limit sign none = none
at_most limit sign (some (m, rest)) = if leb m limit then some (sign m, rest) else none

-- `std::from_chars` into a signed type whose greatest value is `top`: the value and what follows it,
-- or none on `invalid_argument` and on `result_out_of_range`.
unfoldable pub from_chars : ℕ → Bytes → Option (ℤ × Bytes)
unfolding magnitude
from_chars top [] = none
from_chars top (c ∷ s) =
    if c == b'-' then at_most (top + 1) neg (magnitude s) else at_most top pos (magnitude (c ∷ s))

abbrev pub int64_max : ℕ
int64_max = 2 ^ 63 - 1

abbrev whole : Option (ℤ × Bytes) → Option ℤ
whole none = none
whole (some (v, [])) = some v
whole (some (v, _ ∷ _)) = none

unfoldable pub parse_int : Bytes → Option ℤ
unfolding from_chars
parse_int s = whole (from_chars int64_max s)
