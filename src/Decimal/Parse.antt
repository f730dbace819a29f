-- ===== src/Decimal/Parse.antt =====
-- What `parse_int` accepts, and what it returns.
use s_size_store.Prelude.{
  ℕ, ◌+◌, ◌-◌, ◌*◌, ◌≤◌, ◌≡◌, ◌≢◌, inl, inr, ℤ, pos, neg, refl, [], ◌∷◌, some, none, arith, All,
  nat_eq, ==_iff, ◌==◌, Option, Bool-cases, ap, ◌∙◌, ◌↔◌,
}
use s_size_store.Bytes.{Bytes}
use s_size_store.Decimal.{scan, magnitude, parse_int, int64_max, whole, at_most}

abbrev pub IsDigit : ℕ → Type 0
IsDigit c = (b'0' ≤ c) × (c ≤ b'9')

-- The number that digits spell behind `n`, with no bound.
abbrev pub value : ℕ → Bytes → ℕ
value n [] = n
value n (c ∷ s) = value (n * 10 + (c - b'0')) s

pub scan_of_digits : (s : Bytes) (n : ℕ) → All IsDigit s → scan s n ≡ (value n s, [])
unfolding scan
scan_of_digits [] n h = refl
scan_of_digits (c ∷ s) n (hc, hs) = ground (arith, scan_of_digits s (n * 10 + (c - b'0')) hs)

scan_sound : (s : Bytes) (n m : ℕ) → scan s n ≡ (m, []) → All IsDigit s × (m ≡ value n s)
unfolding scan
scan_sound [] n m h = ground arith
scan_sound (c ∷ s) n m h = ground (arith, scan_sound s (n * 10 + (c - b'0')) m)

-- A decimal text of a value that fits 64 bits: digits, perhaps behind one minus sign.
pub data IsDecimal : Bytes → ℤ → Type 0 where
  plain :
      {s : Bytes} {v : ℤ}
      → s ≢ []
      → All IsDigit s
      → value 0 s ≤ int64_max
      → v ≡ pos (value 0 s)
      → IsDecimal s v
  signed :
      {s : Bytes} {v : ℤ}
      → s ≢ []
      → All IsDigit s
      → value 0 s ≤ int64_max + 1
      → v ≡ neg (value 0 s)
      → IsDecimal (b'-' ∷ s) v

magnitude_sound :
    (s : Bytes) (m : ℕ) → magnitude s ≡ some (m, []) → (s ≢ []) × All IsDigit s × (m ≡ value 0 s)
unfolding magnitude
magnitude_sound [] m h = ground arith
magnitude_sound (c ∷ s) m h = ground (arith, scan_sound (c ∷ s) 0 m)

whole-at_most :
    (limit : ℕ) (sign : ℕ → ℤ) (o : Option (ℕ × Bytes)) (v : ℤ)
    → whole (at_most limit sign o) ≡ some v
    → (m : ℕ) × (o ≡ some (m, [])) × (m ≤ limit) × (v ≡ sign m)
whole-at_most limit sign none v h = ground arith
whole-at_most limit sign (some (m, [])) v h = (m, refl, ground arith, ground arith)
whole-at_most limit sign (some (m, c ∷ rest)) v h = ground arith

-- An accepted text is a decimal whose value fits 64 bits, and the result is that value.
pub parse_int_sound : (s : Bytes) (v : ℤ) → parse_int s ≡ some v → IsDecimal s v
unfolding parse_int
parse_int_sound [] v h = ground arith
parse_int_sound (c ∷ s) v h = elim (Bool-cases (c == b'-')) [
  | inl minus ↦
      let (m, read, fits, is) = whole-at_most (int64_max + 1) neg (magnitude s) v (ground arith) in
      let (some_digit, digit, exact) = magnitude_sound s m read in
      rw ((==_iff c b'-').0 minus) (signed some_digit digit (omega arith) (is ∙ ap neg exact))
  | inr other ↦
      let (m, read, fits, is) = whole-at_most int64_max pos (magnitude (c ∷ s)) v (ground arith) in
      let (some_digit, digit, exact) = magnitude_sound (c ∷ s) m read in
      plain some_digit digit (omega arith) (is ∙ ap pos exact)
]

magnitude_complete : (s : Bytes) → s ≢ [] → All IsDigit s → magnitude s ≡ some (value 0 s, [])
unfolding magnitude
magnitude_complete [] h k = absurd (h refl)
magnitude_complete (c ∷ s) h (hc, hs) = ground (arith, scan_of_digits (c ∷ s) 0 (hc, hs))

-- Nothing that is such a decimal is refused.
pub parse_int_complete : {s : Bytes} {v : ℤ} → IsDecimal s v → parse_int s ≡ some v
unfolding parse_int
parse_int_complete (plain {s = []} h k fits is) = absurd (h refl)
parse_int_complete (plain {s = c ∷ s} h (hc, hs) fits is) =
    ground (arith, magnitude_complete (c ∷ s) h (hc, hs), is, ==_iff c b'-')
parse_int_complete (signed {s} h k fits is) = ground (arith, magnitude_complete s h k, is)

-- `parse_int` accepts exactly the decimals that fit 64 bits, and returns their value.
pub parse_int_iff : (s : Bytes) (v : ℤ) → (parse_int s ≡ some v) ↔ IsDecimal s v
parse_int_iff s v = (parse_int_sound s v, parse_int_complete)
