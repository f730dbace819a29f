-- ===== src/Decimal/RoundTrip.antt =====
-- `parse_int` reads back what `std::to_string` prints.
use s_size_store.Prelude.{
  ℕ, zero, suc, ◌+◌, ◌-◌, ◌*◌, ◌/◌, ◌%◌, ◌≤◌, ◌≡◌, ◌≢◌, ℤ, pos, negsuc, InRange, refl, [], ◌∷◌,
  some, arith, All, sym, ap, Bool-cases, inl, inr, nat_eq, ==_iff, ◌==◌,
}
use s_size_store.Bytes.{Bytes}
use s_size_store.Decimal.{digits, print_ℕ, to_string, parse_int, int64_max}
use s_size_store.Decimal.Parse.{IsDigit, value, plain, signed, parse_int_complete}

digits-IsDigit : (f n : ℕ) (out : Bytes) → All IsDigit out → All IsDigit (digits f n out)
unfolding digits
digits-IsDigit zero n out h = h
digits-IsDigit (suc f) n out h = ground (arith, digits-IsDigit f (n / 10) ((b'0' + n % 10) ∷ out))

digits-ne-nil : (f n : ℕ) (out : Bytes) → out ≢ [] → digits f n out ≢ []
unfolding digits
digits-ne-nil zero n out h = h
digits-ne-nil (suc f) n out h = ground (arith, digits-ne-nil f (n / 10) ((b'0' + n % 10) ∷ out))

-- With enough fuel the digits spell the number.
value-digits : (f n : ℕ) (out : Bytes) → n ≤ f → value 0 (digits f n out) ≡ value n out
unfolding digits
value-digits zero n out h = let e : n ≡ 0 = omega arith in rw e refl
value-digits (suc f) n out h = elim (Bool-cases (n == 0)) [
  | inl done ↦ ground (arith, ==_iff n 0)
  | inr more ↦
      let back : n / 10 * 10 + (b'0' + n % 10 - b'0') ≡ n = omega arith in
      ground (
        arith,
        more,
        value-digits f (n / 10) ((b'0' + n % 10) ∷ out) (ground arith),
        ap (λ k. value k out) back,
      )
]

pub print_ℕ-IsDigit : (n : ℕ) → All IsDigit (print_ℕ n)
unfolding print_ℕ
print_ℕ-IsDigit n = ground (arith, digits-IsDigit n n [] tt)

value-print_ℕ : (n : ℕ) → value 0 (print_ℕ n) ≡ n
unfolding print_ℕ
value-print_ℕ n = ground (arith, value-digits n n [])

pub print_ℕ-ne-nil : (n : ℕ) → print_ℕ n ≢ []
unfolding print_ℕ digits
print_ℕ-ne-nil zero = ground arith
print_ℕ-ne-nil (suc n) = ground (arith, digits-ne-nil n (suc n / 10) ((b'0' + suc n % 10) ∷ []))

-- Every 64-bit integer is read back from its decimal print.
pub parse_int-to_string : (v : ℤ) → InRange int64_max v → parse_int (to_string v) ≡ some v
unfolding to_string
parse_int-to_string (pos n) h = parse_int_complete (
    plain (print_ℕ-ne-nil n) (print_ℕ-IsDigit n) (omega (arith, value-print_ℕ n))
      (ap pos (sym (value-print_ℕ n))))
parse_int-to_string (negsuc n) h = parse_int_complete (
    signed (print_ℕ-ne-nil (suc n)) (print_ℕ-IsDigit (suc n)) (omega (arith, value-print_ℕ (suc n)))
      (ground (arith, value-print_ℕ (suc n))))
