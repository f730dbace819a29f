-- ===== src/Prelude/Int.antt =====
-- Signed integers over the native numbers, under the library's names: what the program keeps in an
-- `int64_t` or an `int`, with its casts and its division written out.
use Prim.Native.Nat.{ℕ, suc, ◌+◌, ◌-◌, ◌/◌, ◌%◌, ◌^◌, ◌≤◌, ◌<◌}
use mathlib.Core.Path.{◌≡◌}
use mathlib.Core.Logic.{◌↔◌}
use mathlib.Core.Bool.{Bool, true, false}
use native.Mathlib.Omega.{arith}
use s_size_store.Prelude.Tests.{ltb, leb, eqb, if◌then◌else◌}
use s_size_store.Prelude.Equality.{Eq}

-- `negsuc n` is -(n + 1).
pub data ℤ : Type 0 where
  pos : ℕ → ℤ
  negsuc : ℕ → ℤ

abbrev pub pos_part : ℤ → ℕ
pos_part (pos n) = n
pos_part (negsuc n) = 0

abbrev pub neg_part : ℤ → ℕ
neg_part (pos n) = 0
neg_part (negsuc n) = suc n

-- a - b, as an integer.
abbrev pub sub_ℕ : ℕ → ℕ → ℤ
sub_ℕ a b = if leb b a then pos (a - b) else negsuc (b - a - 1)

infixl 65 ◌-ℤ◌ ◌+ℤ◌
abbrev pub ◌+ℤ◌ : ℤ → ℤ → ℤ
a +ℤ b = sub_ℕ (pos_part a + pos_part b) (neg_part a + neg_part b)

abbrev pub ◌-ℤ◌ : ℤ → ℤ → ℤ
a -ℤ b = sub_ℕ (pos_part a + neg_part b) (neg_part a + pos_part b)

abbrev pub neg : ℕ → ℤ
neg n = sub_ℕ 0 n

abbrev pub ltb_ℤ : ℤ → ℤ → Bool
ltb_ℤ a b = ltb (pos_part a + neg_part b) (pos_part b + neg_part a)

infix 50 ◌≤ℤ◌ ◌<ℤ◌
abbrev pub ◌≤ℤ◌ : ℤ → ℤ → Type 0
a ≤ℤ b = pos_part a + neg_part b ≤ pos_part b + neg_part a

abbrev pub ◌<ℤ◌ : ℤ → ℤ → Type 0
a <ℤ b = pos_part a + neg_part b < pos_part b + neg_part a

abbrev pub beq_ℤ : ℤ → ℤ → Bool
beq_ℤ (pos m) (pos n) = eqb m n
beq_ℤ (negsuc m) (negsuc n) = eqb m n
beq_ℤ (pos m) (negsuc n) = false
beq_ℤ (negsuc m) (pos n) = false

pub beq_ℤ_iff : (a b : ℤ) → (beq_ℤ a b ≡ true) ↔ (a ≡ b)
beq_ℤ_iff (pos m) (pos n) = ground arith
beq_ℤ_iff (negsuc m) (negsuc n) = ground arith
beq_ℤ_iff (pos m) (negsuc n) = ground arith
beq_ℤ_iff (negsuc m) (pos n) = ground arith

instance abbrev pub int_eq : Eq ℤ
int_eq = record { same = beq_ℤ; same_iff = beq_ℤ_iff }

-- C++ division truncates towards zero.
abbrev pub div_trunc : ℤ → ℕ → ℤ
div_trunc (pos n) d = pos (n / d)
div_trunc (negsuc n) d = neg (suc n / d)

-- The value that a cast to a signed integer of `w` bits keeps, `w` at least 1.
abbrev residue : ℤ → ℕ → ℕ
residue (pos n) m = n % m
residue (negsuc n) m = (m - suc n % m) % m

unfoldable pub cast_signed : ℕ → ℤ → ℤ
cast_signed w a =
    let r = residue a (2 ^ w) in if ltb r (2 ^ (w - 1)) then pos r else negsuc (2 ^ w - r - 1)

-- The range of a signed integer with the greatest value `top`.
abbrev pub InRange : ℕ → ℤ → Type 0
InRange top (pos n) = n ≤ top
InRange top (negsuc n) = n ≤ top

-- A cast changes no value that the target type holds.
pub cast_signed-32 : (a : ℤ) → InRange (2 ^ 31 - 1) a → cast_signed 32 a ≡ a
unfolding cast_signed
cast_signed-32 (pos n) h = ground arith
cast_signed-32 (negsuc n) h = ground arith
