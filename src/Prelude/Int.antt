-- ===== src/Prelude/Int.antt =====
-- Signed integers over the native numbers. Orders and differences go through the two parts of an
-- integer, which are numbers that `omega` reads.
use Prim.Native.Nat.{ℕ, suc, ◌+◌, ◌-◌, ◌%◌, ◌^◌, ◌≤◌}
use mathlib.Core.Path.{◌≡◌, refl}
use mathlib.Core.Logic.{inl, inr}
use mathlib.Core.Bool.{Bool}
use native.Mathlib.Omega.{arith}
use ietf_scion_testbed.Prelude.Tests.{nat_beq, ltb, leb, Bool-cases, if◌then◌else◌}

-- `negsuc n` is -(n + 1).
pub data ℤ : Type 0 where
  pos : ℕ → ℤ
  negsuc : ℕ → ℤ

abbrev pub pos_part : ℤ → ℕ
pos_part (pos n) = n
pos_part (negsuc n) = 0

abbrev pub neg_part : ℤ → ℕ
neg_part (pos n) = 0
neg_part (negsuc n) = suc n

-- a - b of two numbers, as an integer.
abbrev pub sub_ℕ : ℕ → ℕ → ℤ
sub_ℕ a b = if leb b a then pos (a - b) else negsuc (b - a - 1)

infixl 65 ◌+ℤ◌ ◌-ℤ◌
abbrev pub ◌+ℤ◌ : ℤ → ℤ → ℤ
a +ℤ b = sub_ℕ (pos_part a + pos_part b) (neg_part a + neg_part b)

abbrev pub ◌-ℤ◌ : ℤ → ℤ → ℤ
a -ℤ b = sub_ℕ (pos_part a + neg_part b) (neg_part a + pos_part b)

infix 50 ◌≤ℤ◌
abbrev pub ◌≤ℤ◌ : ℤ → ℤ → Type 0
a ≤ℤ b = pos_part a + neg_part b ≤ pos_part b + neg_part a

abbrev pub leb_ℤ : ℤ → ℤ → Bool
leb_ℤ a b = leb (pos_part a + neg_part b) (pos_part b + neg_part a)

abbrev pub ltb_ℤ : ℤ → ℤ → Bool
ltb_ℤ a b = ltb (pos_part a + neg_part b) (pos_part b + neg_part a)

abbrev pub eq_ℤ : ℤ → ℤ → Bool
eq_ℤ a b = nat_beq (pos_part a + neg_part b) (pos_part b + neg_part a)

-- An int64 and its 64 bits: a sum wraps around.
unfoldable pub wrap_int64 : ℕ → ℤ
wrap_int64 n = let m = n % 2 ^ 64 in if ltb m (2 ^ 63) then pos m else negsuc (2 ^ 64 - 1 - m)

unfoldable pub bits_int64 : ℤ → ℕ
bits_int64 (pos n) = n % 2 ^ 64
bits_int64 (negsuc n) = 2 ^ 64 - 1 - n % 2 ^ 64

unfoldable pub add_int64 : ℤ → ℤ → ℤ
unfolding wrap_int64 bits_int64
add_int64 a b = wrap_int64 (bits_int64 a + bits_int64 b)

bits_int64-wrap_int64 : (n : ℕ) → bits_int64 (wrap_int64 n) ≡ n % 2 ^ 64
unfolding bits_int64 wrap_int64
bits_int64-wrap_int64 n = elim (Bool-cases (ltb (n % 2 ^ 64) (2 ^ 63))) [
  | inl low ↦ rw low (omega arith)
  | inr high ↦ rw high (omega arith)
]

wrap_int64_mod : (m n : ℕ) → m % 2 ^ 64 ≡ n % 2 ^ 64 → wrap_int64 m ≡ wrap_int64 n
unfolding wrap_int64
wrap_int64_mod m n e = rw e refl

-- adding a number that is not negative to a wrapped sum
pub add_int64-wrap_int64 : (n v : ℕ) → add_int64 (wrap_int64 n) (pos v) ≡ wrap_int64 (n + v)
unfolding add_int64
add_int64-wrap_int64 n v =
    rw bits_int64-wrap_int64 (wrap_int64_mod (n % 2 ^ 64 + v % 2 ^ 64) (n + v) (omega arith))
