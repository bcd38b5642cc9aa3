-- ===== src/Prelude/Milli.antt =====
-- A concrete instance of `Float` for tests: numbers in thousandths, with an end mark for infinity
-- far above every value that the tests use.
use Prim.Native.Nat.{ℕ, ◌+◌, ◌*◌, ◌/◌, ◌^◌, ◌≤◌, ◌<◌}
use mathlib.Core.Path.{◌≡◌}
use mathlib.Core.Bool.{true}
use native.Mathlib.Omega.{arith}
use native.Mathlib.Nat.{le-div_iff_mul-le, mul-div-le, mul_comm}
use ietf_scion_testbed.Prelude.Tests.{nat_beq}
use ietf_scion_testbed.Prelude.Int.{ℤ, pos, pos_part, neg_part, sub_ℕ, ◌+ℤ◌, ◌-ℤ◌, leb_ℤ, ltb_ℤ}
use ietf_scion_testbed.Prelude.Floats.{Float}

abbrev thousand : ℕ
thousand = 1000

unfoldable pub milli_mul : ℤ → ℤ → ℤ
milli_mul a b =
    sub_ℕ ((pos_part a * pos_part b + neg_part a * neg_part b) / thousand)
      ((pos_part a * neg_part b + neg_part a * pos_part b) / thousand)

-- rounds towards zero; 0 if the divisor is not positive
unfoldable pub milli_div : ℤ → ℤ → ℤ
milli_div a b = sub_ℕ (pos_part a * thousand / pos_part b) (neg_part a * thousand / pos_part b)

abbrev pub milli : Float
milli = record {
  F = ℤ;
  dec = λ m k. pos (m * thousand / 10 ^ k);
  inf = pos (10 ^ 18);
  of_int = λ n. sub_ℕ (pos_part n * thousand) (neg_part n * thousand);
  to_int = λ n. sub_ℕ (pos_part n / thousand) (neg_part n / thousand);
  round = λ n.
      sub_ℕ ((pos_part n + 500) / thousand * thousand) ((neg_part n + 500) / thousand * thousand);
  add = ◌+ℤ◌;
  sub = ◌-ℤ◌;
  mul = milli_mul;
  div = milli_div;
  lt = ltb_ℤ;
  le = leb_ℤ;
  eq = λ a b. nat_beq (pos_part a + neg_part b) (pos_part b + neg_part a);
}

quotient_mono : (x y k : ℕ) → 0 < k → x ≤ y → x / k ≤ y / k
quotient_mono x y k p h =
    (le-div_iff_mul-le p).1 (omega (arith, mul-div-le x k, mul_comm (x / k) k))

pub milli_div_mono :
    (x y b : ℤ)
    → ltb_ℤ (pos 0) b ≡ true
    → leb_ℤ x y ≡ true
    → leb_ℤ (milli_div x b) (milli_div y b) ≡ true
unfolding milli_div
milli_div_mono x y b p h =
    let k = pos_part b in
    let q : 0 < pos_part b = ground arith in
    ground (
      arith,
      quotient_mono (pos_part x * thousand) (pos_part y * thousand) k q,
      quotient_mono (neg_part y * thousand) (neg_part x * thousand) k q,
    )
