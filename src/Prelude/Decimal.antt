-- ===== src/Prelude/Decimal.antt =====
-- strconv.Itoa
use Prim.Native.Nat.{ℕ, zero, suc, ◌+◌, ◌-◌, ◌*◌, ◌/◌, ◌%◌, ◌<◌, ◌≤◌}
use mathlib.Core.Path.{◌≡◌, sym, ap, ◌∙◌}
use mathlib.Core.List.{[], ◌∷◌}
use native.Mathlib.Omega.{arith}
use ietf_scion_testbed.Prelude.Tests.{ltb, if◌then◌else◌}
use ietf_scion_testbed.Prelude.Keys.{Bytes}
use ietf_scion_testbed.Prelude.Lists.{All}
use ietf_scion_testbed.Prelude.Int.{ℤ, pos, negsuc}

-- the digits of `n` in front of `out`
digits_from : ℕ → ℕ → Bytes → Bytes
digits_from zero n out = out
digits_from (suc fuel) n out =
    let out' = (b'0' + n % 10) ∷ out in
    let rest = digits_from fuel (n / 10) out' in if ltb n 10 then out' else rest

-- A number has no more digits than its value and one.
unfoldable pub itoa : ℕ → Bytes
unfolding digits_from
itoa n = digits_from (suc n) n []

unfoldable pub itoa_ℤ : ℤ → Bytes
unfolding itoa
itoa_ℤ (pos n) = itoa n
itoa_ℤ (negsuc n) = b'-' ∷ itoa (suc n)

-- the number that digits spell behind `n`
value : ℕ → Bytes → ℕ
value n [] = n
value n (digit ∷ rest) = value (10 * n + (digit - b'0')) rest

value-digits_from :
    (fuel n : ℕ) (out : Bytes) → n < fuel → value 0 (digits_from fuel n out) ≡ value n out
unfolding value digits_from
value-digits_from zero n out h = absurd (omega arith)
value-digits_from (suc fuel) n out h =
    let back : 10 * (n / 10) + (b'0' + n % 10 - b'0') ≡ n = omega arith in
    ground
      (arith, value-digits_from fuel (n / 10) ((b'0' + n % 10) ∷ out), ap (λ k. value k out) back)

value-itoa : (n : ℕ) → value 0 (itoa n) ≡ n
unfolding itoa value
value-itoa n = value-digits_from (suc n) n [] (omega arith)

pub itoa-injective : (a b : ℕ) → itoa a ≡ itoa b → a ≡ b
itoa-injective a b e = sym (value-itoa a) ∙ ap (value 0) e ∙ value-itoa b

abbrev pub IsDigit : ℕ → Type 0
IsDigit byte = (byte ≤ b'9') × (b'0' ≤ byte)

digits_from-IsDigit :
    (fuel n : ℕ) (out : Bytes) → All IsDigit out → All IsDigit (digits_from fuel n out)
unfolding digits_from
digits_from-IsDigit zero n out h = h
digits_from-IsDigit (suc fuel) n out h = ground (
  arith,
  digits_from-IsDigit fuel (n / 10) ((b'0' + n % 10) ∷ out) ((omega arith, omega arith), h),
)

pub itoa-IsDigit : (n : ℕ) → All IsDigit (itoa n)
unfolding itoa
itoa-IsDigit n = digits_from-IsDigit (suc n) n [] tt
