-- ===== src/Prelude/Atoi.antt =====
-- strconv.Atoi
use Prim.Native.Nat.{ℕ, zero, suc, ◌+◌, ◌-◌, ◌*◌, ◌^◌}
use mathlib.Core.Bool.{true, false, ◌&&◌}
use mathlib.Core.Option.{Option, none, some}
use mathlib.Core.List.{[], ◌∷◌}
use ietf_scion_testbed.Prelude.Tests.{leb, if◌then◌else◌}
use ietf_scion_testbed.Prelude.Keys.{Bytes, ◌==◌, nat_eq}
use ietf_scion_testbed.Prelude.Int.{ℤ, pos, negsuc}

-- decimal digits read behind `n`
unfoldable pub digits_behind : ℕ → Bytes → Option ℕ
digits_behind n [] = some n
digits_behind n (c ∷ cs) = elim (leb b'0' c && leb c b'9') [
  | true ↦ digits_behind (n * 10 + (c - b'0')) cs
  | false ↦ none
]

abbrev max_int64 : ℕ
max_int64 = 2 ^ 63 - 1

-- strconv.Atoi refuses an empty text and a number that `int` does not hold
unfoldable pub atoi_digits : Bytes → Option ℕ
unfolding digits_behind
atoi_digits [] = none
atoi_digits (c ∷ cs) = elim (digits_behind 0 (c ∷ cs)) [
  | none ↦ none
  | some n ↦ if leb n max_int64 then some n else none
]

abbrev negated : ℕ → ℤ
negated zero = pos 0
negated (suc n) = negsuc n

-- strconv.Atoi of digits behind a minus sign
unfoldable pub atoi_negative : Bytes → Option ℤ
unfolding digits_behind
atoi_negative [] = none
atoi_negative (c ∷ cs) = elim (digits_behind 0 (c ∷ cs)) [
  | none ↦ none
  | some n ↦ if leb n (2 ^ 63) then some (negated n) else none
]

abbrev positive : Option ℕ → Option ℤ
positive none = none
positive (some n) = some (pos n)

-- strconv.Atoi
unfoldable pub atoi : Bytes → Option ℤ
unfolding atoi_negative atoi_digits
atoi [] = none
atoi (c ∷ cs) =
    if c == b'-'
    then atoi_negative cs
    else if c == b'+'
    then positive (atoi_digits cs)
    else positive (atoi_digits (c ∷ cs))

-- strconv.Atoi of a text without `-`: the one sign it can have is `+`
unfoldable pub atoi_unsigned : Bytes → Option ℕ
unfolding atoi_digits
atoi_unsigned [] = none
atoi_unsigned (c ∷ cs) = if c == b'+' then atoi_digits cs else atoi_digits (c ∷ cs)
