-- ===== src/Idint/Latency.antt =====
-- The total latency of a path.
use ietf_scion_testbed.Prelude.{
  ℕ, ◌+◌, ◌≡◌, refl, ap, ◌∙◌, Bool, false, ◌||◌, List, [], ◌∷◌, arith, ℤ, pos, negsuc, ltb_ℤ,
  pos_part, wrap_int64, add_int64, add_int64-wrap_int64, if◌then◌else◌,
}
use ietf_scion_testbed.Idint.Paths.{latency_rest, latency_total}

abbrev pub any_unset : List ℤ → Bool
any_unset [] = false
any_unset (v ∷ us) = ltb_ℤ v (pos 0) || any_unset us

abbrev pub sum : List ℤ → ℕ
sum [] = 0
sum (v ∷ us) = pos_part v + sum us

latency_rest-next :
    (total : ℤ) (v : ℕ) (us : List ℤ)
    → latency_rest total (pos v ∷ us) ≡ latency_rest (add_int64 total (pos v)) us
unfolding latency_rest
latency_rest-next total v us = ground arith

latency_rest-sum :
    (n : ℕ) (us : List ℤ)
    → latency_rest (wrap_int64 n) us ≡ (if any_unset us then negsuc 0 else wrap_int64 (n + sum us))
unfolding latency_rest
latency_rest-sum n [] = let e : n + 0 ≡ n = omega arith in rw e refl
latency_rest-sum n (pos v ∷ us) =
    let e : n + v + sum us ≡ n + (v + sum us) = omega arith in
    let unset : ltb_ℤ (pos v) (pos 0) ≡ false = ground arith in
    latency_rest-next (wrap_int64 n) v us
    ∙ ap (λ t. latency_rest t us) (add_int64-wrap_int64 n v)
    ∙ latency_rest-sum (n + v) us
    ∙ rw (unset, e) refl
latency_rest-sum n (negsuc v ∷ us) = ground arith

zero_wrapped : (us : List ℤ) → latency_rest (pos 0) us ≡ latency_rest (wrap_int64 0) us
unfolding wrap_int64
zero_wrapped us = refl

-- The total is -1 if there is no latency or one is negative, and else the sum of all, which wraps
-- around at 64 bits: from 2^63 on it is not the sum itself, and can be negative.
pub latency_total-sum :
    (v : ℤ) (us : List ℤ)
    → (latency_total [] ≡ negsuc 0)
      × (latency_total (v ∷ us)
          ≡ (if any_unset (v ∷ us) then negsuc 0 else wrap_int64 (sum (v ∷ us))))
unfolding latency_total
latency_total-sum v us =
    let e : 0 + sum (v ∷ us) ≡ sum (v ∷ us) = omega arith in
    (refl, zero_wrapped (v ∷ us) ∙ rw e at (latency_rest-sum 0 (v ∷ us)))
