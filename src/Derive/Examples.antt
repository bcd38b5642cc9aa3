-- ===== src/Derive/Examples.antt =====
-- The theorems at concrete inputs, over numbers in thousandths.
use ietf_scion_testbed.Prelude.{
  ◌≡◌, refl, true, [], ◌∷◌, arith, bytes, bytes_eq, lookup, ℤ, pos, milli, milli_div,
}
use ietf_scion_testbed.Topo.{Endpoint, Graph}
use ietf_scion_testbed.Store
use ietf_scion_testbed.Store.{Store}
use ietf_scion_testbed.Derive.Bands.{nominal, degraded, critical, elevated, rtt_band, band_beq}
use ietf_scion_testbed.Derive.Hysteresis.{after_frames, commit_raw, settled, after_frames-settled}
use ietf_scion_testbed.Derive.State.{Deriver, new, rtt_key, min_int64, baseline, seed_baselines}
use ietf_scion_testbed.Derive.Baselines.{
  IsOrdered, ArePositive, OnlyFall, IsReference, seed_baselines-falls, baseline-IsReference,
}
use ietf_scion_testbed.Derive.Views.{frame}
use ietf_scion_testbed.Derive.Frames.{KpiCounts, frame-KpiCounts}

milli-IsOrdered : IsOrdered milli
milli-IsOrdered = record {
  lt_irrefl = λ x. ground arith;
  le_trans = λ x y z h k. ground arith;
  lt-le = λ x y h. ground arith;
  lt_le_trans = λ x y z h k. ground arith;
  lt_left = λ x y h. ground arith;
  lt_right = λ x y h. ground arith;
  total = λ x y n k h. ground arith;
  inf_pos = refl;
}

-- 40 ms over a baseline of 2 ms is degraded, and 12 ms elevated
bands :
    (rtt_band milli (pos 42000) (pos 2000) ≡ degraded)
    × (rtt_band milli (pos 14000) (pos 2000) ≡ elevated)
unfolding rtt_band milli_div
bands = (refl, refl)

-- two critical frames between others leave the link nominal
flicker : (after_frames (nominal ∷ critical ∷ critical ∷ nominal ∷ [])).band ≡ nominal
unfolding after_frames band_beq commit_raw
flicker = refl

after_frames-settled_example :
    (after_frames (critical ∷ critical ∷ critical ∷ nominal ∷ [])).band
    ≡ settled (critical ∷ critical ∷ critical ∷ nominal ∷ [])
after_frames-settled_example = after_frames-settled (critical ∷ critical ∷ critical ∷ nominal ∷ [])

abbrev a_side : Endpoint
a_side = record {
  ia = bytes "1-150";
  as_num = 150;
  if_id = bytes "2";
  ip = [];
  link_to = bytes "core";
}

abbrev b_side : Endpoint
b_side = record {
  ia = bytes "1-154";
  as_num = 154;
  if_id = bytes "1";
  ip = [];
  link_to = bytes "core";
}

abbrev pair : Graph
pair = record {
  ases = record { ia = bytes "1-150"; num = 150; core = true; mgmt_ip = [] } ∷ [];
  links =
      record { id = bytes "150-154"; type = bytes "core"; subnet = []; a = a_side; b = b_side }
      ∷ [];
}

-- one RTT sample of 7 ms, after one of 0 from before the session was up
abbrev samples : Store.Store ℤ
samples =
    Store.put milli (Store.put milli (Store.new milli (pos 10)) (rtt_key a_side) (pos 1) (pos 0))
      (rtt_key a_side) (pos 2) (pos 7000)

abbrev deriver : Deriver ℤ
deriver = new milli pair samples

new-ArePositive : ArePositive milli milli-IsOrdered deriver.baseline_min
unfolding new lookup
new-ArePositive k v e = ground arith

seed_baselines-falls_example :
    ArePositive milli milli-IsOrdered
      (seed_baselines milli deriver ((bytes "x", pos 0) ∷ [])).baseline_min
    × OnlyFall milli milli-IsOrdered deriver.baseline_min
        (seed_baselines milli deriver ((bytes "x", pos 0) ∷ [])).baseline_min
seed_baselines-falls_example =
    seed_baselines-falls milli milli-IsOrdered deriver ((bytes "x", pos 0) ∷ []) new-ArePositive
      (refl, tt)

baseline-IsReference_example :
    IsReference milli milli-IsOrdered deriver.baseline_min
      (baseline milli deriver (rtt_key a_side)).0.baseline_min
      (rtt_key a_side)
      (Store.series milli deriver.st (rtt_key a_side) min_int64)
      (baseline milli deriver (rtt_key a_side)).1
baseline-IsReference_example =
    baseline-IsReference milli milli-IsOrdered deriver (rtt_key a_side) new-ArePositive

frame-KpiCounts_example : KpiCounts milli pair (frame milli deriver (pos 3) (pos 3)).1
unfolding new
frame-KpiCounts_example = frame-KpiCounts milli deriver (pos 3) (pos 3)
