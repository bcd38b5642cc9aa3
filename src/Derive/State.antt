-- ===== src/Derive/State.antt =====
-- derive.go: the deriver's state, its readings of the store, and the RTT baselines. The lock makes
-- every method one step, so a method is a function of the deriver. The store is only read, and is a
-- field.
use ietf_scion_testbed.Prelude.{
  ℕ, ◌-◌, ◌^◌, Bool, false, not, ◌&&◌, ◌||◌, Option, none, some, List, [], ◌∷◌, ◌++◌, if◌then◌else◌,
  String, Bytes, bytes, bytes_eq, itoa, Map, lookup, insert, ℤ, negsuc, Float,
}
use ietf_scion_testbed.Topo.{Endpoint, Link, Graph}
use ietf_scion_testbed.Store
use ietf_scion_testbed.Store.{Sample}
use ietf_scion_testbed.Derive.Bands.{Band}
use ietf_scion_testbed.Derive.Hysteresis.{LinkState, fresh}
use ietf_scion_testbed.Derive.Bgp.{BgpLink, Badge}

pub record Shaping (F : Type 0) : Type 0 where
  pub delay_ms : Option F
  pub jitter_ms : Option F
  pub loss_pct : Option F
  pub rate_mbit : Option F

pub record LinkVm (F : Type 0) : Type 0 where
  pub id : Bytes
  pub band : Band
  pub rtt_ms_a : F
  pub rtt_ms_b : F
  pub rate_ab_mbit : F
  pub rate_ba_mbit : F
  pub loss_pct : F
  pub is_up : Bool
  pub is_stale : Bool
  pub shaping : Option (Shaping F)
  pub bgp : Option Badge
  pub baseline_delay_ms : Option F
  pub baseline_rate_mbit : Option F

pub record AsVm (F : Type 0) : Type 0 where
  pub ia : Bytes
  pub br_up : Bool
  pub cs_up : Bool
  pub sd_up : Bool
  pub beacons_per_sec : F

pub record Kpi (F : Type 0) : Type 0 where
  pub links_up : ℕ
  pub links_total : ℕ
  pub shaped : ℕ
  pub total_mbit : F
  pub avg_core_rtt_ms : F
  pub beacons_per_sec : F

-- The trace and the BGP path are attached by the API layer.
pub record Frame (F : Type 0) : Type 0 where
  pub t : ℤ
  pub links : List (LinkVm F)
  pub ases : List (AsVm F)
  pub kpi : Kpi F

-- A nil shaping pointer in a map is as good as a missing key. `bgp` is `none` until the first poll.
pub record Deriver (F : Type 0) : Type 0 where
  pub g : Graph
  pub st : Store.Store F
  pub state : Map Bytes LinkState
  pub shaping : Map Bytes (Option (Shaping F))
  pub baseline_shaping : Map Bytes (Option (Shaping F))
  pub bgp : Option (Map Bytes (Option BgpLink))
  pub baseline_min : Map Bytes F

abbrev pub endpoint_key : String → Endpoint → Bytes
endpoint_key metric e = itoa e.as_num ++ bytes metric ++ e.if_id

abbrev pub rtt_key : Endpoint → Bytes
rtt_key = endpoint_key "/br/rtt/"

abbrev pub out_key : Endpoint → Bytes
out_key = endpoint_key "/br/output_bytes/"

abbrev pub in_key : Endpoint → Bytes
in_key = endpoint_key "/br/input_bytes/"

abbrev pub up_key : Endpoint → Bytes
up_key = endpoint_key "/br/up/"

-- a map of pointers at a key: nil for a missing key
abbrev pub pointer_at : {A : Type 0} → Map Bytes (Option A) → Bytes → Option A
pointer_at m k = elim (lookup k m) [ none ↦ none | some p ↦ p ]

-- `rateWindow`
abbrev pub rate_window : ℕ
rate_window = 5

-- `math.MinInt64`
abbrev pub min_int64 : ℤ
min_int64 = negsuc (2 ^ 63 - 1)

-- the loop of `New` over the links
unfoldable pub fresh_states : List Link → Map Bytes LinkState → Map Bytes LinkState
fresh_states [] m = m
fresh_states (l ∷ ls) m = fresh_states ls (insert l.id fresh m)

module _ (fl : Float) where
  open fl use {F, dec, of_int, inf, add, sub, mul, div, lt, le, eq}

  unfoldable pub new : Graph → Store.Store F → Deriver F
  unfolding fresh_states
  new g st = record {
    g = g;
    st = st;
    state = fresh_states g.links [];
    shaping = [];
    baseline_shaping = [];
    bgp = none;
    baseline_min = [];
  }

  -- `none` stands for a nil map
  unfoldable pub set_shaping : Deriver F → Option (Map Bytes (Option (Shaping F))) → Deriver F
  set_shaping d m = record d { shaping = elim m [ none ↦ [] | some m' ↦ m' ] }

  unfoldable pub set_baseline_shaping :
      Deriver F → Option (Map Bytes (Option (Shaping F))) → Deriver F
  set_baseline_shaping d m = record d { baseline_shaping = elim m [ none ↦ [] | some m' ↦ m' ] }

  unfoldable pub set_bgp : Deriver F → Option (Map Bytes (Option BgpLink)) → Deriver F
  set_bgp d m = record d { bgp = m }

  unfoldable pub last_val : Deriver F → Bytes → F
  last_val d key = elim (Store.last fl d.st key) [ none ↦ dec 0 0 | some s ↦ s.v ]

  unfoldable pub rate_mbit : Deriver F → Bytes → F
  rate_mbit d key = div (mul (Store.rate fl d.st key rate_window) (dec 8 0)) (dec 1000000 0)

  unfoldable pub up_zero : Deriver F → Bytes → Bool
  up_zero d key = elim (Store.last fl d.st key) [ none ↦ false | some s ↦ eq s.v (dec 0 0) ]

  unfoldable pub service_up : Deriver F → ℕ → Bytes → Bool
  service_up d as_num svc =
      elim (Store.last fl d.st (itoa as_num ++ b'/' ∷ (svc ++ bytes "/_up/"))) [
        | none ↦ false
        | some s ↦ not (eq s.v (dec 0 0))
      ]

  -- the loop of `beaconsRecv`
  unfoldable pub sum_rates : Deriver F → F → List Bytes → F
  sum_rates d sum [] = sum
  sum_rates d sum (k ∷ ks) = sum_rates d (add sum (Store.rate fl d.st k rate_window)) ks

  unfoldable pub beacons_recv : Deriver F → ℕ → F
  unfolding sum_rates
  beacons_recv d as_num =
      sum_rates d (dec 0 0) (Store.keys fl d.st (itoa as_num ++ bytes "/cs/beacons_recv/"))

  -- `baselineFloor` is 0.5 ms
  abbrev pub baseline_floor : F
  baseline_floor = dec 5 1

  -- the loop of `baseline`: the least positive value
  unfoldable pub ring_min : F → List (Sample F) → F
  ring_min m [] = m
  ring_min m (s ∷ ss) = ring_min (if le s.v (dec 0 0) then m else if lt s.v m then s.v else m) ss

  -- the smaller of the ring's minimum and a positive running minimum
  unfoldable pub with_previous : F → Option F → F
  with_previous m none = m
  with_previous m (some prev) = if lt (dec 0 0) prev && lt prev m then prev else m

  -- The new map of running minimums, and the reference RTT.
  unfoldable pub baseline_of : Map Bytes F → Bytes → F → Map Bytes F × F
  unfolding with_previous
  baseline_of mins key least =
      let m = with_previous least (lookup key mins) in
      let mins' = if eq m inf then mins else insert key m mins in
      (mins', if eq m inf || lt m baseline_floor then baseline_floor else m)

  unfoldable pub baseline : Deriver F → Bytes → Deriver F × F
  unfolding ring_min baseline_of
  baseline d key =
      let (mins, m) =
        baseline_of d.baseline_min key (ring_min inf (Store.series fl d.st key min_int64)) in
      (record d { baseline_min = mins }, m)

  -- The result is a copy of the map.
  unfoldable pub baselines : Deriver F → Map Bytes F
  baselines d = d.baseline_min

  -- one round of `SeedBaselines`
  unfoldable pub seed_one : Map Bytes F → Bytes → F → Map Bytes F
  seed_one mins k v = if le v (dec 0 0) then mins else elim (lookup k mins) [
    | none ↦ insert k v mins
    | some cur ↦ if lt v cur then insert k v mins else mins
  ]

  unfoldable pub seed_all : Map Bytes F → Map Bytes F → Map Bytes F
  unfolding seed_one
  seed_all mins [] = mins
  seed_all mins ((k, v) ∷ m) = seed_all (seed_one mins k v) m

  unfoldable pub seed_baselines : Deriver F → Map Bytes F → Deriver F
  unfolding seed_all
  seed_baselines d m = record d { baseline_min = seed_all d.baseline_min m }
