-- ===== src/Derive/Views.antt =====
-- derive.go: `deriveLink`, `commit` and `Frame`. `now_unix` is the clock that `deriveLink` reads, here
-- once for all links of a frame.
use ietf_scion_testbed.Prelude.{
  ℕ, ◌+◌, Bool, not, ◌&&◌, ◌||◌, Option, none, some, List, [], ◌∷◌, ◌++◌, if◌then◌else◌, length,
  is_some, Bytes, bytes, ◌==◌, nat_eq, bytes_eq, Map, lookup, insert, ℤ, pos, Float,
}
use ietf_scion_testbed.Topo.{Link, As}
use ietf_scion_testbed.Derive.Bands.{Band, down, stale, worse, rtt_band, loss_band, loss_estimate}
use ietf_scion_testbed.Derive.Hysteresis.{LinkState, fresh, commit_raw}
use ietf_scion_testbed.Derive.Bgp.{BgpLink, Badge, bgp_badge}
use ietf_scion_testbed.Derive.State.{
  Shaping, LinkVm, AsVm, Frame, Deriver, rtt_key, out_key, in_key, up_key, pointer_at, last_val,
  rate_mbit, up_zero, service_up, beacons_recv, baseline, baseline_floor,
}

module _ (fl : Float) where
  open fl use {F, dec, of_int, add, mul, div, lt, le}

  -- math.Max of two numbers that are not NaN
  abbrev max_of : F → F → F
  max_of a b = if lt a b then b else a

  -- the state of a link before a frame: a missing one is nominal
  abbrev pub state_at : Map Bytes LinkState → Bytes → LinkState
  state_at m k = elim (lookup k m) [ none ↦ fresh | some ls ↦ ls ]

  -- `commit`
  unfoldable pub commit : Deriver F → Bytes → Band → Deriver F × Band
  commit d link_id raw =
      let ls = commit_raw (state_at d.state link_id) raw in
      (record d { state = insert link_id ls d.state }, ls.band)

  -- a declared delay that doubled reaches the floor replaces both observed baselines
  unfoldable pub declared_or : Option F → F → F
  declared_or none observed = observed
  declared_or (some delay) observed =
      let declared = mul (dec 2 0) delay in
      if le (baseline_floor fl) declared then declared else observed

  abbrev pub delay_of : Option (Shaping F) → Option F
  delay_of none = none
  delay_of (some s) = s.delay_ms

  abbrev pub rate_of : Option (Shaping F) → Option F
  rate_of none = none
  rate_of (some s) = s.rate_mbit

  -- a health override of the RTT and loss classification
  unfoldable pub override : Bool → Bool → Band → Band
  override is_down is_stale raw = if is_down then down else if is_stale then stale else raw

  unfoldable pub link_loss : Deriver F → Link → F
  link_loss d l =
      max_of (loss_estimate fl (rate_mbit fl d (out_key l.a)) (rate_mbit fl d (in_key l.b)))
        (loss_estimate fl (rate_mbit fl d (out_key l.b)) (rate_mbit fl d (in_key l.a)))

  abbrev pub link_down : Deriver F → Link → Bool
  link_down d l = up_zero fl d (up_key l.a) || up_zero fl d (up_key l.b)

  abbrev pub link_stale : Deriver F → Link → Bool
  link_stale d l =
      not (service_up fl d l.a.as_num (bytes "br")) || not (service_up fl d l.b.as_num (bytes "br"))

  -- the band of this frame, from the two baselines
  unfoldable pub raw_band : Deriver F → Link → F → F → Band
  unfolding override
  raw_band d l base_a base_b =
      let declared = delay_of (pointer_at d.baseline_shaping l.id) in
      override (link_down d l) (link_stale d l) (
        worse
          (worse (rtt_band fl (last_val fl d (rtt_key l.a)) (declared_or declared base_a))
            (rtt_band fl (last_val fl d (rtt_key l.b)) (declared_or declared base_b)))
          (loss_band fl (link_loss d l)))

  abbrev badge_at : Option (Map Bytes (Option BgpLink)) → Bytes → ℤ → Option Badge
  badge_at none k now_unix = none
  badge_at (some m) k now_unix = some (bgp_badge (pointer_at m k) now_unix)

  unfoldable pub derive_link : Deriver F → ℤ → Link → Deriver F × LinkVm F
  unfolding raw_band commit
  derive_link d now_unix l =
      let (d1, base_a) = baseline fl d (rtt_key l.a) in
      let (d2, base_b) = baseline fl d1 (rtt_key l.b) in
      let (d3, band) = commit d2 l.id (raw_band d2 l base_a base_b) in
      let bl = pointer_at d.baseline_shaping l.id in
      (
        d3,
        record {
          id = l.id;
          band = band;
          rtt_ms_a = last_val fl d (rtt_key l.a);
          rtt_ms_b = last_val fl d (rtt_key l.b);
          rate_ab_mbit = rate_mbit fl d (out_key l.a);
          rate_ba_mbit = rate_mbit fl d (out_key l.b);
          loss_pct = link_loss d l;
          is_up = not (link_down d l);
          is_stale = link_stale d l;
          shaping = pointer_at d.shaping l.id;
          bgp = badge_at d.bgp l.id now_unix;
          baseline_delay_ms = delay_of bl;
          baseline_rate_mbit = rate_of bl;
        },
      )

  -- what the loop of `Frame` over the links accumulates
  pub record Tally : Type 0 where
    pub links : List (LinkVm F)
    pub total_mbit : F
    pub core_rtt_sum : F
    pub links_up : ℕ
    pub shaped : ℕ
    pub core_count : ℕ

  abbrev pub counts_up : LinkVm F → Bool
  counts_up vm = vm.is_up && not vm.is_stale

  unfoldable pub tally_link : Tally → Link → LinkVm F → Tally
  tally_link c l vm =
      let core = l.type == bytes "core" && counts_up vm in
      record {
        links = c.links ++ vm ∷ [];
        total_mbit = add c.total_mbit (add vm.rate_ab_mbit vm.rate_ba_mbit);
        core_rtt_sum =
            if core
            then add c.core_rtt_sum (div (add vm.rtt_ms_a vm.rtt_ms_b) (dec 2 0))
            else c.core_rtt_sum;
        links_up = if counts_up vm then c.links_up + 1 else c.links_up;
        shaped = if is_some vm.shaping then c.shaped + 1 else c.shaped;
        core_count = if core then c.core_count + 1 else c.core_count;
      }

  unfoldable pub derive_links : Deriver F → ℤ → Tally → List Link → Deriver F × Tally
  derive_links d now_unix c [] = (d, c)
  derive_links d now_unix c (l ∷ ls) =
      let (d', vm) = derive_link d now_unix l in derive_links d' now_unix (tally_link c l vm) ls

  unfoldable pub derive_as : Deriver F → As → AsVm F
  derive_as d s = record {
    ia = s.ia;
    br_up = service_up fl d s.num (bytes "br");
    cs_up = service_up fl d s.num (bytes "cs");
    sd_up = service_up fl d s.num (bytes "sd");
    beacons_per_sec = beacons_recv fl d s.num;
  }

  -- the loop of `Frame` over the ASes
  unfoldable pub derive_ases : Deriver F → List (AsVm F) → F → List As → List (AsVm F) × F
  derive_ases d out total [] = (out, total)
  derive_ases d out total (s ∷ ss) =
      let vm = derive_as d s in derive_ases d (out ++ vm ∷ []) (add total vm.beacons_per_sec) ss

  unfoldable pub frame : Deriver F → ℤ → ℤ → Deriver F × Frame F
  unfolding derive_links tally_link derive_ases derive_as
  frame d now now_unix =
      let start : Tally = record {
        links = [];
        total_mbit = dec 0 0;
        core_rtt_sum = dec 0 0;
        links_up = 0;
        shaped = 0;
        core_count = 0;
      } in
      let (d', c) = derive_links d now_unix start d.g.links in
      let (ases, beacons) = derive_ases d' [] (dec 0 0) d.g.ases in
      (
        d',
        record {
          t = now;
          links = c.links;
          ases = ases;
          kpi = record {
            links_up = c.links_up;
            links_total = length d.g.links;
            shaped = c.shaped;
            total_mbit = c.total_mbit;
            avg_core_rtt_ms =
                if c.core_count == 0
                then dec 0 0
                else div c.core_rtt_sum (of_int (pos c.core_count));
            beacons_per_sec = beacons;
          };
        },
      )
