-- ===== src/Dashboard/Live.antt =====
-- api.go: the frames of the live feed, and what can happen to it: the steps of the clients' handlers
-- (`handleLive`), and the ticks of `RunBroadcast` with the poll that one of them starts. An AS number
-- that `int` does not hold is not considered.
use ietf_scion_testbed.Prelude.{
  ℕ, Bool, true, false, Option, none, some, List, [], ◌∷◌, Bytes, bytes_eq, nat_eq, atoi_unsigned,
  ℤ, Map, Float,
}
use ietf_scion_testbed.Store
use ietf_scion_testbed.Topo.{Graph}
use ietf_scion_testbed.BgpPath.{Vm, Index, Routes, walk, new_index}
use ietf_scion_testbed.Derive.Bgp.{BgpLink}
use ietf_scion_testbed.Derive.State.{
  Shaping, Frame, Deriver, set_shaping, set_baseline_shaping, set_bgp,
}
use ietf_scion_testbed.Derive.Views.{frame}
use ietf_scion_testbed.Idint.Wire.{TraceVm}
use ietf_scion_testbed.Idint.Paths.{after_last_dash}
use ietf_scion_testbed.Idint.Manager.{Manager}
use ietf_scion_testbed.Dashboard.Air.{Air, silence, connect, greet, join, leave, cast, write}

-- a derived frame with the overlays of the trace and of the BGP path
pub record FullFrame (F : Type 0) : Type 0 where
  pub base : Frame F
  pub trace : Option (TraceVm F)
  pub bgp_path : Option Vm

abbrev or_zero : Option ℕ → ℕ
or_zero none = 0
or_zero (some n) = n

abbrev behind_dash : Bytes → Option Bytes → Bytes
behind_dash ia none = ia
behind_dash ia (some rest) = rest

-- `iaNum`; an error of strconv.Atoi leaves 0
unfoldable pub ia_num : Bytes → ℕ
ia_num ia = or_zero (atoi_unsigned (behind_dash ia (after_last_dash ia)))

abbrev with_path : {F : Type 0} → FullFrame F → TraceVm F → Option Vm → FullFrame F
with_path f t none = f
with_path f t (some vm) = record f { bgp_path = some (record vm { src = t.src; dst = t.dst }) }

abbrev pub attach_at :
    {F : Type 0} → FullFrame F → Index → Option Routes → Option (TraceVm F) → FullFrame F
attach_at f idx none t = f
attach_at f idx (some routes) none = f
attach_at f idx (some routes) (some t) =
    with_path f t (walk idx routes (ia_num t.src) (ia_num t.dst))

unfoldable pub attach_bgp_path : {F : Type 0} → FullFrame F → Index → Option Routes → FullFrame F
attach_bgp_path f idx routes = attach_at f idx routes f.trace

abbrev pub Shapings : Type 0 → Type 0
Shapings F = Option (Map Bytes (Option (Shaping F)))

-- How far the poll is: none is under way, or it asks for the links, has set the shaping and has the
-- baseline, asks for BGP, or has set the badges and has the routes.
pub data Poll (F : Type 0) : Type 0 where
  idle : Poll F
  polling : Poll F
  shaping_set : Shapings F → Poll F
  polling_bgp : Poll F
  badges_set : Routes → Poll F

-- `tr` is none if there is no path inspector, and `bgp_routes` until the first poll.
pub record Live (F : Type 0) : Type 0 where
  pub d : Deriver F
  pub tr : Option (Manager F)
  pub bgp_idx : Index
  pub bgp_routes : Option Routes
  pub last_frame : Option (FullFrame F)
  pub in_flight : Poll F
  pub air : Air (FullFrame F)

-- What can happen. A connection has a number of its own. Scrapes change the store that the deriver
-- reads, and the path inspector changes itself.
pub data Event (F : Type 0) : Type 0 where
  accepted : ℕ → ℤ → ℤ → Event F
  snapshot_sent : ℕ → Bool → Event F
  registered : ℕ → Event F
  closed : ℕ → Event F
  frame_tick : ℤ → ℤ → Bool → Event F
  frame_sent : Bool → Event F
  poll_tick : Event F
  polled : Shapings F → Shapings F → Event F
  baseline_due : Event F
  polled_bgp : Map Bytes (Option BgpLink) → Routes → Event F
  routes_due : Event F
  scraped : Store.Store F → Event F
  traced : Manager F → Event F

module _ (fl : Float) where
  open fl use {F}

  unfoldable pub start : Graph → Deriver F → Option (Manager F) → Live F
  start g d tr = record {
    d = d;
    tr = tr;
    bgp_idx = new_index g;
    bgp_routes = none;
    last_frame = none;
    in_flight = idle;
    air = silence;
  }

  abbrev trace_of : Option (Manager F) → Option (TraceVm F)
  trace_of none = none
  trace_of (some m) = m.vm

  unfoldable pub build_frame : Live F → ℤ → ℤ → Live F × FullFrame F
  unfolding attach_bgp_path
  build_frame s now now_unix =
      let (d', base) = frame fl s.d now now_unix in
      let f : FullFrame F = record { base = base; trace = trace_of s.tr; bgp_path = none } in
      (record s { d = d' }, attach_bgp_path f s.bgp_idx s.bgp_routes)

  abbrev pub accept_with : ℕ → Live F × FullFrame F → Live F
  accept_with c (s, f) = record s { air = connect s.air c f }

  -- the snapshot is made of the last frame, or of a new one before the first tick
  abbrev pub accept_at : Live F → ℕ → ℤ → ℤ → Option (FullFrame F) → Live F
  accept_at s c now now_unix (some f) = accept_with c (s, f)
  accept_at s c now now_unix none = accept_with c (build_frame s now now_unix)

  abbrev pub cast_with : Bool → Live F × FullFrame F → Live F
  cast_with true (s, f) = record s { last_frame = some f; air = cast s.air f }
  cast_with false (s, f) = record s { last_frame = some f }

  -- A tick waits until the loop is through with the last broadcast.
  abbrev pub tick_at : Live F → ℤ → ℤ → Bool → Option (FullFrame F × List ℕ) → Live F
  tick_at s now now_unix marshals (some under_way) = s
  tick_at s now now_unix marshals none = cast_with marshals (build_frame s now now_unix)

  -- the goroutine of a poll, of which `pollInFlight` admits one
  abbrev pub begin_poll : Live F → Poll F → Live F
  begin_poll s idle = record s { in_flight = polling }
  begin_poll s _ = s

  abbrev pub set_polled : Live F → Shapings F → Shapings F → Poll F → Live F
  set_polled s shaping base polling = record s {
    d = set_shaping fl s.d shaping;
    in_flight = shaping_set base;
  }
  set_polled s shaping base _ = s

  abbrev pub set_baseline : Live F → Poll F → Live F
  set_baseline s (shaping_set base) = record s {
    d = set_baseline_shaping fl s.d base;
    in_flight = polling_bgp;
  }
  set_baseline s _ = s

  abbrev pub set_badges : Live F → Map Bytes (Option BgpLink) → Routes → Poll F → Live F
  set_badges s badges routes polling_bgp = record s {
    d = set_bgp fl s.d (some badges);
    in_flight = badges_set routes;
  }
  set_badges s badges routes _ = s

  abbrev pub set_routes : Live F → Poll F → Live F
  set_routes s (badges_set routes) = record s { bgp_routes = some routes; in_flight = idle }
  set_routes s _ = s

  abbrev pub retraced : Option (Manager F) → Manager F → Option (Manager F)
  retraced none m = none
  retraced (some old) m = some m

  unfoldable pub step : Live F → Event F → Live F
  unfolding build_frame
  step s (accepted c now now_unix) = accept_at s c now now_unix s.last_frame
  step s (snapshot_sent c ok) = record s { air = greet s.air c ok }
  step s (registered c) = record s { air = join s.air c }
  step s (closed c) = record s { air = leave s.air c }
  step s (frame_tick now now_unix marshals) = tick_at s now now_unix marshals s.air.casting
  step s (frame_sent ok) = record s { air = write s.air ok }
  step s poll_tick = begin_poll s s.in_flight
  step s (polled shaping base) = set_polled s shaping base s.in_flight
  step s baseline_due = set_baseline s s.in_flight
  step s (polled_bgp badges routes) = set_badges s badges routes s.in_flight
  step s routes_due = set_routes s s.in_flight
  step s (scraped st) = record s { d = record (s.d) { st = st } }
  step s (traced m) = record s { tr = retraced s.tr m }

  unfoldable pub run : Live F → List (Event F) → Live F
  unfolding step
  run s [] = s
  run s (e ∷ es) = run (step s e) es
