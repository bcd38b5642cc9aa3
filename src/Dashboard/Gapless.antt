-- ===== src/Dashboard/Gapless.antt =====
-- api.go: what each client of the live feed is sent, over any steps.
use ietf_scion_testbed.Prelude.{
  Bytes, bytes_eq, ℤ, Float, ℕ, ◌≡◌, refl, Bool, true, false, Option, none, some, List, [], ◌∷◌,
  nat_eq, contains, Map, lookup,
}
use ietf_scion_testbed.Topo.{Graph}
use ietf_scion_testbed.BgpPath.{Routes}
use ietf_scion_testbed.Derive.Bgp.{BgpLink}
use ietf_scion_testbed.Derive.State.{Deriver}
use ietf_scion_testbed.Idint.Manager.{Manager}
use ietf_scion_testbed.Dashboard.Live.{
  FullFrame, Shapings, Poll, idle, polling, shaping_set, polling_bgp, badges_set, Live, Event,
  accepted, snapshot_sent, registered, closed, frame_tick, frame_sent, poll_tick, polled,
  baseline_due, polled_bgp, routes_due, scraped, traced, start, build_frame, accept_at, cast_with,
  tick_at, begin_poll, set_polled, set_baseline, set_badges, set_routes, step, run,
}
use ietf_scion_testbed.Dashboard.Steady.{
  due, IsServed, IsSteady, connect-IsSteady, greet-IsSteady, join-IsSteady, leave-IsSteady,
}
use ietf_scion_testbed.Dashboard.Broadcast.{cast-IsSteady, write-IsSteady, silence-IsSteady}

module _ (fl : Float) where
  open fl use {F}

  cast_with-IsSteady :
      (ok : Bool) (s : Live F) (f : FullFrame F)
      → IsSteady s.air
      → IsSteady (cast_with fl ok (s, f)).air
  cast_with-IsSteady true s f h = cast-IsSteady s.air f h
  cast_with-IsSteady false s f h = h

  tick_at-IsSteady :
      (s : Live F) (now now_unix : ℤ) (ok : Bool) (o : Option (FullFrame F × List ℕ))
      → IsSteady s.air
      → IsSteady (tick_at fl s now now_unix ok o).air
  unfolding build_frame
  tick_at-IsSteady s now now_unix ok (some p) h = h
  tick_at-IsSteady s now now_unix ok none h =
      let (s', f) = build_frame fl s now now_unix in cast_with-IsSteady ok s' f h

  accept_at-IsSteady :
      (s : Live F) (c : ℕ) (now now_unix : ℤ) (o : Option (FullFrame F))
      → IsSteady s.air
      → IsSteady (accept_at fl s c now now_unix o).air
  unfolding build_frame
  accept_at-IsSteady s c now now_unix (some f) h = connect-IsSteady s.air c f h
  accept_at-IsSteady s c now now_unix none h =
      connect-IsSteady s.air c (build_frame fl s now now_unix).1 h

  -- the poll leaves the clients alone
  polls-air :
      (s : Live F) (shaping base : Shapings F) (badges : Map Bytes (Option BgpLink))
      (routes : Routes) (p : Poll F)
      → ((begin_poll fl s p).air ≡ s.air)
        × ((set_polled fl s shaping base p).air ≡ s.air)
        × ((set_baseline fl s p).air ≡ s.air)
        × ((set_badges fl s badges routes p).air ≡ s.air)
        × ((set_routes fl s p).air ≡ s.air)
  polls-air s shaping base badges routes idle = (refl, refl, refl, refl, refl)
  polls-air s shaping base badges routes polling = (refl, refl, refl, refl, refl)
  polls-air s shaping base badges routes (shaping_set b) = (refl, refl, refl, refl, refl)
  polls-air s shaping base badges routes polling_bgp = (refl, refl, refl, refl, refl)
  polls-air s shaping base badges routes (badges_set r) = (refl, refl, refl, refl, refl)

  step-IsSteady : (s : Live F) (e : Event F) → IsSteady s.air → IsSteady (step fl s e).air
  unfolding step
  step-IsSteady s (accepted c now now_unix) h = accept_at-IsSteady s c now now_unix s.last_frame h
  step-IsSteady s (snapshot_sent c ok) h = greet-IsSteady s.air c ok h
  step-IsSteady s (registered c) h = join-IsSteady s.air c h
  step-IsSteady s (closed c) h = leave-IsSteady s.air c h
  step-IsSteady s (frame_tick now now_unix ok) h =
      tick_at-IsSteady s now now_unix ok s.air.casting h
  step-IsSteady s (frame_sent ok) h = write-IsSteady s.air ok h
  step-IsSteady s poll_tick h = rw ((polls-air s none none [] [] s.in_flight).0) h
  step-IsSteady s (polled shaping base) h = rw ((polls-air s shaping base [] [] s.in_flight).1) h
  step-IsSteady s baseline_due h = rw ((polls-air s none none [] [] s.in_flight).2) h
  step-IsSteady s (polled_bgp badges routes) h =
      rw ((polls-air s none none badges routes s.in_flight).3) h
  step-IsSteady s routes_due h = rw ((polls-air s none none [] [] s.in_flight).4) h
  step-IsSteady s (scraped st) h = h
  step-IsSteady s (traced m) h = h

  run-IsSteady : (es : List (Event F)) (s : Live F) → IsSteady s.air → IsSteady (run fl s es).air
  unfolding run
  run-IsSteady [] s h = h
  run-IsSteady (e ∷ es) s h = run-IsSteady es (step fl s e) (step-IsSteady s e h)

  -- From the start of the dashboard, after anything that can happen to the live feed, in any order.
  -- A client has received nothing before its snapshot is written, and the snapshot before all else.
  -- While it is in the hub, it has received all frames that were broadcast since some point, in their
  -- order, but for the frame that the broadcast under way still has for it. Once its connection
  -- is closed it is not in the hub, and has received nothing or a run of frames behind a snapshot.
  pub run-IsServed :
      (g : Graph) (d : Deriver F) (tr : Option (Manager F)) (es : List (Event F)) (c : ℕ)
      → IsServed
          (contains (run fl (start fl g d tr) es).air.conns c)
          (due (run fl (start fl g d tr) es).air.casting c)
          (run fl (start fl g d tr) es).air.aired
          (lookup c (run fl (start fl g d tr) es).air.clients)
  unfolding start
  run-IsServed g d tr es c = (run-IsSteady es (start fl g d tr) silence-IsSteady).served c
