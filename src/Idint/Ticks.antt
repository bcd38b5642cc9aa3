-- ===== src/Idint/Ticks.antt =====
-- dashboard/backend/internal/idint/idint.go: what can happen to the manager of the trace session: the
-- calls, the ticks of `Run`, and the two parts of `TickOnce`.
use ietf_scion_testbed.Prelude.{ℤ, Option, none, some, List, [], ◌∷◌, Float}
use ietf_scion_testbed.Idint.Wire.{ProbeResult, Result}
use ietf_scion_testbed.Idint.Manager.{Session, Manager, set_session, clear_session, land}

module _ (fl : Float) where
  open fl use {F}

  -- The goroutine that `Run` starts, of which `inFlight` admits one: it has started but not read the
  -- session, or its probe is under way.
  pub data Flight : Type 0 where
    landed : Flight
    started : Flight
    probing : Session → Flight

  -- What can happen, in the order that the lock gives: a call of `Set` or `Clear`, a tick of `Run`, the
  -- goroutine's reading of the session, and the answer to its probe.
  pub data Event : Type 0 where
    session_set : Session → Event
    session_cleared : Event
    ticked : Event
    session_read : Event
    answered : Result (ProbeResult F) → ℤ → Event

  pub record World : Type 0 where
    pub manager : Manager F
    pub flight : Flight

  -- an active session and no goroutine: one starts
  abbrev on_tick : Option Session → Flight → Flight
  on_tick (some s) landed = started
  on_tick _ flight = flight

  abbrev on_read : Option Session → Flight
  on_read none = landed
  on_read (some s) = probing s

  -- An event of the goroutine that it is not ready for does not happen.
  unfoldable pub step : World → Event → World
  unfolding set_session clear_session land
  step w (session_set s) = record w { manager = (set_session fl w.manager s).0 }
  step w session_cleared = record w { manager = clear_session fl w.manager }
  step w ticked = record w { flight = on_tick w.manager.sess w.flight }
  step w session_read = elim w.flight [
    | started ↦ record w { flight = on_read w.manager.sess }
    | _ ↦ w
  ]
  step w (answered answer now) = elim w.flight [
    | probing s ↦ record { manager = land fl w.manager s answer now; flight = landed }
    | _ ↦ w
  ]

  unfoldable pub run : World → List Event → World
  unfolding step
  run w [] = w
  run w (e ∷ es) = run (step w e) es
