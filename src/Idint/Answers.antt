-- ===== src/Idint/Answers.antt =====
-- idint.go: which probes answered what, over any interleaving of the callers, the ticker and the
-- probes, and the trace view against the answers.
use ietf_scion_testbed.Prelude.{
  ◌≡◌, refl, ap, Option, none, some, List, [], ◌∷◌, ◌++◌, append_assoc, append-nil, inl, inr,
  Bool-cases, Option-cases, Float, ℤ, In, In-append_left, In-append_right,
}
use ietf_scion_testbed.Topo.{Graph}
use ietf_scion_testbed.Idint.Wire.{ProbeResult, Result, ok, err, TraceVm}
use ietf_scion_testbed.Idint.Manager.{
  Session, same_session, Tables, Manager, validate, new_manager, set_session, clear_session,
  build_vm, show_built, show_answer, land,
}
use ietf_scion_testbed.Idint.Ticks.{
  Flight, landed, started, probing, Event, session_set, session_cleared, ticked, session_read,
  answered, World, step, run,
}
use ietf_scion_testbed.Idint.Sessions.{same_session-eq, Coherent, at_start, run-Coherent}

module _ (fl : Float) where
  open fl use {F}

  -- an answer, with the session that the probe was made for
  abbrev pub Answer : Type 0
  Answer = Session × ProbeResult F

  abbrev answers_to : Session → Result (ProbeResult F) → List Answer
  answers_to s (err e) = []
  answers_to s (ok res) = (s, res) ∷ []

  unfoldable pub answers_of : Flight fl → Event fl → List Answer
  answers_of (probing s) (answered answer now) = answers_to s answer
  answers_of _ _ = []

  -- the answers of the probes that were made, in order
  unfoldable pub answers : World fl → List (Event fl) → List Answer
  unfolding answers_of
  answers w [] = []
  answers w (e ∷ es) = answers_of w.flight e ++ answers (step fl w e) es

  -- The latest probe result is an answer to a probe of the session.
  abbrev pub IsAnswer : List Answer → Option Session → Option (ProbeResult F) → Type 0
  IsAnswer log (some s) (some res) = In (s, res) log
  IsAnswer log _ _ = Unit

  Heard : List Answer → Manager F → Type 0
  Heard log m = IsAnswer log m.sess m.latest

  IsAnswer_more :
      (log more : List Answer) (sess : Option Session) (latest : Option (ProbeResult F))
      → IsAnswer log sess latest
      → IsAnswer (log ++ more) sess latest
  IsAnswer_more log more none latest h = tt
  IsAnswer_more log more (some s) none h = tt
  IsAnswer_more log more (some s) (some res) h = In-append_left (s, res) log more h

  show_built-Heard :
      (log : List Answer) (m : Manager F) (s : Session) (res : ProbeResult F) (now : ℤ)
      (r : Result (TraceVm F))
      → m.sess ≡ some s
      → Heard log m
      → Heard (log ++ (s, res) ∷ []) (show_built fl m s res now r)
  unfolding Heard show_built
  show_built-Heard log m s res now (ok vm) e h =
      rw e (In-append_right (s, res) log ((s, res) ∷ []) (inl refl))
  show_built-Heard log m s res now (err bad) e h =
      IsAnswer_more log ((s, res) ∷ []) m.sess m.latest h

  show_answer-Heard :
      (log : List Answer) (m : Manager F) (s : Session) (answer : Result (ProbeResult F)) (now : ℤ)
      → m.sess ≡ some s
      → Heard log m
      → Heard (log ++ answers_to s answer) (show_answer fl m s answer now)
  unfolding Heard show_answer
  show_answer-Heard log m s (err bad) now e h = IsAnswer_more log [] m.sess m.latest h
  show_answer-Heard log m s (ok res) now e h =
      show_built-Heard log m s res now (build_vm fl m.tables s res now) e h

  land-Heard :
      (log : List Answer) (t : Tables) (sess : Option Session) (vm : Option (TraceVm F))
      (latest : Option (ProbeResult F)) (s : Session) (answer : Result (ProbeResult F)) (now : ℤ)
      → Heard log (record { tables = t; sess = sess; vm = vm; latest = latest })
      → Heard
          (log ++ answers_to s answer)
          (land fl (record { tables = t; sess = sess; vm = vm; latest = latest }) s answer now)
  unfolding Heard land
  land-Heard log t none vm latest s answer now h = tt
  land-Heard log t (some cur) vm latest s answer now h = elim (Bool-cases (same_session cur s)) [
    | inr differs ↦ rw differs (IsAnswer_more log (answers_to s answer) (some cur) latest h)
    | inl same ↦ rw same (
        show_answer-Heard log (record { tables = t; sess = some cur; vm = vm; latest = latest }) s
          answer now (ap some (same_session-eq cur s same)) h)
  ]

  set_session-Heard :
      (log : List Answer) (m : Manager F) (s : Session)
      → Heard log m
      → Heard (log ++ []) (set_session fl m s).0
  unfolding Heard set_session
  set_session-Heard log m s h = elim (Option-cases (validate m.tables s.src s.dst)) [
    | inl valid ↦ rw (valid, set_session) tt
    | inr (e, invalid) ↦ rw (invalid, set_session) (IsAnswer_more log [] m.sess m.latest h)
  ]

  step-Heard :
      (log : List Answer) (m : Manager F) (flight : Flight fl) (e : Event fl)
      → Heard log m
      → Heard
          (log ++ answers_of flight e)
          (step fl (record { manager = m; flight = flight }) e).manager
  unfolding Heard step answers_of clear_session
  step-Heard log m flight (session_set s) h = none_of flight
    where
      none_of :
          (f : Flight fl)
          → Heard
              (log ++ answers_of f (session_set s))
              (step fl (record { manager = m; flight = f }) (session_set s)).manager
      none_of landed = set_session-Heard log m s h
      none_of started = set_session-Heard log m s h
      none_of (probing s') = set_session-Heard log m s h
  step-Heard log m flight session_cleared h = tt
  step-Heard log m landed ticked h = IsAnswer_more log [] m.sess m.latest h
  step-Heard log m started ticked h = IsAnswer_more log [] m.sess m.latest h
  step-Heard log m (probing s) ticked h = IsAnswer_more log [] m.sess m.latest h
  step-Heard log m landed session_read h = IsAnswer_more log [] m.sess m.latest h
  step-Heard log m started session_read h = IsAnswer_more log [] m.sess m.latest h
  step-Heard log m (probing s) session_read h = IsAnswer_more log [] m.sess m.latest h
  step-Heard log m landed (answered answer now) h = IsAnswer_more log [] m.sess m.latest h
  step-Heard log m started (answered answer now) h = IsAnswer_more log [] m.sess m.latest h
  step-Heard log m (probing s) (answered answer now) h =
      land-Heard log m.tables m.sess m.vm m.latest s answer now h

  run-Heard :
      (log : List Answer) (w : World fl) (es : List (Event fl))
      → Heard log w.manager
      → Heard (log ++ answers w es) (run fl w es).manager
  unfolding run answers
  run-Heard log w [] h = rw (append-nil log) h
  run-Heard log w (e ∷ es) h =
      rw (append_assoc log (answers_of w.flight e) (answers (step fl w e) es)) at (
        run-Heard (log ++ answers_of w.flight e) (step fl w e) es
          (step-Heard log w.manager w.flight e h))

  -- The view of the session and the latest result, given the answers to all probes.
  pub record IsTrace (log : List Answer) (m : Manager F) : Type 0 where
    pub coherent : Coherent fl m
    pub answer : IsAnswer log m.sess m.latest

  -- For every graph, after any interleaving of calls of `Set` and `Clear`, ticks, and probes that
  -- answer or fail at any time: with no session there is no view and no probe result; with one, its
  -- ASes are known and different, the view has these ASes and one hop for each link of its path, in
  -- order, and its path, fingerprint and RTT are those of the probe result that `Latest` returns (no
  -- links while it returns none); and this result is the answer to a probe that was made for these
  -- two ASes and the session's fingerprint, though perhaps for an earlier session that was set with
  -- all three of them.
  pub run-IsTrace :
      (g : Graph) (es : List (Event fl))
      → IsTrace (answers (at_start fl g) es) (run fl (at_start fl g) es).manager
  unfolding Heard new_manager
  run-IsTrace g es = record {
    coherent = run-Coherent fl g es;
    answer = run-Heard [] (at_start fl g) es tt;
  }
