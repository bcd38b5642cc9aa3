-- ===== src/Idint/Sessions.antt =====
-- What the trace view shows, over any interleaving of the callers, the ticker and the probes.
use mathlib.Core.Path.{subst}
use ietf_scion_testbed.Prelude.{
  ◌≡◌, refl, sym, ap, ◌∙◌, Bool, true, false, Option, none, some, List, [], ◌∷◌, map, length, arith,
  inl, inr, Bool-cases, Option-cases, Bytes, ◌==◌, nat_eq, bytes_eq, bytes_beq_iff, nat_beq,
  nat_beq_iff, Float, ℤ, length-reverse,
}
use ietf_scion_testbed.Topo.{Graph}
use ietf_scion_testbed.Idint.Wire.{HopRecord, ProbeResult, Error, Result, ok, err, TraceVm}
use ietf_scion_testbed.Idint.Paths.{pair_links, egress_records}
use ietf_scion_testbed.Idint.Manager.{
  Session, same_session, Tables, Manager, ia, validate, new_manager, pending_vm, set_session,
  clear_session, chosen_egress, trace_hops, laid_over, build_vm, failed_vm, show_built, show_answer,
  land,
}
use ietf_scion_testbed.Idint.Ticks.{
  Flight, landed, started, probing, Event, session_set, session_cleared, ticked, session_read,
  answered, World, step, run,
}

pub same_session-eq : (s t : Session) → same_session s t ≡ true → s ≡ t
same_session-eq s t h =
    let a : s.src ≡ t.src = ground (arith, h) in
    let b : s.dst ≡ t.dst = ground (arith, h) in
    let c : s.fingerprint ≡ t.fingerprint =
      ground (arith, h, bytes_beq_iff s.fingerprint t.fingerprint) in
    cc

module _ (fl : Float) where
  open fl use {F}

  -- The view is one of session `s`, with a hop for each link of its path.
  pub record IsOf (t : Tables) (s : Session) (v : TraceVm F) : Type 0 where
    pub src : v.src ≡ ia t s.src
    pub dst : v.dst ≡ ia t s.dst
    pub auto : v.auto ≡ (s.fingerprint == [])
    pub links : map (λ h. h.link) v.hops ≡ v.path_links

  -- The path of the view is that of the latest probe result, and empty while there is none.
  abbrev pub IsFrom : Tables → Option (ProbeResult F) → TraceVm F → Type 0
  IsFrom t none v = v.path_links ≡ []
  IsFrom t (some res) v =
      (pair_links t.link_by_if res.path.interfaces ≡ ok v.path_links)
      × (v.fingerprint ≡ res.path.fingerprint)
      × (v.probe_rtt_ms ≡ res.probe_rtt_ms)

  abbrev pub Shown : Tables → Option Session → Option (TraceVm F) → Option (ProbeResult F) → Type 0
  Shown t none none none = Unit
  Shown t (some s) (some v) latest =
      (validate t s.src s.dst ≡ none) × IsOf t s v × IsFrom t latest v
  Shown t _ _ _ = ◌≡◌ {A = Bool} true false

  abbrev pub Coherent : Manager F → Type 0
  Coherent m = Shown m.tables m.sess m.vm m.latest

  trace_hops-links :
      (links : List Bytes) (egress : List (HopRecord F))
      → length egress ≡ length links
      → map (λ h. h.link) (trace_hops fl links egress) ≡ links
  unfolding trace_hops
  trace_hops-links [] [] h = refl
  trace_hops-links [] (r ∷ rs) h = absurd (omega (arith, h))
  trace_hops-links (l ∷ ls) [] h = absurd (omega (arith, h))
  trace_hops-links (l ∷ ls) (r ∷ rs) h = ap (λ k. l ∷ k) (trace_hops-links ls rs (omega (arith, h)))

  abbrev Fits : List Bytes → Result (List (HopRecord F)) → Type 0
  Fits links (err e) = Unit
  Fits links (ok egress) = length egress ≡ length links

  chosen_egress-Fits :
      (links : List Bytes) (fwd rev : List (HopRecord F))
      → Fits links (chosen_egress fl links fwd rev)
  unfolding chosen_egress
  chosen_egress-Fits links fwd rev = elim (Bool-cases (nat_beq (length fwd) (length links))) [
    | inl e ↦ rw e ((nat_beq_iff (length fwd) (length links)).0 e)
    | inr n ↦ elim (Bool-cases (nat_beq (length rev) (length links))) [
      | inl e ↦ rw (n, e) (length-reverse rev ∙ (nat_beq_iff (length rev) (length links)).0 e)
      | inr k ↦ rw (n, k) tt
    ]
  ]

  abbrev Built : Tables → Session → ProbeResult F → Result (TraceVm F) → Type 0
  Built t s res (err e) = Unit
  Built t s res (ok v) = IsOf t s v × IsFrom t (some res) v

  laid_over-Built :
      (t : Tables) (s : Session) (res : ProbeResult F) (now : ℤ) (links : List Bytes)
      (r : Result (List (HopRecord F)))
      → pair_links t.link_by_if res.path.interfaces ≡ ok links
      → Fits links r
      → Built t s res (laid_over fl t s res now links r)
  unfolding laid_over
  laid_over-Built t s res now links (err e) p f = tt
  laid_over-Built t s res now links (ok egress) p f = (
    record { src = refl; dst = refl; auto = refl; links = trace_hops-links links egress f },
    (p, refl, refl),
  )

  paired-Built :
      (t : Tables) (s : Session) (res : ProbeResult F) (now : ℤ) (r : Result (List Bytes))
      → pair_links t.link_by_if res.path.interfaces ≡ r
      → Built t s res (elim r [
        | err e ↦ err e
        | ok links ↦
            laid_over fl t s res now links
              (chosen_egress fl links (egress_records res.fwd) (egress_records res.rev))
      ])
  paired-Built t s res now (err e) p = tt
  paired-Built t s res now (ok links) p =
      laid_over-Built t s res now links _ p
        (chosen_egress-Fits links (egress_records res.fwd) (egress_records res.rev))

  build_vm-Built :
      (t : Tables) (s : Session) (res : ProbeResult F) (now : ℤ)
      → Built t s res (build_vm fl t s res now)
  unfolding build_vm
  build_vm-Built t s res now =
      paired-Built t s res now (pair_links t.link_by_if res.path.interfaces) refl

  abbrev manager_of :
      Tables → Option Session → Option (TraceVm F) → Option (ProbeResult F) → Manager F
  manager_of t sess vm latest = record { tables = t; sess = sess; vm = vm; latest = latest }

  failed_vm-Shown :
      (t : Tables) (cur s : Session) (v : TraceVm F) (latest : Option (ProbeResult F)) (e : Error)
      (now : ℤ)
      → Shown t (some cur) (some v) latest
      → Shown t (some cur) (some (failed_vm fl t s (some v) e now)) latest
  unfolding failed_vm
  failed_vm-Shown t cur s v none e now (valid, of, from) =
      (valid, record { src = of.src; dst = of.dst; auto = of.auto; links = of.links }, from)
  failed_vm-Shown t cur s v (some res) e now (valid, of, from) =
      (valid, record { src = of.src; dst = of.dst; auto = of.auto; links = of.links }, from)

  show_built-Coherent :
      (t : Tables) (cur s : Session) (v : TraceVm F) (latest : Option (ProbeResult F))
      (res : ProbeResult F) (now : ℤ) (r : Result (TraceVm F))
      → Coherent (manager_of t (some cur) (some v) latest)
      → Built t cur res r
      → Coherent (show_built fl (manager_of t (some cur) (some v) latest) s res now r)
  unfolding show_built
  show_built-Coherent t cur s v latest res now (ok vm) c b = (c.0, b.0, b.1)
  show_built-Coherent t cur s v latest res now (err e) c b =
      failed_vm-Shown t cur s v latest e now c

  show_answer-Coherent :
      (t : Tables) (cur s : Session) (v : TraceVm F) (latest : Option (ProbeResult F))
      (answer : Result (ProbeResult F)) (now : ℤ)
      → cur ≡ s
      → Coherent (manager_of t (some cur) (some v) latest)
      → Coherent (show_answer fl (manager_of t (some cur) (some v) latest) s answer now)
  unfolding show_answer
  show_answer-Coherent t cur s v latest (err e) now q c = failed_vm-Shown t cur s v latest e now c
  show_answer-Coherent t cur s v latest (ok res) now q c =
      show_built-Coherent t cur s v latest res now (build_vm fl t s res now) c
        (subst (λ x. Built t x res (build_vm fl t s res now)) (sym q) (build_vm-Built t s res now))

  land-Coherent :
      (t : Tables) (sess : Option Session) (vm : Option (TraceVm F))
      (latest : Option (ProbeResult F)) (s : Session) (answer : Result (ProbeResult F)) (now : ℤ)
      → Coherent (manager_of t sess vm latest)
      → Coherent (land fl (manager_of t sess vm latest) s answer now)
  unfolding land
  land-Coherent t none vm latest s answer now c = c
  land-Coherent t (some cur) none latest s answer now c = absurd (cc c)
  land-Coherent t (some cur) (some v) latest s answer now c =
      elim (Bool-cases (same_session cur s)) [
        | inl same ↦
            rw same
              (show_answer-Coherent t cur s v latest answer now (same_session-eq cur s same) c)
        | inr differs ↦ rw differs c
      ]

  set_session-Coherent :
      (m : Manager F) (s : Session) → Coherent m → Coherent (set_session fl m s).0
  unfolding set_session pending_vm
  set_session-Coherent m s c = elim (Option-cases (validate m.tables s.src s.dst)) [
    | inl valid ↦
        rw (valid, set_session, pending_vm)
          (valid, record { src = refl; dst = refl; auto = refl; links = refl }, refl)
    | inr (e, invalid) ↦ rw (invalid, set_session) c
  ]

  step-Coherent :
      (m : Manager F) (flight : Flight fl) (e : Event fl)
      → Coherent m
      → Coherent (step fl (record { manager = m; flight = flight }) e).manager
  unfolding step clear_session
  step-Coherent m flight (session_set s) c = set_session-Coherent m s c
  step-Coherent m flight session_cleared c = tt
  step-Coherent m flight ticked c = c
  step-Coherent m landed session_read c = c
  step-Coherent m started session_read c = c
  step-Coherent m (probing s) session_read c = c
  step-Coherent m landed (answered answer now) c = c
  step-Coherent m started (answered answer now) c = c
  step-Coherent m (probing s) (answered answer now) c =
      land-Coherent m.tables m.sess m.vm m.latest s answer now c

  run_keeps :
      (w : World fl) (es : List (Event fl)) → Coherent w.manager → Coherent (run fl w es).manager
  unfolding run
  run_keeps w [] c = c
  run_keeps w (e ∷ es) c = run_keeps (step fl w e) es (step-Coherent w.manager w.flight e c)

  abbrev pub at_start : Graph → World fl
  at_start g = record { manager = new_manager fl g; flight = landed }

  -- For every graph, after any interleaving of calls of `Set` and `Clear`, ticks, and probes that
  -- answer or fail at any time: with no session there is no view and no probe result; with one, its
  -- ASes are known and different, the view has these ASes and one hop for
  -- each link of its path, in order, and its path, fingerprint and RTT are those of the probe result
  -- that `Latest` returns (no links while it returns none).
  pub run-Coherent : (g : Graph) (es : List (Event fl)) → Coherent (run fl (at_start g) es).manager
  unfolding new_manager
  run-Coherent g es = run_keeps (at_start g) es tt
