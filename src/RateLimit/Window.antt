-- ===== src/RateLimit/Window.antt =====
-- The limiter against the log of all events that it has permitted.
use ietf_scion_testbed.Prelude.{
  ◌≤◌, ◌≡◌, refl, sym, ap, ◌∙◌, Bool, true, false, List, [], ◌∷◌, ◌++◌, append-nil, arith,
  if◌then◌else◌, Bool-cases, inl, inr, keep_if, length, length-append, Bytes, ◌==◌, bytes_eq,
  bytes_beq_iff, lookup, lookup-insert, ℤ, pos, pos_part, ◌≤ℤ◌, ltb_ℤ,
}
use ietf_scion_testbed.RateLimit.{Limiter, new, hits_of, after_cutoff, allow}
use ietf_scion_testbed.RateLimit.Log.{
  Event, times, allow_all, Chronological, end_time, in_window, count_if, keep_if-append,
  keep_if-keep_if, count_if_mono, times-append,
}

module _ (max window : ℤ) where
  -- What holds between two calls, the last of which came at `now`.
  record Agrees (l : Limiter) (log : List Event) (now : ℤ) : Type 0 where
    same_max : l.max ≡ max
    same_window : l.window ≡ window
    recent :
        (key : Bytes) (t : ℤ)
        → now ≤ℤ t
        → keep_if (after_cutoff window t) (hits_of l key)
          ≡ keep_if (after_cutoff window t) (times key log)
    bounded : (key : Bytes) (t : ℤ) → count_if (in_window window t) (times key log) ≤ pos_part max

  -- a time past a later cutoff is past an earlier one
  cutoff_mono :
      (s t u : ℤ) → s ≤ℤ t → after_cutoff window t u ≡ true → after_cutoff window s u ≡ true
  cutoff_mono s t u h k = ground arith

  Agrees-new : (now : ℤ) → Agrees (new max window) [] now
  unfolding new hits_of lookup
  Agrees-new now = record {
    same_max = refl;
    same_window = refl;
    recent = λ key t h. refl;
    bounded = λ key t. omega arith;
  }

  hits_of-allow :
      (l : Limiter) (now : ℤ) (key j : Bytes)
      → hits_of (allow l now key).0 j ≡ (
          if key == j
          then keep_if (after_cutoff l.window now) (hits_of l key)
            ++ (if (allow l now key).1 then now ∷ [] else [])
          else hits_of l j)
  unfolding allow hits_of
  hits_of-allow l now key j =
      let kept = keep_if (after_cutoff l.window now) (hits_of l key) in
      ground (
        arith,
        lookup-insert key j kept l.hits,
        lookup-insert key j (kept ++ now ∷ []) l.hits,
        append-nil kept,
      )

  allow-decision :
      (l : Limiter) (now : ℤ) (key : Bytes)
      → (allow l now key).1
        ≡ ltb_ℤ (pos (length (keep_if (after_cutoff l.window now) (hits_of l key)))) l.max
  unfolding allow
  allow-decision l now key = ground arith

  allow-config :
      (l : Limiter) (now : ℤ) (key : Bytes)
      → ((allow l now key).0.max ≡ l.max) × ((allow l now key).0.window ≡ l.window)
  unfolding allow
  allow-config l now key = ground arith

  -- the log after a call
  abbrev logged : Bool → List Event → Event → List Event
  logged permitted log e = if permitted then log ++ e ∷ [] else log

  times-logged :
      (permitted : Bool) (log : List Event) (e : Event) (key : Bytes)
      → times key (logged permitted log e) ≡ (
          if e.key == key
          then times key log ++ (if permitted then e.t ∷ [] else [])
          else times key log)
  times-logged permitted log e key =
      ground (arith, times-append key log (e ∷ []), append-nil (times key log))

  filtered :
      (p q : ℤ → Bool) (hs ts tail : List ℤ)
      → ((x : ℤ) → q x ≡ true → p x ≡ true)
      → keep_if q hs ≡ keep_if q ts
      → keep_if q (keep_if p hs ++ tail) ≡ keep_if q (ts ++ tail)
  filtered p q hs ts tail h e =
      cc (
        keep_if-append q (keep_if p hs) tail,
        keep_if-append q ts tail,
        keep_if-keep_if p q hs h,
        e,
      )

  -- The decision, on the log: an event is permitted when fewer than `max` permitted events of its
  -- key are younger than the window.
  Agrees-decision :
      (l : Limiter) (log : List Event) (now t : ℤ) (key : Bytes)
      → Agrees l log now
      → now ≤ℤ t
      → (allow l t key).1 ≡ ltb_ℤ (pos (count_if (after_cutoff window t) (times key log))) max
  Agrees-decision l log now t key a h =
      allow-decision l t key
      ∙ (λ i.
          ltb_ℤ (pos (length (keep_if (after_cutoff (a.same_window i) t) (hits_of l key))))
            (a.same_max i))
      ∙ ap (λ ts. ltb_ℤ (pos (length ts)) max) (a.recent key t h)

  count_if-in_window-le :
      (ts : List ℤ) (t u : ℤ)
      → u ≤ℤ t
      → count_if (in_window window t) ts ≤ count_if (after_cutoff window u) ts
  count_if-in_window-le ts t u h = count_if_mono _ _ ts (λ x k. cutoff_mono u t x h (ground arith))

  bounded_step :
      (ts : List ℤ) (u t : ℤ)
      → count_if (in_window window t) ts ≤ pos_part max
      → ltb_ℤ (pos (count_if (after_cutoff window u) ts)) max ≡ true
      → count_if (in_window window t) (ts ++ u ∷ []) ≤ pos_part max
  bounded_step ts u t h k =
      rw keep_if-append (rw length-append (ground (arith, count_if-in_window-le ts t u)))

  module _ (l : Limiter) (log : List Event) (now : ℤ) (e : Event) (a : Agrees l log now)
      (h : now ≤ℤ e.t) where
    permitted : Bool
    permitted = (allow l e.t e.key).1

    recent_step :
        (key : Bytes) (t : ℤ)
        → e.t ≤ℤ t
        → keep_if (after_cutoff window t) (hits_of (allow l e.t e.key).0 key)
          ≡ keep_if (after_cutoff window t) (times key (logged (allow l e.t e.key).1 log e))
    recent_step key t k = elim (Bool-cases (e.key == key)) [
      | inl same ↦
          let q : e.key ≡ key = (bytes_beq_iff e.key key).0 same in
          rw (hits_of-allow, times-logged, same)
            (filtered (after_cutoff l.window e.t) (after_cutoff window t) (hits_of l e.key)
              (times key log) _ (λ x k'. rw a.same_window (cutoff_mono e.t t x k k'))
              (rw q (a.recent key t (omega arith))))
      | inr other ↦ rw (hits_of-allow, times-logged, other) (a.recent key t (omega arith))
    ]

    bounded_same :
        (t : ℤ) (b : Bool)
        → (allow l e.t e.key).1 ≡ b
        → count_if (in_window window t) (times e.key log ++ (if b then e.t ∷ [] else []))
          ≤ pos_part max
    bounded_same t true p =
        bounded_step (times e.key log) e.t t (a.bounded e.key t)
          (sym (Agrees-decision l log now e.t e.key a h) ∙ p)
    bounded_same t false p = rw append-nil (a.bounded e.key t)

    bounded_at :
        (key : Bytes) (t : ℤ)
        → count_if (in_window window t) (times key (logged (allow l e.t e.key).1 log e))
          ≤ pos_part max
    bounded_at key t = elim (Bool-cases (e.key == key)) [
      | inl same ↦
          let q : e.key ≡ key = (bytes_beq_iff e.key key).0 same in
          rw (times-logged, same) (rw (← q) (bounded_same t (allow l e.t e.key).1 refl))
      | inr other ↦ rw (times-logged, other) (a.bounded key t)
    ]

    Agrees-allow : Agrees (allow l e.t e.key).0 (logged (allow l e.t e.key).1 log e) e.t
    Agrees-allow = record {
      same_max = (allow-config l e.t e.key).0 ∙ a.same_max;
      same_window = (allow-config l e.t e.key).1 ∙ a.same_window;
      recent = recent_step;
      bounded = bounded_at;
    }

  Agrees-allow_all :
      (es : List Event) (l : Limiter) (log : List Event) (now : ℤ)
      → Agrees l log now
      → Chronological now es
      → Agrees (allow_all l log es).0 (allow_all l log es).1 (end_time now es)
  unfolding allow_all
  Agrees-allow_all [] l log now a c = a
  Agrees-allow_all (e ∷ es) l log now a c =
      Agrees-allow_all es (allow l e.t e.key).0 (logged (allow l e.t e.key).1 log e) e.t
        (Agrees-allow l log now e a c.0) c.1

  -- As long as the clock does not run backwards: after any calls on a new limiter, no window of the
  -- configured length, wherever it ends, holds more than `max` permitted events of one key (none if
  -- `max` is negative).
  pub allow_all_bounded :
      (start : ℤ) (es : List Event) (key : Bytes) (t : ℤ)
      → Chronological start es
      → count_if (in_window window t) (times key (allow_all (new max window) [] es).1)
        ≤ pos_part max
  allow_all_bounded start es key t c =
      (Agrees-allow_all es (new max window) [] start (Agrees-new start) c).bounded key t

  -- As long as the clock does not run backwards: after any calls on a new limiter, the next call is
  -- permitted exactly when fewer than `max` permitted events of its key are younger than the window.
  -- So denied calls, calls of other keys and the dropping of old hits do not count.
  pub allow-decision_all :
      (start : ℤ) (es : List Event) (key : Bytes) (t : ℤ)
      → Chronological start es
      → end_time start es ≤ℤ t
      → (allow (allow_all (new max window) [] es).0 t key).1
        ≡ ltb_ℤ
            (pos
              (count_if (after_cutoff window t) (times key (allow_all (new max window) [] es).1)))
            max
  allow-decision_all start es key t c h =
      Agrees-decision _ _ _ t key
        (Agrees-allow_all es (new max window) [] start (Agrees-new start) c) h
