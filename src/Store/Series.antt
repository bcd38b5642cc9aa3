-- ===== src/Store/Series.antt =====
-- The store against its specification: for each key the list of all samples put under it.
use mathlib.Core.Path.{subst}
use ietf_scion_testbed.Prelude.{
  ℕ, zero, suc, ◌-◌, ◌≡◌, refl, sym, ap, ◌∙◌, false, Option, none, some, List, [], ◌∷◌, ◌++◌,
  append_assoc, append-nil, length-append, arith, Bytes, ◌==◌, bytes_eq, nat_eq, bytes_beq_iff,
  lookup, lookup-insert, ℤ, leb_ℤ, Float, if◌then◌else◌, keep_if, Bool-cases, inl, inr, drop,
}
use ietf_scion_testbed.Store.{Sample, Store, zero_sample, new, put, ring_at, last, series}
use ietf_scion_testbed.Store.Ring
use ietf_scion_testbed.Store.Ring.{Ring, clamp_capacity, new_ring}
use ietf_scion_testbed.Store.Ring.Log.{
  Shows, newest, Shows-new_ring, Shows-put, last_n-newest, last-newest, put-cap, new_ring-cap,
}

module _ (fl : Float) where
  open fl use {F}

  -- one call of `Put`: the key, the time and the value
  pub record Event : Type 0 where
    pub key : Bytes
    pub t : ℤ
    pub v : F

  abbrev sample : Event → Sample F
  sample e = record { t = e.t; v = e.v }

  -- a sequence of calls of `Put`
  unfoldable pub put_all : Store F → List Event → Store F
  put_all s [] = s
  put_all s (e ∷ es) = put_all (put fl s e.key e.t e.v) es

  -- all samples put under a key, in the order of the calls
  unfoldable pub samples_of : Bytes → List Event → List (Sample F)
  samples_of key [] = []
  samples_of key (e ∷ es) =
      let rest = samples_of key es in if e.key == key then sample e ∷ rest else rest

  -- What the entry of a key says of the samples put under it.
  data Tracks (c : ℤ) : Option (Ring (Sample F)) → List (Sample F) → Type 0 where
    absent : Tracks c none []
    held_by :
        (r : Ring (Sample F)) (log : List (Sample F)) (s : Sample F)
        → Shows (zero_sample fl) r (log ++ s ∷ [])
        → r.cap ≡ clamp_capacity c
        → Tracks c (some r) (log ++ s ∷ [])

  record Follows (c : ℤ) (s : Store F) (log : Bytes → List (Sample F)) : Type 0 where
    cap : clamp_capacity s.cap ≡ clamp_capacity c
    at : (key : Bytes) → Tracks c (lookup key s.entries) (log key)

  Tracks-put :
      (c : ℤ) (s : Store F) (o : Option (Ring (Sample F))) (log : List (Sample F)) (x : Sample F)
      → clamp_capacity s.cap ≡ clamp_capacity c
      → Tracks c o log
      → Tracks c (some (Ring.put (ring_at fl s o) x)) (log ++ x ∷ [])
  unfolding ring_at
  Tracks-put c s none log x e absent =
      held_by _ [] x (Shows-put (zero_sample fl) _ [] x (Shows-new_ring (zero_sample fl) s.cap))
        (put-cap (zero_sample fl) _ x ∙ new_ring-cap (zero_sample fl) s.cap ∙ e)
  Tracks-put c s (some _) _ x e (held_by r log' y v k) =
      held_by _ (log' ++ y ∷ []) x (Shows-put (zero_sample fl) r _ x v)
        (put-cap (zero_sample fl) r x ∙ k)

  -- the samples of a key, one call later
  abbrev then_put : (Bytes → List (Sample F)) → Event → Bytes → List (Sample F)
  then_put log e key = if e.key == key then log key ++ sample e ∷ [] else log key

  Follows-put :
      (c : ℤ) (s : Store F) (log : Bytes → List (Sample F)) (e : Event)
      → Follows c s log
      → Follows c (put fl s e.key e.t e.v) (then_put log e)
  unfolding put
  Follows-put c s log e h = record {
    cap = h.cap;
    at = λ key. elim (Bool-cases (e.key == key)) [
      | inl same ↦
          let q : e.key ≡ key = (bytes_beq_iff e.key key).0 same in
          rw (lookup-insert, same)
            (Tracks-put c s (lookup e.key s.entries) (log key) (sample e) h.cap (rw q (h.at key)))
      | inr other ↦ rw (lookup-insert, other) (h.at key)
    ];
  }

  regroup :
      (log : Bytes → List (Sample F)) (e : Event) (es : List Event) (key : Bytes)
      → then_put log e key ++ samples_of key es ≡ log key ++ samples_of key (e ∷ es)
  unfolding samples_of
  regroup log e es key = ground (arith, append_assoc (log key) (sample e ∷ []) (samples_of key es))

  Follows-put_all :
      (c : ℤ) (es : List Event) (s : Store F) (log : Bytes → List (Sample F))
      → Follows c s log
      → Follows c (put_all s es) (λ key. log key ++ samples_of key es)
  unfolding put_all samples_of
  Follows-put_all c [] s log h = record { cap = h.cap; at = λ key. rw append-nil (h.at key) }
  Follows-put_all c (e ∷ es) s log h =
      let r =
        Follows-put_all c es (put fl s e.key e.t e.v) (then_put log e) (Follows-put c s log e h) in
      record {
        cap = r.cap;
        at = λ key.
            subst (λ l. Tracks c (lookup key (put_all s (e ∷ es)).entries) l) (regroup log e es key)
              (r.at key);
      }

  Follows-new : (c : ℤ) → Follows c (new fl c) (λ key. [])
  unfolding new lookup clamp_capacity
  Follows-new c = record { cap = ground arith; at = λ key. absent }

  -- After any calls of `Put`, what the store holds for a key.
  tracks :
      (c : ℤ) (es : List Event) (key : Bytes)
      → Tracks c (lookup key (put_all (new fl c) es).entries) (samples_of key es)
  tracks c es key = (Follows-put_all c es (new fl c) (λ _. []) (Follows-new c)).at key

  abbrev pub last? : List (Sample F) → Option (Sample F)
  last? [] = none
  last? (x ∷ []) = some x
  last? (x ∷ y ∷ l) = last? (y ∷ l)

  pub last?-snoc : (l : List (Sample F)) (x : Sample F) → last? (l ++ x ∷ []) ≡ some x
  last?-snoc [] x = refl
  last?-snoc (y ∷ []) x = refl
  last?-snoc (y ∷ z ∷ l) x = last?-snoc (z ∷ l) x

  abbrev sought : Option (Ring (Sample F)) → Option (Sample F)
  sought o = elim o [
    | none ↦ none
    | some r ↦ if r.count == 0 then none else some (Ring.last (zero_sample fl) r)
  ]

  Tracks-last :
      (c : ℤ) (o : Option (Ring (Sample F))) (log : List (Sample F))
      → Tracks c o log
      → sought o ≡ last? log
  Tracks-last c none _ absent = refl
  Tracks-last c (some _) _ (held_by r log x v k) =
      let l = length-append log (x ∷ []) in
      let e : (r.count == 0) ≡ false = ground (arith, v.counted, v.cap_pos) in
      rw (e, last-newest (zero_sample fl) r log x v) (sym (last?-snoc log x))

  -- From a new store of any capacity, after any calls of `Put`, `Last` of a key is the last sample
  -- put under it, and reports none exactly when there was none.
  pub last-put_all :
      (c : ℤ) (es : List Event) (key : Bytes)
      → last fl (put_all (new fl c) es) key ≡ last? (samples_of key es)
  unfolding last
  last-put_all c es key = Tracks-last c _ _ (tracks c es key)

  abbrev listed : ℤ → Option (Ring (Sample F)) → List (Sample F)
  listed since_ms o = elim o [
    | none ↦ []
    | some r ↦ keep_if (λ sm. leb_ℤ since_ms sm.t) (Ring.last_n (zero_sample fl) r r.count)
  ]

  drop-nil : (n : ℕ) → drop {A = Sample F} n [] ≡ []
  drop-nil zero = refl
  drop-nil (suc n) = refl

  Tracks-series :
      (c since_ms : ℤ) (o : Option (Ring (Sample F))) (log : List (Sample F))
      → Tracks c o log
      → listed since_ms o ≡ keep_if (λ sm. leb_ℤ since_ms sm.t) (newest (clamp_capacity c) log)
  Tracks-series c since_ms none _ absent =
      ap (λ l. keep_if (λ sm. leb_ℤ since_ms sm.t) l) (sym (drop-nil (0 - clamp_capacity c)))
  Tracks-series c since_ms (some _) _ (held_by r log x v k) =
      ap (keep_if (λ sm. leb_ℤ since_ms sm.t)) (
        last_n-newest (zero_sample fl) r (log ++ x ∷ []) r.count v
        ∙ ap (λ n. drop n (log ++ x ∷ [])) (ground (arith, v.counted, k)))

  -- From a new store of any capacity, after any calls of `Put`, `Series` returns, in the order of
  -- the calls, those of the newest samples of the key, as many as the capacity, that are not older
  -- than the given time. Other keys have no part in it.
  pub series-put_all :
      (c : ℤ) (es : List Event) (key : Bytes) (since_ms : ℤ)
      → series fl (put_all (new fl c) es) key since_ms
        ≡ keep_if (λ sm. leb_ℤ since_ms sm.t) (newest (clamp_capacity c) (samples_of key es))
  unfolding series
  series-put_all c es key since_ms = Tracks-series c since_ms _ _ (tracks c es key)
