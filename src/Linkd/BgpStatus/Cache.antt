-- ===== src/Linkd/BgpStatus/Cache.antt =====
-- How old a snapshot can be, and how often birdc is asked.
use ietf_scion_testbed.Prelude.{
  ◌≡◌, refl, sym, ap, ◌∙◌, Bool, true, false, Option, none, some, List, [], ◌∷◌, arith, inl, inr,
  Bool-cases, ℤ, ◌-ℤ◌, ◌+ℤ◌, ◌≤ℤ◌, ltb_ℤ, if◌then◌else◌, Bytes,
}
use ietf_scion_testbed.Linkd.BgpStatus.{
  Collector, Snapshot, Outputs, parsed, is_fresh, stored, snapshot,
}

-- A call: when it is made, when birdc has answered, and with what.
pub record Call : Type 0 where
  pub now : ℤ
  pub done : ℤ
  pub outputs : Outputs

-- The clock does not run backwards.
abbrev pub Chronological : ℤ → List Call → Type 0
Chronological t [] = Unit
Chronological t (c ∷ cs) = (t ≤ℤ c.now) × (c.now ≤ℤ c.done) × Chronological c.done cs

abbrev pub Later : ℤ → ℤ → ℤ → Type 0
Later ttl t t' = (t +ℤ ttl) ≤ℤ t'

-- Times, newest first, of which each is at least `ttl` behind the one before.
abbrev pub Spaced : ℤ → List ℤ → Type 0
Spaced ttl [] = Unit
Spaced ttl (t' ∷ []) = Unit
Spaced ttl (t' ∷ t ∷ ts) = Later ttl t t' × Spaced ttl (t ∷ ts)

abbrev pub head : List ℤ → Option ℤ
head [] = none
head (t ∷ ts) = some t

module _ (parse_time : Bytes → Option ℤ) where
  -- whether the call has filled the cache
  abbrev pub refreshes : Collector → Call → Bool
  refreshes c k =
      if is_fresh parse_time c.ttl c.fetched_at k.now
      then false
      else (elim (parsed parse_time c.if_id_by_dev k.outputs) [ none ↦ false | some s ↦ true ])

  -- the collector after calls, and the times at which it has filled its cache, newest first
  unfoldable pub collect : Collector → List ℤ → List Call → Collector × List ℤ
  collect c log [] = (c, log)
  collect c log (k ∷ ks) =
      collect (snapshot parse_time c k.now k.done k.outputs).0
        (if refreshes c k then k.done ∷ log else log) ks

  record Timed (ttl : ℤ) (c : Collector) (log : List ℤ) : Type 0 where
    ttl_kept : c.ttl ≡ ttl
    newest : c.fetched_at ≡ head log
    spaced : Spaced ttl log

  stale-Later : (ttl t now done : ℤ) → ltb_ℤ (now -ℤ t) ttl ≡ false → now ≤ℤ done → Later ttl t done
  stale-Later ttl t now done h k = ground (arith, h, k)

  Spaced-fill :
      (ttl now done : ℤ) (log : List ℤ)
      → is_fresh parse_time ttl (head log) now ≡ false
      → now ≤ℤ done
      → Spaced ttl log
      → Spaced ttl (done ∷ log)
  Spaced-fill ttl now done [] h k s = tt
  Spaced-fill ttl now done (t ∷ ts) h k s = (stale-Later ttl t now done h k, s)

  Timed-stored :
      (ttl : ℤ) (c : Collector) (log : List ℤ) (k : Call) (o : Option Snapshot)
      → Timed ttl c log
      → is_fresh parse_time c.ttl c.fetched_at k.now ≡ false
      → k.now ≤ℤ k.done
      → Timed ttl
          (stored parse_time c k.done o).0
          (if (elim o [ none ↦ false | some s ↦ true ]) then k.done ∷ log else log)
  unfolding stored
  Timed-stored ttl c log k none t h le = t
  Timed-stored ttl c log k (some s) t h le = record {
    ttl_kept = t.ttl_kept;
    newest = refl;
    spaced =
        Spaced-fill ttl k.now k.done log
          (ap (λ o. is_fresh parse_time ttl o k.now) (sym t.newest)
            ∙ ap (λ l. is_fresh parse_time l c.fetched_at k.now) (sym t.ttl_kept)
            ∙ h)
          le t.spaced;
  }

  Timed-snapshot :
      (ttl : ℤ) (c : Collector) (log : List ℤ) (k : Call)
      → Timed ttl c log
      → k.now ≤ℤ k.done
      → Timed ttl
          (snapshot parse_time c k.now k.done k.outputs).0
          (if refreshes c k then k.done ∷ log else log)
  unfolding snapshot
  Timed-snapshot ttl c log k t le =
      elim (Bool-cases (is_fresh parse_time c.ttl c.fetched_at k.now)) [
        | inl fresh ↦ rw fresh t
        | inr stale ↦
            rw stale
              (Timed-stored ttl c log k (parsed parse_time c.if_id_by_dev k.outputs) t stale le)
      ]

  collect-Timed :
      (ttl : ℤ) (c : Collector) (log : List ℤ) (start : ℤ) (ks : List Call)
      → Timed ttl c log
      → Chronological start ks
      → Timed ttl (collect c log ks).0 (collect c log ks).1
  unfolding collect
  collect-Timed ttl c log start [] t h = t
  collect-Timed ttl c log start (k ∷ ks) t (_, le, h) =
      collect-Timed ttl (snapshot parse_time c k.now k.done k.outputs).0
        (if refreshes c k then k.done ∷ log else log) k.done ks (Timed-snapshot ttl c log k t le) h

  -- As long as the clock does not run backwards: from a collector that has fetched nothing, over any
  -- calls of `Snapshot`, whatever birdc prints or fails to, each time the cache is filled is at least
  -- the configured time behind the last, and the collector has noted the newest of them.
  pub collect-Spaced :
      (c : Collector) (start : ℤ) (ks : List Call)
      → c.fetched_at ≡ none
      → Chronological start ks
      → Spaced c.ttl (collect c [] ks).1
        × ((collect c [] ks).0.fetched_at ≡ head (collect c [] ks).1)
  collect-Spaced c start ks e h =
      let t =
        collect-Timed c.ttl c [] start ks (record { ttl_kept = refl; newest = e; spaced = tt }) h in
      (t.spaced, t.newest)
