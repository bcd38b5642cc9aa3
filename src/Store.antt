-- ===== src/Store.antt =====
-- dashboard/backend/internal/store/store.go: the time series of scraped samples, a ring for each
-- key. A key is a string; the float64 values come by the interface `Float`. The lock makes every
-- method one step, so a method is a function of the store.
pub mod Ring
pub mod Series
pub mod Examples
use ietf_scion_testbed.Prelude.{
  ℕ, ◌+◌, Bool, true, false, ◌&&◌, Option, none, some, List, [], ◌∷◌, map, ltb, leb, if◌then◌else◌,
  keep_if, Bytes, ◌==◌, bytes_eq, nat_eq, Map, lookup, insert, ℤ, pos, ◌-ℤ◌, leb_ℤ, ltb_ℤ, Float,
  sort_by, bytes_lt, has_prefix,
}

-- `T` is a unix time in milliseconds.
pub record Sample (F : Type 0) : Type 0 where
  pub t : ℤ
  pub v : F

pub record Store (F : Type 0) : Type 0 where
  pub cap : ℤ
  pub entries : Map Bytes (Ring.Ring (Sample F))

module _ (fl : Float) where
  open fl use {F, dec, of_int, add, sub, div, lt, le}

  -- `Sample{}`
  abbrev pub zero_sample : Sample F
  zero_sample = record { t = pos 0; v = dec 0 0 }

  unfoldable pub new : ℤ → Store F
  new capacity = record { cap = if leb_ℤ capacity (pos 0) then pos 1 else capacity; entries = [] }

  -- the ring that `Put` writes to: that of the key, or a new one
  unfoldable pub ring_at : Store F → Option (Ring.Ring (Sample F)) → Ring.Ring (Sample F)
  ring_at s none = Ring.new_ring zero_sample s.cap
  ring_at s (some r) = r

  unfoldable pub put : Store F → Bytes → ℤ → F → Store F
  unfolding ring_at
  put s key t v = record s {
    entries =
        insert key (Ring.put (ring_at s (lookup key s.entries)) (record { t = t; v = v }))
          s.entries;
  }

  -- the result `(sample, ok)` of `Last`
  unfoldable pub last : Store F → Bytes → Option (Sample F)
  last s key = elim (lookup key s.entries) [
    | none ↦ none
    | some r ↦ if r.count == 0 then none else some (Ring.last zero_sample r)
  ]

  unfoldable pub series : Store F → Bytes → ℤ → List (Sample F)
  series s key since_ms = elim (lookup key s.entries) [
    | none ↦ []
    | some r ↦ keep_if (λ sm. leb_ℤ since_ms sm.t) (Ring.last_n zero_sample r r.count)
  ]

  -- the loop of `Rate` over consecutive pairs; `(sum_v, sum_seconds)` is what it accumulates.
  -- Times in milliseconds are far from the ends of int64, so their difference does not wrap.
  unfoldable pub rate_sums : Sample F → List (Sample F) → F × F → F × F
  rate_sums prev [] acc = acc
  rate_sums prev (s ∷ rest) (sum_v, sum_seconds) =
      let dv = sub s.v prev.v in
      let dt_ms = s.t -ℤ prev.t in
      rate_sums s rest (
        if lt (dec 0 0) dv && ltb_ℤ (pos 0) dt_ms
        then (add sum_v dv, add sum_seconds (div (of_int dt_ms) (dec 1000 0)))
        else (sum_v, sum_seconds))

  unfoldable pub rate_of : List (Sample F) → F
  unfolding rate_sums
  rate_of [] = dec 0 0
  rate_of (first ∷ rest) =
      let (sum_v, sum_seconds) = rate_sums first rest (dec 0 0, dec 0 0) in
      let rate = div sum_v sum_seconds in
      if le sum_seconds (dec 0 0) then dec 0 0 else if lt rate (dec 0 0) then dec 0 0 else rate

  unfoldable pub rate : Store F → Bytes → ℕ → F
  unfolding rate_of
  rate s key window = elim (lookup key s.entries) [
    | none ↦ dec 0 0
    | some r ↦
        let n = if ltb r.count window then r.count else window in
        if ltb n 2 then dec 0 0 else rate_of (Ring.last_n zero_sample r n)
  ]

  unfoldable pub keys : Store F → Bytes → List Bytes
  keys s prefix = sort_by bytes_lt (keep_if (λ k. has_prefix k prefix) (map (λ e. e.0) s.entries))
