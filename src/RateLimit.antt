-- ===== src/RateLimit.antt =====
-- dashboard/backend/internal/ratelimit/ratelimit.go: the sliding-window limiter. The clock is an
-- argument of `allow`; times and the window are in nanoseconds. The lock makes `Allow` one step.
pub mod Log
pub mod Window
pub mod ClientKey
pub mod Examples
use ietf_scion_testbed.Prelude.{
  Bool, true, false, Option, none, some, List, [], ◌∷◌, ◌++◌, if◌then◌else◌, keep_if, length, Bytes,
  bytes_eq, Map, lookup, insert, ℤ, pos, ◌-ℤ◌, leb_ℤ, ltb_ℤ,
}

pub record Limiter : Type 0 where
  pub max : ℤ
  pub window : ℤ
  pub hits : Map Bytes (List ℤ)

unfoldable pub new : ℤ → ℤ → Limiter
new max window = record { max = max; window = window; hits = [] }

-- `l.hits[key]`: a missing entry is empty
unfoldable pub hits_of : Limiter → Bytes → List ℤ
hits_of l key = elim (lookup key l.hits) [ none ↦ [] | some ts ↦ ts ]

-- `t.After(now.Add(-l.window))`
abbrev pub after_cutoff : ℤ → ℤ → ℤ → Bool
after_cutoff window now t = ltb_ℤ (now -ℤ window) t

unfoldable pub allow : Limiter → ℤ → Bytes → Limiter × Bool
unfolding hits_of
allow l now key =
    let kept = keep_if (after_cutoff l.window now) (hits_of l key) in
    if leb_ℤ l.max (pos (length kept))
    then (record l { hits = insert key kept l.hits }, false)
    else (record l { hits = insert key (kept ++ now ∷ []) l.hits }, true)
