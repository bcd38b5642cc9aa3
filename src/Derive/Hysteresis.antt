-- ===== src/Derive/Hysteresis.antt =====
-- derive.go: `linkState` and the hysteresis of `commit`, and its meaning over a history of frames.
use ietf_scion_testbed.Prelude.{
  ℕ, ◌+◌, ◌≡◌, ◌≢◌, refl, Bool, false, ◌&&◌, Option, none, some, List, [], ◌∷◌, arith,
  if◌then◌else◌, leb, ◌==◌, ◌⊎◌,
}
use ietf_scion_testbed.Derive.Bands.{Band, nominal, band_eq, band_beq_iff}

-- `pend_band` is `none` for the empty string.
pub record LinkState : Type 0 where
  pub band : Band
  pub pend_band : Option Band
  pub pend_n : ℕ

abbrev pub fresh : LinkState
fresh = record { band = nominal; pend_band = none; pend_n = 0 }

abbrev pub hysteresis : ℕ
hysteresis = 3

abbrev pub is_pending : Option Band → Band → Bool
is_pending none raw = false
is_pending (some b) raw = b == raw

-- the `switch` of `commit`
unfoldable pub count_raw : LinkState → Band → LinkState
count_raw ls raw =
    if raw == ls.band
    then record ls { pend_n = 0; pend_band = none }
    else if is_pending ls.pend_band raw
    then record ls { pend_n = ls.pend_n + 1 }
    else record ls { pend_n = 1; pend_band = some raw }

-- `commit` on the state of one link; the band it returns is that of the new state
unfoldable pub commit_raw : LinkState → Band → LinkState
unfolding count_raw
commit_raw ls raw =
    let ls' = count_raw ls raw in
    if leb hysteresis ls'.pend_n then record ls' { band = raw } else ls'

-- A history of raw bands, newest first.
unfoldable pub after_frames : List Band → LinkState
after_frames [] = fresh
after_frames (raw ∷ older) = commit_raw (after_frames older) raw

-- The specification: the band of the newest three consecutive frames that agree; nominal before
-- any three have agreed.
abbrev pub settle : Band → List Band → Band → Band
settle x (y ∷ z ∷ l) b = if x == y && y == z then x else b
settle x _ b = b

abbrev pub settled : List Band → Band
settled [] = nominal
settled (x ∷ older) = settle x older (settled older)

-- how many of the newest frames agree, up to two
abbrev run : Band → List Band → ℕ
run x [] = 1
run x (y ∷ l) = if x == y then 2 else 1

-- What the state knows of the newest frame: it shows the committed band and nothing else is being
-- counted, or it is being counted towards a change.
abbrev Counting : LinkState → List Band → Type 0
Counting ls [] = ls.pend_band ≡ none
Counting ls (x ∷ l) =
    ((x ≡ ls.band) × ((ls.pend_band ≡ none) ⊎ (ls.pend_band ≡ some x)))
    ⊎ ((x ≢ ls.band) × (ls.pend_band ≡ some x) × (ls.pend_n ≡ run x l))

record Follows (ls : LinkState) (history : List Band) : Type 0 where
  band : ls.band ≡ settled history
  counting : Counting ls history

commit_raw-Follows :
    (ls : LinkState) (x : Band) (l : List Band) → Follows ls l → Follows (commit_raw ls x) (x ∷ l)
unfolding commit_raw
commit_raw-Follows ls x [] h =
    ground (arith, h.band, h.counting, band_beq_iff x ls.band, band_beq_iff x nominal)
commit_raw-Follows ls x (y ∷ []) h =
    ground (arith, h.band, h.counting, band_beq_iff x ls.band, band_beq_iff y x, band_beq_iff x y)
commit_raw-Follows ls x (y ∷ z ∷ l) h = ground (
  arith,
  h.band,
  h.counting,
  band_beq_iff x ls.band,
  band_beq_iff y x,
  band_beq_iff x y,
  band_beq_iff y z,
)

after_frames-Follows : (history : List Band) → Follows (after_frames history) history
unfolding after_frames
after_frames-Follows [] = record { band = refl; counting = refl }
after_frames-Follows (x ∷ l) = commit_raw-Follows (after_frames l) x l (after_frames-Follows l)

-- After any frames, whatever their raw bands, the committed band of a link is the band of the newest
-- three consecutive frames that agree, and nominal if no three have agreed yet.
pub after_frames-settled : (history : List Band) → (after_frames history).band ≡ settled history
after_frames-settled history = (after_frames-Follows history).band
