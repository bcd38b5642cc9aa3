-- ===== src/Derive/Severity.antt =====
-- derive.go: the bands of the RTT as grades, each with its thresholds, against the order of the RTTs.
use ietf_scion_testbed.Prelude.{
  ℕ, ◌<◌, ◌≤◌, ◌≡◌, ◌↔◌, ◌⊎◌, Bool, true, ◌&&◌, ◌||◌, if◌then◌else◌, leb, Float,
}
use ietf_scion_testbed.Derive.Bands.{Band, severity}

-- between the infinities, and not NaN
abbrev pub IsFinite : (fl : Float) → fl.F → Type 0
IsFinite fl x = (fl.lt (fl.sub (fl.dec 0 0) fl.inf) x ≡ true) × (fl.lt x fl.inf ≡ true)

-- What the classification relies on in float64 arithmetic.
pub record IsMonotone (fl : Float) : Type 0 where
  pub le_trans : (x y z : fl.F) → fl.le x y ≡ true → fl.le y z ≡ true → fl.le x z ≡ true
  pub dec_le : (m n : ℕ) → m < 1000 → n < 1000 → fl.le (fl.dec m 0) (fl.dec n 0) ≡ leb m n
  pub sub_mono :
      (x y b : fl.F)
      → IsFinite fl x
      → IsFinite fl y
      → IsFinite fl b
      → fl.le x y ≡ true
      → fl.le (fl.sub x b) (fl.sub y b) ≡ true
  pub div_mono :
      (x y b : fl.F)
      → IsFinite fl x
      → IsFinite fl y
      → IsFinite fl b
      → fl.lt (fl.dec 0 0) b ≡ true
      → fl.le x y ≡ true
      → fl.le (fl.div x b) (fl.div y b) ≡ true

module _ (fl : Float) (m : IsMonotone fl) where
  open fl use {F, dec, sub, div, lt, le}

  -- The RTT is `far` above its baseline, or `near` above it and `times` as high; the latter only of a
  -- baseline that is positive.
  abbrev pub Reaches : ℕ → ℕ → ℕ → F → F → Type 0
  Reaches far times near rtt baseline =
      (le (dec far 0) (sub rtt baseline) ≡ true)
      ⊎ ((lt (dec 0 0) baseline ≡ true)
          × (le (dec times 0) (div rtt baseline) ≡ true)
          × (le (dec near 0) (sub rtt baseline) ≡ true))

  -- A band is of a grade or above it exactly if the RTT reaches the grade's thresholds, in
  -- milliseconds.
  pub record IsGraded (rtt baseline : F) (band : Band) : Type 0 where
    pub elevated : (1 ≤ severity band) ↔ Reaches 10 3 4 rtt baseline
    pub degraded : (2 ≤ severity band) ↔ Reaches 40 8 15 rtt baseline
    pub critical : (3 ≤ severity band) ↔ Reaches 150 25 60 rtt baseline

  -- the test of a grade in the code, over the time added and the ratio
  abbrev reaches : ℕ → ℕ → ℕ → F → F → Bool
  reaches far times near added ratio =
      le (dec far 0) added || le (dec times 0) ratio && le (dec near 0) added

  ratio_of : F → F → F
  ratio_of rtt baseline = if lt (dec 0 0) baseline then div rtt baseline else dec 0 0

  abbrev band_by : Bool → Bool → Bool → Band
  band_by c d e =
      if c
      then Band.critical
      else if d
      then Band.degraded
      else if e
      then Band.elevated
      else Band.nominal
