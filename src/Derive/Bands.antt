-- ===== src/Derive/Bands.antt =====
-- dashboard/backend/internal/derive/derive.go: the colour bands, and how RTT and loss are
-- classified. The source writes a band as a string constant.
use ietf_scion_testbed.Prelude.{
  ℕ, ◌≡◌, ◌↔◌, Bool, true, ◌&&◌, ◌||◌, arith, if◌then◌else◌, leb, nat_beq, Comparable, Float,
}

pub data Band : Type 0 where
  nominal elevated degraded critical down stale : Band

abbrev band_code : Band → ℕ
band_code nominal = 0
band_code elevated = 1
band_code degraded = 2
band_code critical = 3
band_code down = 4
band_code stale = 5

unfoldable pub band_beq : Band → Band → Bool
band_beq a b = nat_beq (band_code a) (band_code b)

pub band_beq_iff : (a b : Band) → (band_beq a b ≡ true) ↔ (a ≡ b)
unfolding band_beq
band_beq_iff a b = ground arith

instance abbrev pub band_eq : Comparable Band
band_eq = record { same = band_beq; same_iff = band_beq_iff }

-- the map `severity`; a lookup of the health overrides, which it does not hold, gives 0
unfoldable pub severity : Band → ℕ
severity nominal = 0
severity elevated = 1
severity degraded = 2
severity critical = 3
severity _ = 0

unfoldable pub worse : Band → Band → Band
unfolding severity
worse a b = if leb (severity b) (severity a) then a else b

module _ (fl : Float) where
  open fl use {F, dec, sub, mul, div, lt, le}

  unfoldable pub rtt_band : F → F → Band
  rtt_band rtt baseline =
      let added = sub rtt baseline in
      let ratio = if lt (dec 0 0) baseline then div rtt baseline else dec 0 0 in
      if le (dec 150 0) added || le (dec 25 0) ratio && le (dec 60 0) added
      then critical
      else if le (dec 40 0) added || le (dec 8 0) ratio && le (dec 15 0) added
      then degraded
      else if le (dec 10 0) added || le (dec 3 0) ratio && le (dec 4 0) added
      then elevated
      else nominal

  unfoldable pub loss_band : F → Band
  loss_band loss_pct =
      if le (dec 5 0) loss_pct
      then critical
      else if le (dec 1 0) loss_pct
      then degraded
      else nominal

  -- `lossMinMbit` is 0.1
  unfoldable pub loss_estimate : F → F → F
  loss_estimate out_mbit in_mbit =
      let l = mul (div (sub out_mbit in_mbit) out_mbit) (dec 100 0) in
      if le out_mbit (dec 1 1) then dec 0 0 else if lt l (dec 0 0) then dec 0 0 else l
