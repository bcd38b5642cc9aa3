-- ===== src/Linkd/Shape.antt =====
-- linkd/internal/shape/shape.go: the parameters of a link and their validation. An absent parameter
-- (a nil pointer) is `none`. The text of an error is not modelled, only which one it is.
pub mod Merging
use ietf_scion_testbed.Prelude.{
  Bool, true, false, not, ◌&&◌, ◌||◌, Option, none, some, if◌then◌else◌, Bytes, Float,
}

pub record Params (F : Type 0) : Type 0 where
  pub delay_ms : Option F
  pub jitter_ms : Option F
  pub loss_pct : Option F
  pub rate_mbit : Option F

pub data Invalid : Type 0 where
  delay_range jitter_range loss_range rate_range jitter_without_delay : Invalid

-- the later value where there is one
abbrev pub or_kept : {A : Type 0} → Option A → Option A → Option A
or_kept cur none = cur
or_kept cur (some v) = some v

unfoldable pub merge : {F : Type 0} → Params F → Params F → Params F
merge cur upd = record {
  delay_ms = or_kept cur.delay_ms upd.delay_ms;
  jitter_ms = or_kept cur.jitter_ms upd.jitter_ms;
  loss_pct = or_kept cur.loss_pct upd.loss_pct;
  rate_mbit = or_kept cur.rate_mbit upd.rate_mbit;
}

abbrev pub is_none : {A : Type 0} → Option A → Bool
is_none none = true
is_none (some v) = false

module _ (fl : Float) where
  open fl use {F, dec, lt, eq}

  abbrev pub is_zero : Option F → Bool
  is_zero none = true
  is_zero (some v) = eq v (dec 0 0)

  -- `Params.Empty`
  unfoldable pub is_empty : Params F → Bool
  is_empty p =
      is_zero p.delay_ms && is_zero p.jitter_ms && is_zero p.loss_pct && is_none p.rate_mbit

  -- `check` of `Validate`: false is an error
  abbrev pub in_range : Option F → F → F → Bool
  in_range none lo hi = true
  in_range (some v) lo hi = not (lt v lo || lt hi v)

  abbrev pub is_positive : Option F → Bool
  is_positive none = false
  is_positive (some v) = lt (dec 0 0) v

  -- `none` is a nil error
  unfoldable pub validate : Params F → Option Invalid
  validate p =
      if not (in_range p.delay_ms (dec 0 0) (dec 2000 0))
      then some Invalid.delay_range
      else if not (in_range p.jitter_ms (dec 0 0) (dec 1000 0))
      then some Invalid.jitter_range
      else if not (in_range p.loss_pct (dec 0 0) (dec 100 0))
      then some Invalid.loss_range
      else if not (in_range p.rate_mbit (dec 1 1) (dec 10000 0))
      then some Invalid.rate_range
      else if is_positive p.jitter_ms && is_zero p.delay_ms
      then some Invalid.jitter_without_delay
      else none

-- What the API needs of `Shaper`, over the state `K` of the kernel. `get` gives `none` on an error;
-- the flag of `apply` and `clear` is whether they return nil.
pub record Shaper (F K : Type 0) : Type 0 where
  pub get : K → Bytes → Option (Params F)
  pub apply : K → Bytes → Params F → K × Bool
  pub clear : K → Bytes → K × Bool
