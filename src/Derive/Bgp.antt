-- ===== src/Derive/Bgp.antt =====
-- derive.go: the BGP badge of a link.
use ietf_scion_testbed.Prelude.{
  Bool, ◌&&◌, ◌||◌, not, Option, none, some, if◌then◌else◌, Bytes, bytes, ◌==◌, bytes_eq, ℤ, pos,
  ◌-ℤ◌, ltb_ℤ,
}

pub record BgpSide : Type 0 where
  pub state : Bytes
  pub since_unix : ℤ

-- A side is `none` if that AS reported nothing.
pub record BgpLink : Type 0 where
  pub a : Option BgpSide
  pub b : Option BgpSide

pub data Badge : Type 0 where
  up degraded down unknown : Badge

abbrev pub bgp_flap_window_sec : ℤ
bgp_flap_window_sec = pos 60

abbrev pub established : BgpSide → Bool
established s = s.state == bytes "Established"

-- the session came up less than a minute ago
abbrev pub flapped : BgpSide → ℤ → Bool
flapped s now_unix =
    ltb_ℤ (pos 0) s.since_unix && ltb_ℤ (now_unix -ℤ s.since_unix) bgp_flap_window_sec

unfoldable pub badge_of_sides : Option BgpSide → Option BgpSide → ℤ → Badge
badge_of_sides none b now_unix = unknown
badge_of_sides (some a) none now_unix = unknown
badge_of_sides (some a) (some b) now_unix =
    if not (established a) || not (established b)
    then down
    else if flapped a now_unix || flapped b now_unix
    then degraded
    else up

unfoldable pub bgp_badge : Option BgpLink → ℤ → Badge
unfolding badge_of_sides
bgp_badge none now_unix = unknown
bgp_badge (some l) now_unix = badge_of_sides l.a l.b now_unix
