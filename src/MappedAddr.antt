-- ===== src/MappedAddr.antt =====
-- dashboard/backend/internal/scitramap/scitramap.go: the IPv6 address that a SCION host has in
-- scitra's scheme.
pub mod ReadBack
pub mod Examples
use ietf_scion_testbed.Prelude.{
  ℕ, ◌+◌, ◌*◌, ◌/◌, ◌%◌, ◌^◌, ℤ, pos, ltb_ℤ, leb_ℤ, pos_part, ◌||◌, [], ◌∷◌, if◌then◌else◌, Bytes,
}

-- A netip.Addr: the four bytes of an IPv4 address, or another address.
pub data Host : Type 0 where
  ipv4 : ℕ → ℕ → ℕ → ℕ → Host
  other_host : Host

-- `address` holds the 16 bytes; the others are the errors.
pub data Mapped : Type 0 where
  address : Bytes → Mapped
  isd_range asn_range not_ipv4 : Mapped

-- The two halves of the third byte share no bit, as one is a multiple of 16 and the other less than
-- 16, so that `|` is the sum.
unfoldable pub layout : ℕ → ℕ → ℕ → ℕ → ℕ → ℕ → Bytes
layout isd asn a b c d =
    252
    ∷ (isd / 16 % 256)
    ∷ (isd % 16 * 16 % 256 + asn / 65536 % 256)
    ∷ (asn / 256 % 256)
    ∷ (asn % 256)
    ∷ 0
    ∷ 0
    ∷ 0
    ∷ 0
    ∷ 0
    ∷ 255
    ∷ 255
    ∷ a
    ∷ b
    ∷ c
    ∷ d
    ∷ []

unfoldable pub mapped_host : ℕ → ℕ → Host → Mapped
unfolding layout
mapped_host isd asn (ipv4 a b c d) = address (layout isd asn a b c d)
mapped_host isd asn other_host = not_ipv4

unfoldable pub mapped_ipv6 : ℤ → ℤ → Host → Mapped
unfolding mapped_host
mapped_ipv6 isd asn v4 =
    if ltb_ℤ isd (pos 0) || leb_ℤ (pos (2 ^ 12)) isd
    then isd_range
    else if ltb_ℤ asn (pos 0) || leb_ℤ (pos (2 ^ 19)) asn
    then asn_range
    else mapped_host (pos_part isd) (pos_part asn) v4
