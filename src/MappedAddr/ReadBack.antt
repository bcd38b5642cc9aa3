-- ===== src/MappedAddr/ReadBack.antt =====
-- scitramap.go: reading the parts of a mapped address back.
use ietf_scion_testbed.Prelude.{
  ℕ, ◌+◌, ◌*◌, ◌/◌, ◌%◌, ◌<◌, ◌≡◌, refl, Option, none, some, [], ◌∷◌, length, arith, pos, bytes_eq,
  ◌==◌, if◌then◌else◌, Bytes,
}
use ietf_scion_testbed.MappedAddr.{Host, ipv4, address, layout, mapped_ipv6}

-- The ISD, the AS number and the IPv4 host of an address of the scheme fc(8) | ISD(12) | ASN(20) |
-- local(24) = 0 | 0x0000ffff | v4.
abbrev pub read_back : Bytes → Option (ℕ × ℕ × Host)
read_back (p ∷ b1 ∷ b2 ∷ b3 ∷ b4 ∷ b5 ∷ b6 ∷ b7 ∷ b8 ∷ b9 ∷ b10 ∷ b11 ∷ a ∷ b ∷ c ∷ d ∷ []) =
    if (p ∷ b5 ∷ b6 ∷ b7 ∷ b8 ∷ b9 ∷ b10 ∷ b11 ∷ []) == (252 ∷ 0 ∷ 0 ∷ 0 ∷ 0 ∷ 0 ∷ 255 ∷ 255 ∷ [])
    then some (b1 * 16 + b2 / 16, b2 % 16 * 65536 + b3 * 256 + b4, ipv4 a b c d)
    else none
read_back _ = none

halves :
    (isd asn : ℕ)
    → isd < 4096
    → asn < 524288
    → let b2 = isd % 16 * 16 % 256 + asn / 65536 % 256 in
      (isd / 16 % 256 * 16 + b2 / 16 ≡ isd)
      × (b2 % 16 * 65536 + asn / 256 % 256 * 256 + asn % 256 ≡ asn)
halves isd asn h k = (omega arith, omega arith)

-- Every ISD of 12 bits and AS number of 19 bits maps an IPv4 host to 16 bytes, from which all three
-- are read back. So no two of them share an address.
pub mapped_ipv6-read_back :
    (isd asn a b c d : ℕ)
    → isd < 4096
    → asn < 524288
    → (bs : Bytes) × (mapped_ipv6 (pos isd) (pos asn) (ipv4 a b c d) ≡ address bs)
      × (length bs ≡ 16)
      × (read_back bs ≡ some (isd, asn, ipv4 a b c d))
unfolding mapped_ipv6
mapped_ipv6-read_back isd asn a b c d h k =
    let (isd_back, asn_back) = halves isd asn h k in
    (layout isd asn a b c d, ground (arith, h, k), refl, cc (isd_back, asn_back))
