-- ===== src/RateLimit/ClientKey.antt =====
-- ratelimit.go: `ClientKey`, the key that a remote address counts under. net.ParseIP and the
-- printing of an address are Go's.
use mathlib.Core.List.{append_cancel_right}
use ietf_scion_testbed.Prelude.{
  ◌≡◌, refl, ap, ◌↔◌, ◌⊎◌, inl, inr, arith, Option, none, some, ◌++◌, take, replicate, length,
  length-append, length-take, Bytes, split_host_port,
}

-- A net.IP by what `To4` says of it: the four bytes, or all sixteen.
pub data Ip : Type 0 where
  v4 : Bytes → Ip
  v6 : Bytes → Ip

pub record Addresses : Type 0 where
  pub parse_ip : Bytes → Option Ip
  pub show_ip : Bytes → Bytes

-- `ip.Mask(net.CIDRMask(64, 128))`
abbrev pub masked : Bytes → Bytes
masked ip = take 8 ip ++ replicate 8 0

-- sixteen bytes of which the last eight are zero
abbrev pub IsMasked : Bytes → Type 0
IsMasked x = (ip : Bytes) × (length ip ≡ 16) × (x ≡ masked ip)

pub length-masked : (x : Bytes) → length x ≡ 16 → length (masked x) ≡ 16
length-masked x h =
    rw (length-append (take 8 x) (replicate 8 0)) (ground (arith, length-take 8 x (omega arith)))

abbrev pub host_or : Bytes → Option (Bytes × Bytes) → Bytes
host_or addr none = addr
host_or addr (some (host, port)) = host

module _ (net : Addresses) where
  open net use {parse_ip, show_ip}

  abbrev key_of : Bytes → Option Ip → Bytes
  key_of host none = host
  key_of host (some (v4 ip)) = show_ip ip
  key_of host (some (v6 ip)) = show_ip (masked ip)

  unfoldable pub client_key : Bytes → Bytes
  client_key remote_addr =
      let host = host_or remote_addr (split_host_port remote_addr) in key_of host (parse_ip host)

  -- Two addresses share a key: the same IPv4 address, or IPv6 addresses in one /64.
  abbrev pub SameBucket : Ip → Ip → Type 0
  SameBucket (v4 x) (v4 y) = x ≡ y
  SameBucket (v6 x) (v6 y) = take 8 x ≡ take 8 y
  SameBucket (v4 x) (v6 y) = ⊥
  SameBucket (v6 x) (v4 y) = ⊥

  abbrev pub IsSized : Ip → Type 0
  IsSized (v4 x) = length x ≡ 4
  IsSized (v6 x) = length x ≡ 16

  -- what is printed: four bytes, or sixteen that are masked
  abbrev pub Printed : Type 0
  Printed =
      (x y : Bytes)
      → (length x ≡ 4) ⊎ IsMasked x
      → (length y ≡ 4) ⊎ IsMasked y
      → show_ip x ≡ show_ip y
      → x ≡ y

  -- a remote address holds an address
  abbrev pub Holds : Bytes → Ip → Type 0
  Holds remote_addr ip = parse_ip (host_or remote_addr (split_host_port remote_addr)) ≡ some ip

  key_of-SameBucket :
      (host host' : Bytes) (x y : Ip)
      → Printed
      → IsSized x
      → IsSized y
      → (key_of host (some x) ≡ key_of host' (some y)) ↔ SameBucket x y
  key_of-SameBucket host host' (v4 x) (v4 y) p h k = (p x y (inl h) (inl k), ap show_ip)
  key_of-SameBucket host host' (v6 x) (v6 y) p h k = (
    λ e.
        append_cancel_right (take 8 x) (take 8 y) (replicate 8 0)
          (p (masked x) (masked y) (inr (x, h, refl)) (inr (y, k, refl)) e),
    λ e. ap (λ t. show_ip (t ++ replicate 8 0)) e,
  )
  key_of-SameBucket host host' (v4 x) (v6 y) p h k = (
    λ e. ground (arith, ap length (p x (masked y) (inl h) (inr (y, k, refl)) e), length-masked y k),
    λ e. elim e [ ],
  )
  key_of-SameBucket host host' (v6 x) (v4 y) p h k = (
    λ e. ground (arith, ap length (p (masked x) y (inr (x, h, refl)) (inl k) e), length-masked x h),
    λ e. elim e [ ],
  )

  -- If addresses that differ are printed differently, as far as they are of four bytes, or of sixteen
  -- with the last eight zero: remote addresses that hold an address share a key exactly if it is the
  -- same IPv4 address, or IPv6 addresses of one /64.
  pub client_key-SameBucket :
      (a b : Bytes) (x y : Ip)
      → Printed
      → Holds a x
      → Holds b y
      → IsSized x
      → IsSized y
      → (client_key a ≡ client_key b) ↔ SameBucket x y
  unfolding client_key
  client_key-SameBucket a b x y p h k sx sy =
      rw (h, k)
        (key_of-SameBucket (host_or a (split_host_port a)) (host_or b (split_host_port b)) x y p sx
          sy)
