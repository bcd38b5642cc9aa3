-- ===== src/Join.antt =====
-- dashboard/backend/internal/api/join.go and the join configuration of api.go: the claim of a
-- WireGuard profile, and what the join page is told. The router and JSON on the wire are Go's: a
-- handler takes the decoded body. Printing an address and parsing one (net/netip), and the template
-- of the bootstrap URLs (fmt), are functions of an `Env`.
pub mod Claim
pub mod Meta
pub mod Slots
pub mod Guards
pub mod Examples
use ietf_scion_testbed.Prelude.{
  ℕ, Bool, true, false, not, Option, none, some, List, [], ◌∷◌, ◌++◌, if◌then◌else◌, Bytes, bytes,
  ◌==◌, bytes_eq, itoa, itoa_ℤ, ℤ, pos, eq_ℤ, Map, Codec,
}
use ietf_scion_testbed.MappedAddr.{Host}
use ietf_scion_testbed.RateLimit.ClientKey.{Addresses}
use ietf_scion_testbed.WgPool.{Slot, StateFile}

pub record JoinConfig : Type 0 where
  pub enabled : Bool
  pub booth_code : Bytes
  pub isd : ℤ
  pub joinable_ases : List ℤ
  pub endpoint_v6 : Bytes
  pub endpoint_v4 : Bytes
  pub listen_port : ℤ
  pub hub_probe_addr : Bytes
  pub play_targets : Map ℤ Bytes
  pub rate_max : ℤ
  pub rate_window : ℤ
  pub bootstrap_url_template : Bytes
  pub hev3_ca_file : Bytes

pub record Env : Type 0 where
  pub net : Addresses
  pub parse_addr : Bytes → Option Host
  pub show_addr : Bytes → Bytes
  pub sprintf_int : Bytes → ℤ → Bytes
  pub read_file : Bytes → Option Bytes
  pub json : Codec StateFile

-- the loop of `asAllowed`
unfoldable pub is_among : List ℤ → ℤ → Bool
is_among [] n = false
is_among (a ∷ rest) n = if eq_ℤ a n then true else is_among rest n

unfoldable pub as_allowed : JoinConfig → ℤ → Bool
unfolding is_among
as_allowed jc n = is_among jc.joinable_ases n

unfoldable pub bootstrap_url : Env → JoinConfig → ℤ → Bytes
bootstrap_url env jc n =
    if jc.bootstrap_url_template == [] then [] else env.sprintf_int jc.bootstrap_url_template n

abbrev pub fabric_allowed_ips : Bytes
fabric_allowed_ips =
    bytes "10.150.0.0/16, 10.151.0.0/16, 10.152.0.0/16, "
    ++ (bytes "10.153.0.0/16, 10.154.0.0/16, 10.155.0.0/16, 10.156.0.0/16, "
        ++ (bytes "10.157.0.0/16, 10.158.0.0/16, 10.159.0.0/16, 10.160.0.0/16, "
            ++ bytes "10.161.0.0/16, fd00:beef::/32"))

unfoldable pub slot_v6 : Slot → Bytes
slot_v6 sl = bytes "fd00:beef:5::" ++ itoa sl.n

unfoldable pub render_conf : Slot → Bytes → Bytes → Bytes
unfolding slot_v6
render_conf sl server_pub endpoint =
    bytes "[Interface]\nPrivateKey = "
    ++ (sl.private_key
        ++ (bytes "\nAddress = "
            ++ (sl.ip
                ++ (bytes "/32, "
                    ++ (slot_v6 sl
                        ++ (bytes "/128\nDNS = 10.20.3.216\nMTU = 1380\n\n[Peer]\nPublicKey = "
                            ++ (server_pub
                                ++ (bytes "\nAllowedIPs = 10.20.3.0/24, 10.20.5.0/24, "
                                    ++ (fabric_allowed_ips
                                        ++ (bytes "\nEndpoint = "
                                            ++ (endpoint
                                                ++ bytes "\nPersistentKeepalive = 25\n")))))))))))

unfoldable pub endpoint_v6_str : JoinConfig → Bytes
endpoint_v6_str jc =
    if jc.endpoint_v6 == []
    then []
    else b'[' ∷ (jc.endpoint_v6 ++ (bytes "]:" ++ itoa_ℤ jc.listen_port))

unfoldable pub endpoint_v4_str : JoinConfig → Bytes
endpoint_v4_str jc =
    if jc.endpoint_v4 == [] then [] else jc.endpoint_v4 ++ b':' ∷ itoa_ℤ jc.listen_port

unfoldable pub primary_endpoint_str : JoinConfig → Bytes
unfolding endpoint_v6_str endpoint_v4_str
primary_endpoint_str jc = let v6 = endpoint_v6_str jc in if v6 == [] then endpoint_v4_str jc else v6

unfoldable pub ca_pem : Env → JoinConfig → Option Bytes
ca_pem env jc = if jc.hev3_ca_file == [] then none else env.read_file jc.hev3_ca_file
