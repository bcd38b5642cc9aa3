-- ===== src/LinkdClient.antt =====
-- dashboard/backend/internal/linkdclient/client.go: the client of every AS's link daemon. The
-- HTTP client, and JSON on the wire, are Go's: they are the functions of a `Wire`. The requests of
-- one call run side by side and each fills its own place, so they are answered one by one here.
pub mod Poll
pub mod PollBgp
pub mod Apply
pub mod Reports
pub mod Ends
pub mod Sides
pub mod Examples
use ietf_scion_testbed.Prelude.{
  ℕ, Bool, true, false, ◌||◌, Option, none, some, List, [], ◌∷◌, ◌++◌, if◌then◌else◌, Bytes, bytes,
  ◌==◌, nat_eq, bytes_eq, itoa, ltb, leb, ℤ, Map, lookup, insert, split_host_port, join_host_port,
  Outcome, done, failed,
}
use ietf_scion_testbed.Topo.{As, Endpoint, Link, Graph}
use ietf_scion_testbed.Derive.State.{Shaping}
use ietf_scion_testbed.Derive.Bgp.{BgpSide, BgpLink}
use ietf_scion_testbed.BgpPath.{Routes}

abbrev default_port : ℕ
default_port = 30480

pub record Result : Type 0 where
  pub as_num : ℕ
  pub is_ok : Bool
  pub error : Bytes

pub record Client : Type 0 where
  pub g : Graph
  pub base : Map ℕ Bytes

abbrev with_port : Bytes → Option (Bytes × Bytes) → Bytes
with_port host none = join_host_port host (itoa default_port)
with_port host (some parts) = host

-- the loop of `New`
unfoldable pub base_urls : Map ℕ Bytes → List As → Map ℕ Bytes
base_urls base [] = base
base_urls base (as_rec ∷ rest) =
    let host = with_port as_rec.mgmt_ip (split_host_port as_rec.mgmt_ip) in
    base_urls (insert as_rec.num (bytes "http://" ++ host) base) rest

unfoldable pub new : Graph → Client
unfolding base_urls
new g = record { g = g; base = base_urls [] g.ases }

pub record LinkEntry (F : Type 0) : Type 0 where
  pub if_id : Bytes
  pub shaping : Option (Shaping F)
  pub is_shaped : Bool
  pub baseline : Option (Shaping F)

pub record BgpSession : Type 0 where
  pub if_id : Bytes
  pub state : Bytes
  pub since_unix : ℤ

pub record BgpRoute : Type 0 where
  pub prefix_as : ℕ
  pub if_id : Bytes

pub record Request : Type 0 where
  pub method : Bytes
  pub url : Bytes
  pub body : Option Bytes

-- the error of a request that cannot be built or is not answered, or the status and the body
pub data Reply : Type 0 where
  unanswered : Bytes → Reply
  answered : ℕ → Bytes → Reply

pub record Wire (F : Type 0) : Type 0 where
  pub send : Request → Reply
  pub encode_shaping : Shaping F → Outcome Bytes Bytes
  pub decode_links : Bytes → Option (List (LinkEntry F))
  pub decode_bgp : Bytes → Option (List BgpSession × List BgpRoute)

-- `asIfKey`
unfoldable pub as_if_key : ℕ → Bytes → Bytes
as_if_key as_num if_id = itoa as_num ++ b'/' ∷ if_id

abbrev pub end_key : Endpoint → Bytes
end_key e = as_if_key e.as_num e.if_id

module _ {F : Type 0} (w : Wire F) where
  open w use {send, encode_shaping, decode_links, decode_bgp}

  -- a GET below the AS's base URL
  abbrev get_request : Bytes → Bytes → Request
  get_request base path = record { method = bytes "GET"; url = base ++ path; body = none }

  -- what the decoder makes of a reply with status 200
  abbrev decoded : {A : Type 0} → (Bytes → Option A) → Reply → Option A
  decoded decode (unanswered e) = none
  decoded decode (answered status body) = if status == 200 then decode body else none

  abbrev fetched : {A : Type 0} → (Bytes → Option A) → Bytes → Option Bytes → Option A
  fetched decode path none = none
  fetched decode path (some base) = decoded decode (send (get_request base path))

  unfoldable pub fetch_links : Client → ℕ → Option (List (LinkEntry F))
  fetch_links c as_num = fetched decode_links (bytes "/api/v1/links") (lookup as_num c.base)

  unfoldable pub fetch_bgp : Client → ℕ → Option (List BgpSession × List BgpRoute)
  fetch_bgp c as_num = fetched decode_bgp (bytes "/api/v1/bgp") (lookup as_num c.base)
