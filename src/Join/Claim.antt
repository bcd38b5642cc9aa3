-- ===== src/Join/Claim.antt =====
-- join.go: `handleJoinClaim`. The desk is what the handler changes: the pool, its state file and the
-- limiter. The two clocks, and whether the accesses to the state file succeed, come with the call.
use ietf_scion_testbed.Prelude.{
  Bool, true, false, not, ◌&&◌, Option, none, some, List, [], ◌∷◌, ◌++◌, if◌then◌else◌, Bytes, ◌==◌,
  bytes_eq, itoa_ℤ, ℤ, pos, eq_ℤ, Map, insert, Outcome, done, failed, ◌>>=◌, or_fail, ℕ,
}
use ietf_scion_testbed.MappedAddr.{
  Host, Mapped, address, isd_range, asn_range, not_ipv4, mapped_ipv6,
}
use ietf_scion_testbed.RateLimit.{Limiter, allow}
use ietf_scion_testbed.RateLimit.ClientKey.{client_key}
use ietf_scion_testbed.WgPool.{
  Slot, Store, Disk, ClaimResult, slot, exhausted, persist_error, claim,
}
use ietf_scion_testbed.Join.{
  JoinConfig, Env, as_allowed, render_conf, endpoint_v6_str, endpoint_v4_str, primary_endpoint_str,
}

pub record Desk : Type 0 where
  pub pool : Option Store
  pub disk : Disk
  pub limiter : Limiter

-- the fields of the decoded body that are missing are zero
pub record ClaimBody : Type 0 where
  pub as_num : ℤ
  pub code : Bytes

pub record Call : Type 0 where
  pub remote_addr : Bytes
  pub body : Option ClaimBody
  pub now_ns : ℤ
  pub now_unix : ℤ
  pub write_ok : Bool
  pub rename_ok : Bool

pub record Reply : Type 0 where
  pub slot : ℕ
  pub ip : Bytes
  pub as_num : ℤ
  pub isd_as : Bytes
  pub fc00_identity : Bytes
  pub fc00_identities : Map Bytes Bytes
  pub conf : Bytes
  pub endpoint_v6 : Bytes
  pub conf_v4 : Option Bytes
  pub endpoint_v4 : Option Bytes

-- The status codes are 404, 503, 429, 400, 403, 409, 500 and 500.
pub data Refusal : Type 0 where
  not_found : Refusal
  no_pool : Refusal
  rate_limited : Refusal
  bad_request : Refusal
  bad_code : Refusal
  none_left : Refusal
  pool_error : Refusal
  no_identity : Refusal

-- the AS that a claim without one stands for
abbrev pub default_as : List ℤ → ℤ → ℤ
default_as [] as_num = as_num
default_as (first ∷ rest) as_num = if eq_ℤ as_num (pos 0) then first else as_num

-- the AS of a claim whose body, code and AS are accepted
unfoldable pub admitted : JoinConfig → Option ClaimBody → Outcome Refusal ℤ
admitted jc none = failed bad_request
admitted jc (some body) =
    if not (body.code == jc.booth_code)
    then failed bad_code
    else if as_allowed jc (default_as jc.joinable_ases body.as_num)
    then done (default_as jc.joinable_ases body.as_num)
    else failed not_found

abbrev pub shown_identity : Env → Mapped → Outcome Refusal Bytes
shown_identity env (address a) = done (env.show_addr a)
shown_identity env isd_range = failed no_identity
shown_identity env asn_range = failed no_identity
shown_identity env not_ipv4 = failed no_identity

unfoldable pub identity : Env → JoinConfig → ℤ → Host → Outcome Refusal Bytes
identity env jc as_num ip = shown_identity env (mapped_ipv6 jc.isd as_num ip)

-- the loop over the joinable ASes
unfoldable pub identities :
    Env → JoinConfig → Host → Map Bytes Bytes → List ℤ → Outcome Refusal (Map Bytes Bytes)
unfolding identity
identities env jc ip ids [] = done ids
identities env jc ip ids (as_num ∷ rest) = do
  id ← identity env jc as_num ip
  identities env jc ip (insert (itoa_ℤ as_num) id ids) rest

-- the explicit v4 endpoint, where it is an alternative
unfoldable pub offered_v4 : JoinConfig → Option Bytes
unfolding endpoint_v4_str
offered_v4 jc =
    let v4 = endpoint_v4_str jc in
    if not (v4 == []) && not (jc.endpoint_v6 == []) then some v4 else none

abbrev conf_for : Slot → Bytes → Option Bytes → Option Bytes
conf_for sl server_pub none = none
conf_for sl server_pub (some v4) = some (render_conf sl server_pub v4)

unfoldable pub reply_for : JoinConfig → Bytes → ℤ → Slot → Bytes → Map Bytes Bytes → Reply
unfolding offered_v4
reply_for jc server_pub as_num sl fc ids = record {
  slot = sl.n;
  ip = sl.ip;
  as_num = as_num;
  isd_as = itoa_ℤ jc.isd ++ b'-' ∷ itoa_ℤ as_num;
  fc00_identity = fc;
  fc00_identities = ids;
  conf = render_conf sl server_pub (primary_endpoint_str jc);
  endpoint_v6 = endpoint_v6_str jc;
  conf_v4 = conf_for sl server_pub (offered_v4 jc);
  endpoint_v4 = offered_v4 jc;
}

-- what follows the claim of a slot
unfoldable pub answer : Env → JoinConfig → Bytes → ℤ → ClaimResult → Outcome Refusal Reply
unfolding identity identities reply_for
answer env jc server_pub as_num exhausted = failed none_left
answer env jc server_pub as_num persist_error = failed pool_error
answer env jc server_pub as_num (slot sl) = do
  ip ← or_fail pool_error (env.parse_addr sl.ip)
  fc ← identity env jc as_num ip
  ids ← identities env jc ip [] jc.joinable_ases
  done (reply_for jc server_pub as_num sl fc ids)

abbrev pub after_claim :
    Env → JoinConfig → ℤ → Desk → Store × Disk × ClaimResult → Desk × Outcome Refusal Reply
after_claim env jc as_num d (pool, disk, r) =
    (record d { pool = some pool; disk = disk }, answer env jc pool.pool.server_public_key as_num r)

-- the handler from the decoded body on
abbrev pub claim_as :
    Env → JoinConfig → Desk → Call → Store → Outcome Refusal ℤ → Desk × Outcome Refusal Reply
claim_as env jc d call pool (failed e) = (d, failed e)
claim_as env jc d call pool (done as_num) =
    after_claim env jc as_num d
      (claim env.json pool d.disk as_num call.now_unix call.write_ok call.rename_ok)

abbrev pub at_limiter :
    Env → JoinConfig → Desk → Call → Store → Limiter × Bool → Desk × Outcome Refusal Reply
at_limiter env jc d call pool (limiter, false) =
    (record d { limiter = limiter }, failed rate_limited)
at_limiter env jc d call pool (limiter, true) =
    claim_as env jc (record d { limiter = limiter }) call pool (admitted jc call.body)

abbrev pub at_pool : Env → JoinConfig → Desk → Call → Option Store → Desk × Outcome Refusal Reply
at_pool env jc d call none = (d, failed no_pool)
at_pool env jc d call (some pool) =
    at_limiter env jc d call pool
      (allow d.limiter call.now_ns (client_key env.net call.remote_addr))

unfoldable pub handle_join_claim : Env → JoinConfig → Desk → Call → Desk × Outcome Refusal Reply
unfolding admitted answer
handle_join_claim env jc d call =
    if jc.enabled then at_pool env jc d call d.pool else (d, failed not_found)
