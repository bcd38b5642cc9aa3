-- ===== src/Join/Meta.antt =====
-- join.go: `handleJoinMeta` and `handleJoinCA`.
use ietf_scion_testbed.Prelude.{
  ℕ, Bool, not, ◌&&◌, Option, none, some, List, [], ◌∷◌, ◌++◌, map, if◌then◌else◌, Bytes, bytes,
  ◌==◌, bytes_eq, itoa_ℤ, ℤ, ltb_ℤ, sort_by, is_some,
}
use ietf_scion_testbed.WgPool.{Store, stats}
use ietf_scion_testbed.Join.{
  JoinConfig, Env, bootstrap_url, endpoint_v6_str, endpoint_v4_str, ca_pem,
}

pub record JoinableAs : Type 0 where
  pub as_num : ℤ
  pub isd_as : Bytes
  pub bundle_url : Bytes
  pub bootstrap_url : Bytes

pub record JoinMeta : Type 0 where
  pub joinable_ases : List ℤ
  pub joinable : List JoinableAs
  pub playground_ases : List ℤ
  pub slots_total : ℕ
  pub slots_claimed : ℕ
  pub slots_burned : ℕ
  pub hub_ok : Bool
  pub endpoint_v6 : Bytes
  pub endpoint_v4 : Bytes
  pub ca_url : Option Bytes

abbrev pool_stats : Option Store → ℕ × ℕ × ℕ
pool_stats none = (0, 0, 0)
pool_stats (some pool) = stats pool

-- the loop over the joinable ASes
unfoldable pub joinable_of : Env → JoinConfig → List ℤ → List JoinableAs
joinable_of env jc [] = []
joinable_of env jc (as_num ∷ rest) =
    record {
      as_num = as_num;
      isd_as = itoa_ℤ jc.isd ++ b'-' ∷ itoa_ℤ as_num;
      bundle_url = bytes "/api/join/bundle/" ++ itoa_ℤ as_num;
      bootstrap_url = bootstrap_url env jc as_num;
    }
    ∷ joinable_of env jc rest

-- `dialed` says whether the hub's probe address accepts a connection. `none` is 404.
unfoldable pub handle_join_meta : Env → JoinConfig → Option Store → Bool → Option JoinMeta
unfolding joinable_of
handle_join_meta env jc pool dialed =
    let (total, claimed, burned) = pool_stats pool in
    if not jc.enabled
    then none
    else some (record {
      joinable_ases = jc.joinable_ases;
      joinable = joinable_of env jc jc.joinable_ases;
      playground_ases = sort_by ltb_ℤ (map (λ t. t.0) jc.play_targets);
      slots_total = total;
      slots_claimed = claimed;
      slots_burned = burned;
      hub_ok = not (jc.hub_probe_addr == []) && dialed;
      endpoint_v6 = endpoint_v6_str jc;
      endpoint_v4 = endpoint_v4_str jc;
      ca_url = if is_some (ca_pem env jc) then some (bytes "/api/join/ca.pem") else none;
    })

-- the certificate that is served; `none` is 404
unfoldable pub handle_join_ca : Env → JoinConfig → Option Bytes
handle_join_ca env jc = if not jc.enabled then none else ca_pem env jc
