-- ===== src/Linkd/BgpStatus/Examples.antt =====
-- The parsers on lines of birdc, and the theorem on three calls.
use ietf_scion_testbed.Prelude.{
  split_lines, fields, ℕ, ◌≡◌, refl, Option, none, some, List, [], ◌∷◌, ℤ, pos, arith, Bytes, bytes,
}
use ietf_scion_testbed.Linkd.BgpStatus.{Collector, Outputs, parse_routes, parse_protocols, snapshot}
use ietf_scion_testbed.Linkd.BgpStatus.Cache.{Call, Spaced, collect, head, collect-Spaced}

abbrev route_text : Bytes
route_text = bytes "10.156.0.0/16  unicast [bgp_if48610 14:40:28.269] * (100) [AS156i]"

abbrev no_time : Bytes → Option ℤ
no_time text = none

found_route : parse_routes route_text ≡ record { prefix_as = pos 156; if_id = bytes "48610" } ∷ []
unfolding parse_routes split_lines fields
found_route = refl

found_session :
    parse_protocols no_time (bytes "bgp_if7 BGP --- up 2026-07-07 10:00:00 Established")
    ≡ record { if_id = bytes "7"; state = bytes "Established"; bfd = []; since = pos 0 } ∷ []
unfolding parse_protocols split_lines fields
found_session = refl

abbrev fresh_collector : Collector
fresh_collector = record {
  if_id_by_dev = [];
  ttl = pos 2000;
  cached = record { sessions = []; routes = [] };
  fetched_at = none;
}

abbrev printed : Outputs
printed = record { protocols = some []; bfd = some []; routes = some route_text }

abbrev call_at : ℕ → Call
call_at t = record { now = pos t; done = pos t; outputs = printed }

abbrev calls : List Call
calls = call_at 1000 ∷ call_at 2000 ∷ call_at 4000 ∷ []

collect-Spaced_example :
    Spaced (pos 2000) (collect no_time fresh_collector [] calls).1
    × ((collect no_time fresh_collector [] calls).0.fetched_at
        ≡ head (collect no_time fresh_collector [] calls).1)
collect-Spaced_example =
    collect-Spaced no_time fresh_collector (pos 0) calls refl
      (omega arith, omega arith, (omega arith, omega arith, (omega arith, omega arith, tt)))

-- the second call is answered from the cache
filled_twice : (collect no_time fresh_collector [] calls).1 ≡ pos 4000 ∷ pos 1000 ∷ []
unfolding collect snapshot
filled_twice = refl
