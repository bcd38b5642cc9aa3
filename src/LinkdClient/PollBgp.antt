-- ===== src/LinkdClient/PollBgp.antt =====
-- client.go: `PollBGP`, which lays the sessions of the link daemons over both sides of the links, and
-- collects the best routes.
use ietf_scion_testbed.Prelude.{
  ℕ, Bool, true, false, Option, none, some, List, [], ◌∷◌, if◌then◌else◌, Bytes, bytes_eq, nat_eq,
  Map, lookup, insert,
}
use ietf_scion_testbed.Topo.{As, Link}
use ietf_scion_testbed.Derive.Bgp.{BgpSide, BgpLink}
use ietf_scion_testbed.BgpPath.{Routes}
use ietf_scion_testbed.LinkdClient.{
  Client, BgpSession, BgpRoute, Wire, as_if_key, end_key, fetch_bgp,
}

pub record Side : Type 0 where
  pub link_id : Bytes
  pub is_a : Bool

-- the loop over the links: `idx` and `out`
unfoldable pub side_idx : Map Bytes Side → List Link → Map Bytes Side
side_idx idx [] = idx
side_idx idx (l ∷ rest) =
    side_idx
      (insert (end_key l.b) (record { link_id = l.id; is_a = false })
        (insert (end_key l.a) (record { link_id = l.id; is_a = true }) idx))
      rest

abbrev pub no_sides : BgpLink
no_sides = record { a = none; b = none }

unfoldable pub bare_links : Map Bytes BgpLink → List Link → Map Bytes BgpLink
bare_links out [] = out
bare_links out (l ∷ rest) = bare_links (insert l.id no_sides out) rest

abbrev pub with_side : Bool → BgpSide → BgpLink → BgpLink
with_side is_a s l = if is_a then record l { a = some s } else record l { b = some s }

abbrev pub side_of : BgpSession → BgpSide
side_of s = record { state = s.state; since_unix = s.since_unix }

-- An entry of `out` is written through its pointer; every link of `idx` has one.
abbrev pub note_side : Map Bytes BgpLink → Side → BgpSide → Option BgpLink → Map Bytes BgpLink
note_side out side s none = out
note_side out side s (some l) = insert side.link_id (with_side side.is_a s l) out

abbrev pub note_session : Map Bytes BgpLink → BgpSide → Option Side → Map Bytes BgpLink
note_session out s none = out
note_session out s (some side) = note_side out side s (lookup side.link_id out)

unfoldable pub note_sessions :
    Map Bytes Side → ℕ → Map Bytes BgpLink → List BgpSession → Map Bytes BgpLink
note_sessions idx as_num out [] = out
note_sessions idx as_num out (s ∷ rest) =
    note_sessions idx as_num (note_session out (side_of s) (lookup (as_if_key as_num s.if_id) idx))
      rest

unfoldable pub route_table : Map ℕ Bytes → List BgpRoute → Map ℕ Bytes
route_table m [] = m
route_table m (r ∷ rest) = route_table (insert r.prefix_as r.if_id m) rest

pub record PolledBgp : Type 0 where
  pub out : Map Bytes BgpLink
  pub routes : Routes

abbrev pub note_bgp :
    Map Bytes Side → ℕ → PolledBgp → Option (List BgpSession × List BgpRoute) → PolledBgp
note_bgp idx as_num p none = p
note_bgp idx as_num p (some (sessions, routes)) = record {
  out = note_sessions idx as_num p.out sessions;
  routes = insert as_num (route_table [] routes) p.routes;
}

module _ {F : Type 0} (w : Wire F) where
  unfoldable pub note_bgps : Client → Map Bytes Side → PolledBgp → List As → PolledBgp
  unfolding note_sessions route_table
  note_bgps c idx p [] = p
  note_bgps c idx p (as_rec ∷ rest) =
      note_bgps c idx (note_bgp idx as_rec.num p (fetch_bgp w c as_rec.num)) rest

  unfoldable pub poll_bgp : Client → PolledBgp
  unfolding note_bgps side_idx bare_links
  poll_bgp c =
      note_bgps c (side_idx [] c.g.links) (record { out = bare_links [] c.g.links; routes = [] })
        c.g.ases
