-- ===== src/LinkdClient/Sides.antt =====
-- client.go: a poll of BGP against the last report of each side of a link, and the last answer of
-- an AS.
use ietf_scion_testbed.Prelude.{
  ℕ, ◌≡◌, refl, sym, ap, ◌∙◌, Bool, true, false, not, Option, none, some, List, [], ◌∷◌, ◌++◌,
  Bytes, ◌==◌, bytes_eq, nat_eq, bytes_beq_iff, beq_refl, Bool-cases, ◌⊎◌, inl, inr, Map, lookup,
  insert, lookup-insert, if◌then◌else◌, In, Settled, last_of, last_of-append,
}
use ietf_scion_testbed.Topo.{As, Link}
use ietf_scion_testbed.Derive.Bgp.{BgpSide, BgpLink}
use ietf_scion_testbed.LinkdClient.{Client, BgpSession, BgpRoute, Wire, as_if_key, fetch_bgp}
use ietf_scion_testbed.LinkdClient.PollBgp.{
  Side, side_idx, bare_links, no_sides, with_side, side_of, note_side, note_session, note_sessions,
  route_table, PolledBgp, note_bgp, note_bgps, poll_bgp,
}
use ietf_scion_testbed.LinkdClient.Ends.{OwnSides, end, is_side, lookup-side_idx}

-- what an AS's daemon reports, by interface
unfoldable pub session_reports : ℕ → List BgpSession → List (Bytes × BgpSide)
session_reports as_num [] = []
session_reports as_num (s ∷ rest) =
    (as_if_key as_num s.if_id, record { state = s.state; since_unix = s.since_unix })
    ∷ session_reports as_num rest

unfoldable pub bgp_reports : ℕ → Option (List BgpSession × List BgpRoute) → List (Bytes × BgpSide)
unfolding session_reports
bgp_reports as_num none = []
bgp_reports as_num (some (sessions, routes)) = session_reports as_num sessions

unfoldable pub bgp_tables : ℕ → Option (List BgpSession × List BgpRoute) → List (ℕ × List BgpRoute)
bgp_tables as_num none = []
bgp_tables as_num (some (sessions, routes)) = (as_num, routes) ∷ []

-- a link's sides, given the reports since
abbrev pub later_sides : Link → BgpLink → List (Bytes × BgpSide) → BgpLink
later_sides l held reports = record {
  a = last_of (end l true) held.a reports;
  b = last_of (end l false) held.b reports;
}

abbrev noted : Bytes → Bytes → BgpSide → Option BgpSide → Option BgpSide
noted key own s before = if key == own then some s else before

-- Another link's sides are left as they are.
note_side-other :
    (l : Link) (out : Map Bytes BgpLink) (s : BgpSide) (sd : Side) (o : Option BgpLink)
    → (sd.link_id == l.id) ≡ false
    → lookup l.id (note_side out sd s o) ≡ lookup l.id out
note_side-other l out s sd none other = refl
note_side-other l out s sd (some x) other = rw (lookup-insert, other) refl

noted_sides : (l : Link) → Bytes → BgpSide → BgpLink → BgpLink
noted_sides l key s held = record {
  a = noted key (end l true) s held.a;
  b = noted key (end l false) s held.b;
}

with_side-noted_sides :
    (l : Link) (key : Bytes) (s : BgpSide) (held : BgpLink) (is_a : Bool)
    → is_a ≡ (key == end l true)
    → not is_a ≡ (key == end l false)
    → with_side is_a s held ≡ noted_sides l key s held
unfolding noted_sides
with_side-noted_sides l key s held true x y = rw (sym x, sym y) refl
with_side-noted_sides l key s held false x y = rw (sym x, sym y) refl

note_side-lookup :
    (l : Link) (out : Map Bytes BgpLink) (key : Bytes) (s : BgpSide) (sd : Side) (held : BgpLink)
    → lookup l.id out ≡ some held
    → is_side l true sd ≡ (key == end l true)
    → is_side l false sd ≡ (key == end l false)
    → lookup l.id (note_side out sd s (lookup sd.link_id out)) ≡ some (noted_sides l key s held)
unfolding noted_sides
note_side-lookup l out key s sd held h x y = elim (Bool-cases (sd.link_id == l.id)) [
  | inr other ↦
      note_side-other l out s sd (lookup sd.link_id out) other ∙ h ∙ ap some (untouched other)
  | inl same ↦
      rw (ap (λ i. lookup i out) ((bytes_beq_iff sd.link_id l.id).0 same) ∙ h, lookup-insert, same)
        (ap some (with_side-noted_sides l key s held sd.is_a (rw same at x) (rw same at y)))
]
  where
    untouched : (sd.link_id == l.id) ≡ false → held ≡ noted_sides l key s held
    untouched other = rw (sym x, sym y, other) refl

note_session-lookup :
    (l : Link) (out : Map Bytes BgpLink) (key : Bytes) (s : BgpSide) (o : Option Side)
    (held : BgpLink)
    → lookup l.id out ≡ some held
    → Settled (λ sd. is_side l true sd ≡ (key == end l true)) key (end l true) o
    → Settled (λ sd. is_side l false sd ≡ (key == end l false)) key (end l false) o
    → lookup l.id (note_session out s o) ≡ some (noted_sides l key s held)
unfolding noted_sides
note_session-lookup l out key s none held h x y = rw (x, y) h
note_session-lookup l out key s (some sd) held h x y = note_side-lookup l out key s sd held h x y

bare_links-lookup :
    (l : Link) (links : List Link) (out : Map Bytes BgpLink)
    → (lookup l.id out ≡ some no_sides) ⊎ In l links
    → lookup l.id (bare_links out links) ≡ some no_sides
unfolding bare_links
bare_links-lookup l [] out (inl h) = h
bare_links-lookup l [] out (inr m) = elim m [ ]
bare_links-lookup l (x ∷ rest) out (inl h) = bare_links-lookup l rest (insert x.id no_sides out) (
    inl (elim (Bool-cases (x.id == l.id)) [
      | inl same ↦ rw (lookup-insert, same) refl
      | inr other ↦ rw (lookup-insert, other) h
    ]))
bare_links-lookup l (x ∷ rest) out (inr (inl e)) =
    bare_links-lookup l rest (insert x.id no_sides out)
      (inl (rw (lookup-insert, e, beq_refl l.id) refl))
bare_links-lookup l (x ∷ rest) out (inr (inr m)) =
    bare_links-lookup l rest (insert x.id no_sides out) (inr m)

module _ (links : List Link) (l : Link) (own : OwnSides links) (m : In l links) where
  note_sessions-lookup :
      (ss : List BgpSession) (as_num : ℕ) (out : Map Bytes BgpLink) (held : BgpLink)
      → lookup l.id out ≡ some held
      → lookup l.id (note_sessions (side_idx [] links) as_num out ss)
        ≡ some (later_sides l held (session_reports as_num ss))
  unfolding note_sessions session_reports last_of noted_sides
  note_sessions-lookup [] as_num out held h = h
  note_sessions-lookup (s ∷ rest) as_num out held h =
      let key = as_if_key as_num s.if_id in
      let o = lookup key (side_idx [] links) in
      note_sessions-lookup rest as_num (note_session out (side_of s) o)
        (noted_sides l key (side_of s) held)
        (note_session-lookup l out key (side_of s) o held h (lookup-side_idx links l true key own m)
          (lookup-side_idx links l false key own m))

  note_bgp-lookup :
      (answer : Option (List BgpSession × List BgpRoute)) (as_num : ℕ) (p : PolledBgp)
      (held : BgpLink)
      → lookup l.id p.out ≡ some held
      → lookup l.id (note_bgp (side_idx [] links) as_num p answer).out
        ≡ some (later_sides l held (bgp_reports as_num answer))
  unfolding bgp_reports last_of
  note_bgp-lookup none as_num p held h = h
  note_bgp-lookup (some (sessions, routes)) as_num p held h =
      note_sessions-lookup sessions as_num p.out held h

-- the routes of an answer, by prefix
abbrev pub route_pairs : List BgpRoute → List (ℕ × Bytes)
route_pairs [] = []
route_pairs (r ∷ rest) = (r.prefix_as, r.if_id) ∷ route_pairs rest

-- A table holds, for every prefix, the interface of the last route that the answer has for it.
abbrev pub HoldsRoutes : Option (Map ℕ Bytes) → Option (List BgpRoute) → Type 0
HoldsRoutes none none = Unit
HoldsRoutes (some table) (some routes) =
    (prefix : ℕ) → lookup prefix table ≡ last_of prefix none (route_pairs routes)
HoldsRoutes _ _ = ⊥

lookup-route_table :
    (routes : List BgpRoute) (m : Map ℕ Bytes) (prefix : ℕ)
    → lookup prefix (route_table m routes) ≡ last_of prefix (lookup prefix m) (route_pairs routes)
unfolding route_table last_of
lookup-route_table [] m prefix = refl
lookup-route_table (r ∷ rest) m prefix =
    lookup-route_table rest (insert r.prefix_as r.if_id m) prefix ∙ rw lookup-insert refl

note_bgp-HoldsRoutes :
    (idx : Map Bytes Side) (answer : Option (List BgpSession × List BgpRoute)) (as_num : ℕ)
    (p : PolledBgp) (wanted : ℕ) (o : Option (List BgpRoute))
    → HoldsRoutes (lookup wanted p.routes) o
    → HoldsRoutes
        (lookup wanted (note_bgp idx as_num p answer).routes)
        (last_of wanted o (bgp_tables as_num answer))
unfolding bgp_tables last_of lookup
note_bgp-HoldsRoutes idx none as_num p wanted o h = h
note_bgp-HoldsRoutes idx (some (sessions, routes)) as_num p wanted o h =
    elim (Bool-cases (as_num == wanted)) [
      | inl own ↦ rw (lookup-insert, own) (lookup-route_table routes [])
      | inr other ↦ rw (lookup-insert, other) h
    ]

module _ {F : Type 0} (w : Wire F) where
  -- what the daemons report, in the order of the graph's ASes
  unfoldable pub sides_reported : Client → List As → List (Bytes × BgpSide)
  unfolding bgp_reports
  sides_reported c [] = []
  sides_reported c (as_rec ∷ rest) =
      bgp_reports as_rec.num (fetch_bgp w c as_rec.num) ++ sides_reported c rest

  unfoldable pub tables_reported : Client → List As → List (ℕ × List BgpRoute)
  unfolding bgp_tables
  tables_reported c [] = []
  tables_reported c (as_rec ∷ rest) =
      bgp_tables as_rec.num (fetch_bgp w c as_rec.num) ++ tables_reported c rest

  note_bgps-lookup :
      (c : Client) (l : Link) (ases : List As) (p : PolledBgp) (held : BgpLink)
      → OwnSides c.g.links
      → In l c.g.links
      → lookup l.id p.out ≡ some held
      → lookup l.id (note_bgps w c (side_idx [] c.g.links) p ases).out
        ≡ some (later_sides l held (sides_reported c ases))
  unfolding note_bgps sides_reported last_of
  note_bgps-lookup c l [] p held own m h = h
  note_bgps-lookup c l (as_rec ∷ rest) p held own m h =
      let answer = fetch_bgp w c as_rec.num in
      rw (last_of-append, last_of-append)
        (note_bgps-lookup c l rest (note_bgp (side_idx [] c.g.links) as_rec.num p answer)
          (later_sides l held (bgp_reports as_rec.num answer)) own m
          (note_bgp-lookup c.g.links l own m answer as_rec.num p held h))

  note_bgps-HoldsRoutes :
      (c : Client) (idx : Map Bytes Side) (ases : List As) (p : PolledBgp) (wanted : ℕ)
      (o : Option (List BgpRoute))
      → HoldsRoutes (lookup wanted p.routes) o
      → HoldsRoutes
          (lookup wanted (note_bgps w c idx p ases).routes)
          (last_of wanted o (tables_reported c ases))
  unfolding note_bgps tables_reported last_of
  note_bgps-HoldsRoutes c idx [] p wanted o h = h
  note_bgps-HoldsRoutes c idx (as_rec ∷ rest) p wanted o h =
      let answer = fetch_bgp w c as_rec.num in
      rw last_of-append (
        note_bgps-HoldsRoutes c idx rest (note_bgp idx as_rec.num p answer) wanted _
          (note_bgp-HoldsRoutes idx answer as_rec.num p wanted o h))

  -- If each interface is a side of one link, by the link's id: of every link, `PollBGP` holds as each
  -- side the last session that is reported for its interface, nil if none is. Of every AS it holds a
  -- table if it answers, which has for every prefix the interface of the last route with this prefix
  -- in its last answer, and nothing if that has none.
  pub poll_bgp-sides :
      (c : Client) (l : Link) (as_num : ℕ)
      → OwnSides c.g.links
      → In l c.g.links
      → (lookup l.id (poll_bgp w c).out ≡ some (later_sides l no_sides (sides_reported c c.g.ases)))
        × HoldsRoutes
            (lookup as_num (poll_bgp w c).routes)
            (last_of as_num none (tables_reported c c.g.ases))
  unfolding poll_bgp lookup
  poll_bgp-sides c l as_num own m =
      let start : PolledBgp = record { out = bare_links [] c.g.links; routes = [] } in
      (
        note_bgps-lookup c l c.g.ases start no_sides own m
            (bare_links-lookup l c.g.links [] (inr m)),
        note_bgps-HoldsRoutes c (side_idx [] c.g.links) c.g.ases start as_num none tt,
      )
