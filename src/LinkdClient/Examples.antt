-- ===== src/LinkdClient/Examples.antt =====
-- The theorems on a graph of two ASes and one link, of which one daemon answers.
use ietf_scion_testbed.Prelude.{
  ℕ, ◌≡◌, refl, sym, true, false, none, some, [], ◌∷◌, Bytes, bytes, ◌==◌, bytes_eq, nat_eq, ℤ, pos,
  lookup, itoa, ◌||◌, if◌then◌else◌, In, inl, inr, last_of, done, beq_refl,
}
use ietf_scion_testbed.Topo.{As, Endpoint, Link, Graph}
use ietf_scion_testbed.LinkdClient.{
  LinkEntry, Wire, Request, answered, unanswered, new, end_key, as_if_key,
}
use ietf_scion_testbed.LinkdClient.Poll.{poll}
use ietf_scion_testbed.LinkdClient.PollBgp.{poll_bgp, no_sides}
use ietf_scion_testbed.LinkdClient.Reports.{shaping_reported, reports, poll-reports}
use ietf_scion_testbed.LinkdClient.Sides.{
  sides_reported, tables_reported, later_sides, HoldsRoutes, poll_bgp-sides,
}
use ietf_scion_testbed.LinkdClient.Ends.{OwnASides, OwnSides}

abbrev pub end_at : ℕ → Bytes → Endpoint
end_at as_num ia = record {
  ia = ia;
  as_num = as_num;
  if_id = bytes "1";
  ip = bytes "10.0.0.1";
  link_to = bytes "CORE";
}

abbrev pub wire_link : Link
wire_link = record {
  id = bytes "150-151";
  type = bytes "core";
  subnet = bytes "10.0.0.0/29";
  a = end_at 150 (bytes "1-150");
  b = end_at 151 (bytes "1-151");
}

abbrev pub as_at : ℕ → Bytes → As
as_at num ip = record { ia = bytes "1-150"; num = num; core = true; mgmt_ip = ip }

abbrev pub graph : Graph
graph = record {
  ases = as_at 150 (bytes "10.20.3.150") ∷ as_at 151 (bytes "10.20.3.151") ∷ [];
  links = wire_link ∷ [];
}

abbrev pub entry : LinkEntry ℤ
entry = record {
  if_id = bytes "1";
  shaping =
      some
        (record { delay_ms = some (pos 5); jitter_ms = none; loss_pct = none; rate_mbit = none });
  is_shaped = true;
  baseline = none;
}

-- the daemon at 10.20.3.150 answers
abbrev pub wire : Wire ℤ
wire = record {
  send = λ (r : Request).
      if r.url == bytes "http://10.20.3.150:30480/api/v1/links"
        || r.url == bytes "http://10.20.3.150:30480/api/v1/bgp"
      then answered 200 []
      else unanswered (bytes "refused");
  encode_shaping = λ s. done [];
  decode_links = λ b. some (entry ∷ []);
  decode_bgp = λ b. some (
    record { if_id = bytes "1"; state = bytes "Established"; since_unix = pos 1 } ∷ [],
    record { prefix_as = 151; if_id = bytes "1" } ∷ [],
  );
}

one-OwnASides : (x : Link) → OwnASides (x ∷ [])
one-OwnASides x l l' (inl e) (inl e') =
    rw (sym e, sym e', beq_refl (end_key x.a), beq_refl x.id) refl
one-OwnASides x l l' (inr m) _ = elim m [ ]
one-OwnASides x l l' (inl e) (inr m) = elim m [ ]

one_b :
    (x l l' : Link)
    → In l (x ∷ [])
    → In l' (x ∷ [])
    → (end_key l'.b == end_key l.b) ≡ (l'.id == l.id)
one_b x l l' (inl e) (inl e') = rw (sym e, sym e', beq_refl (end_key x.b), beq_refl x.id) refl
one_b x l l' (inr m) _ = elim m [ ]
one_b x l l' (inl e) (inr m) = elim m [ ]

one_apart :
    (x l l' : Link)
    → (end_key x.a == end_key x.b) ≡ false
    → In l (x ∷ [])
    → In l' (x ∷ [])
    → (end_key l'.a == end_key l.b) ≡ false
one_apart x l l' h (inl e) (inl e') = rw (sym e, sym e') h
one_apart x l l' h (inr m) _ = elim m [ ]
one_apart x l l' h (inl e) (inr m) = elim m [ ]

two_ends : (end_key wire_link.a == end_key wire_link.b) ≡ false
unfolding as_if_key itoa
two_ends = refl

graph-OwnSides : OwnSides graph.links
graph-OwnSides = record {
  a_sides = one-OwnASides wire_link;
  b_sides = one_b wire_link;
  apart = λ l l' m n. one_apart wire_link l l' two_ends m n;
}

poll-reports_example :
    (lookup (bytes "150-151") (poll wire (new graph)).out
      ≡ last_of (end_key wire_link.a) none (reports wire shaping_reported (new graph) graph.ases))
    × (lookup (bytes "150-151") (poll wire (new graph)).base
        ≡ last_of
            (end_key wire_link.a)
            none
            (reports wire (λ e. e.baseline) (new graph) graph.ases))
unfolding new
poll-reports_example = poll-reports wire (new graph) wire_link (one-OwnASides wire_link) (inl refl)

poll_bgp-sides_example :
    (lookup (bytes "150-151") (poll_bgp wire (new graph)).out
      ≡ some (later_sides wire_link no_sides (sides_reported wire (new graph) graph.ases)))
    × HoldsRoutes
        (lookup 150 (poll_bgp wire (new graph)).routes)
        (last_of 150 none (tables_reported wire (new graph) graph.ases))
unfolding new
poll_bgp-sides_example = poll_bgp-sides wire (new graph) wire_link 150 graph-OwnSides (inl refl)
