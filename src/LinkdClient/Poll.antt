-- ===== src/LinkdClient/Poll.antt =====
-- client.go: `Poll`, which lays what the link daemons report over the links.
use ietf_scion_testbed.Prelude.{
  ℕ, Option, none, some, List, [], ◌∷◌, if◌then◌else◌, Bytes, bytes_eq, Map, lookup, insert,
}
use ietf_scion_testbed.Topo.{As, Link}
use ietf_scion_testbed.Derive.State.{Shaping}
use ietf_scion_testbed.LinkdClient.{Client, LinkEntry, Wire, as_if_key, end_key, fetch_links}

-- `aSideIdx`
unfoldable pub a_side_idx : Map Bytes Bytes → List Link → Map Bytes Bytes
a_side_idx idx [] = idx
a_side_idx idx (l ∷ rest) = a_side_idx (insert (end_key l.a) l.id idx) rest

pub record Polled (F : Type 0) : Type 0 where
  pub out : Map Bytes (Option (Shaping F))
  pub base : Map Bytes (Option (Shaping F))

abbrev pub current : {F : Type 0} → LinkEntry F → Option (Shaping F)
current e = if e.is_shaped then e.shaping else none

-- one round of the loop over the entries of an AS, given the link of the entry's interface
abbrev pub note_entry : {F : Type 0} → Polled F → LinkEntry F → Option Bytes → Polled F
note_entry p e none = p
note_entry p e (some link_id) = record {
  out = insert link_id (current e) p.out;
  base = insert link_id e.baseline p.base;
}

unfoldable pub note_entries :
    {F : Type 0} → Map Bytes Bytes → ℕ → Polled F → List (LinkEntry F) → Polled F
note_entries idx as_num p [] = p
note_entries idx as_num p (e ∷ rest) =
    note_entries idx as_num (note_entry p e (lookup (as_if_key as_num e.if_id) idx)) rest

-- the loop over the results, an AS that did not answer being skipped
abbrev pub note_answer :
    {F : Type 0} → Map Bytes Bytes → ℕ → Polled F → Option (List (LinkEntry F)) → Polled F
note_answer idx as_num p none = p
note_answer idx as_num p (some entries) = note_entries idx as_num p entries

module _ {F : Type 0} (w : Wire F) where
  unfoldable pub note_answers : Client → Map Bytes Bytes → Polled F → List As → Polled F
  unfolding note_entries
  note_answers c idx p [] = p
  note_answers c idx p (as_rec ∷ rest) =
      note_answers c idx (note_answer idx as_rec.num p (fetch_links w c as_rec.num)) rest

  unfoldable pub poll : Client → Polled F
  unfolding note_answers a_side_idx
  poll c = note_answers c (a_side_idx [] c.g.links) (record { out = []; base = [] }) c.g.ases
