-- ===== src/Topo/Load.antt =====
-- dashboard/backend/internal/topo/topo.go: `Load`, and the links that it finds between the records of
-- the interfaces. The list of the core ASes is given decoded, and is none if it cannot be read.
use ietf_scion_testbed.Prelude.{
  ℕ, Bool, false, ◌&&◌, ◌||◌, Option, none, some, List, [], ◌∷◌, ◌++◌, if◌then◌else◌, ltb, nat_beq,
  Bytes, bytes, ◌==◌, nat_eq, bytes_eq, Map, lookup, itoa, has_prefix, sort_by, Outcome, done,
  failed, ◌>>=◌,
}
use ietf_scion_testbed.Topo.{Endpoint, Link, As, Graph}
use ietf_scion_testbed.Topo.Files.{
  IfaceRec, LoadError, Loaded, TopologyFile, bad_host, empty, load_files, no_core_list, no_files,
}

-- the text before the first `::`
unfoldable pub before_colons : Bytes → Option Bytes
before_colons [] = none
before_colons (c ∷ []) = none
before_colons (c ∷ d ∷ rest) =
    let more = before_colons (d ∷ rest) in
    if c == b':' && d == b':'
    then some []
    else (elim more [ none ↦ none | some text ↦ some (c ∷ text) ])

abbrev pub subnet_prefix : Bytes
subnet_prefix = bytes "fd00:fade:"

abbrev behind : Bytes → Bytes → Bytes
behind [] s = s
behind (p ∷ ps) [] = []
behind (p ∷ ps) (c ∷ s) = behind ps s

unfoldable pub subnet_of : Bytes → Outcome LoadError Bytes
unfolding before_colons
subnet_of host =
    if has_prefix host subnet_prefix
    then (elim (before_colons (behind subnet_prefix host)) [
      | none ↦ failed (bad_host host)
      | some segment ↦ done (bytes "link " ++ segment)
    ])
    else failed (bad_host host)

abbrev pub endpoint_from : IfaceRec → Endpoint
endpoint_from r = record {
  ia = r.ia;
  as_num = r.as_num;
  if_id = r.if_id;
  ip = r.local_host;
  link_to = r.link_to;
}

-- `coreByNum[num]`
unfoldable pub is_core : Map ℕ Bool → ℕ → Bool
is_core core_by_num num = elim (lookup num core_by_num) [ none ↦ false | some core ↦ core ]

unfoldable pub type_of : Map ℕ Bool → IfaceRec → IfaceRec → Bytes
unfolding is_core
type_of core_by_num rec counterpart =
    if is_core core_by_num rec.as_num && is_core core_by_num counterpart.as_num
    then bytes "core"
    else if rec.link_to == bytes "peer" || counterpart.link_to == bytes "peer"
    then bytes "peer"
    else bytes "child"

abbrev pub link_from : Map ℕ Bool → IfaceRec → IfaceRec → Bytes → Link
link_from core_by_num rec counterpart subnet = record {
  id = itoa rec.as_num ++ b'-' ∷ itoa counterpart.as_num;
  type = type_of core_by_num rec counterpart;
  subnet = subnet;
  a = endpoint_from rec;
  b = endpoint_from counterpart;
}

-- One round of the loop over the records: no link, or one.
unfoldable pub link_with : Map ℕ Bool → IfaceRec → Option IfaceRec → Outcome LoadError (List Link)
unfolding type_of subnet_of
link_with core_by_num rec none = done []
link_with core_by_num rec (some counterpart) =
    if ltb rec.as_num counterpart.as_num
    then (subnet_of rec.local_host >>= λ subnet.
        done (link_from core_by_num rec counterpart subnet ∷ []))
    else done []

unfoldable pub pair_recs : Loaded → List IfaceRec → List Link → Outcome LoadError (List Link)
unfolding link_with
pair_recs s [] links = done links
pair_recs s (rec ∷ rest) links =
    link_with s.core_by_num rec (lookup rec.remote_addr s.by_local_addr) >>= λ found.
    pair_recs s rest (links ++ found)

abbrev pub as_lt : As → As → Bool
as_lt a b = ltb a.num b.num

abbrev pub link_lt : Link → Link → Bool
link_lt l m =
    if nat_beq l.a.as_num m.a.as_num then ltb l.b.as_num m.b.as_num else ltb l.a.as_num m.a.as_num

-- Sorting is by a stable sort; the code's may order the links between two ASes otherwise.
unfoldable pub sorted_graph : Loaded → List Link → Graph
sorted_graph s links = record { ases = sort_by as_lt s.ases; links = sort_by link_lt links }

unfoldable pub load_from : List Bytes → List (Option TopologyFile) → Outcome LoadError Graph
unfolding load_files pair_recs sorted_graph
load_from cores files = do
  s ← load_files cores empty files
  links ← pair_recs s s.recs []
  done (sorted_graph s links)

-- `Load`, given the core ASes and the files in their order
unfoldable pub load : Option (List Bytes) → List (Option TopologyFile) → Outcome LoadError Graph
unfolding load_from
load none files = failed no_core_list
load (some cores) [] = failed no_files
load (some cores) (file ∷ files) = load_from cores (file ∷ files)
