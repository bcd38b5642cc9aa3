-- ===== src/BgpPath.antt =====
-- dashboard/backend/internal/bgppath/bgppath.go: the walk along the best BGP routes of each AS.
pub mod Index
pub mod Trails
pub mod Walk
pub mod Examples
use ietf_scion_testbed.Prelude.{
  ℕ, zero, suc, Bool, true, false, Option, none, some, List, [], ◌∷◌, ◌++◌, if◌then◌else◌, Bytes,
  bytes, itoa, ◌==◌, nat_eq, bytes_eq, Map, lookup, insert, length, contains,
}
use ietf_scion_testbed.Topo.{Graph, Link}

-- `VM`; `Src` and `Dst` are filled in by the caller and are empty here.
pub record Vm : Type 0 where
  pub src : Bytes
  pub dst : Bytes
  pub as_path : List ℕ
  pub path_links : List Bytes
  pub complete : Bool

pub record Hop : Type 0 where
  pub link_id : Bytes
  pub peer : ℕ

abbrev pub Index : Type 0
Index = Map Bytes Hop

-- `strconv.Itoa(as) + "/" + ifid`
unfoldable pub key : ℕ → Bytes → Bytes
key as_num if_id = itoa as_num ++ b'/' ∷ if_id

-- the loop of `NewIndex` over the links
unfoldable pub index_links : Index → List Link → Index
index_links idx [] = idx
index_links idx (l ∷ ls) =
    index_links
      (insert (key l.b.as_num l.b.if_id) (record { link_id = l.id; peer = l.a.as_num })
        (insert (key l.a.as_num l.a.if_id) (record { link_id = l.id; peer = l.b.as_num }) idx))
      ls

unfoldable pub new_index : Graph → Index
unfolding index_links
new_index g = index_links [] g.links

-- destination AS to egress interface, for each AS that was asked
abbrev pub Routes : Type 0
Routes = Map ℕ (Map ℕ Bytes)

-- `routes[cur][dst]`: a missing inner map is empty
unfoldable pub route : Routes → ℕ → ℕ → Option Bytes
route routes cur dst = elim (lookup cur routes) [ none ↦ none | some best ↦ lookup dst best ]

-- The loop of `Walk`: `visited` is the set of the ASes seen, newest first. `none` means that the
-- fuel ran out.
unfoldable pub walk_from : ℕ → Index → Routes → ℕ → ℕ → List ℕ → Vm → Option Vm
walk_from zero idx routes dst cur visited vm = none
walk_from (suc fuel) idx routes dst cur visited vm = elim (cur == dst) [
  | true ↦ some (record vm { complete = true })
  | false ↦ elim (route routes cur dst) [
    | none ↦ some vm
    | some if_id ↦ elim (lookup (key cur if_id) idx) [
      | none ↦ some vm
      | some h ↦ elim (contains visited h.peer) [
        | true ↦ some vm
        | false ↦ walk_from fuel idx routes dst h.peer (h.peer ∷ visited) (record vm {
          as_path = vm.as_path ++ h.peer ∷ [];
          path_links = vm.path_links ++ h.link_id ∷ [];
        })
      ]
    ]
  ]
]

-- `visited` takes a new AS of the index in each round, so a round for each entry and one suffice.
unfoldable pub walk : Index → Routes → ℕ → ℕ → Option Vm
unfolding walk_from
walk idx routes src dst =
    let vm : Vm = record {
      src = [];
      dst = [];
      as_path = src ∷ [];
      path_links = [];
      complete = false;
    } in
    if src == dst
    then some (record vm { complete = true })
    else walk_from (suc (length idx)) idx routes dst src (src ∷ []) vm
