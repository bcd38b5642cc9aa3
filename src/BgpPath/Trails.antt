-- ===== src/BgpPath/Trails.antt =====
-- bgppath.go: chains of hops over the index and the route tables, and how many entries are left.
use ietf_scion_testbed.Prelude.{
  ℕ, ◌+◌, ◌<◌, ◌≤◌, ◌≡◌, ◌≢◌, ◌⊎◌, true, false, Option, none, some, List, [], ◌∷◌, arith,
  if◌then◌else◌, Bytes, nat_eq, bytes_eq, lookup, length, contains,
}
use ietf_scion_testbed.BgpPath.{Hop, Index, Routes, key, route}

-- entries that lead to an AS not yet visited
pub unvisited : Index → List ℕ → ℕ
unvisited [] visited = 0
unvisited ((k, h) ∷ idx) visited =
    (if contains visited h.peer then 0 else 1) + unvisited idx visited

pub unvisited-le-length : (idx : Index) (visited : List ℕ) → unvisited idx visited ≤ length idx
unfolding unvisited
unvisited-le-length [] visited = omega arith
unvisited-le-length ((k, h) ∷ idx) visited = ground (arith, unvisited-le-length idx visited)

unvisited-cons-le :
    (idx : Index) (visited : List ℕ) (p : ℕ) → unvisited idx (p ∷ visited) ≤ unvisited idx visited
unfolding unvisited
unvisited-cons-le [] visited p = omega arith
unvisited-cons-le ((k, h) ∷ idx) visited p = ground (arith, unvisited-cons-le idx visited p)

pub unvisited-cons-lt :
    (idx : Index) (visited : List ℕ) (k : Bytes) (h : Hop)
    → lookup k idx ≡ some h
    → contains visited h.peer ≡ false
    → unvisited idx (h.peer ∷ visited) < unvisited idx visited
unfolding unvisited lookup
unvisited-cons-lt [] visited k h e f = cc
unvisited-cons-lt ((j, g) ∷ idx) visited k h e f =
    ground (arith, unvisited-cons-lt idx visited k h, unvisited-cons-le idx visited h.peer)

-- The hops from one AS along the best routes towards `dst`: the ASes, the links, and the last AS.
pub data Trail (idx : Index) (routes : Routes) (dst : ℕ)
    : ℕ → List ℕ → List Bytes → ℕ → Type 0 where
  stop : (cur : ℕ) → Trail idx routes dst cur [] [] cur
  step :
      (cur : ℕ) (if_id : Bytes) (h : Hop) (ps : List ℕ) (ls : List Bytes) (final : ℕ)
      → route routes cur dst ≡ some if_id
      → lookup (key cur if_id) idx ≡ some h
      → Trail idx routes dst h.peer ps ls final
      → Trail idx routes dst cur (h.peer ∷ ps) (h.link_id ∷ ls) final

-- Pairwise different, and none of them in `visited`.
abbrev pub Fresh : List ℕ → List ℕ → Type 0
Fresh visited [] = Unit
Fresh visited (p ∷ ps) = (contains visited p ≡ false) × Fresh (p ∷ visited) ps

-- the next AS on the way to `dst`, if the tables name one
unfoldable pub next_hop : Index → Routes → ℕ → ℕ → Option Hop
next_hop idx routes dst cur = elim (route routes cur dst) [
  | none ↦ none
  | some if_id ↦ lookup (key cur if_id) idx
]

-- the set `visited` after the hops `ps`
abbrev pub seen : List ℕ → List ℕ → List ℕ
seen visited [] = visited
seen visited (p ∷ ps) = seen (p ∷ visited) ps

-- Why an incomplete walk ends: no next hop is known, or the next hop would close a loop.
pub record Blocked (idx : Index) (routes : Routes) (dst : ℕ) (visited : List ℕ) (final : ℕ)
    : Type 0 where
  pub not_there : final ≢ dst
  pub reason :
      (next_hop idx routes dst final ≡ none)
      ⊎ ((h : Hop) × (next_hop idx routes dst final ≡ some h) × (contains visited h.peer ≡ true))
