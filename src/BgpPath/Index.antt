-- ===== src/BgpPath/Index.antt =====
-- bgppath.go: the index of the interfaces, and a search through the links that it is compared with.
use ietf_scion_testbed.Prelude.{
  ℕ, ◌≡◌, refl, ap, Bool, ◌&&◌, Option, none, some, List, [], ◌∷◌, ◌++◌, arith, if◌then◌else◌,
  Bytes, ◌==◌, nat_eq, bytes_eq, bytes_beq_iff, itoa, itoa-injective, itoa-IsDigit, IsDigit, All,
  lookup, insert, lookup-insert,
}
use ietf_scion_testbed.Topo.{Graph, Link, Endpoint}
use ietf_scion_testbed.BgpPath.{Hop, Index, key, index_links, new_index}

slash_splits :
    (xs ys s t : Bytes)
    → All IsDigit xs
    → All IsDigit ys
    → xs ++ b'/' ∷ s ≡ ys ++ b'/' ∷ t
    → (xs ≡ ys) × (s ≡ t)
slash_splits [] [] s t _ _ e = ground arith
slash_splits [] (y ∷ ys) s t _ h e = ground arith
slash_splits (x ∷ xs) [] s t h _ e = ground arith
slash_splits (x ∷ xs) (y ∷ ys) s t h k e = ground (arith, slash_splits xs ys s t h.1 k.1)

key-injective : (m n : ℕ) (s t : Bytes) → key m s ≡ key n t → (m ≡ n) × (s ≡ t)
unfolding key
key-injective m n s t e =
    let (d, r) = slash_splits (itoa m) (itoa n) s t (itoa-IsDigit m) (itoa-IsDigit n) e in
    (itoa-injective m n d, r)

abbrev is_at : Endpoint → ℕ → Bytes → Bool
is_at e as_num if_id = e.as_num == as_num && e.if_id == if_id

key-beq : (e : Endpoint) (n : ℕ) (t : Bytes) → (key e.as_num e.if_id == key n t) ≡ is_at e n t
key-beq e n t = ground (
  arith,
  bytes_beq_iff (key e.as_num e.if_id) (key n t),
  bytes_beq_iff e.if_id t,
  key-injective e.as_num n e.if_id t,
  ap (λ k. key k e.if_id),
)

-- The far end of the interface by a search through the links: of several links with that interface
-- the last counts, and of one link with the interface at both ends the second end.
abbrev pub far_end : List Link → ℕ → Bytes → Option Hop
far_end [] n t = none
far_end (l ∷ ls) n t = elim (far_end ls n t) [
  | some h ↦ some h
  | none ↦
      if is_at l.b n t
      then some (record { link_id = l.id; peer = l.a.as_num })
      else if is_at l.a n t
      then some (record { link_id = l.id; peer = l.b.as_num })
      else none
]

abbrev or_else : Option Hop → Option Hop → Option Hop
or_else (some h) o = some h
or_else none o = o

index_links-far_end :
    (ls : List Link) (idx : Index) (n : ℕ) (t : Bytes)
    → lookup (key n t) (index_links idx ls) ≡ or_else (far_end ls n t) (lookup (key n t) idx)
unfolding index_links
index_links-far_end [] idx n t = refl
index_links-far_end (l ∷ ls) idx n t =
    let a : Hop = record { link_id = l.id; peer = l.b.as_num } in
    let b : Hop = record { link_id = l.id; peer = l.a.as_num } in
    let idx' = insert (key l.a.as_num l.a.if_id) a idx in
    ground (
      arith,
      index_links-far_end ls (insert (key l.b.as_num l.b.if_id) b idx') n t,
      lookup-insert (key l.b.as_num l.b.if_id) (key n t) b idx',
      lookup-insert (key l.a.as_num l.a.if_id) (key n t) a idx,
      key-beq l.a n t,
      key-beq l.b n t,
    )

-- For every graph, AS number and interface, the index at the key of the interface gives the link
-- and the far AS that a search through the links finds, and nothing where that finds nothing.
pub new_index-far_end :
    (g : Graph) (n : ℕ) (t : Bytes) → lookup (key n t) (new_index g) ≡ far_end g.links n t
unfolding new_index lookup
new_index-far_end g n t = ground (arith, index_links-far_end g.links [] n t)
