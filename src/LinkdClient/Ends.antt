-- ===== src/LinkdClient/Ends.antt =====
-- client.go: what the indexes from interfaces to links give, in a graph whose interfaces each belong
-- to one link.
use ietf_scion_testbed.Prelude.{
  ◌≡◌, refl, sym, ap, ◌∙◌, Bool, true, false, not, ◌&&◌, List, [], ◌∷◌, inl, inr, Bytes, ◌==◌,
  bytes_eq, beq_comm, Map, lookup, insert, In, All, arith, Settled, insert_all, last_of-Settled,
  lookup-insert_all,
}
use ietf_scion_testbed.Topo.{Link}
use ietf_scion_testbed.LinkdClient.{end_key}
use ietf_scion_testbed.LinkdClient.Poll.{a_side_idx}
use ietf_scion_testbed.LinkdClient.PollBgp.{Side, side_idx}

-- Two links have the same A side exactly if they have the same id.
abbrev pub OwnASides : List Link → Type 0
OwnASides links =
    (l l' : Link) → In l links → In l' links → (end_key l'.a == end_key l.a) ≡ (l'.id == l.id)

-- The same for both sides, and no interface is an A side and a B side.
pub record OwnSides (links : List Link) : Type 0 where
  pub a_sides : OwnASides links
  pub b_sides :
      (l l' : Link) → In l links → In l' links → (end_key l'.b == end_key l.b) ≡ (l'.id == l.id)
  pub apart : (l l' : Link) → In l links → In l' links → (end_key l'.a == end_key l.b) ≡ false

a_pairs : List Link → List (Bytes × Bytes)
a_pairs [] = []
a_pairs (l ∷ rest) = (end_key l.a, l.id) ∷ a_pairs rest

a_side_idx-insert_all :
    (links : List Link) (idx : Map Bytes Bytes)
    → a_side_idx idx links ≡ insert_all idx (a_pairs links)
unfolding a_side_idx insert_all a_pairs
a_side_idx-insert_all [] idx = refl
a_side_idx-insert_all (l ∷ rest) idx = a_side_idx-insert_all rest (insert (end_key l.a) l.id idx)

In-a_pairs : (l : Link) (links : List Link) → In l links → In (end_key l.a, l.id) (a_pairs links)
unfolding a_pairs
In-a_pairs l [] m = elim m [ ]
In-a_pairs l (x ∷ rest) (inl e) = inl (ap (λ (y : Link). (end_key y.a, y.id)) e)
In-a_pairs l (x ∷ rest) (inr m) = inr (In-a_pairs l rest m)

All-a_pairs :
    (P : Bytes × Bytes → Type 0) (links : List Link)
    → ((l : Link) → In l links → P (end_key l.a, l.id))
    → All P (a_pairs links)
unfolding a_pairs
All-a_pairs P [] h = tt
All-a_pairs P (l ∷ rest) h = (h l (inl refl), All-a_pairs P rest (λ x m. h x (inr m)))

-- An interface is the A side of the link whose id the index gives.
pub lookup-a_side_idx :
    (links : List Link) (l : Link) (key : Bytes)
    → OwnASides links
    → In l links
    → Settled
        (λ id. (id == l.id) ≡ (key == end_key l.a))
        key
        (end_key l.a)
        (lookup key (a_side_idx [] links))
unfolding lookup
lookup-a_side_idx links l key own m =
    rw (a_side_idx-insert_all links [], lookup-insert_all key (a_pairs links) [])
      (last_of-Settled (λ id. (id == l.id) ≡ (key == end_key l.a)) key (end_key l.a) l.id
        (a_pairs links)
        (All-a_pairs (λ p. p.0 ≡ key → (p.1 == l.id) ≡ (key == end_key l.a)) links
          (λ x n e. sym (own l x m n) ∙ ap (λ k. k == end_key l.a) e))
        (In-a_pairs l links m))

side : Link → Bool → Side
side l is_a = record { link_id = l.id; is_a = is_a }

side_pairs : List Link → List (Bytes × Side)
side_pairs [] = []
side_pairs (l ∷ rest) = (end_key l.a, side l true) ∷ (end_key l.b, side l false) ∷ side_pairs rest

side_idx-insert_all :
    (links : List Link) (idx : Map Bytes Side)
    → side_idx idx links ≡ insert_all idx (side_pairs links)
unfolding side_idx insert_all side_pairs side
side_idx-insert_all [] idx = refl
side_idx-insert_all (l ∷ rest) idx = side_idx-insert_all rest _

abbrev pub end : Link → Bool → Bytes
end l true = end_key l.a
end l false = end_key l.b

In-side_pairs :
    (l : Link) (is_a : Bool) (links : List Link)
    → In l links
    → In (end l is_a, side l is_a) (side_pairs links)
unfolding side_pairs side
In-side_pairs l is_a [] m = elim m [ ]
In-side_pairs l true (x ∷ rest) (inl e) = inl (ap (λ (y : Link). (end y true, side y true)) e)
In-side_pairs l false (x ∷ rest) (inl e) =
    inr (inl (ap (λ (y : Link). (end y false, side y false)) e))
In-side_pairs l is_a (x ∷ rest) (inr m) = inr (inr (In-side_pairs l is_a rest m))

All-side_pairs :
    (P : Bytes × Side → Type 0) (links : List Link)
    → ((l : Link) (is_a : Bool) → In l links → P (end l is_a, side l is_a))
    → All P (side_pairs links)
unfolding side_pairs side
All-side_pairs P [] h = tt
All-side_pairs P (l ∷ rest) h =
    (h l true (inl refl), (h l false (inl refl), All-side_pairs P rest (λ x b m. h x b (inr m))))

-- whether an entry of the index is a given side of a link
abbrev pub is_side : Link → Bool → Side → Bool
is_side l true sd = (sd.link_id == l.id) && sd.is_a
is_side l false sd = (sd.link_id == l.id) && not sd.is_a

end-is_side :
    (links : List Link) (l x : Link) (want is_a : Bool)
    → OwnSides links
    → In l links
    → In x links
    → is_side l want (side x is_a) ≡ (end x is_a == end l want)
unfolding side
end-is_side links l x true true own m n = ground (arith, own.a_sides l x m n)
end-is_side links l x true false own m n =
    ground (arith, own.apart x l n m, beq_comm (end_key x.b) (end_key l.a))
end-is_side links l x false true own m n = ground (arith, own.apart l x m n)
end-is_side links l x false false own m n = ground (arith, own.b_sides l x m n)

-- An interface is a side of the link and the end that the index gives.
pub lookup-side_idx :
    (links : List Link) (l : Link) (want : Bool) (key : Bytes)
    → OwnSides links
    → In l links
    → Settled
        (λ sd. is_side l want sd ≡ (key == end l want))
        key
        (end l want)
        (lookup key (side_idx [] links))
unfolding lookup
lookup-side_idx links l want key own m =
    rw (side_idx-insert_all links [], lookup-insert_all key (side_pairs links) [])
      (last_of-Settled (λ sd. is_side l want sd ≡ (key == end l want)) key (end l want)
        (side l want) (side_pairs links)
        (All-side_pairs (λ p. p.0 ≡ key → is_side l want p.1 ≡ (key == end l want)) links
          (λ x b n e. end-is_side links l x want b own m n ∙ ap (λ k. k == end l want) e))
        (In-side_pairs l want links m))
