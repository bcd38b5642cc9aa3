-- ===== src/Prober/Hops.antt =====
-- convert.go: the AS of a hop field.
use ietf_scion_testbed.Prelude.{
  ℕ, zero, suc, ◌+◌, ◌-◌, ◌*◌, ◌^◌, ◌≤◌, ◌<◌, ◌≡◌, refl, ap, ◌∙◌, Bool, true, false, ◌&&◌, List, [],
  ◌∷◌, length, if◌then◌else◌, ltb, lt→ltb, ◌⊎◌, inl, inr, arith,
}
use ietf_scion_testbed.Prober.{
  Decoded, minus, seg_changes, interface_at, hopfield_to_interface_idx, get_elem?, fwd_path_meta,
}

minus-sub : (a b : ℕ) → b ≤ a → a < 2 ^ 64 → minus a b ≡ a - b
minus-sub a b h k = omega arith

-- The ASes that own a path's interfaces: two for each link, the near end and the far one.
unfoldable pub owners : {IA : Type 0} → List IA → List IA
owners [] = []
owners (a ∷ []) = []
owners (a ∷ b ∷ rest) = a ∷ b ∷ owners (b ∷ rest)

pub data Segment : Type 0 where
  first : Segment
  second : Segment
  third : Segment

abbrev pub len_of : Decoded → Segment → ℕ
len_of d first = d.len_0
len_of d second = d.len_1
len_of d third = d.len_2

-- the hop fields before a segment
abbrev pub hops_before : Decoded → Segment → ℕ
hops_before d first = 0
hops_before d second = d.len_0
hops_before d third = d.len_0 + d.len_1

-- The ASes before a segment: the last of a segment is also the first of the next one, unless the two
-- are joined by a peering link.
abbrev pub ases_before : Decoded → Segment → ℕ
ases_before d first = 0
ases_before d second = if d.peer_0 && ltb 1 d.num_inf then d.len_0 else d.len_0 - 1
ases_before d third = d.len_0 - 1 + (d.len_1 - 1)

-- Two segments that are joined by a peering link: both info fields have the flag.
pub record ArePeers (d : Decoded) : Type 0 where
  pub peer_0 : d.peer_0 ≡ true
  pub peer_1 : d.peer_1 ≡ true
  pub two : d.num_inf ≡ 2
  pub len_0 : 1 ≤ d.len_0
  pub len_1 : 1 ≤ d.len_1
  pub len_2 : d.len_2 ≡ 0

-- Up to three segments, each with its own hop field of the AS that joins it to the next.
pub record ArePlain (d : Decoded) : Type 0 where
  pub peer_0 : d.peer_0 ≡ false
  pub peer_1 : d.peer_1 ≡ false
  pub len_0 : 2 ≤ d.len_0
  pub len_1 : (d.len_2 ≡ 0) ⊎ (2 ≤ d.len_1)

-- Lengths are of 6 bits.
pub record IsShaped (d : Decoded) : Type 0 where
  pub len_0 : d.len_0 < 64
  pub len_1 : d.len_1 < 64
  pub len_2 : d.len_2 < 64
  pub joined : ArePeers d ⊎ ArePlain d

module _ {IA : Type 0} where
  odd :
      (a : IA) (rest : List IA) (p : ℕ)
      → get_elem? (owners (a ∷ rest)) (suc (2 * p)) ≡ get_elem? rest p
  unfolding owners
  odd a [] p = refl
  odd a (b ∷ rest) zero = refl
  odd a (b ∷ rest) (suc p) =
      let e : 2 * suc p ≡ suc (suc (2 * p)) = omega arith in rw e (odd b rest p)

  at_as :
      (ases : List IA) (j q : ℕ)
      → 2 ≤ length ases
      → ((q ≡ 0) × (j ≡ 0)) ⊎ ((1 ≤ q) × (j ≡ suc (2 * (q - 1))))
      → get_elem? (owners ases) j ≡ get_elem? ases q
  unfolding owners
  at_as [] j q h k = absurd (omega arith)
  at_as (a ∷ []) j q h k = absurd (omega arith)
  at_as (a ∷ b ∷ rest) j q h (inl (e, k)) = rw (e, k) refl
  at_as (a ∷ b ∷ rest) j zero h (inr (n, k)) = absurd (omega arith)
  at_as (a ∷ b ∷ rest) j (suc q) h (inr (n, k)) =
      let e : suc q - 1 ≡ q = omega arith in
      ap (get_elem? (owners (a ∷ b ∷ rest))) (k ∙ ap (λ x. suc (2 * x)) e) ∙ odd a (b ∷ rest) q

module _ (end_0 end_1 i : ℕ) (small : i < 256) where
  in_first : 0 < i → i < end_0 → interface_at (end_0, end_1) i ≡ 2 * i - 1
  unfolding interface_at
  in_first h k =
      rw (lt→ltb 0 i h, lt→ltb i end_0 k) (minus-sub (2 * i) 1 (omega arith) (omega arith))

  in_second : 1 < i → end_0 ≤ i → i < end_1 → interface_at (end_0, end_1) i ≡ 2 * i - 3
  unfolding interface_at
  in_second h k l =
      let n : ltb i end_0 ≡ false = ground arith in
      rw (lt→ltb 0 i (omega arith), n, lt→ltb i end_1 l)
        (minus-sub (2 * i) 3 (omega arith) (omega arith))

  in_third : 2 < i → end_0 ≤ i → end_1 ≤ i → interface_at (end_0, end_1) i ≡ 2 * i - 5
  unfolding interface_at
  in_third h k l =
      let n : ltb i end_0 ≡ false = ground arith in
      let o : ltb i end_1 ≡ false = ground arith in
      rw (lt→ltb 0 i (omega arith), n, o) (minus-sub (2 * i) 5 (omega arith) (omega arith))

-- a hop field at an interface that the AS before it on the path has a link to
abbrev IsAt : ℕ → ℕ → Type 0
IsAt j q = ((q ≡ 0) × (j ≡ 0)) ⊎ ((1 ≤ q) × (j ≡ suc (2 * (q - 1))))

first-IsAt : (e0 e1 l0 m : ℕ) → l0 ≤ e0 → l0 < 64 → m < l0 → IsAt (interface_at (e0, e1) m) m
unfolding interface_at
first-IsAt e0 e1 l0 zero h k l = inl (refl, refl)
first-IsAt e0 e1 l0 (suc m) h k l =
    inr
      (omega arith, in_first e0 e1 (suc m) (omega arith) (omega arith) (omega arith) ∙ omega arith)

-- the second segment, by whether the two are joined by a peering link
second-IsAt :
    (peers : Bool) (e1 l0 l1 m : ℕ)
    → (if peers then 1 else 2) ≤ l0
    → l0 < 64
    → l1 < 64
    → m < l1
    → (if peers then l0 + l1 else e1) ≡ l0 + l1
    → IsAt
        (interface_at (if peers then l0 + l1 else l0, e1) (l0 + m))
        ((if peers then l0 else l0 - 1) + m)
second-IsAt true e1 l0 l1 m a b c d e = inr (
  omega arith,
  in_first (l0 + l1) e1 (l0 + m) (omega arith) (omega arith) (omega arith) ∙ omega arith,
)
second-IsAt false e1 l0 l1 m a b c d e = inr (
  omega arith,
  in_second l0 e1 (l0 + m) (omega arith) (omega arith) (omega arith) (omega arith) ∙ omega arith,
)

third-IsAt :
    (l0 l1 l2 m : ℕ)
    → 2 ≤ l0
    → 2 ≤ l1
    → l0 < 64
    → l1 < 64
    → l2 < 64
    → m < l2
    → IsAt (interface_at (l0, l0 + l1) (l0 + l1 + m)) (l0 - 1 + (l1 - 1) + m)
third-IsAt l0 l1 l2 m a b c d e f = inr (
  omega arith,
  in_third l0 (l0 + l1) (l0 + l1 + m) (omega arith) (omega arith) (omega arith) (omega arith)
      ∙ omega arith,
)

if_le : (b : Bool) (l0 l1 : ℕ) → l0 ≤ (if b then l0 + l1 else l0)
if_le true l0 l1 = omega arith
if_le false l0 l1 = omega arith

joined-first :
    (d : Decoded)
    → ArePeers d ⊎ ArePlain d
    → ((if d.peer_0 && ltb 1 d.num_inf then 1 else 2) ≤ d.len_0)
      × ((if d.peer_0 && ltb 1 d.num_inf then d.len_0 + d.len_1 else (seg_changes d).1)
          ≡ d.len_0 + d.len_1)
unfolding seg_changes
joined-first d (inl p) =
    let joins : (d.peer_0 && ltb 1 d.num_inf) ≡ true = ground (arith, p.peer_0, p.two) in
    rw joins (p.len_0, refl)
joined-first d (inr p) =
    let joins : (d.peer_0 && ltb 1 d.num_inf) ≡ false = ground (arith, p.peer_0) in
    let plain : (d.peer_1 && ltb 2 d.num_inf) ≡ false = ground (arith, p.peer_1) in
    rw (joins, plain) (p.len_0, refl)

interface_of :
    (d : Decoded) (s : Segment) (m : ℕ)
    → IsShaped d
    → m < len_of d s
    → IsAt (interface_at (seg_changes d) (hops_before d s + m)) (ases_before d s + m)
unfolding seg_changes
interface_of d first m h k =
    let e : 0 + m ≡ m = omega arith in
    rw e (
      first-IsAt (seg_changes d).0 (seg_changes d).1 d.len_0 m
        (if_le (d.peer_0 && ltb 1 d.num_inf) d.len_0 d.len_1) h.len_0 k)
interface_of d second m h k =
    let (enough, ends) = joined-first d h.joined in
    second-IsAt (d.peer_0 && ltb 1 d.num_inf) (seg_changes d).1 d.len_0 d.len_1 m enough h.len_0
      h.len_1 k ends
interface_of d third m h k = elim h.joined [
  | inl p ↦ absurd (omega (arith, p.len_2))
  | inr p ↦ elim p.len_1 [
    | inl e ↦ absurd (omega arith)
    | inr two ↦
        rw (p.peer_0, p.peer_1)
          (third-IsAt d.len_0 d.len_1 d.len_2 m p.len_0 two h.len_0 h.len_1 h.len_2 k)
  ]
]

module _ {IA : Type 0} where
  -- On a path of at least two ASes, with at most 63 hop fields in each of up to three segments that
  -- are joined at a common AS, or of two that are joined by a peering link, which both are marked as
  -- such: the hop field of any place in a segment is given the AS at this place, counted over the
  -- ASes of the segments before.
  pub fwd_path_meta-hops :
      (ases : List IA) (d : Decoded) (s : Segment) (m : ℕ)
      → 2 ≤ length ases
      → IsShaped d
      → m < len_of d s
      → fwd_path_meta (owners ases) d (hops_before d s + m) ≡ get_elem? ases (ases_before d s + m)
  unfolding fwd_path_meta hopfield_to_interface_idx
  fwd_path_meta-hops ases d s m n h k =
      at_as ases (interface_at (seg_changes d) (hops_before d s + m)) (ases_before d s + m) n
        (interface_of d s m h k)
