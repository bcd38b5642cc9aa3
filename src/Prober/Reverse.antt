-- ===== src/Prober/Reverse.antt =====
-- convert.go: the AS of a hop field on the way back.
use ietf_scion_testbed.Prelude.{
  ℕ, ◌+◌, ◌-◌, ◌≤◌, ◌<◌, ◌≡◌, refl, ◌∙◌, List, ◌⊎◌, Bool, true, false, ◌&&◌, if◌then◌else◌, length,
  ltb, inl, inr, arith,
}
use ietf_scion_testbed.Prober.{Decoded, reversed, get_elem?, rev_path_meta}
use ietf_scion_testbed.Prober.Hops.{
  ArePeers, ArePlain, first, second, third, owners, Segment, len_of, hops_before, ases_before,
  IsShaped,
}
use ietf_scion_testbed.Prober.Turned.{back}

-- The paths that are there: one segment, two that are joined by a peering link, or two or three that
-- are joined at a common AS.
pub data Kind (d : Decoded) : Type 0 where
  single :
      (2 ≤ d.len_0)
      → (d.len_1 ≡ 0)
      → (d.len_2 ≡ 0)
      → (d.peer_0 ≡ false)
      → (d.peer_1 ≡ false)
      → Kind d
  peering : ArePeers d → Kind d
  double :
      (2 ≤ d.len_0)
      → (2 ≤ d.len_1)
      → (d.len_2 ≡ 0)
      → (d.peer_0 ≡ false)
      → (d.peer_1 ≡ false)
      → Kind d
  triple :
      (2 ≤ d.len_0)
      → (2 ≤ d.len_1)
      → (2 ≤ d.len_2)
      → (d.peer_0 ≡ false)
      → (d.peer_1 ≡ false)
      → (d.peer_2 ≡ false)
      → Kind d

pub record IsRoute (d : Decoded) : Type 0 where
  pub len_0 : d.len_0 < 64
  pub len_1 : d.len_1 < 64
  pub len_2 : d.len_2 < 64
  pub kind : Kind d

abbrev pub num_hops : Decoded → ℕ
num_hops d = d.len_0 + d.len_1 + d.len_2

-- the ASes of a path: two segments share one, but for those that are joined by a peering link
abbrev pub num_ases : Decoded → ℕ
num_ases d =
    if d.peer_0 && ltb 1 d.num_inf
    then d.len_0 + d.len_1
    else d.len_0 - 1 + (d.len_1 - 1) + (d.len_2 - 1) + 1

reversed-single : (d : Decoded) → d.len_1 ≡ 0 → d.len_2 ≡ 0 → reversed d ≡ d
unfolding reversed
reversed-single d a b = rw (a, b) refl

abbrev turned_two : Decoded → Decoded
turned_two d = record d { len_0 = d.len_1; len_1 = d.len_0; peer_0 = d.peer_1; peer_1 = d.peer_0 }

reversed-two : (d : Decoded) → 1 ≤ d.len_1 → d.len_2 ≡ 0 → reversed d ≡ turned_two d
unfolding reversed
reversed-two d a b =
    let p : ltb 0 d.len_1 ≡ true = ground arith in
    let q : ltb 0 d.len_2 ≡ false = ground (arith, b) in rw (q, p) refl

abbrev turned_three : Decoded → Decoded
turned_three d = record d { len_0 = d.len_2; len_2 = d.len_0; peer_0 = d.peer_2; peer_2 = d.peer_0 }

reversed-three : (d : Decoded) → 1 ≤ d.len_2 → reversed d ≡ turned_three d
unfolding reversed
reversed-three d a = let p : ltb 0 d.len_2 ≡ true = ground arith in rw p refl

module _ {A : Type 0} (ases : List A) (d : Decoded) (r : IsRoute d) where
  Mirrored : Segment → ℕ → Type 0
  Mirrored s m =
      rev_path_meta (owners ases) d (num_hops d - 1 - (hops_before d s + m))
      ≡ get_elem? ases (ases_before d s + m)

  plain_joint : (n : ℕ) (b : Bool) → b ≡ false → (b && ltb 1 n) ≡ false
  plain_joint n b e = ground (arith, e)

  peer_joint : (b : Bool) (n : ℕ) → b ≡ true → n ≡ 2 → (b && ltb 1 n) ≡ true
  peer_joint b n e k = ground (arith, e, k)

  single-Mirrored :
      (s : Segment) (m : ℕ)
      → 2 ≤ d.len_0
      → d.len_1 ≡ 0
      → d.len_2 ≡ 0
      → d.peer_0 ≡ false
      → d.peer_1 ≡ false
      → length ases ≡ num_ases d
      → m < len_of d s
      → Mirrored s m
  unfolding Mirrored
  single-Mirrored first m a b c p q n k =
      let j = plain_joint d.num_inf d.peer_0 p in
      let n' : length ases ≡ d.len_0 = n ∙ rw j (omega (arith, b, c)) in
      back ases d d first (d.len_0 - 1 - m) _ (0 + m) (reversed-single d b c) (omega (arith, n'))
        (record {
          len_0 = r.len_0;
          len_1 = r.len_1;
          len_2 = r.len_2;
          joined = inr (record { peer_0 = p; peer_1 = q; len_0 = a; len_1 = inl c });
        })
        (omega arith) (omega (arith, b, c)) (omega (arith, n')) (omega (arith, n'))
  single-Mirrored second m a b c p q n k = absurd (omega (arith, b))
  single-Mirrored third m a b c p q n k = absurd (omega (arith, c))

  turned_two-IsShaped : ArePeers (turned_two d) ⊎ ArePlain (turned_two d) → IsShaped (turned_two d)
  turned_two-IsShaped j = record { len_0 = r.len_1; len_1 = r.len_0; len_2 = r.len_2; joined = j }

  double-Mirrored :
      (s : Segment) (m : ℕ)
      → 2 ≤ d.len_0
      → 2 ≤ d.len_1
      → d.len_2 ≡ 0
      → d.peer_0 ≡ false
      → d.peer_1 ≡ false
      → length ases ≡ num_ases d
      → m < len_of d s
      → Mirrored s m
  unfolding Mirrored
  double-Mirrored s m a b c p q n k =
      let j = plain_joint d.num_inf d.peer_0 p in
      let j' = plain_joint d.num_inf d.peer_1 q in
      let n' : length ases ≡ d.len_0 + d.len_1 - 1 = n ∙ rw j (omega (arith, c)) in
      let turned = reversed-two d (omega arith) c in
      let shaped =
        turned_two-IsShaped (inr (record { peer_0 = q; peer_1 = p; len_0 = b; len_1 = inl c })) in
      go s k j j' n' turned shaped
    where
      go :
          (s' : Segment)
          → m < len_of d s'
          → (d.peer_0 && ltb 1 d.num_inf) ≡ false
          → (d.peer_1 && ltb 1 d.num_inf) ≡ false
          → length ases ≡ d.len_0 + d.len_1 - 1
          → reversed d ≡ turned_two d
          → IsShaped (turned_two d)
          → rev_path_meta (owners ases) d (num_hops d - 1 - (hops_before d s' + m))
            ≡ get_elem? ases (ases_before d s' + m)
      go first l j j' n' turned shaped =
          back ases d (turned_two d) second (d.len_0 - 1 - m) _ (0 + m) turned (omega (arith, n'))
            shaped (omega arith) (omega (arith, c)) (omega (arith, n')) (rw j' (omega (arith, n')))
      go second l j j' n' turned shaped = rw j (
          back ases d (turned_two d) first (d.len_1 - 1 - m) _ (d.len_0 - 1 + m) turned
            (omega (arith, n')) shaped (omega arith) (omega (arith, c)) (omega (arith, n'))
            (omega (arith, n')))
      go third l j j' n' turned shaped = absurd (omega (arith, c))

  peering-Mirrored :
      (s : Segment) (m : ℕ)
      → ArePeers d
      → 2 ≤ length ases
      → length ases ≡ num_ases d
      → m < len_of d s
      → Mirrored s m
  unfolding Mirrored
  peering-Mirrored s m p two n k =
      let j = peer_joint d.peer_0 d.num_inf p.peer_0 p.two in
      let j' = peer_joint d.peer_1 d.num_inf p.peer_1 p.two in
      let n' : length ases ≡ d.len_0 + d.len_1 = n ∙ rw j refl in
      let turned = reversed-two d p.len_1 p.len_2 in
      let shaped = turned_two-IsShaped (
        inl (record {
          peer_0 = p.peer_1;
          peer_1 = p.peer_0;
          two = p.two;
          len_0 = p.len_1;
          len_1 = p.len_0;
          len_2 = p.len_2;
        })) in
      go s k p.len_2 j j' n' turned shaped
    where
      go :
          (s' : Segment)
          → m < len_of d s'
          → d.len_2 ≡ 0
          → (d.peer_0 && ltb 1 d.num_inf) ≡ true
          → (d.peer_1 && ltb 1 d.num_inf) ≡ true
          → length ases ≡ d.len_0 + d.len_1
          → reversed d ≡ turned_two d
          → IsShaped (turned_two d)
          → rev_path_meta (owners ases) d (num_hops d - 1 - (hops_before d s' + m))
            ≡ get_elem? ases (ases_before d s' + m)
      go first l c j j' n' turned shaped =
          back ases d (turned_two d) second (d.len_0 - 1 - m) _ (0 + m) turned two shaped
            (omega arith) (omega (arith, c)) (omega (arith, n')) (rw j' (omega (arith, n')))
      go second l c j j' n' turned shaped = rw j (
          back ases d (turned_two d) first (d.len_1 - 1 - m) _ (d.len_0 + m) turned two shaped
            (omega arith) (omega (arith, c)) (omega (arith, n')) (omega (arith, n')))
      go third l c j j' n' turned shaped = absurd (omega (arith, c))

  triple-Mirrored :
      (s : Segment) (m : ℕ)
      → 2 ≤ d.len_0
      → 2 ≤ d.len_1
      → 2 ≤ d.len_2
      → d.peer_0 ≡ false
      → d.peer_1 ≡ false
      → d.peer_2 ≡ false
      → length ases ≡ num_ases d
      → m < len_of d s
      → Mirrored s m
  unfolding Mirrored
  triple-Mirrored s m a b c p q o n k =
      let j = plain_joint d.num_inf d.peer_0 p in
      let j' = plain_joint d.num_inf d.peer_2 o in
      let n' : length ases ≡ d.len_0 + d.len_1 + d.len_2 - 2 = n ∙ rw j (omega arith) in
      let turned = reversed-three d (omega arith) in
      let shaped : IsShaped (turned_three d) = record {
        len_0 = r.len_2;
        len_1 = r.len_1;
        len_2 = r.len_0;
        joined = inr (record { peer_0 = o; peer_1 = q; len_0 = c; len_1 = inr b });
      } in
      go s k j j' n' turned shaped
    where
      go :
          (s' : Segment)
          → m < len_of d s'
          → (d.peer_0 && ltb 1 d.num_inf) ≡ false
          → (d.peer_2 && ltb 1 d.num_inf) ≡ false
          → length ases ≡ d.len_0 + d.len_1 + d.len_2 - 2
          → reversed d ≡ turned_three d
          → IsShaped (turned_three d)
          → rev_path_meta (owners ases) d (num_hops d - 1 - (hops_before d s' + m))
            ≡ get_elem? ases (ases_before d s' + m)
      go first l j j' n' turned shaped =
          back ases d (turned_three d) third (d.len_0 - 1 - m) _ (0 + m) turned (omega (arith, n'))
            shaped (omega arith) (omega arith) (omega (arith, n')) (omega (arith, n'))
      go second l j j' n' turned shaped = rw j (
          back ases d (turned_three d) second (d.len_1 - 1 - m) _ (d.len_0 - 1 + m) turned
            (omega (arith, n')) shaped (omega arith) (omega arith) (omega (arith, n'))
            (rw j' (omega (arith, n'))))
      go third l j j' n' turned shaped =
          back ases d (turned_three d) first (d.len_2 - 1 - m) _ (d.len_0 - 1 + (d.len_1 - 1) + m)
            turned (omega (arith, n')) shaped (omega arith) (omega arith) (omega (arith, n'))
            (omega (arith, n'))

  -- On a path of one segment, of two or three that are joined at a common AS, or of two that are
  -- joined by a peering link, where both are marked as such; with at most 63 hop fields in a segment,
  -- at least two unless it ends at a peering link, and at least two ASes, of which there are as many
  -- as the hop fields give: counted from the other end of the path, the hop field of any place in a
  -- segment is given on the way back the AS at this place, counted over the ASes of the segments
  -- before.
  pub rev_path_meta-hops :
      (s : Segment) (m : ℕ)
      → 2 ≤ length ases
      → length ases ≡ num_ases d
      → m < len_of d s
      → rev_path_meta (owners ases) d (num_hops d - 1 - (hops_before d s + m))
        ≡ get_elem? ases (ases_before d s + m)
  unfolding Mirrored
  rev_path_meta-hops s m two n k = elim r.kind [
    | single a b c p q ↦ single-Mirrored s m a b c p q n k
    | peering p ↦ peering-Mirrored s m p two n k
    | double a b c p q ↦ double-Mirrored s m a b c p q n k
    | triple a b c p q o ↦ triple-Mirrored s m a b c p q o n k
  ]
