-- ===== src/Prober/Turned.antt =====
-- convert.go: the reversed path, and the ASes of its hop fields counted from the near end.
use mathlib.Core.Path.{subst}
use mathlib.Core.List.{reverse-cons}
use ietf_scion_testbed.Prelude.{
  ℕ, zero, suc, ◌+◌, ◌-◌, ◌≤◌, ◌<◌, ◌≡◌, refl, sym, ap, ◌∙◌, none, List, [], ◌∷◌, ◌++◌,
  append_assoc, reverse, length, length-reverse, ltb, ltb→lt, Bool-cases, inl, inr, arith,
}
use ietf_scion_testbed.Prober.{
  Decoded, reversed, seg_changes, interface_at, hopfield_to_interface_idx, get_elem?, fwd_path_meta,
  rev_path_meta,
}
use ietf_scion_testbed.Prober.Hops.{
  owners, Segment, len_of, hops_before, ases_before, IsShaped, fwd_path_meta-hops,
}

module _ {A : Type 0} where
  get_elem-append_left :
      (xs ys : List A) (j : ℕ) → j < length xs → get_elem? (xs ++ ys) j ≡ get_elem? xs j
  get_elem-append_left [] ys j h = absurd (omega arith)
  get_elem-append_left (x ∷ xs) ys zero h = refl
  get_elem-append_left (x ∷ xs) ys (suc j) h = get_elem-append_left xs ys j (omega arith)

  get_elem-append_right :
      (xs ys : List A) (j : ℕ) → get_elem? (xs ++ ys) (length xs + j) ≡ get_elem? ys j
  get_elem-append_right [] ys j = ap (get_elem? ys) (omega arith)
  get_elem-append_right (x ∷ xs) ys j =
      let e : suc (length xs) + j ≡ suc (length xs + j) = omega arith in
      rw e (get_elem-append_right xs ys j)

  get_elem-beyond : (xs : List A) (j : ℕ) → length xs ≤ j → get_elem? xs j ≡ none
  get_elem-beyond [] j h = refl
  get_elem-beyond (x ∷ xs) zero h = absurd (omega arith)
  get_elem-beyond (x ∷ xs) (suc j) h = get_elem-beyond xs j (omega arith)

  get_elem-reverse :
      (xs : List A) (j : ℕ)
      → j < length xs
      → get_elem? xs (length xs - j - 1) ≡ get_elem? (reverse xs) j
  get_elem-reverse [] j h = absurd (omega arith)
  get_elem-reverse (x ∷ xs) j h = elim (Bool-cases (ltb j (length xs))) [
    | inl low ↦
        let k = ltb→lt j (length xs) low in
        let e : suc (length xs) - j - 1 ≡ suc (length xs - j - 1) = omega arith in
        rw (e, reverse-cons x xs)
          (get_elem-reverse xs j k
            ∙ sym (get_elem-append_left (reverse xs) (x ∷ []) j (rw (length-reverse xs) k)))
    | inr high ↦
        let e : suc (length xs) - j - 1 ≡ 0 = ground arith in
        let d : j ≡ length (reverse xs) + 0 = rw (length-reverse xs) (ground arith) in
        rw (e, reverse-cons x xs)
          (sym (
            ap (get_elem? (reverse xs ++ x ∷ [])) d
            ∙ get_elem-append_right (reverse xs) (x ∷ []) 0))
  ]

  owners-snoc :
      (xs : List A) (b c : A) → owners (xs ++ b ∷ c ∷ []) ≡ owners (xs ++ b ∷ []) ++ b ∷ c ∷ []
  unfolding owners
  owners-snoc [] b c = refl
  owners-snoc (a ∷ []) b c = refl
  owners-snoc (a ∷ d ∷ xs) b c = ap (λ l. a ∷ d ∷ l) (owners-snoc (d ∷ xs) b c)

  reverse-owners : (ases : List A) → reverse (owners ases) ≡ owners (reverse ases)
  unfolding owners
  reverse-owners [] = refl
  reverse-owners (a ∷ []) = refl
  reverse-owners (a ∷ b ∷ rest) =
      rw
        (
          reverse-cons a (b ∷ owners (b ∷ rest)),
          reverse-cons b (owners (b ∷ rest)),
          reverse-cons a (b ∷ rest),
          reverse-cons b rest,
          append_assoc,
          append_assoc,
          owners-snoc (reverse rest) b a,
        )
        (ap (λ l. l ++ b ∷ a ∷ []) (reverse-owners (b ∷ rest) ∙ ap owners (reverse-cons b rest)))

  rev_path_meta-reverse :
      (ifaces : List A) (d : Decoded) (i : ℕ)
      → rev_path_meta ifaces d i ≡ fwd_path_meta (reverse ifaces) (reversed d) i
  unfolding rev_path_meta fwd_path_meta hopfield_to_interface_idx
  rev_path_meta-reverse ifaces d i =
      let j = interface_at (seg_changes (reversed d)) i in
      elim (Bool-cases (ltb j (length ifaces))) [
        | inl low ↦ rw low (get_elem-reverse ifaces j (ltb→lt j (length ifaces) low))
        | inr high ↦
            rw high
              (sym (get_elem-beyond (reverse ifaces) j (rw (length-reverse ifaces) (ground arith))))
      ]

  rev_path_meta-turned :
      (ases : List A) (d e : Decoded) (s : Segment) (m : ℕ)
      → reversed d ≡ e
      → 2 ≤ length ases
      → IsShaped e
      → m < len_of e s
      → rev_path_meta (owners ases) d (hops_before e s + m)
        ≡ get_elem? (reverse ases) (ases_before e s + m)
  rev_path_meta-turned ases d e s m turned n =
      subst
        (λ x.
          IsShaped x
          → m < len_of x s
          → rev_path_meta (owners ases) d (hops_before x s + m)
            ≡ get_elem? (reverse ases) (ases_before x s + m))
        turned
        (λ h k.
          rev_path_meta-reverse (owners ases) d (hops_before (reversed d) s + m)
          ∙ ap (λ l. fwd_path_meta l (reversed d) (hops_before (reversed d) s + m))
              (reverse-owners ases)
          ∙ fwd_path_meta-hops (reverse ases) (reversed d) s m (rw (length-reverse ases) n) h k)

  -- a hop field of the way back, and an AS counted from the near end
  pub back :
      (ases : List A) (d e : Decoded) (s : Segment) (m i q : ℕ)
      → reversed d ≡ e
      → 2 ≤ length ases
      → IsShaped e
      → m < len_of e s
      → hops_before e s + m ≡ i
      → q < length ases
      → ases_before e s + m ≡ length ases - 1 - q
      → rev_path_meta (owners ases) d i ≡ get_elem? ases q
  back ases d e s m i q turned n h k hop low place =
      ap (rev_path_meta (owners ases) d) (sym hop)
      ∙ rev_path_meta-turned ases d e s m turned n h k
      ∙ ap (get_elem? (reverse ases)) place
      ∙ sym (get_elem-reverse ases (length ases - 1 - q) (omega arith))
      ∙ ap (get_elem? ases) (omega arith)
