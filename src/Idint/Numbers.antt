-- ===== src/Idint/Numbers.antt =====
-- idint.go: which link the first interface of a pair resolves to: its AS number is read behind the
-- last dash of its ISD-AS.
use ietf_scion_testbed.Prelude.{
  ℕ, ◌≡◌, ◌↔◌, refl, sym, ap, ◌∙◌, false, Option, none, some, [], ◌∷◌, ◌++◌, arith, inl, inr,
  Bool-cases, if◌then◌else◌, Bytes, Map, lookup, bytes_eq, nat_eq, nat_beq_iff, ◌==◌, contains,
  itoa, atoi_unsigned,
}
use ietf_scion_testbed.Idint.Wire.{Iface, bad_ia, not_in_topology, ok, err}
use ietf_scion_testbed.Idint.Paths.{link_key, after_last_dash, as_num_of, link_of}

-- A text is a number behind the last of its dashes.
pub record IsNumbered (text : Bytes) (num : ℕ) : Type 0 where
  pub isd : Bytes
  pub digits : Bytes
  pub cut : text ≡ isd ++ b'-' ∷ digits
  pub last : contains digits b'-' ≡ false
  pub read : atoi_unsigned digits ≡ some num

after_last_dash-none : (text : Bytes) → after_last_dash text ≡ none → contains text b'-' ≡ false
unfolding after_last_dash
after_last_dash-none [] e = refl
after_last_dash-none (c ∷ cs) e = go (after_last_dash cs) refl e (after_last_dash-none cs)
  where
    go :
        (o : Option Bytes)
        → after_last_dash cs ≡ o
        → (elim o [ some rest ↦ some rest | none ↦ if c == b'-' then some cs else none ]) ≡ none
        → (after_last_dash cs ≡ none → contains cs b'-' ≡ false)
        → contains (c ∷ cs) b'-' ≡ false
    go none k h free = ground (arith, free k, h)
    go (some rest) k h free = cc h

after_last_dash-free : (text : Bytes) → contains text b'-' ≡ false → after_last_dash text ≡ none
unfolding after_last_dash
after_last_dash-free [] h = refl
after_last_dash-free (c ∷ cs) h =
    let k : contains cs b'-' ≡ false = ground (arith, h) in
    let n : (c == b'-') ≡ false = ground (arith, h) in rw (after_last_dash-free cs k, n) refl

after_last_dash-cut :
    (isd digits : Bytes)
    → contains digits b'-' ≡ false
    → after_last_dash (isd ++ b'-' ∷ digits) ≡ some digits
unfolding after_last_dash
after_last_dash-cut [] digits h = rw (after_last_dash-free digits h) refl
after_last_dash-cut (c ∷ isd) digits h = rw (after_last_dash-cut isd digits h) refl

-- what the text behind the last dash says of the whole
after_last_dash-some :
    (text digits : Bytes)
    → after_last_dash text ≡ some digits
    → (isd : Bytes) × (text ≡ isd ++ b'-' ∷ digits) × (contains digits b'-' ≡ false)
unfolding after_last_dash
after_last_dash-some [] digits e = absurd (cc e)
after_last_dash-some (c ∷ cs) digits e =
    go (after_last_dash cs) refl e (after_last_dash-some cs digits)
  where
    go :
        (o : Option Bytes)
        → after_last_dash cs ≡ o
        → (elim o [ some rest ↦ some rest | none ↦ if c == b'-' then some cs else none ])
          ≡ some digits
        → (after_last_dash cs ≡ some digits
            → (isd : Bytes) × (cs ≡ isd ++ b'-' ∷ digits) × (contains digits b'-' ≡ false))
        → (isd : Bytes) × (c ∷ cs ≡ isd ++ b'-' ∷ digits) × (contains digits b'-' ≡ false)
    go (some rest) k h later =
        let (isd, cut, last) = later (k ∙ h) in (c ∷ isd, ap (λ t. c ∷ t) cut, last)
    go none k h later = elim (Bool-cases (c == b'-')) [
      | inr other ↦ absurd (cc (other, h))
      | inl dash ↦
          let same : cs ≡ digits = ground (arith, dash, h) in
          let d : c ≡ b'-' = (nat_beq_iff c b'-').0 dash in
          ([], cc (same, d), ap (λ t. contains t b'-') (sym same) ∙ after_last_dash-none cs k)
    ]

module _ (table : Map Bytes Bytes) where
  -- The interface is in the table under its AS number and its own number, as `as:interface`.
  pub record Resolves (a : Iface) (link : Bytes) : Type 0 where
    pub as_num : ℕ
    pub numbered : IsNumbered a.ia as_num
    pub listed : lookup (itoa as_num ++ b':' ∷ itoa a.if_id) table ≡ some link

  pub link_of-Resolves : (a : Iface) (link : Bytes) → (link_of table a ≡ ok link) ↔ Resolves a link
  unfolding link_of as_num_of link_key
  link_of-Resolves a link = (there (after_last_dash a.ia) refl, back)
    where
      found :
          (digits : Bytes) (o : Option ℕ)
          → after_last_dash a.ia ≡ some digits
          → atoi_unsigned digits ≡ o
          → (elim o [
            | none ↦ err (bad_ia a.ia)
            | some num ↦ elim (lookup (link_key num (itoa a.if_id)) table) [
              | none ↦ err (not_in_topology (link_key num (itoa a.if_id)))
              | some l ↦ ok l
            ]
          ])
            ≡ ok link
          → Resolves a link
      found digits none k n h = absurd (cc h)
      found digits (some num) k n h = listed_at (lookup (link_key num (itoa a.if_id)) table) refl h
        where
          listed_at :
              (o : Option Bytes)
              → lookup (link_key num (itoa a.if_id)) table ≡ o
              → (elim o [
                | none ↦ err (not_in_topology (link_key num (itoa a.if_id)))
                | some l ↦ ok l
              ])
                ≡ ok link
              → Resolves a link
          listed_at none j h' = absurd (cc h')
          listed_at (some l) j h' =
              let (isd, cut, last) = after_last_dash-some a.ia digits k in
              record {
                as_num = num;
                numbered = record { isd = isd; digits = digits; cut = cut; last = last; read = n };
                listed = cc (j, h');
              }

      there :
          (o : Option Bytes)
          → after_last_dash a.ia ≡ o
          → (elim (elim o as (λ x. Option ℕ) [ none ↦ none | some rest ↦ atoi_unsigned rest ]) [
            | none ↦ err (bad_ia a.ia)
            | some num ↦ elim (lookup (link_key num (itoa a.if_id)) table) [
              | none ↦ err (not_in_topology (link_key num (itoa a.if_id)))
              | some l ↦ ok l
            ]
          ])
            ≡ ok link
          → Resolves a link
      there none k h = absurd (cc h)
      there (some digits) k h = found digits (atoi_unsigned digits) k refl h

      back : Resolves a link → link_of table a ≡ ok link
      back r =
          let n = r.numbered in
          let k : after_last_dash a.ia ≡ some n.digits =
            ap after_last_dash n.cut ∙ after_last_dash-cut n.isd n.digits n.last in
          rw (k, n.read, r.listed, link_of, as_num_of) refl
