-- ===== src/Idint/Pairing.antt =====
-- Which interface lists can be paired, and with what links.
use mathlib.Core.Path.{subst}
use ietf_scion_testbed.Prelude.{
  ◌%◌, ◌≡◌, ◌↔◌, refl, sym, ap, ◌∙◌, true, false, List, [], ◌∷◌, ◌++◌, append-nil, append_assoc,
  length, arith, inl, inr, Bool-cases, Bytes, Map, nat_eq, ◌==◌,
}
use ietf_scion_testbed.Idint.Wire.{Iface, Error, odd_interfaces, Result, ok, err}
use ietf_scion_testbed.Idint.Paths.{link_of, pair_rest, pair_links}
use ietf_scion_testbed.Idint.Numbers.{Resolves, link_of-Resolves}

module _ (table : Map Bytes Bytes) where
  -- The interfaces are pairs, and the first of each resolves to the link in its place.
  pub data Paired : List Iface → List Bytes → Type 0 where
    no_pair : Paired [] []
    pair :
        {a b : Iface} {link : Bytes} {rest : List Iface} {links : List Bytes}
        → Resolves table a link
        → Paired rest links
        → Paired (a ∷ b ∷ rest) (link ∷ links)

  Paired-even :
      {ifaces : List Iface} {links : List Bytes} → Paired ifaces links → length ifaces % 2 ≡ 0
  Paired-even no_pair = refl
  Paired-even (pair e p) = omega (arith, Paired-even p)

  pair_rest-end : (out : List Bytes) → pair_rest table [] out ≡ ok out
  unfolding pair_rest
  pair_rest-end out = refl

  pair_rest-link :
      (a b : Iface) (rest : List Iface) (out : List Bytes) {link : Bytes}
      → link_of table a ≡ ok link
      → pair_rest table (a ∷ b ∷ rest) out ≡ pair_rest table rest (out ++ link ∷ [])
  unfolding pair_rest
  pair_rest-link a b rest out e = rw (e, pair_rest)

  pair_rest-bad_link :
      (a b : Iface) (rest : List Iface) (out : List Bytes) {e : Error}
      → link_of table a ≡ err e
      → pair_rest table (a ∷ b ∷ rest) out ≡ err e
  unfolding pair_rest
  pair_rest-bad_link a b rest out k = rw (k, pair_rest)

  Paired-pair_rest :
      {ifaces : List Iface} {links : List Bytes} (out : List Bytes)
      → Paired ifaces links
      → pair_rest table ifaces out ≡ ok (out ++ links)
  Paired-pair_rest out no_pair = pair_rest-end out ∙ ap ok (sym (append-nil out))
  Paired-pair_rest out (pair {a = a} {b = b} {link = link} {rest = rest} {links = links} e p) =
      pair_rest-link a b rest out ((link_of-Resolves table a link).1 e)
      ∙ Paired-pair_rest (out ++ link ∷ []) p
      ∙ ap ok (append_assoc out (link ∷ []) links)

  -- what a result of the loop says of the interfaces
  abbrev Says : List Iface → List Bytes → Result (List Bytes) → Type 0
  Says ifaces out (err e) = Unit
  Says ifaces out (ok all) = (links : List Bytes) × (all ≡ out ++ links) × Paired ifaces links

  Says-pair :
      (a b : Iface) (rest : List Iface) (out : List Bytes) (link : Bytes) (r : Result (List Bytes))
      → link_of table a ≡ ok link
      → Says rest (out ++ link ∷ []) r
      → Says (a ∷ b ∷ rest) out r
  Says-pair a b rest out link (err e) k s = tt
  Says-pair a b rest out link (ok all) k (links, eq, p) = (
    link ∷ links,
    eq ∙ append_assoc out (link ∷ []) links,
    pair ((link_of-Resolves table a link).0 k) p,
  )

  pair_rest-Says :
      (ifaces : List Iface) (out : List Bytes)
      → length ifaces % 2 ≡ 0
      → Says ifaces out (pair_rest table ifaces out)
  pair_rest-Says [] out h = rw (pair_rest-end out) ([], sym (append-nil out), no_pair)
  pair_rest-Says (a ∷ []) out h = absurd (omega (arith, h))
  pair_rest-Says (a ∷ b ∷ rest) out h =
      go (link_of table a) refl (λ out'. pair_rest-Says rest out' (omega (arith, h)))
    where
      go :
          (r : Result Bytes)
          → link_of table a ≡ r
          → ((out' : List Bytes) → Says rest out' (pair_rest table rest out'))
          → Says (a ∷ b ∷ rest) out (pair_rest table (a ∷ b ∷ rest) out)
      go (err e) k says = rw (pair_rest-bad_link a b rest out k) tt
      go (ok link) k says =
          rw (pair_rest-link a b rest out k)
            (Says-pair a b rest out link _ k (says (out ++ link ∷ [])))

  pair_links-even :
      (ifaces : List Iface)
      → length ifaces % 2 ≡ 0
      → pair_links table ifaces ≡ pair_rest table ifaces []
  unfolding pair_links
  pair_links-even ifaces h = rw even
    where
      even : (length ifaces % 2 == 0) ≡ true
      even = ground (arith, h)

  pair_links-odd :
      (ifaces : List Iface)
      → (length ifaces % 2 == 0) ≡ false
      → pair_links table ifaces ≡ err (odd_interfaces (length ifaces))
  unfolding pair_links
  pair_links-odd ifaces h = rw h

  -- `pairLinks` succeeds with a list of links exactly if the interfaces are pairs and the first of
  -- each, by its AS number and interface, is in the table with the link in its place.
  pub pair_links-Paired :
      (ifaces : List Iface) (links : List Bytes)
      → (pair_links table ifaces ≡ ok links) ↔ Paired ifaces links
  pair_links-Paired ifaces links = (there, back)
    where
      from_says : (r : Result (List Bytes)) → r ≡ ok links → Says ifaces [] r → Paired ifaces links
      from_says (err e) k s = absurd (cc k)
      from_says (ok all) k (found, eq, p) = subst (λ x. Paired ifaces x) (cc (k, eq)) p

      there : pair_links table ifaces ≡ ok links → Paired ifaces links
      there k = elim (Bool-cases (length ifaces % 2 == 0)) [
        | inl even ↦
            let h : length ifaces % 2 ≡ 0 = ground (arith, even) in
            from_says (pair_rest table ifaces []) (sym (pair_links-even ifaces h) ∙ k)
              (pair_rest-Says ifaces [] h)
        | inr odd ↦ absurd (cc (k, pair_links-odd ifaces odd))
      ]

      back : Paired ifaces links → pair_links table ifaces ≡ ok links
      back p = pair_links-even ifaces (Paired-even p) ∙ Paired-pair_rest [] p
