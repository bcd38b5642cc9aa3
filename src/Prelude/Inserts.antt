-- ===== src/Prelude/Inserts.antt =====
-- A sequence of assignments to a map: the last one of a key counts.
use mathlib.Core.Path.{◌≡◌, refl, ap, ◌∙◌}
use mathlib.Core.Logic.{inl, inr}
use mathlib.Core.Bool.{false}
use mathlib.Core.Option.{Option, none, some}
use mathlib.Core.List.{List, [], ◌∷◌, ◌++◌}
use native.Mathlib.Omega.{arith}
use ietf_scion_testbed.Prelude.Tests.{if◌then◌else◌, Bool-cases}
use ietf_scion_testbed.Prelude.Keys.{Comparable, ◌==◌, beq_refl}
use ietf_scion_testbed.Prelude.Lists.{All}
use ietf_scion_testbed.Prelude.Maps.{Map, lookup, insert, lookup-insert}
use ietf_scion_testbed.Prelude.Sorted.{In}

module _ {V : Type 0} where
  -- a claim on the value that a map holds for a key, if it does
  abbrev pub IfHeld : (V → Type 0) → Option V → Type 0
  IfHeld P none = Unit
  IfHeld P (some v) = P v

  abbrev pub IsHeld : Option V → Type 0
  IsHeld o = (v : V) × (o ≡ some v)

module _ {K V : Type 0} ⦃cmp : Comparable K⦄ where
  unfoldable pub insert_all : Map K V → List (K × V) → Map K V
  insert_all m [] = m
  insert_all m ((key, value) ∷ rest) = insert_all (insert key value m) rest

  -- the value of the last pair with a key, `before` if there is none
  unfoldable pub last_of : K → Option V → List (K × V) → Option V
  last_of wanted before [] = before
  last_of wanted before ((key, value) ∷ rest) =
      last_of wanted (if key == wanted then some value else before) rest

  pub lookup-insert_all :
      (wanted : K) (pairs : List (K × V)) (m : Map K V)
      → lookup wanted (insert_all m pairs) ≡ last_of wanted (lookup wanted m) pairs
  unfolding insert_all last_of
  lookup-insert_all wanted [] m = refl
  lookup-insert_all wanted ((key, value) ∷ rest) m =
      lookup-insert_all wanted rest (insert key value m)
      ∙ rw (lookup-insert key wanted value m) refl

  pub last_of-append :
      (wanted : K) (before : Option V) (xs ys : List (K × V))
      → last_of wanted before (xs ++ ys) ≡ last_of wanted (last_of wanted before xs) ys
  unfolding last_of
  last_of-append wanted before [] ys = refl
  last_of-append wanted before ((key, value) ∷ rest) ys =
      last_of-append wanted (if key == wanted then some value else before) rest ys

  pub last_of-IfHeld :
      (P : V → Type 0) (wanted : K) (before : Option V) (pairs : List (K × V))
      → IfHeld P before
      → All (λ (p : K × V). p.0 ≡ wanted → P p.1) pairs
      → IfHeld P (last_of wanted before pairs)
  unfolding last_of
  last_of-IfHeld P wanted before [] b h = b
  last_of-IfHeld P wanted before ((key, value) ∷ rest) b (p, h) =
      elim (Bool-cases (key == wanted)) [
        | inl same ↦
            rw same
              (last_of-IfHeld P wanted (some value) rest (p ((cmp.same_iff key wanted).0 same)) h)
        | inr other ↦ rw other (last_of-IfHeld P wanted before rest b h)
      ]

  last_of-kept :
      (wanted : K) (before : Option V) (pairs : List (K × V))
      → IsHeld before
      → IsHeld (last_of wanted before pairs)
  unfolding last_of
  last_of-kept wanted before [] h = h
  last_of-kept wanted before ((key, value) ∷ rest) h = elim (Bool-cases (key == wanted)) [
    | inl same ↦ rw same (last_of-kept wanted (some value) rest (value, refl))
    | inr other ↦ rw other (last_of-kept wanted before rest h)
  ]

  -- A pair of the sequence has the key's value, or a later one has.
  pub last_of-IsHeld :
      (wanted : K) (value : V) (before : Option V) (pairs : List (K × V))
      → In (wanted, value) pairs
      → IsHeld (last_of wanted before pairs)
  unfolding last_of
  last_of-IsHeld wanted value before [] m = elim m [ ]
  last_of-IsHeld wanted value before ((key, v) ∷ rest) (inl e) =
      rw (ap (λ (p : K × V). p.0) e, beq_refl wanted) (last_of-kept wanted (some v) rest (v, refl))
  last_of-IsHeld wanted value before ((key, v) ∷ rest) (inr m) =
      last_of-IsHeld wanted value (if key == wanted then some v else before) rest m

  -- The claim `P` on what a sequence gives a key; it gives something to `present`.
  abbrev pub Settled : (V → Type 0) → K → K → Option V → Type 0
  Settled P wanted present none = (wanted == present) ≡ false
  Settled P wanted present (some v) = P v

  pub last_of-Settled :
      (P : V → Type 0) (wanted present : K) (value : V) (pairs : List (K × V))
      → All (λ (p : K × V). p.0 ≡ wanted → P p.1) pairs
      → In (present, value) pairs
      → Settled P wanted present (last_of wanted none pairs)
  last_of-Settled P wanted present value pairs h m =
      go (last_of wanted none pairs) refl (last_of-IfHeld P wanted none pairs tt h)
    where
      go : (o : Option V) → last_of wanted none pairs ≡ o → IfHeld P o → Settled P wanted present o
      go (some v) e p = p
      go none e p = elim (Bool-cases (wanted == present)) [
        | inr other ↦ other
        | inl same ↦
            let q = (cmp.same_iff wanted present).0 same in
            let (v, held) = last_of-IsHeld wanted value none pairs (rw q m) in
            ground (arith, e, held)
      ]
