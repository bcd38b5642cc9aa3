-- ===== src/Prelude/Maps.antt =====
-- A Go map as an association list, in an arbitrary iteration order.
use mathlib.Core.Path.{◌≡◌, refl}
use mathlib.Core.List.{List, [], ◌∷◌}
use mathlib.Core.Option.{Option, none, some}
use native.Mathlib.Omega.{arith}
use ietf_scion_testbed.Prelude.Tests.{if◌then◌else◌}
use ietf_scion_testbed.Prelude.Keys.{Comparable, ◌==◌}

abbrev pub Map {ℓ κ} : Type ℓ → Type κ → Type (ℓ ⊔ κ)
Map K V = List (K × V)

module _ {ℓ κ} {K : Type ℓ} {V : Type κ} ⦃cmp : Comparable K⦄ where
  -- v, ok := m[key]
  unfoldable pub lookup : K → Map K V → Option V
  lookup key [] = none
  lookup key ((first, here) ∷ rest) = if first == key then some here else lookup key rest

  -- m[key] = value
  unfoldable pub insert : K → V → Map K V → Map K V
  insert key value [] = (key, value) ∷ []
  insert key value ((first, here) ∷ rest) =
      if first == key then (first, value) ∷ rest else (first, here) ∷ insert key value rest

  pub lookup-insert :
      (key wanted : K) (value : V) (m : Map K V)
      → lookup wanted (insert key value m) ≡ (if key == wanted then some value else lookup wanted m)
  unfolding lookup insert
  lookup-insert key wanted value [] = refl
  lookup-insert key wanted value ((first, here) ∷ rest) = ground (
    arith,
    cmp.same_iff first key,
    cmp.same_iff first wanted,
    cmp.same_iff key wanted,
    lookup-insert key wanted value rest,
  )
