-- ===== src/Prelude/Thins.antt =====
-- Sublists.
use Prim.Native.Nat.{ℕ}
use mathlib.Core.Path.{◌≡◌, refl}
use mathlib.Core.Bool.{false}
use mathlib.Core.List.{List, [], ◌∷◌}
use native.Mathlib.Omega.{arith}
use ietf_scion_testbed.Prelude.Keys.{nat_eq, contains, Distinct}
use ietf_scion_testbed.Prelude.Lists.{All}

-- The first list, with some elements put in, is the second.
pub data Thin : List ℕ → List ℕ → Type 0 where
  empty : Thin [] []
  skip : (y : ℕ) (xs ys : List ℕ) → Thin xs ys → Thin xs (y ∷ ys)
  keep : (x : ℕ) (xs ys : List ℕ) → Thin xs ys → Thin (x ∷ xs) (x ∷ ys)

contains-Thin :
    (n : ℕ) (xs ys : List ℕ) → Thin xs ys → contains ys n ≡ false → contains xs n ≡ false
contains-Thin n _ _ empty h = refl
contains-Thin n _ _ (skip y xs ys t) h = contains-Thin n xs ys t (ground (arith, h))
contains-Thin n _ _ (keep x xs ys t) h = ground (arith, h, contains-Thin n xs ys t)

pub Distinct-Thin : (xs ys : List ℕ) → Thin xs ys → Distinct ys → Distinct xs
Distinct-Thin _ _ empty h = tt
Distinct-Thin _ _ (skip y xs ys t) (_, h) = Distinct-Thin xs ys t h
Distinct-Thin _ _ (keep x xs ys t) (p, h) = (contains-Thin x xs ys t p, Distinct-Thin xs ys t h)

pub All-Thin : (P : ℕ → Type 0) (xs ys : List ℕ) → Thin xs ys → All P ys → All P xs
All-Thin P _ _ empty h = tt
All-Thin P _ _ (skip y xs ys t) (_, h) = All-Thin P xs ys t h
All-Thin P _ _ (keep x xs ys t) (p, h) = (p, All-Thin P xs ys t h)
