-- ===== src/Prelude/Sorted.antt =====
-- What sorting by a test gives: an ordered list with the same elements.
use mathlib.Core.Path.{◌≡◌, refl}
use mathlib.Core.Logic.{◌⊎◌, inl, inr}
use mathlib.Core.Bool.{Bool, true, false}
use mathlib.Core.List.{List, [], ◌∷◌, ◌++◌}
use ietf_scion_testbed.Prelude.Tests.{Bool-cases}
use ietf_scion_testbed.Prelude.Lists.{All}
use ietf_scion_testbed.Prelude.Sort.{insert_sorted, sort_by}

module _ {A : Type 0} where
  -- `a` is an element
  abbrev pub In : A → List A → Type 0
  In a [] = ⊥
  In a (x ∷ xs) = (x ≡ a) ⊎ In a xs

  pub In-append_left : (a : A) (xs ys : List A) → In a xs → In a (xs ++ ys)
  In-append_left a [] ys h = absurd h
  In-append_left a (x ∷ xs) ys (inl e) = inl e
  In-append_left a (x ∷ xs) ys (inr h) = inr (In-append_left a xs ys h)

  pub In-append_right : (a : A) (xs ys : List A) → In a ys → In a (xs ++ ys)
  In-append_right a [] ys h = h
  In-append_right a (x ∷ xs) ys h = inr (In-append_right a xs ys h)

  pub In-append_cases : (a : A) (xs ys : List A) → In a (xs ++ ys) → In a xs ⊎ In a ys
  In-append_cases a [] ys h = inr h
  In-append_cases a (x ∷ xs) ys (inl e) = inl (inl e)
  In-append_cases a (x ∷ xs) ys (inr h) = elim (In-append_cases a xs ys h) [
    | inl left ↦ inl (inr left)
    | inr right ↦ inr right
  ]

module _ {A : Type 0} (P : A → Type 0) where
  pub All-of_In : (xs : List A) → ((a : A) → In a xs → P a) → All P xs
  All-of_In [] h = tt
  All-of_In (x ∷ xs) h = (h x (inl refl), All-of_In xs (λ a m. h a (inr m)))

  pub All-mono : (Q : A → Type 0) (xs : List A) → ((a : A) → P a → Q a) → All P xs → All Q xs
  All-mono Q [] h p = tt
  All-mono Q (x ∷ xs) h p = (h x p.0, All-mono Q xs h p.1)

module _ {A : Type 0} (before : A → A → Bool) where
  -- no element stands before one that it should follow
  abbrev pub IsOrdered : List A → Type 0
  IsOrdered [] = Unit
  IsOrdered (x ∷ []) = Unit
  IsOrdered (x ∷ y ∷ ys) = (before y x ≡ false) × IsOrdered (y ∷ ys)

  abbrev IsBound : A → List A → Type 0
  IsBound y [] = Unit
  IsBound y (x ∷ xs) = before x y ≡ false

  ordered_cons : (y : A) (l : List A) → IsBound y l → IsOrdered l → IsOrdered (y ∷ l)
  ordered_cons y [] b o = tt
  ordered_cons y (x ∷ xs) b o = (b, o)

  IsBound-insert_sorted :
      (y x : A) (ys : List A)
      → before x y ≡ false
      → IsOrdered (y ∷ ys)
      → IsBound y (insert_sorted before x ys)
  unfolding insert_sorted
  IsBound-insert_sorted y x [] h o = h
  IsBound-insert_sorted y x (z ∷ zs) h o = elim (Bool-cases (before z x)) [
    | inl e ↦ rw e o.0
    | inr e ↦ rw e h
  ]

  tail-IsOrdered : (x : A) (xs : List A) → IsOrdered (x ∷ xs) → IsOrdered xs
  tail-IsOrdered x [] o = tt
  tail-IsOrdered x (y ∷ ys) o = o.1

  module _ (asym : (a b : A) → before a b ≡ true → before b a ≡ false) where
    insert_sorted-IsOrdered :
        (x : A) (ys : List A) → IsOrdered ys → IsOrdered (insert_sorted before x ys)
    unfolding insert_sorted
    insert_sorted-IsOrdered x [] o = tt
    insert_sorted-IsOrdered x (y ∷ ys) o = elim (Bool-cases (before y x)) [
      | inl e ↦ rw e (
          ordered_cons y (insert_sorted before x ys) (IsBound-insert_sorted y x ys (asym y x e) o)
            (insert_sorted-IsOrdered x ys (tail-IsOrdered y ys o)))
      | inr e ↦ rw e (e, o)
    ]

    pub sort_by-IsOrdered : (xs : List A) → IsOrdered (sort_by before xs)
    unfolding sort_by
    sort_by-IsOrdered [] = tt
    sort_by-IsOrdered (x ∷ xs) =
        insert_sorted-IsOrdered x (sort_by before xs) (sort_by-IsOrdered xs)

  In-insert_sorted : (a x : A) (ys : List A) → In a (x ∷ ys) → In a (insert_sorted before x ys)
  unfolding insert_sorted
  In-insert_sorted a x [] h = h
  In-insert_sorted a x (y ∷ ys) h = elim (Bool-cases (before y x)) [
    | inl e ↦ rw e (elim h [
      | inl here ↦ inr (In-insert_sorted a x ys (inl here))
      | inr (inl first) ↦ inl first
      | inr (inr later) ↦ inr (In-insert_sorted a x ys (inr later))
    ])
    | inr e ↦ rw e h
  ]

  -- nothing is lost
  pub In-sort_by : (a : A) (xs : List A) → In a xs → In a (sort_by before xs)
  unfolding sort_by
  In-sort_by a [] h = h
  In-sort_by a (x ∷ xs) (inl e) = In-insert_sorted a x (sort_by before xs) (inl e)
  In-sort_by a (x ∷ xs) (inr h) = In-insert_sorted a x (sort_by before xs) (inr (In-sort_by a xs h))

  module _ (P : A → Type 0) where
    All-insert_sorted : (x : A) (ys : List A) → P x → All P ys → All P (insert_sorted before x ys)
    unfolding insert_sorted
    All-insert_sorted x [] p h = (p, tt)
    All-insert_sorted x (y ∷ ys) p h = elim (Bool-cases (before y x)) [
      | inl e ↦ rw e (h.0, All-insert_sorted x ys p h.1)
      | inr e ↦ rw e (p, h)
    ]

    -- nothing is added
    pub All-sort_by : (xs : List A) → All P xs → All P (sort_by before xs)
    unfolding sort_by
    All-sort_by [] h = tt
    All-sort_by (x ∷ xs) h = All-insert_sorted x (sort_by before xs) h.0 (All-sort_by xs h.1)
