-- ===== src/Prelude/Outcomes.antt =====
-- The result of code that may fail, with `do`.
use mathlib.Core.Option.{Option, none, some}

pub data Outcome {ℓ κ} (E : Type ℓ) (A : Type κ) : Type (ℓ ⊔ κ) where
  done : A → Outcome E A
  failed : E → Outcome E A

infixl 5 ◌>>=◌
abbrev pub ◌>>=◌ {ℓ κ μ} :
    {E : Type ℓ} {A : Type κ} {B : Type μ} → Outcome E A → (A → Outcome E B) → Outcome E B
done a >>= next = next a
failed e >>= next = failed e

module _ {ℓ κ} {E : Type ℓ} {A : Type κ} where
  abbrev pub or_fail : E → Option A → Outcome E A
  or_fail e none = failed e
  or_fail e (some a) = done a

  -- the claim on the value of a computation that does not fail
  abbrev pub Returns {μ} : (A → Type μ) → Outcome E A → Type μ
  Returns P (done a) = P a
  Returns P (failed e) = Unit

module _ {E A : Type 0} where
  -- a claim on the value, and one on the error
  abbrev pub Ends : (A → Type 0) → (E → Type 0) → Outcome E A → Type 0
  Ends P Q (done a) = P a
  Ends P Q (failed e) = Q e

module _ {E A B : Type 0} where
  pub Ends->>= :
      (P : B → Type 0) (Q : E → Type 0) (m : Outcome E A) (next : A → Outcome E B)
      → Ends (λ a. Unit) Q m
      → ((a : A) → Ends P Q (next a))
      → Ends P Q (m >>= next)
  Ends->>= P Q (done a) next h k = k a
  Ends->>= P Q (failed e) next h k = h

module _ {ℓ κ μ ν ξ} {E : Type ℓ} {A : Type κ} {B : Type μ} where
  pub Returns->>= :
      (P : A → Type ν) (Q : B → Type ξ) (m : Outcome E A) (next : A → Outcome E B)
      → Returns P m
      → ((a : A) → P a → Returns Q (next a))
      → Returns Q (m >>= next)
  Returns->>= P Q (done a) next p h = h a p
  Returns->>= P Q (failed e) next p h = tt

module _ {ℓ κ μ ξ} {E : Type ℓ} {A : Type κ} {B : Type μ} where
  -- where nothing is known of the first value
  pub Returns-each :
      (Q : B → Type ξ) (m : Outcome E A) (next : A → Outcome E B)
      → ((a : A) → Returns Q (next a))
      → Returns Q (m >>= next)
  Returns-each Q (done a) next h = h a
  Returns-each Q (failed e) next h = tt

module _ {ℓ κ ν ξ} {E : Type ℓ} {A : Type κ} where
  pub Returns-mono :
      (P : A → Type ν) (Q : A → Type ξ) (m : Outcome E A)
      → ((a : A) → P a → Q a)
      → Returns P m
      → Returns Q m
  Returns-mono P Q (done a) h p = h a p
  Returns-mono P Q (failed e) h p = tt
