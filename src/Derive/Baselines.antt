-- ===== src/Derive/Baselines.antt =====
-- derive.go: the running minimums of the RTT, and the reference that `baseline` gives.
use ietf_scion_testbed.Prelude.{
  ◌≡◌, refl, ◌⊎◌, inl, inr, Bool, true, false, Option, none, some, List, [], ◌∷◌, arith,
  if◌then◌else◌, Bool-cases, All, Bytes, ◌==◌, bytes_eq, bytes_beq_iff, Map, lookup, insert,
  lookup-insert, Float,
}
use ietf_scion_testbed.Store
use ietf_scion_testbed.Store.{Sample}
use ietf_scion_testbed.Derive.State.{
  Deriver, min_int64, baseline_floor, ring_min, with_previous, baseline_of, baseline, seed_one,
  seed_all, seed_baselines,
}

-- What the baselines rely on in the order of float64; all of it holds at NaN and the infinities too.
-- `x <= x` says that `x` is not NaN.
pub record IsOrdered (fl : Float) : Type 0 where
  pub lt_irrefl : (x : fl.F) → fl.lt x x ≡ false
  pub le_trans : (x y z : fl.F) → fl.le x y ≡ true → fl.le y z ≡ true → fl.le x z ≡ true
  pub lt-le : (x y : fl.F) → fl.lt x y ≡ true → fl.le x y ≡ true
  pub lt_le_trans : (x y z : fl.F) → fl.lt x y ≡ true → fl.le y z ≡ true → fl.lt x z ≡ true
  pub lt_left : (x y : fl.F) → fl.lt x y ≡ true → fl.le x x ≡ true
  pub lt_right : (x y : fl.F) → fl.lt x y ≡ true → fl.le y y ≡ true
  pub total :
      (x y : fl.F) → fl.le x x ≡ true → fl.le y y ≡ true → fl.le x y ≡ false → fl.lt y x ≡ true
  pub inf_pos : fl.lt (fl.dec 0 0) fl.inf ≡ true

module _ (fl : Float) (ord : IsOrdered fl) where
  open fl use {F, dec, inf, lt, le}

  abbrev pub IsPositive : F → Type 0
  IsPositive x = lt (dec 0 0) x ≡ true

  zero_number : le (dec 0 0) (dec 0 0) ≡ true
  zero_number = ord.lt_left (dec 0 0) inf ord.inf_pos

  pos_number : (x : F) → IsPositive x → le x x ≡ true
  pos_number x p = ord.lt_right (dec 0 0) x p

  -- a number that is not at most 0 is positive
  pos_of_not_le : (x : F) → le x x ≡ true → le x (dec 0 0) ≡ false → IsPositive x
  pos_of_not_le x n h = ord.total x (dec 0 0) n zero_number h

  pos_not_le : (x : F) → IsPositive x → le x (dec 0 0) ≡ false
  pos_not_le x p = ground (arith, ord.lt_le_trans (dec 0 0) x (dec 0 0) p, ord.lt_irrefl (dec 0 0))

  le_of_not_lt : (x y : F) → le x x ≡ true → le y y ≡ true → lt x y ≡ false → le y x ≡ true
  le_of_not_lt x y n k h = ground (arith, ord.total y x k n)

  -- all running minimums are positive, and so none is NaN
  abbrev pub ArePositive : Map Bytes F → Type 0
  ArePositive mins = (k : Bytes) (v : F) → lookup k mins ≡ some v → IsPositive v

  -- no running minimum is lost or raised
  abbrev pub FallsTo : Option F → Option F → Type 0
  FallsTo none o = Unit
  FallsTo (some v) none = ⊥
  FallsTo (some v) (some v') = le v' v ≡ true

  abbrev pub OnlyFall : Map Bytes F → Map Bytes F → Type 0
  OnlyFall mins mins' = (k : Bytes) → FallsTo (lookup k mins) (lookup k mins')

  FallsTo-refl : (o : Option F) → ((v : F) → o ≡ some v → IsPositive v) → FallsTo o o
  FallsTo-refl none h = tt
  FallsTo-refl (some v) h = pos_number v (h v refl)

  OnlyFall-refl : (mins : Map Bytes F) → ArePositive mins → OnlyFall mins mins
  OnlyFall-refl mins h j = FallsTo-refl (lookup j mins) (h j)

  FallsTo-trans : (o p q : Option F) → FallsTo o p → FallsTo p q → FallsTo o q
  FallsTo-trans none p q h k = tt
  FallsTo-trans (some v) none q h k = absurd h
  FallsTo-trans (some v) (some v') none h k = absurd k
  FallsTo-trans (some v) (some v') (some v'') h k = ord.le_trans v'' v' v k h

  -- a write at a key, of a positive value that is not above the one there
  insert-falls :
      (mins : Map Bytes F) (k : Bytes) (v : F)
      → ArePositive mins
      → IsPositive v
      → FallsTo (lookup k mins) (some v)
      → ArePositive (insert k v mins) × OnlyFall mins (insert k v mins)
  insert-falls mins k v a p h = (λ j w e. ground (arith, lookup-insert k j v mins, a j w, p), falls)
    where
      falls : OnlyFall mins (insert k v mins)
      falls j = elim (Bool-cases (k == j)) [
        | inl same ↦
            let q : k ≡ j = (bytes_beq_iff k j).0 same in rw (lookup-insert, same) (rw q at h)
        | inr other ↦ rw (lookup-insert, other) (FallsTo-refl (lookup j mins) (a j))
      ]

  -- one round of the loop over the ring, from a positive minimum
  lower : F → F → F
  lower m v = if le v (dec 0 0) then m else if lt v m then v else m

  lower-pos : (m v : F) → IsPositive m → IsPositive (lower m v)
  unfolding lower
  lower-pos m v p = ground (arith, ord.lt_left v m, pos_of_not_le v)

  lower-le : (m v : F) → IsPositive m → le (lower m v) m ≡ true
  unfolding lower
  lower-le m v p = ground (arith, ord.lt-le v m, pos_number m p)

  lower-least : (m v : F) → IsPositive m → IsPositive v → le (lower m v) v ≡ true
  unfolding lower
  lower-least m v p q =
      rw (pos_not_le v q)
        (ground (arith, pos_number v q, le_of_not_lt v m (pos_number v q) (pos_number m p)))

  ring_min-next :
      (m : F) (s : Sample F) (ss : List (Sample F))
      → ring_min fl m (s ∷ ss) ≡ ring_min fl (lower m s.v) ss
  unfolding ring_min lower
  ring_min-next m s ss = refl

  ring_min-nothing : (m : F) → ring_min fl m [] ≡ m
  unfolding ring_min
  ring_min-nothing m = refl

  ring_min-pos : (m : F) (ss : List (Sample F)) → IsPositive m → IsPositive (ring_min fl m ss)
  ring_min-pos m [] p = rw (ring_min-nothing m) p
  ring_min-pos m (s ∷ ss) p =
      rw (ring_min-next m s ss) (ring_min-pos (lower m s.v) ss (lower-pos m s.v p))

  ring_min-le : (m : F) (ss : List (Sample F)) → IsPositive m → le (ring_min fl m ss) m ≡ true
  ring_min-le m [] p = rw (ring_min-nothing m) (pos_number m p)
  ring_min-le m (s ∷ ss) p = rw (ring_min-next m s ss) (
      ord.le_trans _ (lower m s.v) m (ring_min-le (lower m s.v) ss (lower-pos m s.v p))
        (lower-le m s.v p))

  ring_min-least :
      (m : F) (ss : List (Sample F))
      → IsPositive m
      → All (λ s. IsPositive s.v → le (ring_min fl m ss) s.v ≡ true) ss
  unfolding lower ring_min
  ring_min-least m [] p = tt
  ring_min-least m (s ∷ ss) p =
      let m' = lower m s.v in
      (
        λ q. ord.le_trans _ m' s.v (ring_min-le m' ss (lower-pos m s.v p)) (lower-least m s.v p q),
        ring_min-least m' ss (lower-pos m s.v p),
      )

  seed_one-falls :
      (mins : Map Bytes F) (k : Bytes) (v : F)
      → ArePositive mins
      → le v v ≡ true
      → ArePositive (seed_one fl mins k v) × OnlyFall mins (seed_one fl mins k v)
  unfolding seed_one
  seed_one-falls mins k v h n = elim (Bool-cases (le v (dec 0 0))) [
    | inl skip ↦ rw skip (h, OnlyFall-refl mins h)
    | inr good ↦ rw good (kept (pos_of_not_le v n good) (lookup k mins) refl)
  ]
    where
      seeded : Option F → Map Bytes F
      seeded o = elim o [
        | none ↦ insert k v mins
        | some cur ↦ if lt v cur then insert k v mins else mins
      ]

      kept :
          IsPositive v
          → (o : Option F) → lookup k mins ≡ o
          → ArePositive (seeded o) × OnlyFall mins (seeded o)
      kept p none e = insert-falls mins k v h p (rw e tt)
      kept p (some cur) e = elim (Bool-cases (lt v cur)) [
        | inl less ↦ rw less (insert-falls mins k v h p (rw e (ord.lt-le v cur less)))
        | inr not_less ↦ rw not_less (h, OnlyFall-refl mins h)
      ]

  seed_all-falls :
      (m mins : Map Bytes F)
      → ArePositive mins
      → All (λ (e : Bytes × F). le e.1 e.1 ≡ true) m
      → ArePositive (seed_all fl mins m) × OnlyFall mins (seed_all fl mins m)
  unfolding seed_all
  seed_all-falls [] mins h n = (h, OnlyFall-refl mins h)
  seed_all-falls ((k, v) ∷ m) mins h (n, ns) =
      let (p, f) = seed_one-falls mins k v h n in
      let (p', f') = seed_all-falls m (seed_one fl mins k v) p ns in
      (p', λ j. FallsTo-trans (lookup j mins) (lookup j (seed_one fl mins k v)) _ (f j) (f' j))

  -- If numbers are ordered as in float64 (`IsOrdered`), the running minimums are positive and no seed
  -- is NaN: `SeedBaselines` keeps the running minimums positive, and neither loses nor raises one.
  pub seed_baselines-falls :
      (d : Deriver F) (m : Map Bytes F)
      → ArePositive d.baseline_min
      → All (λ (e : Bytes × F). le e.1 e.1 ≡ true) m
      → ArePositive (seed_baselines fl d m).baseline_min
        × OnlyFall d.baseline_min (seed_baselines fl d m).baseline_min
  unfolding seed_baselines
  seed_baselines-falls d m h n = seed_all-falls m d.baseline_min h n

  with_previous-pos :
      (least : F) (o : Option F) → IsPositive least → IsPositive (with_previous fl least o)
  unfolding with_previous
  with_previous-pos least none h = h
  with_previous-pos least (some prev) h = ground arith

  with_previous-le :
      (least : F) (o : Option F) → IsPositive least → le (with_previous fl least o) least ≡ true
  unfolding with_previous
  with_previous-le least none h = pos_number least h
  with_previous-le least (some prev) h = ground (arith, ord.lt-le prev least, pos_number least h)

  with_previous-falls :
      (least : F) (o : Option F)
      → IsPositive least
      → ((v : F) → o ≡ some v → IsPositive v)
      → FallsTo o (some (with_previous fl least o))
  unfolding with_previous
  with_previous-falls least none p h = tt
  with_previous-falls least (some prev) p h =
      let q = h prev refl in
      ground (
        arith,
        q,
        pos_number prev q,
        le_of_not_lt prev least (pos_number prev q) (pos_number least p),
      )

  -- What a call of `baseline` does: the running minimums stay positive and only fall, and the
  -- reference is not below the floor of 0.5 ms, and above no positive sample of the ring and no running
  -- minimum of the key, unless it is the floor.
  pub record IsReference (mins mins' : Map Bytes F) (key : Bytes) (ss : List (Sample F)) (r : F)
      : Type 0 where
    pub positive : ArePositive mins'
    pub falls : OnlyFall mins mins'
    pub at_least : lt r (dec 5 1) ≡ false
    pub least :
        (r ≡ dec 5 1)
        ⊎ (All (λ s. IsPositive s.v → le r s.v ≡ true) ss × FallsTo (lookup key mins) (some r))

  module _ (mins : Map Bytes F) (key : Bytes) (ss : List (Sample F)) (h : ArePositive mins) where
    least_value : F
    least_value = with_previous fl (ring_min fl inf ss) (lookup key mins)

    least_value-pos : IsPositive least_value
    unfolding least_value
    least_value-pos = with_previous-pos _ (lookup key mins) (ring_min-pos inf ss ord.inf_pos)

    least_value-falls : FallsTo (lookup key mins) (some least_value)
    unfolding least_value
    least_value-falls =
        with_previous-falls (ring_min fl inf ss) (lookup key mins) (ring_min-pos inf ss ord.inf_pos)
          (h key)

    All-le :
        (r m : F) (l : List (Sample F))
        → le r m ≡ true
        → All (λ s. IsPositive s.v → le m s.v ≡ true) l
        → All (λ s. IsPositive s.v → le r s.v ≡ true) l
    All-le r m [] q a = tt
    All-le r m (s ∷ l) q a = (λ p. ord.le_trans r m s.v q (a.0 p), All-le r m l q a.1)

    least_value-least : All (λ s. IsPositive s.v → le least_value s.v ≡ true) ss
    unfolding least_value
    least_value-least =
        All-le _ (ring_min fl inf ss) ss
          (with_previous-le (ring_min fl inf ss) (lookup key mins)
            (ring_min-pos inf ss ord.inf_pos))
          (ring_min-least inf ss ord.inf_pos)

    stored :
        (b : Bool)
        → ArePositive (if b then mins else insert key least_value mins)
          × OnlyFall mins (if b then mins else insert key least_value mins)
    stored true = (h, OnlyFall-refl mins h)
    stored false = insert-falls mins key least_value h least_value-pos least_value-falls

    chosen :
        (b : Bool)
        → (lt least_value (baseline_floor fl) ≡ true → b ≡ true)
        → let r = if b then baseline_floor fl else least_value in
          (lt r (baseline_floor fl) ≡ false)
          × ((r ≡ baseline_floor fl)
              ⊎ (All (λ s. IsPositive s.v → le r s.v ≡ true) ss
                  × FallsTo (lookup key mins) (some r)))
    chosen true k = (ord.lt_irrefl _, inl refl)
    chosen false k = (ground arith, inr (least_value-least, least_value-falls))

    baseline_of-IsReference :
        IsReference mins
          (baseline_of fl mins key (ring_min fl inf ss)).0
          key
          ss
          (baseline_of fl mins key (ring_min fl inf ss)).1
    unfolding baseline_of least_value
    baseline_of-IsReference =
        let (p, f) = stored _ in
        let (a, l) = chosen _ (λ k. rw k (ground arith)) in
        record { positive = p; falls = f; at_least = a; least = l }

  -- If numbers are ordered as in float64 (`IsOrdered`) and the running minimums are positive: a call
  -- of `baseline`, for any store and key, whether or not it holds NaN, keeps them positive, and neither loses nor raises one; the reference that it
  -- returns is not below the floor of 0.5 ms, and either it is the floor, or it is at most every positive
  -- sample of the key, and at most the key's running minimum.
  pub baseline-IsReference :
      (d : Deriver F) (key : Bytes)
      → ArePositive d.baseline_min
      → IsReference d.baseline_min
          (baseline fl d key).0.baseline_min
          key
          (Store.series fl d.st key min_int64)
          (baseline fl d key).1
  unfolding baseline
  baseline-IsReference d key h =
      baseline_of-IsReference d.baseline_min key (Store.series fl d.st key min_int64) h
