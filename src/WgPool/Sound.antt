-- ===== src/WgPool/Sound.antt =====
-- wgpool.go: the invariant that relates the pool, its state file and the numbers handed out.
use mathlib.Core.List.{map-append}
use ietf_scion_testbed.Prelude.{
  ℕ, ◌≡◌, refl, sym, ap, ◌∙◌, Bool, true, false, ◌||◌, Option, none, some, List, [], ◌∷◌, arith,
  Bool-cases, inl, inr, All, ◌==◌, contains, contains-append, Distinct, nat_eq, nat_beq_iff, Bytes,
  ℤ, Codec, ReadsBack,
}
use ietf_scion_testbed.WgPool.{
  Slot, StateFile, Store, taken_of, Disk, write_state, claim_reply, claim_slot, first_free,
  take_slot,
}
use ietf_scion_testbed.WgPool.Runs.{World, settle}

-- The slot that the loop finds is not taken.
pub first_free-free :
    (taken : List ℕ) (slots : List Slot) (sl : Slot)
    → first_free taken slots ≡ some sl
    → contains taken sl.n ≡ false
unfolding first_free
first_free-free taken [] sl h = cc
first_free-free taken (x ∷ slots) sl h = ground (arith, first_free-free taken slots sl)

module _ (json : Codec StateFile) where
  -- the number stands in the state file, as claimed or as burned
  abbrev pub recorded : Disk → ℕ → Bool
  recorded disk n = elim disk [
    | none ↦ false
    | some b ↦ elim (json.unmarshal b) [ none ↦ false | some st ↦ contains (taken_of st) n ]
  ]

  abbrev pub Knows : Option Store → Disk → Type 0
  Knows none disk = Unit
  Knows (some s) disk =
      ((n : ℕ) → recorded disk n ≡ true → contains (taken_of s.state) n ≡ true)
      × ((n : ℕ) → contains (taken_of s.state) n ≡ true → contains s.taken n ≡ true)

  pub record Sound (start : Disk) (w : World) : Type 0 where
    pub kept : (n : ℕ) → recorded start n ≡ true → recorded w.disk n ≡ true
    pub on_disk : All (λ n. recorded w.disk n ≡ true) w.issued
    pub unused : All (λ n. recorded start n ≡ false) w.issued
    pub distinct : Distinct w.issued
    pub knows : Knows w.server w.disk

  contains-take_slot :
      (s : Store) (sl : Slot) (as_num now : ℤ) (n : ℕ)
      → contains (taken_of (take_slot s sl as_num now).state) n
        ≡ (contains (taken_of s.state) n || sl.n == n)
  unfolding taken_of take_slot
  contains-take_slot s sl as_num now n = simp (map-append, contains-append) (ground arith)

  All-contains :
      (P : ℕ → Bool) (xs : List ℕ) (x : ℕ)
      → All (λ n. P n ≡ true) xs
      → contains xs x ≡ true
      → P x ≡ true
  All-contains P [] x h c = cc
  All-contains P (y ∷ xs) x h c = ground (arith, All-contains P xs x h.1, nat_beq_iff y x, ap P)

  All-map :
      (P Q : ℕ → Bool) (xs : List ℕ)
      → ((n : ℕ) → P n ≡ true → Q n ≡ true)
      → All (λ n. P n ≡ true) xs
      → All (λ n. Q n ≡ true) xs
  All-map P Q [] f h = tt
  All-map P Q (x ∷ xs) f h = (f x h.0, All-map P Q xs f h.1)

  module _ (reads_back : ReadsBack json) (start : Disk) (w : World) (s : Store) where
    Knows-take_slot :
        (disk : Disk) (sl : Slot) (as_num now : ℤ)
        → Knows (some s) disk
        → Knows (some (take_slot s sl as_num now)) disk
    unfolding take_slot
    Knows-take_slot disk sl as_num now k = (
      λ n h. contains-take_slot s sl as_num now n ∙ ground (arith, k.0 n h),
      λ n h. ground (arith, contains-take_slot s sl as_num now n, k.1 n),
    )

    -- the write failed: the slot is marked in memory only
    Sound-failed :
        (sl : Slot) (as_num now : ℤ)
        → Sound start w
        → Knows (some s) w.disk
        → Sound start (record w { server = some (take_slot s sl as_num now) })
    Sound-failed sl as_num now h k = record {
      kept = h.kept;
      on_disk = h.on_disk;
      unused = h.unused;
      distinct = h.distinct;
      knows = Knows-take_slot w.disk sl as_num now k;
    }

    -- what the new state file records
    recorded-written :
        (sl : Slot) (as_num now : ℤ) (b : Bytes) (n : ℕ)
        → json.marshal (take_slot s sl as_num now).state ≡ some b
        → recorded (some b) n ≡ (contains (taken_of s.state) n || sl.n == n)
    recorded-written sl as_num now b n e =
        rw (reads_back _ b e, recorded) (contains-take_slot s sl as_num now n)

    Sound-issued :
        (sl : Slot) (as_num now : ℤ) (b : Bytes)
        → Sound start w
        → Knows (some s) w.disk
        → contains s.taken sl.n ≡ false
        → json.marshal (take_slot s sl as_num now).state ≡ some b
        → Sound start (record {
          server = some (take_slot s sl as_num now);
          disk = some b;
          issued = sl.n ∷ w.issued;
        })
    unfolding take_slot
    Sound-issued sl as_num now b h k free e = record {
      kept = λ n r. grows n (h.kept n r);
      on_disk = (
        recorded-written sl as_num now b sl.n e ∙ ground arith,
        All-map (recorded w.disk) (recorded (some b)) w.issued grows h.on_disk,
      );
      unused = (unrecorded start (λ r. h.kept sl.n r), h.unused);
      distinct = (
        elim (Bool-cases (contains w.issued sl.n)) [
          | inl again ↦
              absurd (known (All-contains (recorded w.disk) w.issued sl.n h.on_disk again))
          | inr new ↦ new
        ],
        h.distinct,
      );
      knows = (
        λ n r.
            contains-take_slot s sl as_num now n ∙ sym (recorded-written sl as_num now b n e) ∙ r,
        (Knows-take_slot w.disk sl as_num now k).1,
      );
    }
      where
        grows : (n : ℕ) → recorded w.disk n ≡ true → recorded (some b) n ≡ true
        grows n r = recorded-written sl as_num now b n e ∙ ground (arith, k.0 n r)

        known : recorded w.disk sl.n ≡ true → ⊥
        known r = cc (k.1 sl.n (k.0 sl.n r))

        unrecorded :
            (d : Disk)
            → (recorded d sl.n ≡ true → recorded w.disk sl.n ≡ true)
            → recorded d sl.n ≡ false
        unrecorded d f = elim (Bool-cases (recorded d sl.n)) [
          | inl r ↦ absurd (known (f r))
          | inr r ↦ r
        ]

    Sound-written :
        (sl : Slot) (as_num now : ℤ) (write_ok rename_ok : Bool) (o : Option Bytes)
        → Sound start w
        → Knows (some s) w.disk
        → contains s.taken sl.n ≡ false
        → json.marshal (take_slot s sl as_num now).state ≡ o
        → Sound start (
            settle w (
              take_slot s sl as_num now,
              (write_state o w.disk write_ok rename_ok).0,
              claim_reply sl (write_state o w.disk write_ok rename_ok).1,
            ))
    unfolding write_state
    Sound-written sl as_num now write_ok rename_ok none h k free e = Sound-failed sl as_num now h k
    Sound-written sl as_num now true true (some b) h k free e =
        Sound-issued sl as_num now b h k free e
    Sound-written sl as_num now _ _ (some b) h k free e = Sound-failed sl as_num now h k

    pub Sound-claim_slot :
        (as_num now : ℤ) (write_ok rename_ok : Bool) (o : Option Slot)
        → Sound start w
        → Knows (some s) w.disk
        → first_free s.taken s.pool.slots ≡ o
        → Sound start (settle w (claim_slot json s w.disk as_num now write_ok rename_ok o))
    unfolding claim_slot
    Sound-claim_slot as_num now write_ok rename_ok none h k e = record {
      kept = h.kept;
      on_disk = h.on_disk;
      unused = h.unused;
      distinct = h.distinct;
      knows = k;
    }
    Sound-claim_slot as_num now write_ok rename_ok (some sl) h k e =
        Sound-written sl as_num now write_ok rename_ok
          (json.marshal (take_slot s sl as_num now).state) h k
          (first_free-free s.taken s.pool.slots sl e) refl
