-- ===== src/Store/Ring/Log.antt =====
-- store.go: a ring against the whole log of the samples put so far.
use mathlib.Core.List.{foldl}
use native.Mathlib.Decide.{dec_lt}
use native.Mathlib.Nat.{mod-lt, zero-mod, mod-add-mod, mod-mod}
use ietf_scion_testbed.Prelude.{
  ℕ, zero, suc, ◌+◌, ◌-◌, ◌%◌, ◌<◌, ◌≤◌, ◌≡◌, refl, sym, ap, ◌∙◌, List, [], ◌∷◌, ◌++◌, arith,
  get_or, set, drop, length, length-append, length-set, length-replicate, get_or-set_self,
  get_or-set_ne, ltb, leb, false, if◌then◌else◌, ℤ, mod_ne, suc-mod_congr, back-mod, append_assoc,
  append-nil,
}
use ietf_scion_testbed.Store.Ring.{Ring, clamp_capacity, new_ring, put, last, last_n, copy_from}

-- The newest `n` entries of a log, oldest first: all of it if it is shorter.
abbrev pub newest {ℓ} : {A : Type ℓ} → ℕ → List A → List A
newest n log = drop (length log - n) log

-- `min (length log) cap`
abbrev pub held : ℕ → ℕ → ℕ
held l c = if ltb l c then l else c

module _ {ℓ} {A : Type ℓ} (z : A) where
  -- `r` has seen `log`: the last `cap` entries stand in the buffer, each at its index modulo `cap`.
  pub record Shows (r : Ring A) (log : List A) : Type ℓ where
    pub cap_pos : 0 < r.cap
    pub full : length r.buf ≡ r.cap
    pub at_next : r.next ≡ length log % r.cap
    pub counted : r.count ≡ held (length log) r.cap
    pub stored :
        (j : ℕ)
        → j < length log
        → length log ≤ j + r.cap
        → get_or r.buf (j % r.cap) z ≡ get_or log j z

  get_or-snoc_old :
      (xs : List A) (s : A) (j : ℕ) → j < length xs → get_or (xs ++ s ∷ []) j z ≡ get_or xs j z
  get_or-snoc_old [] s j h = absurd (omega arith)
  get_or-snoc_old (x ∷ xs) s zero h = refl
  get_or-snoc_old (x ∷ xs) s (suc j) h = get_or-snoc_old xs s j (omega arith)

  get_or-snoc_new : (xs : List A) (s : A) → get_or (xs ++ s ∷ []) (length xs) z ≡ s
  get_or-snoc_new [] s = refl
  get_or-snoc_new (x ∷ xs) s = get_or-snoc_new xs s

  clamp_capacity-pos : (c : ℤ) → 0 < clamp_capacity c
  unfolding clamp_capacity
  clamp_capacity-pos c = ground arith

  pub Shows-new_ring : (c : ℤ) → Shows (new_ring z c) []
  unfolding new_ring
  Shows-new_ring c = record {
    cap_pos = clamp_capacity-pos c;
    full = length-replicate (clamp_capacity c) z;
    at_next = sym (zero-mod (clamp_capacity c));
    counted = ground (arith, clamp_capacity-pos c);
    stored = λ j h k. absurd (omega arith);
  }

  stored_put :
      (buf log : List A) (cap : ℕ) (s : A) (j : ℕ)
      → 0 < cap
      → length buf ≡ cap
      → ((j : ℕ) → j < length log → length log ≤ j + cap → get_or buf (j % cap) z ≡ get_or log j z)
      → j < length log + 1
      → length log + 1 ≤ j + cap
      → get_or (set buf (length log % cap) s) (j % cap) z ≡ get_or (log ++ s ∷ []) j z
  stored_put buf log cap s j pos full stored h k = elim (dec_lt j (length log)) [
    | yes q ↦
        get_or-set_ne buf s z (λ e. mod_ne j (length log) cap q (omega arith) (sym e))
        ∙ stored j q (omega arith)
        ∙ sym (get_or-snoc_old log s j q)
    | no q ↦
        let e : j ≡ length log = omega arith in
        rw (e, get_or-set_self buf (length log % cap) s z (omega (arith, mod-lt (length log) pos)))
          (sym (get_or-snoc_new log s))
  ]

  pub Shows-put :
      (r : Ring A) (log : List A) (s : A) → Shows r log → Shows (put r s) (log ++ s ∷ [])
  unfolding put
  Shows-put r log s v = record {
    cap_pos = v.cap_pos;
    full = length-set r.buf r.next s ∙ v.full;
    at_next =
        ap (λ t. (t + 1) % r.cap) v.at_next
        ∙ mod-add-mod (length log) r.cap 1
        ∙ ap (λ t. t % r.cap) (sym (length-append log (s ∷ [])));
    counted = ground (arith, v.counted, length-append log (s ∷ []));
    stored = λ j h k. rw v.at_next (
        stored_put r.buf log r.cap s j v.cap_pos v.full v.stored (rw length-append at h)
          (rw length-append at k));
  }

  pub log_of : Ring A → List A → Ring A
  log_of = foldl put

  drop-cons : (xs : List A) (a : ℕ) → a < length xs → drop a xs ≡ get_or xs a z ∷ drop (suc a) xs
  drop-cons [] a h = absurd (omega arith)
  drop-cons (x ∷ xs) zero h = refl
  drop-cons (x ∷ xs) (suc a) h = drop-cons xs a (omega arith)

  drop-length : (xs : List A) → drop (length xs) xs ≡ []
  drop-length [] = refl
  drop-length (x ∷ xs) = drop-length xs

  copy_from-drop :
      (buf log : List A) (cap start a rounds : ℕ)
      → ((j : ℕ) → j < length log → length log ≤ j + cap → get_or buf (j % cap) z ≡ get_or log j z)
      → start % cap ≡ a % cap
      → a + rounds ≡ length log
      → length log ≤ a + cap
      → copy_from z buf cap start rounds ≡ drop a log
  unfolding copy_from
  copy_from-drop buf log cap start a zero stored e l k =
      let q : a ≡ length log = omega arith in rw q (sym (drop-length log))
  copy_from-drop buf log cap start a (suc rounds) stored e l k =
      rw (drop-cons log a (omega arith), e, stored a (omega arith) k)
        (ap (λ t. get_or log a z ∷ t)
          (copy_from-drop buf log cap (start + 1) (suc a) rounds stored
            (suc-mod_congr start a cap e ∙ ap (λ t. t % cap) (omega arith)) (omega arith)
            (omega arith)))

  window :
      (r : Ring A) (log : List A) (n : ℕ)
      → Shows r log
      → n ≤ length log
      → n ≤ r.cap
      → (if leb n 0 then [] else copy_from z r.buf r.cap ((r.next + r.cap - n) % r.cap) n)
        ≡ drop (length log - n) log
  window r log zero v h k =
      let e : length log - 0 ≡ length log = omega arith in rw e (sym (drop-length log))
  window r log (suc n) v h k =
      let e : leb (suc n) 0 ≡ false = ground arith in
      rw e (
        copy_from-drop r.buf log r.cap ((r.next + r.cap - suc n) % r.cap) (length log - suc n)
          (suc n) v.stored
          (mod-mod _ _
            ∙ ap (λ t. (t + r.cap - suc n) % r.cap) v.at_next
            ∙ back-mod (length log) (suc n) r.cap h k v.cap_pos)
          (omega arith) (omega arith))

  -- what `lastN(n)` returns, for every `n`
  pub last_n-newest :
      (r : Ring A) (log : List A) (n : ℕ) → Shows r log → last_n z r n ≡ newest (held n r.cap) log
  unfolding last_n
  last_n-newest r log n v =
      window r log (if ltb r.count n then r.count else n) v (ground (arith, v.counted))
        (ground (arith, v.counted))
      ∙ ap (λ k. drop k log) (ground (arith, v.counted))

  pub Shows-log_of :
      (xs : List A) (r : Ring A) (log : List A) → Shows r log → Shows (log_of r xs) (log ++ xs)
  unfolding log_of
  Shows-log_of [] r log v = rw append-nil v
  Shows-log_of (x ∷ xs) r log v =
      rw (append_assoc log (x ∷ []) xs) at
        (Shows-log_of xs (put r x) (log ++ x ∷ []) (Shows-put r log x v))

  pub put-cap : (r : Ring A) (s : A) → (put r s).cap ≡ r.cap
  unfolding put
  put-cap r s = refl

  log_of-cap : (xs : List A) (r : Ring A) → (log_of r xs).cap ≡ r.cap
  unfolding log_of
  log_of-cap [] r = refl
  log_of-cap (x ∷ xs) r = log_of-cap xs (put r x) ∙ put-cap r x

  pub new_ring-cap : (c : ℤ) → (new_ring z c).cap ≡ clamp_capacity c
  unfolding new_ring
  new_ring-cap c = refl

  -- A ring of any capacity, after any samples: `lastN(n)` returns the newest samples in the order
  -- in which they were put, as many as asked for, held and put. A capacity of 0 or less counts as 1.
  pub last_n-log_of :
      (c : ℤ) (xs : List A) (n : ℕ)
      → last_n z (log_of (new_ring z c) xs) n ≡ newest (held n (clamp_capacity c)) xs
  last_n-log_of c xs n =
      last_n-newest (log_of (new_ring z c) xs) xs n
        (Shows-log_of xs (new_ring z c) [] (Shows-new_ring c))
      ∙ ap (λ k. newest (held n k) xs) (log_of-cap xs (new_ring z c) ∙ new_ring-cap c)

  -- what `last()` returns on a ring that has seen a sample
  pub last-newest : (r : Ring A) (log : List A) (x : A) → Shows r (log ++ x ∷ []) → last z r ≡ x
  unfolding last
  last-newest r log x v =
      let l = length-append log (x ∷ []) in
      ap (λ i. get_or r.buf i z)
        (ap (λ t. (t + r.cap - 1) % r.cap) v.at_next
          ∙ back-mod (length (log ++ x ∷ [])) 1 r.cap (omega arith) (omega (arith, v.cap_pos))
              v.cap_pos
          ∙ ap (λ t. t % r.cap) (omega arith))
      ∙ v.stored (length log) (omega arith) (omega (arith, v.cap_pos))
      ∙ get_or-snoc_new log x
