-- ===== src/RateLimit/Log.antt =====
-- ratelimit.go: the log of the permitted events, its times of a key, and the window at a time.
use ietf_scion_testbed.Prelude.{
  ℕ, ◌≤◌, ◌≡◌, refl, Bool, true, ◌&&◌, List, [], ◌∷◌, ◌++◌, arith, if◌then◌else◌, keep_if, length,
  Bytes, ◌==◌, bytes_eq, ℤ, ◌≤ℤ◌, leb_ℤ,
}
use ietf_scion_testbed.RateLimit.{Limiter, after_cutoff, allow}

pub record Event : Type 0 where
  pub key : Bytes
  pub t : ℤ

-- the times of the events of a key
abbrev pub times : Bytes → List Event → List ℤ
times key [] = []
times key (e ∷ es) = let rest = times key es in if e.key == key then e.t ∷ rest else rest

-- A sequence of calls of `Allow`: the limiter afterwards, and the log of the permitted events.
unfoldable pub allow_all : Limiter → List Event → List Event → Limiter × List Event
allow_all l log [] = (l, log)
allow_all l log (e ∷ es) =
    let (l', permitted) = allow l e.t e.key in
    allow_all l' (if permitted then log ++ e ∷ [] else log) es

-- The clock does not run backwards.
abbrev pub Chronological : ℤ → List Event → Type 0
Chronological from [] = Unit
Chronological from (e ∷ es) = (from ≤ℤ e.t) × Chronological e.t es

-- The time of the last event, or `from` if there is none.
abbrev pub end_time : ℤ → List Event → ℤ
end_time from [] = from
end_time from (e ∷ es) = end_time e.t es

-- `u` lies in the window of the given length that ends at `t`.
abbrev pub in_window : ℤ → ℤ → ℤ → Bool
in_window window t u = after_cutoff window t u && leb_ℤ u t

abbrev pub count_if : (ℤ → Bool) → List ℤ → ℕ
count_if p ts = length (keep_if p ts)

pub keep_if-append :
    (p : ℤ → Bool) (xs ys : List ℤ) → keep_if p (xs ++ ys) ≡ keep_if p xs ++ keep_if p ys
keep_if-append p [] ys = refl
keep_if-append p (x ∷ xs) ys = ground (arith, keep_if-append p xs ys)

pub keep_if-keep_if :
    (p q : ℤ → Bool) (xs : List ℤ)
    → ((x : ℤ) → q x ≡ true → p x ≡ true)
    → keep_if q (keep_if p xs) ≡ keep_if q xs
keep_if-keep_if p q [] h = refl
keep_if-keep_if p q (x ∷ xs) h = ground (arith, keep_if-keep_if p q xs h, h x)

pub count_if_mono :
    (p q : ℤ → Bool) (xs : List ℤ)
    → ((x : ℤ) → p x ≡ true → q x ≡ true)
    → count_if p xs ≤ count_if q xs
count_if_mono p q [] h = omega arith
count_if_mono p q (x ∷ xs) h = ground (arith, count_if_mono p q xs h, h x)

pub times-append :
    (key : Bytes) (xs ys : List Event) → times key (xs ++ ys) ≡ times key xs ++ times key ys
times-append key [] ys = refl
times-append key (x ∷ xs) ys = ground (arith, times-append key xs ys)
