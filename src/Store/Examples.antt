-- ===== src/Store/Examples.antt =====
-- The theorems on a store of capacity 2, over numbers in thousandths.
use ietf_scion_testbed.Prelude.{
  ℕ, ◌≡◌, refl, List, [], ◌∷◌, bytes, lookup, insert, pos, leb_ℤ, milli, keep_if,
}
use ietf_scion_testbed.Store.{new, put, last, series}
use ietf_scion_testbed.Store.Ring.{Ring, clamp_capacity, new_ring, last_n}
use ietf_scion_testbed.Store.Ring
use ietf_scion_testbed.Store.Ring.Log.{newest, held, log_of, last_n-log_of}
use ietf_scion_testbed.Store.Series.{
  Event, put_all, samples_of, last?, last-put_all, series-put_all,
}

abbrev at : ℕ → ℕ → Event milli
at t v = record { key = bytes "150/br/up/2"; t = pos t; v = pos v }

abbrev three : List (Event milli)
three = at 10 1000 ∷ at 20 2000 ∷ at 30 3000 ∷ []

kept :
    series milli (put_all milli (new milli (pos 2)) three) (bytes "150/br/up/2") (pos 0)
    ≡ record { t = pos 20; v = pos 2000 } ∷ record { t = pos 30; v = pos 3000 } ∷ []
unfolding put_all new put series lookup insert Ring.put Ring.last_n new_ring clamp_capacity
kept = refl

last_n-log_of_example :
    last_n {A = ℕ} 0 (log_of 0 (new_ring 0 (pos 3)) (1 ∷ 2 ∷ 3 ∷ 4 ∷ 5 ∷ [])) 2
    ≡ newest (held 2 (clamp_capacity (pos 3))) (1 ∷ 2 ∷ 3 ∷ 4 ∷ 5 ∷ [])
last_n-log_of_example = last_n-log_of {A = ℕ} 0 (pos 3) (1 ∷ 2 ∷ 3 ∷ 4 ∷ 5 ∷ []) 2

last-put_all_example :
    last milli (put_all milli (new milli (pos 2)) three) (bytes "150/br/up/2")
    ≡ last? milli (samples_of milli (bytes "150/br/up/2") three)
last-put_all_example = last-put_all milli (pos 2) three (bytes "150/br/up/2")

series-put_all_example :
    series milli (put_all milli (new milli (pos 2)) three) (bytes "150/br/up/2") (pos 25)
    ≡ keep_if
        (λ sm. leb_ℤ (pos 25) sm.t)
        (newest (clamp_capacity (pos 2)) (samples_of milli (bytes "150/br/up/2") three))
series-put_all_example = series-put_all milli (pos 2) three (bytes "150/br/up/2") (pos 25)
