-- ===== src/RateLimit/Examples.antt =====
-- Two events a second: the third of a burst is denied, and a later one is permitted again.
use mathlib.Core.List.{append_cancel_left}
use ietf_scion_testbed.Prelude.{
  sym, ap, ◌∙◌, ◌++◌, inl, inr, length, length-take, take, drop, replicate, nat_eq, ℕ, ◌≡◌, ◌≤◌,
  refl, true, List, [], ◌∷◌, arith, bytes, pos, ltb_ℤ, lookup, insert, ◌↔◌, some, Bytes, bytes_eq,
  ◌==◌, if◌then◌else◌, split_host_port,
}
use ietf_scion_testbed.RateLimit.{new, after_cutoff, allow}
use ietf_scion_testbed.RateLimit.ClientKey.{
  v6, masked, length-masked, IsMasked, Printed, Addresses, client_key, SameBucket,
  client_key-SameBucket,
}
use ietf_scion_testbed.RateLimit.Log.{Event, times, allow_all, in_window, count_if}
use ietf_scion_testbed.RateLimit.Window.{allow_all_bounded, allow-decision_all}

abbrev at : ℕ → Event
at t = record { key = bytes "10.0.0.1"; t = pos t }

abbrev burst : List Event
burst = at 1000 ∷ at 1300 ∷ at 1600 ∷ []

permitted :
    times (bytes "10.0.0.1") (allow_all (new (pos 2) (pos 1000)) [] burst).1
    ≡ pos 1000 ∷ pos 1300 ∷ []
unfolding allow_all new allow lookup insert
permitted = refl

later :
    (allow (allow_all (new (pos 2) (pos 1000)) [] burst).0 (pos 2100) (bytes "10.0.0.1")).1 ≡ true
unfolding allow_all new allow lookup insert
later = refl

allow_all_bounded_example :
    count_if
      (in_window (pos 1000) (pos 1700))
      (times (bytes "10.0.0.1") (allow_all (new (pos 2) (pos 1000)) [] burst).1)
    ≤ 2
allow_all_bounded_example =
    allow_all_bounded (pos 2) (pos 1000) (pos 0) burst (bytes "10.0.0.1") (pos 1700) (omega arith)

allow-decision_all_example :
    (allow (allow_all (new (pos 2) (pos 1000)) [] burst).0 (pos 2100) (bytes "10.0.0.1")).1
    ≡ ltb_ℤ
        (pos (
          count_if
            (after_cutoff (pos 1000) (pos 2100))
            (times (bytes "10.0.0.1") (allow_all (new (pos 2) (pos 1000)) [] burst).1)))
        (pos 2)
allow-decision_all_example =
    allow-decision_all (pos 2) (pos 1000) (pos 0) burst (bytes "10.0.0.1") (pos 2100) (omega arith)
      (omega arith)

-- two hosts of one /64
abbrev sixteen : ℕ → Bytes
sixteen host = 32 ∷ 1 ∷ 13 ∷ 184 ∷ 0 ∷ 0 ∷ 0 ∷ 0 ∷ 0 ∷ 0 ∷ 0 ∷ 0 ∷ 0 ∷ 0 ∷ 0 ∷ host ∷ []

-- An address of four bytes is printed as the sixteen bytes that hold it, like in Go, so that the two
-- forms of an IPv4 address are printed alike.
show : Bytes → Bytes
show ip = if length ip == 4 then replicate 10 0 ++ 255 ∷ 255 ∷ ip else ip

drop-append : (xs ys : Bytes) → drop (length xs) (xs ++ ys) ≡ ys
drop-append [] ys = refl
drop-append (x ∷ xs) ys = drop-append xs ys

show_four : (x : Bytes) → length x ≡ 4 → show x ≡ replicate 10 0 ++ 255 ∷ 255 ∷ x
unfolding show
show_four x h = rw h refl

show_masked : (x : Bytes) → IsMasked x → show x ≡ x
unfolding show
show_masked x (ip, h, e) = let n : length x ≡ 16 = ap length e ∙ length-masked ip h in rw n refl

-- the ninth byte on of what is printed for an IPv4 address has a 255, that of a masked one has none
four_not_masked : (x y : Bytes) → length x ≡ 4 → IsMasked y → ¬ (show x ≡ show y)
four_not_masked x y h (ip, k, e) s =
    let n : length (take 8 ip) ≡ 8 = length-take 8 ip (omega arith) in
    let zeros : drop 8 (masked ip) ≡ replicate 8 0 =
      rw n at (drop-append (take 8 ip) (replicate 8 0)) in
    let same : drop 8 (replicate 10 0 ++ 255 ∷ 255 ∷ x) ≡ replicate 8 0 =
      ap (drop 8) (sym (show_four x h) ∙ s ∙ show_masked y (ip, k, e) ∙ e) ∙ zeros in
    absurd (cc same)

abbrev net : Addresses
net = record {
  parse_ip =
      λ host. if host == bytes "2001:db8::1" then some (v6 (sixteen 1)) else some (v6 (sixteen 2));
  show_ip = show;
}

printed : Printed net
printed x y (inl h) (inl k) e =
    append_cancel_left (replicate 10 0 ++ 255 ∷ 255 ∷ []) x y
      (rw (show_four x h, show_four y k) at e)
printed x y (inl h) (inr k) e = absurd (four_not_masked x y h k e)
printed x y (inr h) (inl k) e = absurd (four_not_masked y x k h (sym e))
printed x y (inr h) (inr k) e = rw (show_masked x h, show_masked y k) at e

client_key-SameBucket_example :
    (client_key net (bytes "[2001:db8::1]:5") ≡ client_key net (bytes "[2001:db8::2]:9"))
    ↔ SameBucket net (v6 (sixteen 1)) (v6 (sixteen 2))
unfolding split_host_port
client_key-SameBucket_example =
    client_key-SameBucket net (bytes "[2001:db8::1]:5") (bytes "[2001:db8::2]:9") (v6 (sixteen 1))
      (v6 (sixteen 2)) printed refl refl refl refl
