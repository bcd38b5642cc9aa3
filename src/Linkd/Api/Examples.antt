-- ===== src/Linkd/Api/Examples.antt =====
-- A kernel that keeps the parameters of each device exactly, and one managed interface.
use mathlib.Core.Path.{subst}
use mathlib.Core.Option.{some-injective}
use ietf_scion_testbed.Prelude.{
  ℕ, ◌≡◌, refl, Bool, true, false, Option, none, some, [], ◌∷◌, arith, if◌then◌else◌, Bytes, bytes,
  ◌==◌, bytes_eq, Map, lookup, insert, lookup-insert, ℤ, pos, milli,
}
use ietf_scion_testbed.Linkd.Shape.{Params, Shaper, merge, validate}
use ietf_scion_testbed.Linkd.Shape.Merging.{merge_all, AreLatest, merge_all-AreLatest}
use ietf_scion_testbed.Linkd.Api.{ManagedIface, Server, new, handle_put}
use ietf_scion_testbed.Linkd.Api.Requests.{
  put, delete, handle, handle_all, IsAnswered, handle-IsAnswered, IsApplied, handle_put-IsApplied,
}
use ietf_scion_testbed.Linkd.Api.Keeping.{handle_all_keeps}

abbrev unset : Params ℤ
unset = record { delay_ms = none; jitter_ms = none; loss_pct = none; rate_mbit = none }

abbrev delay : ℕ → Params ℤ
delay d = record { delay_ms = some (pos d); jitter_ms = none; loss_pct = none; rate_mbit = none }

abbrev or_unset : Option (Params ℤ) → Params ℤ
or_unset none = unset
or_unset (some p) = p

abbrev exact : Shaper ℤ (Map Bytes (Params ℤ))
exact = record {
  get = λ k dev. some (or_unset (lookup dev k));
  apply = λ k dev p. (insert dev p k, true);
  clear = λ k dev. (insert dev unset k, true);
}

abbrev iface : ManagedIface
iface = record { if_id = bytes "2"; neighbor = []; link_to = []; local_ip = []; dev = bytes "sci1" }

abbrev server : Server ℤ
server = new (iface ∷ []) ((bytes "2", delay 5000) ∷ [])

handle_put-IsApplied_example :
    IsApplied milli exact server []
      (bytes "2")
      (some (delay 20000))
      (handle_put milli exact server [] (bytes "2") (some (delay 20000)))
unfolding handle_put new lookup insert merge validate
handle_put-IsApplied_example =
    handle_put-IsApplied milli exact server [] (bytes "2") (some (delay 20000)) refl

-- a delay of 3 s is refused
handle-IsAnswered_example :
    IsAnswered milli exact []
      (handle milli exact server [] (put (bytes "2") (some (delay 3000000))))
handle-IsAnswered_example =
    handle-IsAnswered milli exact server [] (put (bytes "2") (some (delay 3000000)))

merge_all-AreLatest_example :
    AreLatest (delay 1) (delay 2 ∷ unset ∷ []) (merge_all (delay 1) (delay 2 ∷ unset ∷ []))
merge_all-AreLatest_example = merge_all-AreLatest (delay 1) (delay 2 ∷ unset ∷ [])

AllValid : Map Bytes (Params ℤ) → Type 0
AllValid k = (dev : Bytes) (p : Params ℤ) → lookup dev k ≡ some p → validate milli p ≡ none

insert-AllValid :
    (k : Map Bytes (Params ℤ)) (dev : Bytes) (p : Params ℤ)
    → validate milli p ≡ none
    → AllValid k
    → AllValid (insert dev p k)
unfolding AllValid
insert-AllValid k dev p v h j q e = ground (arith, lookup-insert dev j p k, h j q)

unset_valid : validate milli unset ≡ none
unfolding validate
unset_valid = refl

only_baseline :
    (b : Bool) (p : Params ℤ)
    → (if b then some (delay 5000) else none) ≡ some p
    → validate milli p ≡ none
unfolding validate
only_baseline true p e = subst (λ q. validate milli q ≡ none) (some-injective _ _ e) refl
only_baseline false p e = cc

baseline_valid :
    (i : Bytes) (p : Params ℤ) → lookup i (server.baseline) ≡ some p → validate milli p ≡ none
unfolding new lookup
baseline_valid i p e = only_baseline (bytes "2" == i) p e

nothing-AllValid : AllValid []
unfolding AllValid lookup
nothing-AllValid dev p e = ground arith

handle_all_keeps_example : AllValid (
    handle_all milli exact server []
      (put (bytes "2") (some (delay 20000)) ∷ delete (bytes "2") ∷ []))
handle_all_keeps_example =
    handle_all_keeps milli exact AllValid insert-AllValid
      (λ k dev. insert-AllValid k dev unset unset_valid) server []
      (put (bytes "2") (some (delay 20000)) ∷ delete (bytes "2") ∷ []) baseline_valid
      nothing-AllValid
