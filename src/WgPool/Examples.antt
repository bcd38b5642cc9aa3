-- ===== src/WgPool/Examples.antt =====
-- A pool of two slots over a claim, a crash, a failed write and further claims, with a codec that
-- writes a state file as a list of numbers.
use mathlib.Core.Option.{some-injective}
use ietf_scion_testbed.Prelude.{
  ℕ, zero, suc, ◌≡◌, refl, sym, ap, ◌∙◌, true, false, Option, none, some, List, [], ◌∷◌, length,
  Bytes, ℤ, pos, negsuc, Codec, ReadsBack, All, Distinct, nat_eq,
}
use ietf_scion_testbed.WgPool.{PoolFile, Claim, StateFile, open_store, claim, taken_of}
use ietf_scion_testbed.WgPool.Runs.{Op, claim_as, restart, run}
use ietf_scion_testbed.WgPool.Sound.{recorded}
use ietf_scion_testbed.WgPool.Claims.{at_start, run-Distinct}

sign : ℤ → ℕ
sign (pos n) = 0
sign (negsuc n) = 1

size : ℤ → ℕ
size (pos n) = n
size (negsuc n) = n

integer : ℕ → ℕ → ℤ
integer zero n = pos n
integer (suc _) n = negsuc n

integer-sign : (z : ℤ) → integer (sign z) (size z) ≡ z
unfolding integer sign size
integer-sign (pos n) = refl
integer-sign (negsuc n) = refl

write_claims : List Claim → Bytes → Bytes
write_claims [] rest = rest
write_claims (c ∷ cs) rest =
    c.n ∷ sign c.as_num ∷ size c.as_num ∷ sign c.at ∷ size c.at ∷ write_claims cs rest

read_claims : ℕ → Bytes → Option (List Claim × Bytes)
read_claims zero b = some ([], b)
read_claims (suc k) (n ∷ s ∷ v ∷ s' ∷ v' ∷ b) = elim (read_claims k b) [
  | none ↦ none
  | some (cs, rest) ↦ some (record { n = n; as_num = integer s v; at = integer s' v' } ∷ cs, rest)
]
read_claims (suc k) _ = none

read-write_claims :
    (cs : List Claim) (rest : Bytes)
    → read_claims (length cs) (write_claims cs rest) ≡ some (cs, rest)
unfolding read_claims write_claims
read-write_claims [] rest = refl
read-write_claims (c ∷ cs) rest =
    rw (read-write_claims cs rest, integer-sign c.as_num, integer-sign c.at) refl

read_file : Bytes → Option StateFile
read_file [] = none
read_file (k ∷ b) = elim (read_claims k b) [
  | none ↦ none
  | some (cs, burned) ↦ some (record { claims = cs; burned = burned })
]

unfoldable pub numbers : Codec StateFile
unfolding write_claims read_file read_claims integer sign size
numbers = record {
  marshal = λ st. some (length st.claims ∷ write_claims st.claims st.burned);
  unmarshal = read_file;
}

read_written :
    (st : StateFile) → read_file (length st.claims ∷ write_claims st.claims st.burned) ≡ some st
unfolding read_file
read_written st = rw (read-write_claims st.claims st.burned, read_file)

pub numbers-ReadsBack : ReadsBack numbers
unfolding numbers
numbers-ReadsBack st b e = ap read_file (sym (some-injective _ _ e)) ∙ read_written st

abbrev pub two_slots : Codec PoolFile
two_slots = record {
  marshal = λ p. none;
  unmarshal = λ b. some (record {
    server_public_key = [];
    listen_port = pos 51820;
    slots =
        record { n = 1; ip = []; private_key = []; public_key = [] }
        ∷ record { n = 2; ip = []; private_key = []; public_key = [] }
        ∷ record { n = 3; ip = []; private_key = []; public_key = [] }
        ∷ [];
  });
}

abbrev crash : List Op
crash =
    restart (some []) true
    ∷ claim_as (pos 158) (pos 1) true true
    ∷ claim_as (pos 158) (pos 2) true false
    ∷ restart (some []) true
    ∷ claim_as (pos 159) (pos 3) true true
    ∷ claim_as (pos 159) (pos 4) true true
    ∷ []

-- slot 1 is burned at the start; slot 2 is claimed; slot 3 is lost to the failed rename and comes
-- back with the restart
crash_issued :
    (run two_slots numbers
      (at_start two_slots numbers numbers-ReadsBack (some (0 ∷ 1 ∷ [])))
      crash).issued
    ≡ 3 ∷ 2 ∷ []
unfolding run claim open_store taken_of numbers
crash_issued = refl

run-Distinct_example :
    Distinct
      (run two_slots numbers
        (at_start two_slots numbers numbers-ReadsBack (some (0 ∷ 1 ∷ [])))
        crash).issued
    × All
        (λ n. recorded numbers (some (0 ∷ 1 ∷ [])) n ≡ false)
        (run two_slots numbers
          (at_start two_slots numbers numbers-ReadsBack (some (0 ∷ 1 ∷ [])))
          crash).issued
run-Distinct_example = run-Distinct two_slots numbers numbers-ReadsBack (some (0 ∷ 1 ∷ [])) crash
