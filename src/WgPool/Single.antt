-- ===== src/WgPool/Single.antt =====
-- wgpool.go: one claim of the pool, by its result.
use ietf_scion_testbed.Prelude.{
  ◌≡◌, refl, Bool, true, false, Option, none, some, bytes_eq, nat_eq, beq_refl, ℤ, contains, Codec,
}
use ietf_scion_testbed.WgPool.{
  StateFile, Slot, Store, Disk, ClaimResult, slot, exhausted, persist_error, claim, claim_slot,
  claim_reply, take_slot, first_free, persist_locked,
}
use ietf_scion_testbed.WgPool.Sound.{first_free-free}

-- what a claim of the pool does
abbrev pub Claimed : Store → Disk → Store × Disk × ClaimResult → Type 0
Claimed pool disk (pool', disk', slot sl) =
    (contains pool.taken sl.n ≡ false) × (contains pool'.taken sl.n ≡ true)
Claimed pool disk (pool', disk', exhausted) = (pool' ≡ pool) × (disk' ≡ disk)
Claimed pool disk (pool', disk', persist_error) = Unit

claim_reply-Claimed :
    (pool : Store) (disk : Disk) (sl : Slot) (pool' : Store) (p : Disk × Bool)
    → contains pool.taken sl.n ≡ false
    → contains pool'.taken sl.n ≡ true
    → Claimed pool disk (pool', p.0, claim_reply sl p.1)
claim_reply-Claimed pool disk sl pool' (disk', true) h k = (h, k)
claim_reply-Claimed pool disk sl pool' (disk', false) h k = tt

claim_slot-Claimed :
    (json : Codec StateFile) (pool : Store) (disk : Disk) (as_num now : ℤ)
    (write_ok rename_ok : Bool) (o : Option Slot)
    → ((sl : Slot) → o ≡ some sl → contains pool.taken sl.n ≡ false)
    → Claimed pool disk (claim_slot json pool disk as_num now write_ok rename_ok o)
unfolding claim_slot take_slot
claim_slot-Claimed json pool disk as_num now write_ok rename_ok none h = (refl, refl)
claim_slot-Claimed json pool disk as_num now write_ok rename_ok (some sl) h =
    let pool' = take_slot pool sl as_num now in
    claim_reply-Claimed pool disk sl pool' (persist_locked json pool' disk write_ok rename_ok)
      (h sl refl) (rw (beq_refl sl.n) refl)

pub claim-Claimed :
    (json : Codec StateFile) (pool : Store) (disk : Disk) (as_num now : ℤ)
    (write_ok rename_ok : Bool)
    → Claimed pool disk (claim json pool disk as_num now write_ok rename_ok)
unfolding claim
claim-Claimed json pool disk as_num now write_ok rename_ok =
    claim_slot-Claimed json pool disk as_num now write_ok rename_ok
      (first_free pool.taken pool.pool.slots) (first_free-free pool.taken pool.pool.slots)
