-- ===== src/WgPool/Runs.antt =====
-- wgpool.go: the claims and the restarts of the daemon, in any order.
use ietf_scion_testbed.Prelude.{
  ℕ, Bool, true, false, Option, none, some, List, [], ◌∷◌, nat_eq, Bytes, ℤ, Codec,
}
use ietf_scion_testbed.WgPool.{
  PoolFile, StateFile, Store, ReadResult, contents, not_exist, read_failed, open_store, Disk,
  ClaimResult, slot, exhausted, persist_error, claim,
}

-- A claim for an AS at a time, with the fate of the write and of the rename, or a restart: the
-- pool file as it is read then, and whether the state file is readable.
pub data Op : Type 0 where
  claim_as : ℤ → ℤ → Bool → Bool → Op
  restart : Option Bytes → Bool → Op

-- The daemon, if it is up, the state file, and the numbers handed out so far, newest first.
pub record World : Type 0 where
  pub server : Option Store
  pub disk : Disk
  pub issued : List ℕ

unfoldable pub read_state : Disk → Bool → ReadResult
read_state disk false = read_failed
read_state none true = not_exist
read_state (some b) true = contents b

abbrev pub note_issue : ClaimResult → List ℕ → List ℕ
note_issue (slot sl) issued = sl.n ∷ issued
note_issue exhausted issued = issued
note_issue persist_error issued = issued

-- the daemon, the file and the issued numbers after a claim
abbrev pub settle : World → Store × Disk × ClaimResult → World
settle w (s, disk, r) = record { server = some s; disk = disk; issued = note_issue r w.issued }

module _ (pool_json : Codec PoolFile) (json : Codec StateFile) where
  unfoldable pub claim_at : Option Store → World → ℤ → ℤ → Bool → Bool → World
  claim_at none w as_num now write_ok rename_ok = w
  claim_at (some s) w as_num now write_ok rename_ok =
      settle w (claim json s w.disk as_num now write_ok rename_ok)

  unfoldable pub step : World → Op → World
  unfolding claim_at read_state
  step w (claim_as as_num now write_ok rename_ok) =
      claim_at w.server w as_num now write_ok rename_ok
  step w (restart pool_file readable) = record w {
    server = open_store pool_json json pool_file (read_state w.disk readable);
  }

  unfoldable pub run : World → List Op → World
  unfolding step
  run w [] = w
  run w (op ∷ ops) = run (step w op) ops
