-- ===== src/WgPool/Claims.antt =====
-- wgpool.go: the theorem on claims and restarts, with the steps of its induction.
use ietf_scion_testbed.Prelude.{
  ◌≡◌, refl, Bool, true, false, Option, none, some, List, [], ◌∷◌, All, Distinct, nat_eq, Bytes, ℤ,
  Codec, ReadsBack,
}
use ietf_scion_testbed.WgPool.{
  PoolFile, StateFile, Store, opened, open_state, open_store, Disk, claim,
}
use ietf_scion_testbed.WgPool.Runs.{Op, claim_as, restart, World, read_state, claim_at, run}
use ietf_scion_testbed.WgPool.Sound.{recorded, Knows, Sound, Sound-claim_slot}

module _ (pool_json : Codec PoolFile) (json : Codec StateFile) (reads_back : ReadsBack json)
    (start : Disk) where
  Sound-claim_at :
      (o : Option Store) (w : World) (as_num now : ℤ) (write_ok rename_ok : Bool)
      → Sound json start w
      → Knows json o w.disk
      → Sound json start (claim_at pool_json json o w as_num now write_ok rename_ok)
  unfolding claim_at claim
  Sound-claim_at none w as_num now write_ok rename_ok h k = h
  Sound-claim_at (some s) w as_num now write_ok rename_ok h k =
      Sound-claim_slot json reads_back start w s as_num now write_ok rename_ok _ h k refl

  Knows-contents :
      (pool : PoolFile) (b : Bytes) (o : Option StateFile)
      → json.unmarshal b ≡ o
      → Knows json (elim o [ none ↦ none | some st ↦ some (opened pool st) ]) (some b)
  unfolding opened
  Knows-contents pool b none e = tt
  Knows-contents pool b (some st) e = (λ n r. rw (e, recorded) at r, λ n r. r)

  Knows-open_state :
      (pool : PoolFile) (disk : Disk) (readable : Bool)
      → Knows json (open_state json pool (read_state disk readable)) disk
  unfolding open_state read_state
  Knows-open_state pool disk false = tt
  Knows-open_state pool none true = (λ n r. cc, λ n r. r)
  Knows-open_state pool (some b) true = Knows-contents pool b (json.unmarshal b) refl

  Knows-pool :
      (o : Option PoolFile) (disk : Disk) (readable : Bool)
      → Knows json
          (elim o [ none ↦ none | some pool ↦ open_state json pool (read_state disk readable) ])
          disk
  Knows-pool none disk readable = tt
  Knows-pool (some pool) disk readable = Knows-open_state pool disk readable

  Knows-open_store :
      (pool_file : Option Bytes) (disk : Disk) (readable : Bool)
      → Knows json (open_store pool_json json pool_file (read_state disk readable)) disk
  unfolding open_store
  Knows-open_store none disk readable = tt
  Knows-open_store (some b) disk readable = Knows-pool (pool_json.unmarshal b) disk readable

  Sound-run :
      (ops : List Op) (w : World) → Sound json start w → Sound json start (run pool_json json w ops)
  unfolding run
  Sound-run [] w h = h
  Sound-run (claim_as as_num now write_ok rename_ok ∷ ops) w h =
      Sound-run ops _ (Sound-claim_at w.server w as_num now write_ok rename_ok h h.knows)
  Sound-run (restart pool_file readable ∷ ops) w h = Sound-run ops _ (record {
    kept = h.kept;
    on_disk = h.on_disk;
    unused = h.unused;
    distinct = h.distinct;
    knows = Knows-open_store pool_file w.disk readable;
  })

  -- The daemon is down, and nothing has been handed out.
  abbrev pub at_start : World
  at_start = record { server = none; disk = start; issued = [] }

  -- If the state file is read back as it was written: from any state file, over any sequence of
  -- claims and restarts, whatever writes and reads fail, no slot number is handed out twice, and
  -- none that the state file records at the start, as claimed or as burned, is handed out at all.
  pub run-Distinct :
      (ops : List Op)
      → Distinct (run pool_json json at_start ops).issued
        × All (λ n. recorded json start n ≡ false) (run pool_json json at_start ops).issued
  run-Distinct ops =
      let h =
        Sound-run ops at_start
          (record { kept = λ n r. r; on_disk = tt; unused = tt; distinct = tt; knows = tt }) in
      (h.distinct, h.unused)
