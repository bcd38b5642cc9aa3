-- ===== src/Join/Slots.antt =====
-- join.go over wgpool.go: the slots that replies give, over any sequence of calls and restarts.
use ietf_scion_testbed.Prelude.{
  ℕ, ◌≡◌, refl, sym, ap, ◌∙◌, Bool, true, false, Option, none, some, List, [], ◌∷◌, ◌++◌, Bytes, ℤ,
  Codec, ReadsBack, All, Distinct, Thin, empty, skip, keep, Distinct-Thin, All-Thin, nat_eq,
  Outcome, done, failed, or_fail, Returns, Returns-each, ◌⊎◌, inl, inr, if◌then◌else◌,
}
use ietf_scion_testbed.RateLimit
use ietf_scion_testbed.RateLimit.{Limiter, allow}
use ietf_scion_testbed.WgPool.{
  PoolFile, Slot, Store, Disk, ClaimResult, slot, exhausted, persist_error, claim, open_store,
}
use ietf_scion_testbed.WgPool.Runs
use ietf_scion_testbed.WgPool.Runs.{Op, claim_as, restart, World, read_state}
use ietf_scion_testbed.WgPool.Sound.{recorded}
use ietf_scion_testbed.WgPool.Claims.{at_start, run-Distinct}
use ietf_scion_testbed.Join.{JoinConfig, Env}
use ietf_scion_testbed.Join.Claim.{
  Desk, Call, Reply, Refusal, admitted, identity, identities, reply_for, answer, after_claim,
  at_limiter, at_pool, handle_join_claim,
}
use ietf_scion_testbed.Join.Claim

-- a call of the handler, or a start of the daemon: the pool file as it is read then, and whether the
-- state file is readable
pub data Event : Type 0 where
  call : Call → Event
  boot : Option Bytes → Bool → Event

-- The desk, and the slots of the replies so far, newest first.
pub record Booth : Type 0 where
  pub desk : Desk
  pub served : List ℕ

abbrev note_reply : Outcome Refusal Reply → List ℕ → List ℕ
note_reply (failed e) served = served
note_reply (done reply) served = reply.slot ∷ served

abbrev noted : List ℕ → Desk × Outcome Refusal Reply → Booth
noted served (d, r) = record { desk = d; served = note_reply r served }

-- A reply names the slot that was claimed.
answer-slot :
    (env : Env) (jc : JoinConfig) (server_pub : Bytes) (as_num : ℤ) (sl : Slot)
    → Returns (λ reply. reply.slot ≡ sl.n) (answer env jc server_pub as_num (slot sl))
unfolding answer reply_for
answer-slot env jc server_pub as_num sl =
    Returns-each (λ reply. reply.slot ≡ sl.n) (or_fail Claim.pool_error (env.parse_addr sl.ip)) _
      (λ ip.
        Returns-each (λ reply. reply.slot ≡ sl.n) (identity env jc as_num ip) _
          (λ fc.
            Returns-each (λ reply. reply.slot ≡ sl.n) (identities env jc ip [] jc.joinable_ases) _
              (λ ids. refl)))

note_reply-Thin :
    (n : ℕ) (o : Outcome Refusal Reply) (served issued : List ℕ)
    → Returns (λ reply. reply.slot ≡ n) o
    → Thin served issued
    → Thin (note_reply o served) (n ∷ issued)
note_reply-Thin n (failed e) served issued h t = skip n served issued t
note_reply-Thin n (done reply) served issued h t = rw h (keep n served issued t)

module _ (env : Env) (jc : JoinConfig) (pool_json : Codec PoolFile) where
  -- main.go opens the pool and makes the limiter anew
  unfoldable pub join_step : Booth → Event → Booth
  join_step b (call c) = noted b.served (handle_join_claim env jc b.desk c)
  join_step b (boot pool_file readable) = record b {
    desk = record {
      pool = open_store pool_json env.json pool_file (read_state b.desk.disk readable);
      disk = b.desk.disk;
      limiter = RateLimit.new jc.rate_max jc.rate_window;
    };
  }

  unfoldable pub join_run : Booth → List Event → Booth
  unfolding join_step
  join_run b [] = b
  join_run b (e ∷ rest) = join_run (join_step b e) rest

  -- the pool's side of a booth
  abbrev world_of : Booth → List ℕ → World
  world_of b issued = record { server = b.desk.pool; disk = b.desk.disk; issued = issued }

  Step : Booth → List ℕ → Booth → Type 0
  Step b issued b' =
      ((world_of b issued ≡ world_of b' issued) × Thin b'.served issued)
      ⊎ ((op : Op) × (issued' : List ℕ) × (Runs.step pool_json env.json (world_of b issued) op
            ≡ world_of b' issued')
          × Thin b'.served issued')

  settled :
      (b : Booth) (issued : List ℕ) (as_num : ℤ) (d : Desk) (t : Store × Disk × ClaimResult)
      → Thin b.served issued
      → (issued' : List ℕ) × (Runs.settle (world_of b issued) t
          ≡ world_of (noted b.served (after_claim env jc as_num d t)) issued')
        × Thin (noted b.served (after_claim env jc as_num d t)).served issued'
  unfolding answer
  settled b issued as_num d (pool, disk, exhausted) thin = (issued, refl, thin)
  settled b issued as_num d (pool, disk, persist_error) thin = (issued, refl, thin)
  settled b issued as_num d (pool, disk, slot sl) thin = (
    sl.n ∷ issued,
    refl,
    note_reply-Thin sl.n (answer env jc pool.pool.server_public_key as_num (slot sl)) b.served
        issued (answer-slot env jc pool.pool.server_public_key as_num sl) thin,
  )

  module _ (b : Booth) (c : Call) (issued : List ℕ) (thin : Thin b.served issued) where
    admitted-Step :
        (pool : Store) (limiter : Limiter) (o : Outcome Refusal ℤ)
        → b.desk.pool ≡ some pool
        → Step b issued (
            noted b.served (Claim.claim_as env jc (record (b.desk) { limiter = limiter }) c pool o))
    unfolding Step Runs.step Runs.claim_at
    admitted-Step pool limiter (failed e) p = inl (refl, thin)
    admitted-Step pool limiter (done as_num) p =
        let t = claim env.json pool b.desk.disk as_num c.now_unix c.write_ok c.rename_ok in
        let (issued', e, thin') =
          settled b issued as_num (record (b.desk) { limiter = limiter }) t thin in
        inr (
          claim_as as_num c.now_unix c.write_ok c.rename_ok,
          issued',
          ap
                (λ o.
                  Runs.claim_at pool_json env.json o (world_of b issued) as_num c.now_unix
                    c.write_ok c.rename_ok)
                p
              ∙ e,
          thin',
        )

    limited-Step :
        (pool : Store) (p : Limiter × Bool)
        → b.desk.pool ≡ some pool
        → Step b issued (noted b.served (at_limiter env jc b.desk c pool p))
    unfolding Step
    limited-Step pool (limiter, false) e = inl (refl, thin)
    limited-Step pool (limiter, true) e = admitted-Step pool limiter (admitted jc c.body) e

    pooled-Step :
        (o : Option Store)
        → b.desk.pool ≡ o
        → Step b issued (noted b.served (at_pool env jc b.desk c o))
    unfolding Step
    pooled-Step none e = inl (refl, thin)
    pooled-Step (some pool) e = limited-Step pool _ e

    enabled-Step :
        (on : Bool)
        → Step b issued (
            noted b.served (
              if on then at_pool env jc b.desk c b.desk.pool else (b.desk, failed Claim.not_found)))
    unfolding Step
    enabled-Step true = pooled-Step b.desk.pool refl
    enabled-Step false = inl (refl, thin)

    call-Step : Step b issued (join_step b (call c))
    unfolding join_step handle_join_claim
    call-Step = enabled-Step jc.enabled

  event-Step :
      (e : Event) (b : Booth) (issued : List ℕ)
      → Thin b.served issued
      → Step b issued (join_step b e)
  unfolding Step join_step Runs.step
  event-Step (call c) b issued thin = call-Step b c issued thin
  event-Step (boot pool_file readable) b issued thin =
      inr (restart pool_file readable, issued, refl, thin)

  run-snoc :
      (ops : List Op) (op : Op) (w : World)
      → Runs.run pool_json env.json w (ops ++ op ∷ [])
        ≡ Runs.step pool_json env.json (Runs.run pool_json env.json w ops) op
  unfolding Runs.run
  run-snoc [] op w = refl
  run-snoc (o ∷ ops) op w = run-snoc ops op (Runs.step pool_json env.json w o)

  -- The pool has gone through claims and restarts that issue all slots of the replies.
  Traced : World → Booth → Type 0
  Traced w b =
      (ops : List Op) × (issued : List ℕ) × (Runs.run pool_json env.json w ops ≡ world_of b issued)
      × Thin b.served issued

  join_step-Traced : (w : World) (e : Event) (b : Booth) → Traced w b → Traced w (join_step b e)
  unfolding Traced Step
  join_step-Traced w e b (ops, issued, k, thin) = elim (event-Step e b issued thin) [
    | inl same ↦ (ops, issued, k ∙ same.0, same.1)
    | inr moved ↦
        let (op, issued', k', thin') = moved in
        (
          ops ++ op ∷ [],
          issued',
          run-snoc ops op w ∙ ap (λ x. Runs.step pool_json env.json x op) k ∙ k',
          thin',
        )
  ]

  join_run-Traced :
      (w : World) (es : List Event) (b : Booth) → Traced w b → Traced w (join_run b es)
  unfolding join_run
  join_run-Traced w [] b h = h
  join_run-Traced w (e ∷ es) b h = join_run-Traced w es (join_step b e) (join_step-Traced w e b h)

  module _ (reads_back : ReadsBack env.json) (start : Disk) (limiter : Limiter) where
    -- The daemon is down, and nothing has been served.
    abbrev pub not_booted : Booth
    not_booted = record {
      desk = record { pool = none; disk = start; limiter = limiter };
      served = [];
    }

    -- If the state file is read back as it was written: from any state file, over any sequence of
    -- starts of the daemon and claims, from any address at any time and with any body, whatever
    -- writes and reads fail, no two replies give the same slot, and no reply gives a slot that the
    -- state file records at the start as claimed or burned.
    pub join_run-Distinct :
        (es : List Event)
        → Distinct (join_run not_booted es).served
          × All (λ n. recorded env.json start n ≡ false) (join_run not_booted es).served
    unfolding Traced Runs.run
    join_run-Distinct es =
        let w = at_start pool_json env.json reads_back start in
        let (ops, issued, k, thin) = join_run-Traced w es not_booted ([], [], refl, empty) in
        let (distinct, unused) = run-Distinct pool_json env.json reads_back start ops in
        let e : (Runs.run pool_json env.json w ops).issued ≡ issued = ap (λ x. x.issued) k in
        (
          Distinct-Thin (join_run not_booted es).served issued thin (rw (sym e) distinct),
          All-Thin _ (join_run not_booted es).served issued thin (rw (sym e) unused),
        )
