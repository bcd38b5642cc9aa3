-- ===== src/Join/Guards.antt =====
-- join.go: what stands between a call and a slot.
use ietf_scion_testbed.Prelude.{
  ◌≡◌, refl, sym, ap, ◌∙◌, Bool, true, false, Option, none, some, List, [], ◌∷◌, Bytes, ◌==◌,
  bytes_eq, nat_eq, ℤ, contains, Outcome, done, failed, or_fail, Ends, Ends->>=, Map, insert,
  itoa_ℤ, Bool-cases, inl, inr, if◌then◌else◌,
}
use ietf_scion_testbed.MappedAddr.{
  Host, Mapped, address, isd_range, asn_range, not_ipv4, mapped_ipv6,
}
use ietf_scion_testbed.RateLimit.{Limiter, allow}
use ietf_scion_testbed.RateLimit.ClientKey.{client_key}
use ietf_scion_testbed.WgPool.{
  Slot, Store, Disk, ClaimResult, slot, exhausted, persist_error, claim,
}
use ietf_scion_testbed.Join.{JoinConfig, Env, as_allowed}
use ietf_scion_testbed.Join.Claim.{
  Desk, Call, ClaimBody, Reply, Refusal, default_as, admitted, answer, reply_for, identity,
  shown_identity, identities, claim_as, after_claim, at_limiter, at_pool, handle_join_claim,
  not_found, no_pool, rate_limited, bad_request, bad_code, none_left, pool_error, no_identity,
}
use ietf_scion_testbed.WgPool.Single.{Claimed, claim-Claimed}

-- the body of an accepted claim, and the AS that it stands for
pub record IsAdmitted (jc : JoinConfig) (body : Option ClaimBody) (as_num : ℤ) : Type 0 where
  pub given : ClaimBody
  pub read : body ≡ some given
  pub right_code : (given.code == jc.booth_code) ≡ true
  pub stands_for : as_num ≡ default_as jc.joinable_ases given.as_num
  pub joinable : as_allowed jc as_num ≡ true

pub record IsGranted (env : Env) (jc : JoinConfig) (d : Desk) (call : Call) (d' : Desk)
    (reply : Reply) : Type 0 where
  pub on : jc.enabled ≡ true
  pub within_rate : (allow d.limiter call.now_ns (client_key env.net call.remote_addr)).1 ≡ true
  pub accepted : IsAdmitted jc call.body reply.as_num
  pub before : Store
  pub opened : d.pool ≡ some before
  pub free : contains before.taken reply.slot ≡ false
  pub after : Store
  pub kept : d'.pool ≡ some after
  pub taken : contains after.taken reply.slot ≡ true

abbrev SamePool : Desk → Desk → Type 0
SamePool d d' = (d'.pool ≡ d.pool) × (d'.disk ≡ d.disk)

-- what a refusal says of the pool; the last two may have spent a slot
abbrev pub IsRefused : Desk → Desk → Refusal → Type 0
IsRefused d d' not_found = SamePool d d'
IsRefused d d' no_pool = SamePool d d'
IsRefused d d' rate_limited = SamePool d d'
IsRefused d d' bad_request = SamePool d d'
IsRefused d d' bad_code = SamePool d d'
IsRefused d d' none_left = SamePool d d'
IsRefused d d' pool_error = Unit
IsRefused d d' no_identity = Unit

abbrev pub IsAnswered : Env → JoinConfig → Desk → Call → Desk × Outcome Refusal Reply → Type 0
IsAnswered env jc d call (d', done reply) = IsGranted env jc d call d' reply
IsAnswered env jc d call (d', failed e) = IsRefused d d' e

-- A refusal of the body, the code or the AS is none of the last two.
abbrev IsAdmission : JoinConfig → Option ClaimBody → Outcome Refusal ℤ → Type 0
IsAdmission jc body (done as_num) = IsAdmitted jc body as_num
IsAdmission jc body (failed e) = (d d' : Desk) → SamePool d d' → IsRefused d d' e

admitted-IsAdmission :
    (jc : JoinConfig) (body : Option ClaimBody) → IsAdmission jc body (admitted jc body)
unfolding admitted
admitted-IsAdmission jc none = λ d d' h. h
admitted-IsAdmission jc (some b) = elim (Bool-cases (b.code == jc.booth_code)) [
  | inr wrong ↦ rw wrong (λ d d' h. h)
  | inl right ↦
      let as_num = default_as jc.joinable_ases b.as_num in
      elim (Bool-cases (as_allowed jc as_num)) [
        | inr other ↦ rw (right, other) (λ d d' h. h)
        | inl own ↦
            rw (right, own)
              (record {
                given = b;
                read = refl;
                right_code = right;
                stands_for = refl;
                joinable = own;
              })
      ]
]

-- Behind a claim, every refusal may have spent a slot.
abbrev Spends : Refusal → Type 0
Spends e = (d d' : Desk) → IsRefused d d' e

shown_identity-Ends : (env : Env) (m : Mapped) → Ends (λ a. Unit) Spends (shown_identity env m)
shown_identity-Ends env (address a) = tt
shown_identity-Ends env isd_range = λ d d'. tt
shown_identity-Ends env asn_range = λ d d'. tt
shown_identity-Ends env not_ipv4 = λ d d'. tt

identities-Ends :
    (env : Env) (jc : JoinConfig) (ip : Host) (ids : Map Bytes Bytes) (ases : List ℤ)
    → Ends (λ a. Unit) Spends (identities env jc ip ids ases)
unfolding identities identity
identities-Ends env jc ip ids [] = tt
identities-Ends env jc ip ids (as_num ∷ rest) =
    Ends->>= (λ a. Unit) Spends (identity env jc as_num ip) _
      (shown_identity-Ends env (mapped_ipv6 jc.isd as_num ip))
      (λ id. identities-Ends env jc ip (insert (itoa_ℤ as_num) id ids) rest)

parsed-Ends : (o : Option Host) → Ends (λ a. Unit) Spends (or_fail pool_error o)
parsed-Ends none = λ d d'. tt
parsed-Ends (some ip) = tt

answer-Ends :
    (env : Env) (jc : JoinConfig) (server_pub : Bytes) (as_num : ℤ) (sl : Slot)
    → Ends
        (λ reply. (reply.slot ≡ sl.n) × (reply.as_num ≡ as_num))
        Spends
        (answer env jc server_pub as_num (slot sl))
unfolding answer reply_for identity
answer-Ends env jc server_pub as_num sl =
    let P : Reply → Type 0 = λ reply. (reply.slot ≡ sl.n) × (reply.as_num ≡ as_num) in
    Ends->>= P Spends (or_fail pool_error (env.parse_addr sl.ip)) _
      (parsed-Ends (env.parse_addr sl.ip))
      (λ ip.
        Ends->>= P Spends (identity env jc as_num ip) _
          (shown_identity-Ends env (mapped_ipv6 jc.isd as_num ip))
          (λ fc.
            Ends->>= P Spends (identities env jc ip [] jc.joinable_ases) _
              (identities-Ends env jc ip [] jc.joinable_ases) (λ ids. (refl, refl))))

module _ (env : Env) (jc : JoinConfig) (d : Desk) (call : Call) (on : jc.enabled ≡ true) where
  module _ (pool : Store) (opened : d.pool ≡ some pool) (limiter : Limiter)
      (within_rate : (allow d.limiter call.now_ns (client_key env.net call.remote_addr)).1
        ≡ true) where
    ended :
        (as_num : ℤ) (sl : Slot) (pool' : Store) (disk' : Disk) (o : Outcome Refusal Reply)
        → IsAdmitted jc call.body as_num
        → (contains pool.taken sl.n ≡ false) × (contains pool'.taken sl.n ≡ true)
        → Ends (λ reply. (reply.slot ≡ sl.n) × (reply.as_num ≡ as_num)) Spends o
        → IsAnswered env jc d call
            (record { pool = some pool'; disk = disk'; limiter = limiter }, o)
    ended as_num sl pool' disk' (failed e) a c h =
        h d (record { pool = some pool'; disk = disk'; limiter = limiter })
    ended as_num sl pool' disk' (done reply) a (free, taken) (s, n) = record {
      on = on;
      within_rate = within_rate;
      accepted = rw n a;
      before = pool;
      opened = opened;
      free = rw s free;
      after = pool';
      kept = refl;
      taken = rw s taken;
    }

    claimed :
        (as_num : ℤ) (t : Store × Disk × ClaimResult)
        → IsAdmitted jc call.body as_num
        → Claimed pool d.disk t
        → IsAnswered env jc d call (after_claim env jc as_num (record d { limiter = limiter }) t)
    unfolding answer
    claimed as_num (pool', disk', exhausted) a (p, k) = (ap some p ∙ sym opened, k)
    claimed as_num (pool', disk', persist_error) a c = tt
    claimed as_num (pool', disk', slot sl) a c =
        ended as_num sl pool' disk' (answer env jc pool'.pool.server_public_key as_num (slot sl)) a
          c (answer-Ends env jc pool'.pool.server_public_key as_num sl)

    decided :
        (o : Outcome Refusal ℤ)
        → IsAdmission jc call.body o
        → IsAnswered env jc d call (claim_as env jc (record d { limiter = limiter }) call pool o)
    decided (failed e) h = h d (record d { limiter = limiter }) (refl, refl)
    decided (done as_num) h =
        claimed as_num
          (claim env.json pool d.disk as_num call.now_unix call.write_ok call.rename_ok) h
          (claim-Claimed env.json pool d.disk as_num call.now_unix call.write_ok call.rename_ok)

  limited :
      (pool : Store) (p : Limiter × Bool)
      → d.pool ≡ some pool
      → (allow d.limiter call.now_ns (client_key env.net call.remote_addr)).1 ≡ p.1
      → IsAnswered env jc d call (at_limiter env jc d call pool p)
  limited pool (limiter, false) e r = (refl, refl)
  limited pool (limiter, true) e r =
      decided pool e limiter r (admitted jc call.body) (admitted-IsAdmission jc call.body)

  pooled : (o : Option Store) → d.pool ≡ o → IsAnswered env jc d call (at_pool env jc d call o)
  pooled none e = (refl, refl)
  pooled (some pool) e =
      limited pool (allow d.limiter call.now_ns (client_key env.net call.remote_addr)) e refl

-- On every call. If it gets a slot: joining is enabled, the limiter lets the address pass, the body
-- holds the booth's code and stands for a joinable AS, which the reply names, and the pool did
-- not count the reply's slot as taken before and does after. If it is refused for another reason
-- than an error behind the claim (500), the pool and its state file are as before.
pub handle_join_claim-IsAnswered :
    (env : Env) (jc : JoinConfig) (d : Desk) (call : Call)
    → IsAnswered env jc d call (handle_join_claim env jc d call)
unfolding handle_join_claim
handle_join_claim-IsAnswered env jc d call = go jc.enabled refl
  where
    go :
        (on : Bool)
        → jc.enabled ≡ on
        → IsAnswered env jc d call
            (if on then at_pool env jc d call d.pool else (d, failed not_found))
    go true e = pooled env jc d call e d.pool refl
    go false e = (refl, refl)
