-- ===== src/WgPool.antt =====
-- dashboard/backend/internal/wgpool/wgpool.go: the pool of WireGuard configurations. The state file
-- is explicit, and so is whether each access to it succeeds; the lock makes every method one step.
-- Slot numbers are not negative. The pool file and the state file are read by a JSON codec each.
pub mod Runs
pub mod Sound
pub mod Single
pub mod Claims
pub mod Examples
use ietf_scion_testbed.Prelude.{
  ℕ, Bool, true, false, Option, none, some, List, [], ◌∷◌, ◌++◌, map, if◌then◌else◌, length,
  contains, nat_eq, Bytes, ℤ, Codec,
}

pub record Slot : Type 0 where
  pub n : ℕ
  pub ip : Bytes
  pub private_key : Bytes
  pub public_key : Bytes

pub record PoolFile : Type 0 where
  pub server_public_key : Bytes
  pub listen_port : ℤ
  pub slots : List Slot

pub record Claim : Type 0 where
  pub n : ℕ
  pub as_num : ℤ
  pub at : ℤ

pub record StateFile : Type 0 where
  pub claims : List Claim
  pub burned : List ℕ

-- `taken` is the set of claimed or burned numbers.
pub record Store : Type 0 where
  pub pool : PoolFile
  pub state : StateFile
  pub taken : List ℕ

-- os.ReadFile of the state file: its contents, no such file, or another error
pub data ReadResult : Type 0 where
  contents : Bytes → ReadResult
  not_exist : ReadResult
  read_failed : ReadResult

-- `s.taken[n] = true` for every claim, then for every burned number
unfoldable pub taken_of : StateFile → List ℕ
taken_of st = st.burned ++ map (λ c. c.n) st.claims

unfoldable pub opened : PoolFile → StateFile → Store
unfolding taken_of
opened pool st = record { pool = pool; state = st; taken = taken_of st }

-- `none` is an error: the pool file is missing or malformed, or the state file is malformed or
-- unreadable. A state file that does not exist is an empty state.
unfoldable pub open_state : Codec StateFile → PoolFile → ReadResult → Option Store
unfolding opened
open_state json pool (contents b) = elim (json.unmarshal b) [
  | none ↦ none
  | some st ↦ some (opened pool st)
]
open_state json pool not_exist = some (opened pool (record { claims = []; burned = [] }))
open_state json pool read_failed = none

unfoldable pub open_store :
    Codec PoolFile → Codec StateFile → Option Bytes → ReadResult → Option Store
unfolding open_state
open_store pool_json json none state_file = none
open_store pool_json json (some b) state_file = elim (pool_json.unmarshal b) [
  | none ↦ none
  | some pool ↦ open_state json pool state_file
]

-- The state file on disk, `none` if there is none.
abbrev pub Disk : Type 0
Disk = Option Bytes

-- the two calls that put the marshalled state into place, through a temporary file
unfoldable pub write_state : Option Bytes → Disk → Bool → Bool → Disk × Bool
write_state none disk write_ok rename_ok = (disk, false)
write_state (some b) disk true true = (some b, true)
write_state (some b) disk _ _ = (disk, false)

-- `persistLocked`; `write_ok` and `rename_ok` say whether the two calls succeed. The result says
-- whether the method returns nil.
unfoldable pub persist_locked : Codec StateFile → Store → Disk → Bool → Bool → Disk × Bool
unfolding write_state
persist_locked json s disk write_ok rename_ok =
    write_state (json.marshal s.state) disk write_ok rename_ok

pub data ClaimResult : Type 0 where
  slot : Slot → ClaimResult
  exhausted : ClaimResult
  persist_error : ClaimResult

-- the loop of `Claim` over the slots that are left: the first that is not taken
unfoldable pub first_free : List ℕ → List Slot → Option Slot
first_free taken [] = none
first_free taken (sl ∷ rest) = if contains taken sl.n then first_free taken rest else some sl

-- the store in which a slot is marked and its claim recorded
unfoldable pub take_slot : Store → Slot → ℤ → ℤ → Store
take_slot s sl as_num now = record s {
  taken = sl.n ∷ s.taken;
  state = record (s.state) {
    claims = s.state.claims ++ record { n = sl.n; as_num = as_num; at = now } ∷ [];
  };
}

abbrev pub claim_reply : Slot → Bool → ClaimResult
claim_reply sl true = slot sl
claim_reply sl false = persist_error

-- A failed write leaves the slot marked in memory, and returns the error.
unfoldable pub claim_slot :
    Codec StateFile → Store → Disk → ℤ → ℤ → Bool → Bool → Option Slot → Store × Disk × ClaimResult
unfolding take_slot persist_locked
claim_slot json s disk as_num now write_ok rename_ok none = (s, disk, exhausted)
claim_slot json s disk as_num now write_ok rename_ok (some sl) =
    let s' = take_slot s sl as_num now in
    let (disk', ok) = persist_locked json s' disk write_ok rename_ok in
    (s', disk', claim_reply sl ok)

unfoldable pub claim :
    Codec StateFile → Store → Disk → ℤ → ℤ → Bool → Bool → Store × Disk × ClaimResult
unfolding first_free claim_slot
claim json s disk as_num now write_ok rename_ok =
    claim_slot json s disk as_num now write_ok rename_ok (first_free s.taken s.pool.slots)

-- `(total, claimed, burned)`
unfoldable pub stats : Store → ℕ × ℕ × ℕ
stats s = (length s.pool.slots, length s.state.claims, length s.state.burned)
