-- ===== src/Prober.antt =====
-- idint-probed/prober/convert.go: paths and telemetry as they go over the wire. The wire types of
-- types.go are those of the dashboard's wire.go. The SCION libraries' path and report are records of
-- what the code reads of them, an ISD-AS is printed by a function `show_ia`, and the decoding of the
-- data plane's path is an input.
pub mod Hops
pub mod Turned
pub mod Reverse
pub mod Examples
use ietf_scion_testbed.Prelude.{
  ℕ, ◌+◌, ◌-◌, ◌*◌, ◌/◌, ◌%◌, ◌^◌, Bool, true, false, Option, none, some, List, [], ◌∷◌, ◌++◌,
  if◌then◌else◌, ltb, length, zero, suc, ◌&&◌, Bytes, ℤ, pos, negsuc, sub_ℕ, Outcome, done, failed,
  ◌>>=◌, or_fail, Float,
}
use ietf_scion_testbed.Idint.Wire.{Iface, PathJson, HopRecord}

-- a - b on a 64-bit `uint`, where both are below 2^64
abbrev pub minus : ℕ → ℕ → ℕ
minus a b = (a + 2 ^ 64 - b) % 2 ^ 64

-- What is read of scion.Decoded: the lengths of three segments, the `Peer` flags of the info fields,
-- and how many info fields there are.
pub record Decoded : Type 0 where
  pub len_0 : ℕ
  pub len_1 : ℕ
  pub len_2 : ℕ
  pub peer_0 : Bool
  pub peer_1 : Bool
  pub peer_2 : Bool
  pub num_inf : ℕ

unfoldable pub reversed : Decoded → Decoded
reversed d =
    if ltb 0 d.len_2
    then record d { len_0 = d.len_2; len_2 = d.len_0; peer_0 = d.peer_2; peer_2 = d.peer_0 }
    else if ltb 0 d.len_1
    then record d { len_0 = d.len_1; len_1 = d.len_0; peer_0 = d.peer_1; peer_1 = d.peer_0 }
    else d

-- The hop fields at which the first and the second segment end; the third end is not compared with.
unfoldable pub seg_changes : Decoded → ℕ × ℕ
seg_changes d =
    let end_0 = d.len_0 in
    let end_1 = d.len_0 + d.len_1 in
    let end_2 = d.len_0 + d.len_1 + d.len_2 in
    (
      if d.peer_0 && ltb 1 d.num_inf then end_1 else end_0,
      if d.peer_1 && ltb 2 d.num_inf then end_2 else end_1,
    )

unfoldable pub interface_at : ℕ × ℕ → ℕ → ℕ
interface_at (end_0, end_1) i =
    if ltb 0 i
    then (if ltb i end_0
        then minus (2 * i) 1
        else if ltb i end_1
        then minus (2 * i) 3
        else minus (2 * i) 5)
    else 0

unfoldable pub hopfield_to_interface_idx : Decoded → Bool → ℕ → ℕ
unfolding reversed seg_changes interface_at
hopfield_to_interface_idx d reverse i =
    interface_at (seg_changes (if reverse then reversed d else d)) i

abbrev pub get_elem? : {A : Type 0} → List A → ℕ → Option A
get_elem? [] i = none
get_elem? (x ∷ xs) zero = some x
get_elem? (x ∷ xs) (suc i) = get_elem? xs i

-- The IA of a hop field, by the IAs of the path's interfaces; none is the error.
unfoldable pub fwd_path_meta : {IA : Type 0} → List IA → Decoded → ℕ → Option IA
unfolding hopfield_to_interface_idx
fwd_path_meta ifaces d i = get_elem? ifaces (hopfield_to_interface_idx d false i)

unfoldable pub rev_path_meta : {IA : Type 0} → List IA → Decoded → ℕ → Option IA
unfolding hopfield_to_interface_idx
rev_path_meta ifaces d i =
    let j = hopfield_to_interface_idx d true i in
    if ltb j (length ifaces) then get_elem? ifaces (length ifaces - j - 1) else none

pub record Metadata (IA : Type 0) : Type 0 where
  pub interfaces : List (IA × ℕ)
  pub latency : List ℤ
  pub mtu : ℤ
  pub expiry : Bytes
  pub fingerprint : Bytes

-- a time.Duration in microseconds
unfoldable pub latency_us : List ℤ → List ℤ
latency_us [] = []
latency_us (pos d ∷ rest) = pos (d / 1000) ∷ latency_us rest
latency_us (negsuc d ∷ rest) = negsuc 0 ∷ latency_us rest

unfoldable pub ifaces_json : {IA : Type 0} → (IA → Bytes) → List (IA × ℕ) → List Iface
ifaces_json show_ia [] = []
ifaces_json show_ia ((ia, id) ∷ rest) =
    record { ia = show_ia ia; if_id = id } ∷ ifaces_json show_ia rest

unfoldable pub path_to_json : {IA : Type 0} → (IA → Bytes) → Metadata IA → PathJson
unfolding latency_us ifaces_json
path_to_json show_ia md = record {
  fingerprint = md.fingerprint;
  mtu = md.mtu;
  expiry = md.expiry;
  interfaces = ifaces_json show_ia md.interfaces;
  latency_us = latency_us md.latency;
}

-- what a slot of a report holds
pub data Instruction : Type 0 where
  rtt_next_br : Instruction
  egress_link_tx : Instruction
  ingress_tstamp : Instruction
  inst_queue_len : Instruction
  other_instruction : Instruction

-- A hop's data; a slot is none if its data length is 0.
pub record HopData : Type 0 where
  pub hop_index : ℕ
  pub source : Bool
  pub ingress : Bool
  pub egress : Bool
  pub aggregated : Bool
  pub encrypted : Bool
  pub node_id : Option ℕ
  pub ingress_port : Option ℕ
  pub egress_port : Option ℕ
  pub slots : List (Option ℕ)

-- `int64(val)`
abbrev pub to_int64 : ℕ → ℤ
to_int64 n = if ltb n (2 ^ 63) then pos n else sub_ℕ n (2 ^ 64)

module _ (fl : Float) where
  open fl use {F, dec, of_int, mul, div}

  -- the record of a hop before its slots
  unfoldable pub bare_record : HopData → Bytes → Bool → HopRecord F
  bare_record hop ia verified = record {
    hop = pos hop.hop_index;
    ia = ia;
    source = hop.source;
    ingress = hop.ingress;
    egress = hop.egress;
    aggregated = hop.aggregated;
    encrypted = hop.encrypted;
    verified = verified;
    node_id = hop.node_id;
    igr_ifid = hop.ingress_port;
    egr_ifid = hop.egress_port;
    rtt_next_br_us = none;
    egr_link_tx_pct = none;
    ingress_tstamp = none;
    queue_len = none;
  }

  unfoldable pub put_slot : HopRecord F → Instruction → ℕ → HopRecord F
  put_slot r rtt_next_br val = record r { rtt_next_br_us = some (to_int64 val) }
  put_slot r egress_link_tx val = record r {
    egr_link_tx_pct = some (div (mul (dec 100 0) (of_int (pos val))) (of_int (pos (2 ^ 32 - 1))));
  }
  put_slot r ingress_tstamp val = record r { ingress_tstamp = some val }
  put_slot r inst_queue_len val = record r { queue_len = some (to_int64 val) }
  put_slot r other_instruction val = r

  -- the loop over the slots
  unfoldable pub put_slots : HopRecord F → List Instruction → List (Option ℕ) → HopRecord F
  unfolding put_slot
  put_slots r (ins ∷ inss) (some val ∷ slots) = put_slots (put_slot r ins val) inss slots
  put_slots r (ins ∷ inss) (none ∷ slots) = put_slots r inss slots
  put_slots r _ _ = r

  -- `hop_to_ia` is none for a hop index that is out of range, which is the error
  unfoldable pub records :
      {IA : Type 0}
      → (IA → Bytes)
      → List Instruction
      → (ℕ → Option IA)
      → Bool
      → List HopData
      → Option (List (HopRecord F))
  unfolding bare_record put_slots
  records show_ia inss hop_to_ia verified [] = some []
  records show_ia inss hop_to_ia verified (hop ∷ rest) =
      let later = records show_ia inss hop_to_ia verified rest in
      elim (hop_to_ia hop.hop_index) [
        | none ↦ none
        | some ia ↦ elim later [
          | none ↦ none
          | some rs ↦ some (put_slots (bare_record hop (show_ia ia) verified) inss hop.slots ∷ rs)
        ]
      ]
