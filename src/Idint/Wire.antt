-- ===== src/Idint/Wire.antt =====
-- dashboard/backend/internal/idint/wire.go, and the trace view of
-- dashboard/backend/internal/derive/derive.go. An absent value (a nil pointer) is `none`. The text of
-- an error is not modelled, only which error it is and what it is about.
use ietf_scion_testbed.Prelude.{ℕ, ℤ, Bool, Option, List, Bytes}

pub record Iface : Type 0 where
  pub ia : Bytes
  pub if_id : ℕ

pub record PathJson : Type 0 where
  pub fingerprint : Bytes
  pub mtu : ℤ
  pub expiry : Bytes
  pub interfaces : List Iface
  pub latency_us : List ℤ

pub record HopRecord (F : Type 0) : Type 0 where
  pub hop : ℤ
  pub ia : Bytes
  pub source : Bool
  pub ingress : Bool
  pub egress : Bool
  pub aggregated : Bool
  pub encrypted : Bool
  pub verified : Bool
  pub node_id : Option ℕ
  pub igr_ifid : Option ℕ
  pub egr_ifid : Option ℕ
  pub rtt_next_br_us : Option ℤ
  pub egr_link_tx_pct : Option F
  pub ingress_tstamp : Option ℕ
  pub queue_len : Option ℤ

pub record ProbeResult (F : Type 0) : Type 0 where
  pub path : PathJson
  pub probe_rtt_ms : F
  pub max_len_exceeded : Bool
  pub fwd : List (HopRecord F)
  pub rev : List (HopRecord F)

pub record PathOption : Type 0 where
  pub fingerprint : Bytes
  pub hops : List ℕ
  pub links : List Bytes
  pub latency_us_total : ℤ
  pub mtu : ℤ
  pub expiry : Bytes
  pub current_best : Bool

pub data Error : Type 0 where
  unknown_as : ℕ → ℕ → Error
  src_is_dst : ℕ → Error
  odd_interfaces : ℕ → Error
  bad_ia : Bytes → Error
  not_in_topology : Bytes → Error
  egress_mismatch : ℕ → ℕ → ℕ → Error
  probe_failed : Bytes → Error

pub data Result {ℓ} (A : Type ℓ) : Type ℓ where
  ok : A → Result A
  err : Error → Result A

pub record TraceHop (F : Type 0) : Type 0 where
  pub ia : Bytes
  pub link : Bytes
  pub rtt_next_br_us : Option ℤ
  pub egr_tx_pct : Option F
  pub queue_len : Option ℤ
  pub node_id : Option ℕ
  pub verified : Bool

-- `error` is `none` where the code's text is empty.
pub record TraceVm (F : Type 0) : Type 0 where
  pub src : Bytes
  pub dst : Bytes
  pub fingerprint : Bytes
  pub auto : Bool
  pub path_links : List Bytes
  pub is_ok : Bool
  pub error : Option Error
  pub updated_at : ℤ
  pub probe_rtt_ms : F
  pub hops : List (TraceHop F)
