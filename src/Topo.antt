-- ===== src/Topo.antt =====
-- dashboard/backend/internal/topo/topo.go: the topology graph. AS numbers are not negative.
pub mod Files
pub mod Load
pub mod Index
pub mod Pairs
pub mod Graphs
pub mod Examples
use ietf_scion_testbed.Prelude.{ℕ, Bool, List, Bytes}

pub record Endpoint : Type 0 where
  pub ia : Bytes
  pub as_num : ℕ
  pub if_id : Bytes
  pub ip : Bytes
  pub link_to : Bytes

-- `a` is the endpoint in the lower-numbered AS.
pub record Link : Type 0 where
  pub id : Bytes
  pub type : Bytes
  pub subnet : Bytes
  pub a : Endpoint
  pub b : Endpoint

pub record As : Type 0 where
  pub ia : Bytes
  pub num : ℕ
  pub core : Bool
  pub mgmt_ip : Bytes

pub record Graph : Type 0 where
  pub ases : List As
  pub links : List Link
