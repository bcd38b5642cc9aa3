-- ===== src/Topo/Files.antt =====
-- topo.go: the part of `Load` that reads the topology files into records of the ASes and interfaces.
-- The files are given decoded: a topology file is none if it cannot be read or parsed.
use ietf_scion_testbed.Prelude.{
  ℕ, Bool, Option, none, some, List, [], ◌∷◌, ◌++◌, if◌then◌else◌, Bytes, nat_eq, bytes_eq,
  contains, Map, insert, atoi_unsigned, cut_at, split_host_port, bytes_lt, sort_by, Outcome, done,
  failed, ◌>>=◌, or_fail,
}
use ietf_scion_testbed.Topo.{As}

pub record IfaceFile : Type 0 where
  pub local_addr : Bytes
  pub remote_addr : Bytes
  pub isd_as : Bytes
  pub link_to : Bytes

-- The maps are in the order in which the loops come upon their entries, which is arbitrary.
pub record TopologyFile : Type 0 where
  pub isd_as : Bytes
  pub control_service : Map Bytes Bytes
  pub border_routers : Map Bytes (Map Bytes IfaceFile)

pub record IfaceRec : Type 0 where
  pub as_num : ℕ
  pub ia : Bytes
  pub if_id : Bytes
  pub link_to : Bytes
  pub local_addr : Bytes
  pub remote_addr : Bytes
  pub local_host : Bytes

pub data LoadError : Type 0 where
  no_core_list no_files unread_file : LoadError
  malformed_ia : Bytes → LoadError
  no_control_service : LoadError
  bad_addr : Bytes → LoadError
  bad_host : Bytes → LoadError

-- `parts[1]` has no `-`, as there are two parts
unfoldable pub ia_to_num : Bytes → Outcome LoadError ℕ
ia_to_num ia = elim (cut_at b'-' ia) [
  | none ↦ failed (malformed_ia ia)
  | some (isd, num) ↦
      if contains num b'-'
      then failed (malformed_ia ia)
      else or_fail (malformed_ia ia) (atoi_unsigned num)
]

unfoldable pub host_of : Bytes → Outcome LoadError Bytes
host_of addr = elim (split_host_port addr) [
  | none ↦ failed (bad_addr addr)
  | some (host, port) ↦ done host
]

-- the entry whose key is the lowest
abbrev key_lt : Bytes × Bytes → Bytes × Bytes → Bool
key_lt (j, v) (k, w) = bytes_lt j k

unfoldable pub lowest_host : List (Bytes × Bytes) → Outcome LoadError Bytes
unfolding host_of
lowest_host [] = failed no_control_service
lowest_host ((key, addr) ∷ rest) = host_of addr

unfoldable pub first_control_service_host : Map Bytes Bytes → Outcome LoadError Bytes
unfolding lowest_host
first_control_service_host cs = lowest_host (sort_by key_lt cs)

-- the variables of the loop over the files
pub record Loaded : Type 0 where
  pub ases : List As
  pub recs : List IfaceRec
  pub by_local_addr : Map Bytes IfaceRec
  pub core_by_num : Map ℕ Bool

unfoldable pub add_rec : Loaded → IfaceRec → Loaded
add_rec s rec = record s {
  recs = s.recs ++ rec ∷ [];
  by_local_addr = insert rec.local_addr rec s.by_local_addr;
}

abbrev pub rec_of : ℕ → Bytes → Bytes → IfaceFile → Bytes → IfaceRec
rec_of num ia if_id ic host = record {
  as_num = num;
  ia = ia;
  if_id = if_id;
  link_to = ic.link_to;
  local_addr = ic.local_addr;
  remote_addr = ic.remote_addr;
  local_host = host;
}

unfoldable pub load_ifaces : ℕ → Bytes → Loaded → Map Bytes IfaceFile → Outcome LoadError Loaded
unfolding host_of add_rec
load_ifaces num ia s [] = done s
load_ifaces num ia s ((if_id, ic) ∷ rest) = host_of ic.local_addr >>= λ host.
    load_ifaces num ia (add_rec s (rec_of num ia if_id ic host)) rest

unfoldable pub load_routers :
    ℕ → Bytes → Loaded → Map Bytes (Map Bytes IfaceFile) → Outcome LoadError Loaded
unfolding load_ifaces
load_routers num ia s [] = done s
load_routers num ia s ((name, ifaces) ∷ rest) =
    load_ifaces num ia s ifaces >>= λ s'. load_routers num ia s' rest

abbrev pub add_as : Loaded → As → Loaded
add_as s as_rec = record s {
  ases = s.ases ++ as_rec ∷ [];
  core_by_num = insert as_rec.num as_rec.core s.core_by_num;
}

unfoldable pub load_file : List Bytes → Loaded → TopologyFile → Outcome LoadError Loaded
unfolding ia_to_num first_control_service_host load_routers
load_file cores s tf = do
  num ← ia_to_num tf.isd_as
  mgmt ← first_control_service_host tf.control_service
  load_routers num tf.isd_as
      (add_as s
        (record { ia = tf.isd_as; num = num; core = contains cores tf.isd_as; mgmt_ip = mgmt }))
      tf.border_routers

unfoldable pub load_files :
    List Bytes → Loaded → List (Option TopologyFile) → Outcome LoadError Loaded
unfolding load_file
load_files cores s [] = done s
load_files cores s (none ∷ rest) = failed unread_file
load_files cores s (some tf ∷ rest) = load_file cores s tf >>= λ s'. load_files cores s' rest

abbrev pub empty : Loaded
empty = record { ases = []; recs = []; by_local_addr = []; core_by_num = [] }
