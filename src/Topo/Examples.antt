-- ===== src/Topo/Examples.antt =====
-- The theorem on two ASes that are joined by a link, as in topo_test.go.
use ietf_scion_testbed.Prelude.{
  String, ◌≡◌, refl, Option, some, List, [], ◌∷◌, map, Bytes, bytes, lookup, insert, Returns, itoa,
  split_host_port, sort_by, atoi_unsigned, cut_at,
}
use ietf_scion_testbed.Topo.{Link}
use ietf_scion_testbed.Topo.Files.{IfaceFile, TopologyFile}
use ietf_scion_testbed.Topo.Load.{load}
use ietf_scion_testbed.Topo.Graphs.{IsLoaded, load-IsLoaded}

abbrev iface : String → String → String → IfaceFile
iface near far link_to_text = record {
  local_addr = bytes near;
  remote_addr = bytes far;
  isd_as = [];
  link_to = bytes link_to_text;
}

abbrev file_of_as : String → String → String → IfaceFile → TopologyFile
file_of_as ia_text mgmt name ifile = record {
  isd_as = bytes ia_text;
  control_service = (bytes "cs-1", bytes mgmt) ∷ [];
  border_routers = (bytes "br-1", (bytes name, ifile) ∷ []) ∷ [];
}

abbrev two_files : List (Option TopologyFile)
two_files =
    some (
      file_of_as "1-160" "10.20.3.160:30252" "39652"
        (iface "[fd00:fade:15::160]:50000" "[fd00:fade:15::155]:50000" "parent"))
    ∷ some (
        file_of_as "1-155" "10.20.3.155:30252" "36530"
          (iface "[fd00:fade:15::155]:50000" "[fd00:fade:15::160]:50000" "child"))
    ∷ []

load-IsLoaded_example :
    Returns (IsLoaded (bytes "1-150" ∷ []) two_files) (load (some (bytes "1-150" ∷ [])) two_files)
load-IsLoaded_example = load-IsLoaded (bytes "1-150" ∷ []) two_files

abbrev summary : Link → Bytes × Bytes × Bytes
summary l = (l.id, l.subnet, l.type)

one_link :
    Returns
      (λ g. map summary g.links ≡ (bytes "155-160", bytes "link 15", bytes "child") ∷ [])
      (load (some []) two_files)
unfolding load lookup insert itoa split_host_port sort_by atoi_unsigned cut_at
one_link = refl
