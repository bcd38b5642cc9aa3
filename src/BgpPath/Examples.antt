-- ===== src/BgpPath/Examples.antt =====
-- The theorems on a graph of three ASes, 150 - 154 - 158.
use ietf_scion_testbed.Prelude.{
  ℕ, ◌≡◌, refl, true, some, [], ◌∷◌, Bytes, bytes, nat_eq, bytes_eq, lookup, insert, itoa,
}
use ietf_scion_testbed.Topo.{Graph, Endpoint}
use ietf_scion_testbed.BgpPath.{Vm, Routes, key, route, new_index, walk}
use ietf_scion_testbed.BgpPath.Index.{far_end, new_index-far_end}
use ietf_scion_testbed.BgpPath.Walk.{Report, walk-Report}

abbrev endpoint : ℕ → Bytes → Endpoint
endpoint n i = record { ia = []; as_num = n; if_id = i; ip = []; link_to = [] }

abbrev three : Graph
three = record {
  ases = [];
  links =
      record {
        id = bytes "150-154";
        type = [];
        subnet = [];
        a = endpoint 150 (bytes "2");
        b = endpoint 154 (bytes "1");
      }
      ∷ record {
        id = bytes "154-158";
        type = [];
        subnet = [];
        a = endpoint 154 (bytes "7");
        b = endpoint 158 (bytes "9");
      }
      ∷ [];
}

abbrev best : Routes
best = (150, (158, bytes "2") ∷ []) ∷ (154, (158, bytes "7") ∷ []) ∷ []

through :
    walk (new_index three) best 150 158
    ≡ some (record {
      src = [];
      dst = [];
      as_path = 150 ∷ 154 ∷ 158 ∷ [];
      path_links = bytes "150-154" ∷ bytes "154-158" ∷ [];
      complete = true;
    })
unfolding walk new_index key route lookup insert itoa
through = refl

new_index-far_end_example :
    lookup (key 154 (bytes "7")) (new_index three) ≡ far_end (three.links) 154 (bytes "7")
new_index-far_end_example = new_index-far_end three 154 (bytes "7")

walk-Report_example :
    (vm : Vm) × (walk (new_index three) best 150 158 ≡ some vm)
    × Report (new_index three) best 150 158 vm
walk-Report_example = walk-Report (new_index three) best 150 158
