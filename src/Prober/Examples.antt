-- ===== src/Prober/Examples.antt =====
-- The theorems on a path up two ASes and over a peering link to two more, and on one over a core.
use ietf_scion_testbed.Prelude.{
  ℕ, ◌+◌, ◌-◌, ◌≡◌, refl, true, false, some, inl, inr, List, [], ◌∷◌, arith,
}
use ietf_scion_testbed.Prober.{
  Decoded, hopfield_to_interface_idx, fwd_path_meta, rev_path_meta, get_elem?,
}
use ietf_scion_testbed.Prober.Hops.{
  owners, second, hops_before, ases_before, IsShaped, fwd_path_meta-hops,
}
use ietf_scion_testbed.Prober.Reverse.{IsRoute, Kind, num_hops, rev_path_meta-hops}

-- up to 150, over the peering link to 171, and down
abbrev peering : Decoded
peering = record {
  len_0 = 2;
  len_1 = 3;
  len_2 = 0;
  peer_0 = true;
  peer_1 = true;
  peer_2 = false;
  num_inf = 2;
}

abbrev core : Decoded
core = record {
  len_0 = 2;
  len_1 = 3;
  len_2 = 2;
  peer_0 = false;
  peer_1 = false;
  peer_2 = false;
  num_inf = 3;
}

abbrev ases : List ℕ
ases = 158 ∷ 150 ∷ 171 ∷ 172 ∷ 161 ∷ []

peering-IsShaped : IsShaped peering
peering-IsShaped = record {
  len_0 = omega arith;
  len_1 = omega arith;
  len_2 = omega arith;
  joined = inl (record {
    peer_0 = refl;
    peer_1 = refl;
    two = refl;
    len_0 = omega arith;
    len_1 = omega arith;
    len_2 = refl;
  });
}

core-IsShaped : IsShaped core
core-IsShaped = record {
  len_0 = omega arith;
  len_1 = omega arith;
  len_2 = omega arith;
  joined =
      inr (record { peer_0 = refl; peer_1 = refl; len_0 = omega arith; len_1 = inr (omega arith) });
}

-- the hop behind the peering link
fwd_path_meta-hops_example :
    fwd_path_meta (owners ases) peering (hops_before peering second + 0)
    ≡ get_elem? ases (ases_before peering second + 0)
fwd_path_meta-hops_example =
    fwd_path_meta-hops ases peering second 0 (omega arith) peering-IsShaped (omega arith)

-- the middle hop of a core segment
middle :
    fwd_path_meta (owners ases) core (hops_before core second + 1)
    ≡ get_elem? ases (ases_before core second + 1)
middle = fwd_path_meta-hops ases core second 1 (omega arith) core-IsShaped (omega arith)

crossing : fwd_path_meta (owners ases) core 2 ≡ some 150
unfolding fwd_path_meta owners hopfield_to_interface_idx
crossing = refl

behind_link : fwd_path_meta (owners ases) peering 2 ≡ some 171
unfolding fwd_path_meta owners hopfield_to_interface_idx
behind_link = refl

peering-IsRoute : IsRoute peering
peering-IsRoute = record {
  len_0 = omega arith;
  len_1 = omega arith;
  len_2 = omega arith;
  kind = Kind.peering (record {
    peer_0 = refl;
    peer_1 = refl;
    two = refl;
    len_0 = omega arith;
    len_1 = omega arith;
    len_2 = refl;
  });
}

-- the same hop on the way back
rev_path_meta-hops_example :
    rev_path_meta (owners ases) peering (num_hops peering - 1 - (hops_before peering second + 0))
    ≡ get_elem? ases (ases_before peering second + 0)
rev_path_meta-hops_example =
    rev_path_meta-hops ases peering peering-IsRoute second 0 (omega arith) refl (omega arith)
