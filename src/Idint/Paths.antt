-- ===== src/Idint/Paths.antt =====
-- dashboard/backend/internal/idint/idint.go: the functions on the interfaces and the latencies of a
-- path.
use ietf_scion_testbed.Prelude.{
  ℕ, ◌%◌, ℤ, pos, negsuc, add_int64, ltb_ℤ, true, false, Option, none, some, List, [], ◌∷◌, ◌++◌,
  length, if◌then◌else◌, Bytes, ◌==◌, nat_eq, bytes_eq, itoa, atoi_unsigned, Map, lookup, keep_if,
}
use ietf_scion_testbed.Idint.Wire.{
  Iface, HopRecord, odd_interfaces, bad_ia, not_in_topology, Result, ok, err,
}

-- fmt.Sprintf("%d:%s", as, ifid)
unfoldable pub link_key : ℕ → Bytes → Bytes
link_key as_num if_id = itoa as_num ++ b':' ∷ if_id

-- `ia[i+1:]` for `i` = strings.LastIndexByte(ia, '-')
unfoldable pub after_last_dash : Bytes → Option Bytes
after_last_dash [] = none
after_last_dash (c ∷ cs) = elim (after_last_dash cs) [
  | some rest ↦ some rest
  | none ↦ if c == b'-' then some cs else none
]

unfoldable pub as_num_of : Bytes → Option ℕ
unfolding after_last_dash atoi_unsigned
as_num_of ia = elim (after_last_dash ia) [ none ↦ none | some rest ↦ atoi_unsigned rest ]

-- The link of the first interface of a pair. What the second one resolves to is only logged.
unfoldable pub link_of : Map Bytes Bytes → Iface → Result Bytes
unfolding link_key
link_of link_by_if a = elim (as_num_of a.ia) [
  | none ↦ err (bad_ia a.ia)
  | some num ↦ elim (lookup (link_key num (itoa a.if_id)) link_by_if) [
    | none ↦ err (not_in_topology (link_key num (itoa a.if_id)))
    | some link ↦ ok link
  ]
]

-- the loop of `pairLinks`, from the pair at hand
unfoldable pub pair_rest : Map Bytes Bytes → List Iface → List Bytes → Result (List Bytes)
pair_rest link_by_if (a ∷ b ∷ rest) links = elim (link_of link_by_if a) [
  | err e ↦ err e
  | ok link ↦ pair_rest link_by_if rest (links ++ link ∷ [])
]
pair_rest link_by_if _ links = ok links

unfoldable pub pair_links : Map Bytes Bytes → List Iface → Result (List Bytes)
pair_links link_by_if ifaces =
    if length ifaces % 2 == 0
    then pair_rest link_by_if ifaces []
    else err (odd_interfaces (length ifaces))

unfoldable pub egress_records : {F : Type 0} → List (HopRecord F) → List (HopRecord F)
egress_records = keep_if (λ rec. rec.egress)

-- a number that parses is appended
abbrev with_num : List ℕ → Option ℕ → List ℕ
with_num hops none = hops
with_num hops (some n) = hops ++ n ∷ []

-- the loop of `hopsOf`: every second interface from the first of `ifaces`
unfoldable pub hops_rest : List ℕ → List Iface → List ℕ
hops_rest hops [] = hops
hops_rest hops (b ∷ []) = with_num hops (as_num_of b.ia)
hops_rest hops (b ∷ c ∷ rest) = hops_rest (with_num hops (as_num_of b.ia)) rest

unfoldable pub hops_of : List Iface → List ℕ
unfolding hops_rest
hops_of [] = []
hops_of (a ∷ rest) = hops_rest (with_num [] (as_num_of a.ia)) rest

-- the loop of `latencyTotal`, over int64
unfoldable pub latency_rest : ℤ → List ℤ → ℤ
latency_rest total [] = total
latency_rest total (v ∷ us) = elim (ltb_ℤ v (pos 0)) [
  | true ↦ negsuc 0
  | false ↦ latency_rest (add_int64 total v) us
]

unfoldable pub latency_total : List ℤ → ℤ
unfolding latency_rest
latency_total [] = negsuc 0
latency_total (v ∷ us) = latency_rest (pos 0) (v ∷ us)
