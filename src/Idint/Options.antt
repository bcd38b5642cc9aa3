-- ===== src/Idint/Options.antt =====
-- dashboard/backend/internal/idint/idint.go: the method `PathOptions`.
use ietf_scion_testbed.Prelude.{ℕ, Bool, true, false, none, some, List, [], ◌∷◌, map}
use ietf_scion_testbed.Idint.Wire.{PathJson, PathOption, Result, ok, err}
use ietf_scion_testbed.Idint.Paths.{pair_links, hops_of, latency_total}
use ietf_scion_testbed.Idint.Manager.{Tables, validate}

-- One round of the loop of `PathOptions`; links that cannot be paired are left out.
unfoldable pub path_option : Tables → PathJson → Bool → PathOption
path_option t p current_best = record {
  fingerprint = p.fingerprint;
  hops = hops_of p.interfaces;
  links = elim (pair_links t.link_by_if p.interfaces) [ err e ↦ [] | ok links ↦ links ];
  latency_us_total = latency_total p.latency_us;
  mtu = p.mtu;
  expiry = p.expiry;
  current_best = current_best;
}

unfoldable pub path_options_of : Tables → List PathJson → List PathOption
unfolding path_option
path_options_of t [] = []
path_options_of t (p ∷ rest) = path_option t p true ∷ map (λ q. path_option t q false) rest

-- `PathOptions`, given the answer of the prober
unfoldable pub path_options : Tables → ℕ → ℕ → Result (List PathJson) → Result (List PathOption)
unfolding validate path_options_of
path_options t src dst answer = elim (validate t src dst) [
  | some e ↦ err e
  | none ↦ elim answer [ err e ↦ err e | ok paths ↦ ok (path_options_of t paths) ]
]
