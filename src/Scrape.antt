-- ===== src/Scrape.antt =====
-- dashboard/backend/internal/scrape/scrape.go: what a scrape of a target writes into the store. The
-- request and the parser of the exposition format (expfmt) are not the program's: a fetch gives the
-- families of metrics, or none if it fails.
pub mod Keys
pub mod Puts
pub mod Health
pub mod Sums
pub mod Examples
use ietf_scion_testbed.Prelude.{
  ℕ, ℤ, Bool, true, false, not, ◌&&◌, ◌||◌, Option, none, some, List, [], ◌∷◌, ◌++◌, if◌then◌else◌,
  Bytes, bytes, ◌==◌, nat_eq, bytes_eq, itoa, Map, lookup, insert, Float,
}
use ietf_scion_testbed.Store
use ietf_scion_testbed.Topo.{As, Graph}

pub record Target : Type 0 where
  pub as_num : ℕ
  pub service : Bytes
  pub url : Bytes

abbrev port_br : ℕ
port_br = 30442

abbrev port_cs : ℕ
port_cs = 30452

abbrev port_sd : ℕ
port_sd = 30455

abbrev target_of : As → Bytes → ℕ → Target
target_of as_rec service port = record {
  as_num = as_rec.num;
  service = service;
  url = bytes "http://" ++ (as_rec.mgmt_ip ++ b':' ∷ (itoa port ++ bytes "/metrics"));
}

unfoldable pub targets_of : List As → List Target
targets_of [] = []
targets_of (as_rec ∷ rest) =
    target_of as_rec (bytes "br") port_br
    ∷ target_of as_rec (bytes "cs") port_cs
    ∷ target_of as_rec (bytes "sd") port_sd
    ∷ targets_of rest

-- `Targets`
unfoldable pub targets : Graph → List Target
unfolding targets_of
targets g = targets_of g.ases

pub data MetricKind : Type 0 where
  kind_gauge kind_counter : MetricKind

pub record Rule : Type 0 where
  pub family : Bytes
  pub key_part : Bytes
  pub iface_label : Bytes
  pub kind : MetricKind
  pub scale_ms : Bool

abbrev rule : Bytes → Bytes → Bytes → MetricKind → Bool → Rule
rule family key_part iface_label kind scale_ms = record {
  family = family;
  key_part = key_part;
  iface_label = iface_label;
  kind = kind;
  scale_ms = scale_ms;
}

abbrev iface : Bytes
iface = bytes "interface"

unfoldable pub allowlist : List Rule
allowlist =
    rule (bytes "router_bfd_rtt_estimate_seconds") (bytes "rtt") iface kind_gauge true
    ∷ rule (bytes "router_input_bytes_total") (bytes "input_bytes") iface kind_counter false
    ∷ rule (bytes "router_output_bytes_total") (bytes "output_bytes") iface kind_counter false
    ∷ rule (bytes "router_input_pkts_total") (bytes "input_pkts") iface kind_counter false
    ∷ rule (bytes "router_output_pkts_total") (bytes "output_pkts") iface kind_counter false
    ∷ rule (bytes "router_dropped_pkts_total") (bytes "dropped_pkts") iface kind_counter false
    ∷ rule (bytes "router_interface_up") (bytes "up") iface kind_gauge false
    ∷ rule (bytes "control_beaconing_received_beacons_total") (bytes "beacons_recv")
        (bytes "ingress_interface") kind_counter false
    ∷ rule (bytes "control_beaconing_propagated_beacons_total") (bytes "beacons_prop")
        (bytes "egress_interface") kind_counter false
    ∷ []

-- the key of a metric of an interface, and that of the health gauge
unfoldable pub metric_key : Target → Bytes → Bytes → Bytes
metric_key t part if_id = itoa t.as_num ++ b'/' ∷ (t.service ++ b'/' ∷ (part ++ b'/' ∷ if_id))

unfoldable pub health_key : Target → Bytes
health_key t = itoa t.as_num ++ b'/' ∷ (t.service ++ bytes "/_up/")

-- A sample of a family (dto.Metric): a value that it does not carry reads as 0.
pub record Metric (F : Type 0) : Type 0 where
  pub labels : Map Bytes Bytes
  pub gauge : F
  pub counter : F

abbrev pub Families : Type 0 → Type 0
Families F = Map Bytes (List (Metric F))

-- the label's value, empty if it is absent
unfoldable pub label_value : {F : Type 0} → Metric F → Bytes → Bytes
label_value m name = elim (lookup name m.labels) [ none ↦ [] | some value ↦ value ]

unfoldable pub metric_value : {F : Type 0} → Metric F → MetricKind → F
metric_value m kind_gauge = m.gauge
metric_value m kind_counter = m.counter

module _ (fl : Float) where
  open fl use {F, dec, inf, add, sub, mul, eq}

  -- neither NaN nor an infinity
  abbrev pub is_finite : F → Bool
  is_finite v = eq v v && not (eq v inf || eq v (sub (dec 0 0) inf))

  -- `sums[ifID]`
  abbrev pub sum_at : Option F → F
  sum_at none = dec 0 0
  sum_at (some v) = v

  -- a reading that counts: of an interface, and finite
  abbrev pub counts : Rule → Metric F → Bool
  counts rl m = not (label_value m rl.iface_label == []) && is_finite (metric_value m rl.kind)

  unfoldable pub add_reading : Rule → Map Bytes F → Metric F → Map Bytes F
  add_reading rl sums m =
      let if_id = label_value m rl.iface_label in
      if counts rl m
      then insert if_id (add (sum_at (lookup if_id sums)) (metric_value m rl.kind)) sums
      else sums

  -- the loop over the metrics of a family
  unfoldable pub sum_readings : Rule → Map Bytes F → List (Metric F) → Map Bytes F
  unfolding add_reading
  sum_readings rl sums [] = sums
  sum_readings rl sums (m ∷ rest) = sum_readings rl (add_reading rl sums m) rest

  unfoldable pub scaled : Rule → F → F
  scaled rl v = if rl.scale_ms then mul v (dec 1000 0) else v

  -- the loop over the sums
  unfoldable pub put_sums : Target → ℤ → Rule → Store.Store F → Map Bytes F → Store.Store F
  unfolding scaled
  put_sums t now rl st [] = st
  put_sums t now rl st ((if_id, v) ∷ rest) =
      put_sums t now rl (Store.put fl st (metric_key t rl.key_part if_id) now (scaled rl v)) rest

  -- one round of the loop over the rules
  unfoldable pub put_family :
      Target → ℤ → Rule → Store.Store F → Option (List (Metric F)) → Store.Store F
  unfolding put_sums sum_readings
  put_family t now rl st none = st
  put_family t now rl st (some metrics) = put_sums t now rl st (sum_readings rl [] metrics)

  unfoldable pub put_families : Target → ℤ → Families F → Store.Store F → List Rule → Store.Store F
  unfolding put_family
  put_families t now families st [] = st
  put_families t now families st (rl ∷ rest) =
      put_families t now families (put_family t now rl st (lookup rl.family families)) rest

  -- `scrapeTarget`
  unfoldable pub scrape_target : Store.Store F → Target → ℤ → Option (Families F) → Store.Store F
  unfolding put_families
  scrape_target st t now none = Store.put fl st (health_key t) now (dec 0 0)
  scrape_target st t now (some families) =
      Store.put fl (put_families t now families st allowlist) (health_key t) now (dec 1 0)
