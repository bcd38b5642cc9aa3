-- ===== src/Idint/Manager.antt =====
-- dashboard/backend/internal/idint/idint.go: the manager of the one trace session.
use ietf_scion_testbed.Prelude.{
  ℕ, ℤ, pos, Bool, true, false, not, ◌&&◌, ◌||◌, Option, none, some, List, [], ◌∷◌, length,
  if◌then◌else◌, Bytes, ◌==◌, nat_eq, bytes_eq, Map, lookup, insert, contains, Float, reverse,
}
use ietf_scion_testbed.Topo.{Link, As, Graph}
use ietf_scion_testbed.Idint.Wire.{
  HopRecord, ProbeResult, Error, unknown_as, src_is_dst, egress_mismatch, Result, ok, err, TraceHop,
  TraceVm,
}
use ietf_scion_testbed.Idint.Paths.{link_key, pair_links, egress_records}

-- An empty fingerprint follows the path that is advertised as the fastest.
pub record Session : Type 0 where
  pub src : ℕ
  pub dst : ℕ
  pub fingerprint : Bytes

-- `*m.sess == sess`
abbrev pub same_session : Session → Session → Bool
same_session s t = s.src == t.src && s.dst == t.dst && s.fingerprint == t.fingerprint

-- The tables that `NewManager` builds, which do not change afterwards.
pub record Tables : Type 0 where
  pub ia_by_num : Map ℕ Bytes
  pub link_by_if : Map Bytes Bytes
  pub as_set : List ℕ

pub record Manager (F : Type 0) : Type 0 where
  pub tables : Tables
  pub sess : Option Session
  pub vm : Option (TraceVm F)
  pub latest : Option (ProbeResult F)

unfoldable pub add_ases : Tables → List As → Tables
add_ases t [] = t
add_ases t (as_rec ∷ rest) =
    add_ases
      (record t {
        ia_by_num = insert as_rec.num as_rec.ia t.ia_by_num;
        as_set = as_rec.num ∷ t.as_set;
      })
      rest

unfoldable pub add_links : Map Bytes Bytes → List Link → Map Bytes Bytes
add_links table [] = table
add_links table (l ∷ rest) =
    add_links
      (insert (link_key l.b.as_num l.b.if_id) l.id
        (insert (link_key l.a.as_num l.a.if_id) l.id table))
      rest

unfoldable pub tables_of : Graph → Tables
unfolding add_ases add_links
tables_of g =
    let t = add_ases (record { ia_by_num = []; link_by_if = []; as_set = [] }) g.ases in
    record t { link_by_if = add_links [] g.links }

-- `m.iaByNum[as]`: empty if the AS is unknown
unfoldable pub ia : Tables → ℕ → Bytes
ia t num = elim (lookup num t.ia_by_num) [ none ↦ [] | some text ↦ text ]

unfoldable pub validate : Tables → ℕ → ℕ → Option Error
validate t src dst =
    if not (contains t.as_set src) || not (contains t.as_set dst)
    then some (unknown_as src dst)
    else if src == dst
    then some (src_is_dst src)
    else none

module _ (fl : Float) where
  open fl use {F, dec}

  unfoldable pub new_manager : Graph → Manager F
  unfolding tables_of
  new_manager g = record { tables = tables_of g; sess = none; vm = none; latest = none }

  -- The view before the first probe of a session.
  unfoldable pub pending_vm : Tables → Session → Bool → TraceVm F
  unfolding ia
  pending_vm t s is_ok = record {
    src = ia t s.src;
    dst = ia t s.dst;
    fingerprint = [];
    auto = s.fingerprint == [];
    path_links = [];
    is_ok = is_ok;
    error = none;
    updated_at = pos 0;
    probe_rtt_ms = dec 0 0;
    hops = [];
  }

  -- `Set`, and the error it returns
  unfoldable pub set_session : Manager F → Session → Manager F × Option Error
  unfolding validate pending_vm
  set_session m s = elim (validate m.tables s.src s.dst) [
    | some e ↦ (m, some e)
    | none ↦
        (record m { sess = some s; vm = some (pending_vm m.tables s true); latest = none }, none)
  ]

  unfoldable pub clear_session : Manager F → Manager F
  clear_session m = record m { sess = none; vm = none; latest = none }

  -- The records that `buildVM` lays over the links of the path: the forward ones where there is one
  -- for each link, else the reverse ones, last first.
  unfoldable pub chosen_egress :
      List Bytes → List (HopRecord F) → List (HopRecord F) → Result (List (HopRecord F))
  chosen_egress links fwd rev =
      if length fwd == length links
      then ok fwd
      else if length rev == length links
      then ok (reverse rev)
      else err (egress_mismatch (length fwd) (length rev) (length links))

  unfoldable pub trace_hops : List Bytes → List (HopRecord F) → List (TraceHop F)
  trace_hops (link ∷ links) (rec ∷ egress) =
      record {
        ia = rec.ia;
        link = link;
        rtt_next_br_us = rec.rtt_next_br_us;
        egr_tx_pct = rec.egr_link_tx_pct;
        queue_len = rec.queue_len;
        node_id = rec.node_id;
        verified = rec.verified;
      }
      ∷ trace_hops links egress
  trace_hops _ _ = []

  unfoldable pub laid_over :
      Tables
      → Session
      → ProbeResult F
      → ℤ
      → List Bytes
      → Result (List (HopRecord F))
      → Result (TraceVm F)
  unfolding ia trace_hops
  laid_over t s res now links (err e) = err e
  laid_over t s res now links (ok egress) = ok (record {
    src = ia t s.src;
    dst = ia t s.dst;
    fingerprint = res.path.fingerprint;
    auto = s.fingerprint == [];
    path_links = links;
    is_ok = true;
    error = none;
    updated_at = now;
    probe_rtt_ms = res.probe_rtt_ms;
    hops = trace_hops links egress;
  })

  -- `buildVM`; `now` is the clock's reading
  unfoldable pub build_vm : Tables → Session → ProbeResult F → ℤ → Result (TraceVm F)
  unfolding laid_over chosen_egress
  build_vm t s res now = elim (pair_links t.link_by_if res.path.interfaces) [
    | err e ↦ err e
    | ok links ↦
        laid_over t s res now links
          (chosen_egress links (egress_records res.fwd) (egress_records res.rev))
  ]

  -- the error branch of `TickOnce`
  unfoldable pub failed_vm : Tables → Session → Option (TraceVm F) → Error → ℤ → TraceVm F
  unfolding pending_vm
  failed_vm t s none e now = record (pending_vm t s false) { error = some e; updated_at = now }
  failed_vm t s (some vm) e now = record vm { is_ok = false; error = some e; updated_at = now }

  unfoldable pub show_built :
      Manager F → Session → ProbeResult F → ℤ → Result (TraceVm F) → Manager F
  unfolding failed_vm
  show_built m s res now (ok vm) = record m { vm = some vm; latest = some res }
  show_built m s res now (err e) = record m { vm = some (failed_vm m.tables s m.vm e now) }

  unfoldable pub show_answer : Manager F → Session → Result (ProbeResult F) → ℤ → Manager F
  unfolding failed_vm show_built build_vm
  show_answer m s (err e) now = record m { vm = some (failed_vm m.tables s m.vm e now) }
  show_answer m s (ok res) now = show_built m s res now (build_vm m.tables s res now)

  abbrev pub is_current : Option Session → Session → Bool
  is_current none s = false
  is_current (some t) s = same_session t s

  -- `TickOnce` from the return of the probe of session `s` on
  unfoldable pub land : Manager F → Session → Result (ProbeResult F) → ℤ → Manager F
  unfolding show_answer
  land m s answer now = if is_current m.sess s then show_answer m s answer now else m
