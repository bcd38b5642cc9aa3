-- ===== src/Idint/Examples.antt =====
-- The theorems on a topology of one link between the ASes 150 and 161.
use ietf_scion_testbed.Prelude.{
  wrap_int64, ℕ, ◌≡◌, ◌↔◌, refl, true, false, none, some, List, [], ◌∷◌, ℤ, pos, negsuc, Bytes,
  bytes, Map, lookup, itoa, if◌then◌else◌, milli,
}
use ietf_scion_testbed.Topo.{Endpoint, Graph}
use ietf_scion_testbed.Idint.Wire.{Iface, HopRecord, ProbeResult, ok, err, probe_failed}
use ietf_scion_testbed.Idint.Paths.{pair_links, pair_rest, link_of, as_num_of, latency_total}
use ietf_scion_testbed.Idint.Ticks.{Event, session_set, ticked, session_read, answered, run}
use ietf_scion_testbed.Idint.Pairing.{Paired, pair_links-Paired}
use ietf_scion_testbed.Idint.Latency.{any_unset, sum, latency_total-sum}
use ietf_scion_testbed.Idint.Sessions.{at_start}
use ietf_scion_testbed.Idint.Answers.{answers, IsTrace, run-IsTrace}

abbrev endpoint : Bytes → ℕ → Bytes → Endpoint
endpoint ia_text num if_id_text = record {
  ia = ia_text;
  as_num = num;
  if_id = if_id_text;
  ip = [];
  link_to = [];
}

abbrev one_link : Graph
one_link = record {
  ases =
      record { ia = bytes "1-150"; num = 150; core = true; mgmt_ip = [] }
      ∷ record { ia = bytes "1-161"; num = 161; core = true; mgmt_ip = [] }
      ∷ [];
  links =
      record {
        id = bytes "150-161";
        type = bytes "core";
        subnet = [];
        a = endpoint (bytes "1-150") 150 (bytes "2");
        b = endpoint (bytes "1-161") 161 (bytes "7");
      }
      ∷ [];
}

abbrev crossing : List Iface
crossing = record { ia = bytes "1-150"; if_id = 2 } ∷ record { ia = bytes "1-161"; if_id = 7 } ∷ []

abbrev table : Map Bytes Bytes
table = (bytes "150:2", bytes "150-161") ∷ []

abbrev egress_of_161 : HopRecord ℤ
egress_of_161 = record {
  hop = pos 1;
  ia = bytes "1-161";
  source = false;
  ingress = false;
  egress = true;
  aggregated = false;
  encrypted = false;
  verified = true;
  node_id = none;
  igr_ifid = none;
  egr_ifid = none;
  rtt_next_br_us = some (pos 900);
  egr_link_tx_pct = none;
  ingress_tstamp = none;
  queue_len = none;
}

abbrev probed : ProbeResult ℤ
probed = record {
  path = record {
    fingerprint = bytes "f";
    mtu = pos 1400;
    expiry = [];
    interfaces = crossing;
    latency_us = pos 450 ∷ [];
  };
  probe_rtt_ms = pos 2000;
  max_len_exceeded = false;
  fwd = [];
  rev = egress_of_161 ∷ [];
}

pair_links-Paired_example :
    (pair_links table crossing ≡ ok (bytes "150-161" ∷ []))
    ↔ Paired table crossing (bytes "150-161" ∷ [])
pair_links-Paired_example = pair_links-Paired table crossing (bytes "150-161" ∷ [])

-- the pair resolves
paired : pair_links table crossing ≡ ok (bytes "150-161" ∷ [])
unfolding pair_links pair_rest link_of as_num_of lookup itoa
paired = refl

latency_total-sum_example :
    (latency_total [] ≡ negsuc 0)
    × (latency_total (pos 3 ∷ pos 4 ∷ []) ≡ (
        if any_unset (pos 3 ∷ pos 4 ∷ []) then negsuc 0 else wrap_int64 (sum (pos 3 ∷ pos 4 ∷ []))))
latency_total-sum_example = latency_total-sum (pos 3) (pos 4 ∷ [])

-- An answer for a session that was replaced, then a probe of the new session, and one that fails.
abbrev story : List (Event milli)
story =
    session_set (record { src = 161; dst = 150; fingerprint = [] })
    ∷ ticked
    ∷ session_read
    ∷ session_set (record { src = 150; dst = 161; fingerprint = [] })
    ∷ answered (ok probed) (pos 1000)
    ∷ ticked
    ∷ session_read
    ∷ answered (ok probed) (pos 2000)
    ∷ ticked
    ∷ session_read
    ∷ answered (err (probe_failed [])) (pos 3000)
    ∷ []

run-IsTrace_example :
    IsTrace milli
      (answers milli (at_start milli one_link) story)
      (run milli (at_start milli one_link) story).manager
run-IsTrace_example = run-IsTrace milli one_link story
