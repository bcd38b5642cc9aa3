-- ===== src/Join/Examples.antt =====
-- The theorems at a booth with three slots, of which one is burned, and two attendees.
use ietf_scion_testbed.Prelude.{
  ◌≡◌, refl, true, false, none, some, List, [], ◌∷◌, Bytes, bytes, pos, All, Distinct, nat_eq,
  lookup, insert, split_host_port,
}
use ietf_scion_testbed.MappedAddr.{ipv4, mapped_ipv6}
use ietf_scion_testbed.RateLimit
use ietf_scion_testbed.RateLimit.{Limiter}
use ietf_scion_testbed.RateLimit.ClientKey.{client_key}
use ietf_scion_testbed.WgPool.{open_store, claim}
use ietf_scion_testbed.WgPool.Runs.{read_state}
use ietf_scion_testbed.WgPool.Sound.{recorded}
use ietf_scion_testbed.WgPool.Examples.{numbers, two_slots, numbers-ReadsBack}
use ietf_scion_testbed.Join.{JoinConfig, Env, as_allowed}
use ietf_scion_testbed.Join.Claim.{Desk, Call, handle_join_claim}
use ietf_scion_testbed.Join.Guards.{IsAnswered, handle_join_claim-IsAnswered}
use ietf_scion_testbed.Join.Slots
use ietf_scion_testbed.Join.Slots.{Event, boot, Booth, join_run, not_booted, join_run-Distinct}

abbrev config : JoinConfig
config = record {
  enabled = true;
  booth_code = bytes "b00th";
  isd = pos 1;
  joinable_ases = pos 158 ∷ pos 159 ∷ [];
  endpoint_v6 = bytes "2001:db8::1";
  endpoint_v4 = [];
  listen_port = pos 51820;
  hub_probe_addr = [];
  play_targets = [];
  rate_max = pos 5;
  rate_window = pos 60000000000;
  bootstrap_url_template = [];
  hev3_ca_file = [];
}

abbrev env : Env
env = record {
  net = record { parse_ip = λ b. none; show_ip = λ b. b };
  parse_addr = λ b. some (ipv4 10 20 5 1);
  show_addr = λ b. b;
  sprintf_int = λ b n. b;
  read_file = λ b. none;
  json = numbers;
}

abbrev limiter : Limiter
limiter = RateLimit.new (pos 5) (pos 60000000000)

abbrev call_with : Bytes → Call
call_with code = record {
  remote_addr = bytes "203.0.113.5:44321";
  body = some (record { as_num = pos 0; code = code });
  now_ns = pos 1;
  now_unix = pos 1;
  write_ok = true;
  rename_ok = true;
}

abbrev events : List Event
events =
    boot (some []) true
    ∷ Slots.call (call_with (bytes "b00th"))
    ∷ Slots.call (call_with (bytes "guess"))
    ∷ boot (some []) true
    ∷ Slots.call (call_with (bytes "b00th"))
    ∷ []

abbrev booth : Booth
booth = not_booted env config two_slots numbers-ReadsBack (some (0 ∷ 1 ∷ [])) limiter

join_run-Distinct_example :
    Distinct (join_run env config two_slots booth events).served
    × All
        (λ n. recorded numbers (some (0 ∷ 1 ∷ [])) n ≡ false)
        (join_run env config two_slots booth events).served
join_run-Distinct_example =
    join_run-Distinct env config two_slots numbers-ReadsBack (some (0 ∷ 1 ∷ [])) limiter events

-- the guess gets nothing
served : (join_run env config two_slots booth events).served ≡ 3 ∷ 2 ∷ []
unfolding join_run handle_join_claim open_store read_state numbers RateLimit.allow RateLimit.new
    lookup as_allowed insert client_key split_host_port claim mapped_ipv6
served = refl

abbrev desk : Desk
desk = (join_run env config two_slots booth (boot (some []) true ∷ [])).desk

handle_join_claim-IsAnswered_example :
    IsAnswered env config desk
      (call_with (bytes "b00th"))
      (handle_join_claim env config desk (call_with (bytes "b00th")))
handle_join_claim-IsAnswered_example =
    handle_join_claim-IsAnswered env config desk (call_with (bytes "b00th"))
