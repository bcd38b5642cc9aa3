-- ===== src/Scrape/Examples.antt =====
-- The theorems on two scrapes of a border router, over numbers in thousandths.
use ietf_scion_testbed.Prelude.{
  ◌≡◌, refl, true, false, none, some, List, [], ◌∷◌, Bytes, bytes, bytes_eq, ℤ, pos, lookup, insert,
  milli,
}
use ietf_scion_testbed.Store
use ietf_scion_testbed.Topo.{Graph}
use ietf_scion_testbed.Derive.State.{Deriver, new, service_up}
use ietf_scion_testbed.Scrape.{
  Target, Rule, Metric, rule, kind_gauge, sum_readings, add_reading, label_value, metric_value,
}
use ietf_scion_testbed.Scrape.Health.{Round, scrape_all, last_succeeded, service_up-newest}
use ietf_scion_testbed.Scrape.Sums.{readings_of, summed, sum_readings-summed}

abbrev router : Target
router = record {
  as_num = 150;
  service = bytes "br";
  url = bytes "http://10.20.3.150:30442/metrics";
}

abbrev reading : Bytes → ℤ → Metric ℤ
reading if_id v = record { labels = (bytes "interface", if_id) ∷ []; gauge = v; counter = pos 0 }

abbrev up_rule : Rule
up_rule = rule (bytes "router_interface_up") (bytes "up") (bytes "interface") kind_gauge false

abbrev three : List (Metric ℤ)
three =
    reading (bytes "1") (pos 1000)
    ∷ reading (bytes "2") (pos 4000)
    ∷ reading (bytes "1") (pos 2000)
    ∷ []

summed_twice : lookup (bytes "1") (sum_readings milli up_rule [] three) ≡ some (pos 3000)
unfolding sum_readings add_reading label_value metric_value lookup insert
summed_twice = refl

sum_readings-summed_example :
    lookup (bytes "1") (sum_readings milli up_rule [] three)
    ≡ summed milli none (readings_of milli up_rule (bytes "1") three)
sum_readings-summed_example = sum_readings-summed milli up_rule three (bytes "1")

abbrev rounds : List (Round milli)
rounds =
    record { target = router; now = pos 1; answer = none }
    ∷ record {
      target = router;
      now = pos 2;
      answer = some ((bytes "router_interface_up", three) ∷ []);
    }
    ∷ []

abbrev graph : Graph
graph = record { ases = []; links = [] }

abbrev deriver : Deriver ℤ
deriver = record (new milli graph (Store.new milli (pos 2))) {
  st = scrape_all milli (Store.new milli (pos 2)) rounds;
}

service_up-newest_example :
    service_up milli deriver 150 (bytes "br") ≡ last_succeeded milli router false rounds
service_up-newest_example =
    service_up-newest milli router refl refl refl (pos 2) rounds deriver (refl, (refl, tt)) refl

fetched_last : last_succeeded milli router false rounds ≡ true
unfolding last_succeeded
fetched_last = refl
