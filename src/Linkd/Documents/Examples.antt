-- ===== src/Linkd/Documents/Examples.antt =====
-- The theorems on small documents, with numbers in thousandths.
use ietf_scion_testbed.Prelude.{
  ◌≡◌, refl, ◌&&◌, none, some, [], ◌∷◌, if◌then◌else◌, Bytes, bytes, bytes_eq, nat_eq, ◌==◌, ℤ, pos,
  Map, lookup, milli, milli_mul, itoa,
}
use ietf_scion_testbed.Linkd.Shape.{Params}
use ietf_scion_testbed.Linkd.Documents.{
  text, object, Fields, no_field, field, merge_live, merge_speeds, speed_of, merge_iface, set_some,
  set_inter, latency_of, bandwidth_of, field_at, set_field,
}
use ietf_scion_testbed.Linkd.Documents.Merges.{value_at, or_else, written_live, value_at-merge_live}
use ietf_scion_testbed.Linkd.Documents.Speeds.{entry_at, is_object, idint_at, idint_at-merge_speeds}

abbrev shaped : Params ℤ
shaped = record {
  delay_ms = some (pos 1300);
  jitter_ms = none;
  loss_pct = none;
  rate_mbit = some (pos 50000);
}

abbrev live : Map Bytes (Params ℤ)
live = (bytes "2", shaped) ∷ []

abbrev note : Fields ℤ
note = field (bytes "Note") (object (field (bytes "2") (text (bytes "core")) no_field)) no_field

value_at-merge_live_example :
    value_at (merge_live milli note live) (bytes "Latency") (bytes "2") (bytes "Inter")
    ≡ or_else
        (written_live milli (bytes "Latency") (bytes "Inter") (lookup (bytes "2") live))
        (value_at note (bytes "Latency") (bytes "2") (bytes "Inter"))
value_at-merge_live_example =
    value_at-merge_live milli note live (bytes "Latency") (bytes "2") (bytes "Inter") (refl, tt)

abbrev topology : Fields ℤ
topology =
    field (bytes "border_routers")
      (object (
        field (bytes "br1")
          (object (
            field (bytes "interfaces") (object (field (bytes "2") (object no_field) no_field))
              no_field))
          no_field))
      no_field

idint_at-merge_speeds_example :
    idint_at (entry_at (merge_speeds milli topology live) (bytes "br1") (bytes "2")) (bytes "speed")
    ≡ or_else
        (if is_object (entry_at topology (bytes "br1") (bytes "2"))
            && bytes "speed" == bytes "speed"
          then speed_of milli (lookup (bytes "2") live)
          else none)
        (idint_at (entry_at topology (bytes "br1") (bytes "2")) (bytes "speed"))
idint_at-merge_speeds_example =
    idint_at-merge_speeds milli live topology (bytes "br1") (bytes "2") (bytes "speed")

-- 1.3 ms is written as a whole number of microseconds
whole_microseconds :
    value_at (merge_live milli note live) (bytes "Latency") (bytes "2") (bytes "Inter")
    ≡ some (text (bytes "1300us"))
unfolding merge_live merge_iface set_some set_inter latency_of bandwidth_of field_at set_field itoa
    milli_mul
whole_microseconds = refl
