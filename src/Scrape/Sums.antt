-- ===== src/Scrape/Sums.antt =====
-- scrape.go: the sums of a family over all labels but the interface's.
use ietf_scion_testbed.Prelude.{
  ◌≡◌, refl, ◌∙◌, ◌&&◌, Bool, false, not, arith, Option, none, some, List, [], ◌∷◌, Bytes, ◌==◌,
  bytes_eq, bytes_beq_iff, Map, lookup, lookup-insert, Float, if◌then◌else◌, Bool-cases, inl, inr,
}
use ietf_scion_testbed.Scrape.{
  Rule, Metric, MetricKind, kind_gauge, kind_counter, label_value, metric_value, counts, sum_at,
  add_reading, sum_readings,
}

module _ (fl : Float) where
  open fl use {F, dec, inf, add, sub, eq}

  -- A reading of an interface whose value is neither NaN, which differs from itself, nor infinite.
  unfoldable pub is_reading : Bytes → F → Bool
  is_reading if_id v =
      if if_id == []
      then false
      else if not (eq v v)
      then false
      else if eq v inf
      then false
      else not (eq v (sub (dec 0 0) inf))

  -- what a family gives for an interface: its gauge or its counter
  unfoldable pub value_of : Rule → Metric F → F
  value_of rl m = elim rl.kind [ kind_gauge ↦ m.gauge | kind_counter ↦ m.counter ]

  metric_value-value_of : (rl : Rule) (m : Metric F) → metric_value m rl.kind ≡ value_of rl m
  unfolding metric_value value_of
  metric_value-value_of rl m = go rl.kind
    where
      go :
          (k : MetricKind)
          → metric_value m k ≡ (elim k [ kind_gauge ↦ m.gauge | kind_counter ↦ m.counter ])
      go kind_gauge = refl
      go kind_counter = refl

  counts-is_reading :
      (rl : Rule) (m : Metric F)
      → counts fl rl m ≡ is_reading (label_value m rl.iface_label) (value_of rl m)
  unfolding is_reading
  counts-is_reading rl m = rw (metric_value-value_of rl m) (ground arith)

  -- the values of the readings of an interface, in order
  unfoldable pub readings_of : Rule → Bytes → List (Metric F) → List F
  readings_of rl if_id [] = []
  readings_of rl if_id (m ∷ rest) =
      let later = readings_of rl if_id rest in
      if is_reading (label_value m rl.iface_label) (value_of rl m)
        && (label_value m rl.iface_label == if_id)
      then value_of rl m ∷ later
      else later

  -- the sum of some values, from left to right, none if there are none
  abbrev pub summed : Option F → List F → Option F
  summed o [] = o
  summed o (v ∷ vs) = summed (some (add (sum_at fl o) v)) vs

  lookup-add_reading :
      (rl : Rule) (if_id : Bytes) (m : Metric F) (sums : Map Bytes F)
      → lookup if_id (add_reading fl rl sums m)
        ≡ summed (lookup if_id sums) (readings_of rl if_id (m ∷ []))
  unfolding add_reading readings_of
  lookup-add_reading rl if_id m sums =
      elim (Bool-cases (is_reading (label_value m rl.iface_label) (value_of rl m))) [
        | inr skipped ↦ rw (counts-is_reading rl m, skipped) refl
        | inl counted ↦ elim (Bool-cases (label_value m rl.iface_label == if_id)) [
          | inr other ↦
              rw
                (
                  counts-is_reading rl m,
                  metric_value-value_of rl m,
                  counted,
                  other,
                  lookup-insert,
                  other,
                )
                refl
          | inl same ↦
              let e = (bytes_beq_iff (label_value m rl.iface_label) if_id).0 same in
              rw
                (
                  counts-is_reading rl m,
                  metric_value-value_of rl m,
                  counted,
                  lookup-insert,
                  same,
                  e,
                )
                refl
        ]
      ]

  lookup-sum_readings :
      (rl : Rule) (if_id : Bytes) (ms : List (Metric F)) (sums : Map Bytes F)
      → lookup if_id (sum_readings fl rl sums ms)
        ≡ summed (lookup if_id sums) (readings_of rl if_id ms)
  unfolding sum_readings readings_of
  lookup-sum_readings rl if_id [] sums = refl
  lookup-sum_readings rl if_id (m ∷ rest) sums =
      lookup-sum_readings rl if_id rest (add_reading fl rl sums m)
      ∙ rw (lookup-add_reading rl if_id m sums)
          (elim (Bool-cases (
            is_reading (label_value m rl.iface_label) (value_of rl m)
            && (label_value m rl.iface_label == if_id))) [
              | inl own ↦ rw own refl
              | inr other ↦ rw other refl
            ])

  -- For every interface, the sums of a family hold the sum, in order, of all its readings of this
  -- interface that are neither NaN nor infinite, and nothing if there is none. A reading without
  -- the label counts for no interface.
  pub sum_readings-summed :
      (rl : Rule) (ms : List (Metric F)) (if_id : Bytes)
      → lookup if_id (sum_readings fl rl [] ms) ≡ summed none (readings_of rl if_id ms)
  unfolding lookup
  sum_readings-summed rl ms if_id = lookup-sum_readings rl if_id ms []
