-- ===== src/Scrape/Puts.antt =====
-- scrape.go: the calls of `Put` that scrapes make, as one sequence. Each target's goroutine scrapes
-- on its own; the lock of the store puts the calls in some order.
use ietf_scion_testbed.Prelude.{
  ◌≡◌, refl, sym, ap, ◌∙◌, false, Option, none, some, List, [], ◌∷◌, ◌++◌, Bytes, ◌==◌, bytes_eq,
  All, ℤ, Map, lookup, Float, Bool-cases, inl, inr,
}
use ietf_scion_testbed.Store.{Store, put}
use ietf_scion_testbed.Store.Series.{Event, put_all, samples_of}
use ietf_scion_testbed.Scrape.{
  Target, Rule, Families, Metric, metric_key, health_key, sum_readings, scaled, put_sums,
  put_family, put_families, allowlist, scrape_target,
}

module _ (fl : Float) where
  open fl use {F, dec}

  abbrev pub put_of : Bytes → ℤ → F → Event fl
  put_of key t v = record { key = key; t = t; v = v }

  unfoldable pub sum_puts : Target → ℤ → Rule → Map Bytes F → List (Event fl)
  sum_puts t now rl [] = []
  sum_puts t now rl ((if_id, v) ∷ rest) =
      put_of (metric_key t rl.key_part if_id) now (scaled fl rl v) ∷ sum_puts t now rl rest

  unfoldable pub family_puts : Target → ℤ → Rule → Option (List (Metric F)) → List (Event fl)
  unfolding sum_puts
  family_puts t now rl none = []
  family_puts t now rl (some metrics) = sum_puts t now rl (sum_readings fl rl [] metrics)

  unfoldable pub families_puts : Target → ℤ → Families F → List Rule → List (Event fl)
  unfolding family_puts
  families_puts t now families [] = []
  families_puts t now families (rl ∷ rest) =
      family_puts t now rl (lookup rl.family families) ++ families_puts t now families rest

  abbrev pub is_success : Option (Families F) → F
  is_success none = dec 0 0
  is_success (some families) = dec 1 0

  unfoldable pub metric_puts : Target → ℤ → Option (Families F) → List (Event fl)
  unfolding families_puts
  metric_puts t now none = []
  metric_puts t now (some families) = families_puts t now families allowlist

  abbrev pub scrape_puts : Target → ℤ → Option (Families F) → List (Event fl)
  scrape_puts t now answer =
      metric_puts t now answer ++ put_of (health_key t) now (is_success answer) ∷ []

  pub put_all-append :
      (es fs : List (Event fl)) (st : Store F)
      → put_all fl st (es ++ fs) ≡ put_all fl (put_all fl st es) fs
  unfolding put_all
  put_all-append [] fs st = refl
  put_all-append (e ∷ es) fs st = put_all-append es fs (put fl st e.key e.t e.v)

  put_sums-put_all :
      (t : Target) (now : ℤ) (rl : Rule) (sums : Map Bytes F) (st : Store F)
      → put_sums fl t now rl st sums ≡ put_all fl st (sum_puts t now rl sums)
  unfolding put_sums put_all sum_puts
  put_sums-put_all t now rl [] st = refl
  put_sums-put_all t now rl ((if_id, v) ∷ rest) st = put_sums-put_all t now rl rest _

  put_family-put_all :
      (t : Target) (now : ℤ) (rl : Rule) (o : Option (List (Metric F))) (st : Store F)
      → put_family fl t now rl st o ≡ put_all fl st (family_puts t now rl o)
  unfolding put_family family_puts put_all
  put_family-put_all t now rl none st = refl
  put_family-put_all t now rl (some metrics) st =
      put_sums-put_all t now rl (sum_readings fl rl [] metrics) st

  put_families-put_all :
      (t : Target) (now : ℤ) (families : Families F) (rules : List Rule) (st : Store F)
      → put_families fl t now families st rules ≡ put_all fl st (families_puts t now families rules)
  unfolding put_families families_puts put_all
  put_families-put_all t now families [] st = refl
  put_families-put_all t now families (rl ∷ rest) st =
      let o = lookup rl.family families in
      put_families-put_all t now families rest (put_family fl t now rl st o)
      ∙ ap (λ s. put_all fl s (families_puts t now families rest))
          (put_family-put_all t now rl o st)
      ∙ sym (put_all-append (family_puts t now rl o) (families_puts t now families rest) st)

  -- A scrape is its calls of `Put`.
  pub scrape_target-put_all :
      (st : Store F) (t : Target) (now : ℤ) (answer : Option (Families F))
      → scrape_target fl st t now answer ≡ put_all fl st (scrape_puts t now answer)
  unfolding scrape_target metric_puts put_all
  scrape_target-put_all st t now none = refl
  scrape_target-put_all st t now (some families) =
      ap (λ s. put fl s (health_key t) now (dec 1 0))
        (put_families-put_all t now families allowlist st)
      ∙ sym (put_all-append (families_puts t now families allowlist) _ st)

  pub samples_of-append :
      (key : Bytes) (es fs : List (Event fl))
      → samples_of fl key (es ++ fs) ≡ samples_of fl key es ++ samples_of fl key fs
  unfolding samples_of
  samples_of-append key [] fs = refl
  samples_of-append key (e ∷ es) fs =
      rw (samples_of-append key es fs)
        (elim (Bool-cases (e.key == key)) [ inl same ↦ rw same refl | inr other ↦ rw other refl ])

  pub samples_of-others :
      (key : Bytes) (es : List (Event fl))
      → All (λ e. (e.key == key) ≡ false) es
      → samples_of fl key es ≡ []
  unfolding samples_of
  samples_of-others key [] h = refl
  samples_of-others key (e ∷ es) (p, h) = rw p (samples_of-others key es h)
