-- ===== src/Scrape/Health.antt =====
-- scrape.go with store.go and derive.go: the health that the deriver reads, against the scrapes.
use ietf_scion_testbed.Prelude.{
  ◌≡◌, refl, sym, ap, ◌∙◌, Bool, false, true, not, Option, none, some, List, [], ◌∷◌, ◌++◌,
  append_assoc, append-nil, Bytes, ◌==◌, bytes_eq, nat_eq, All, All-append, ℤ, Map, lookup, Float,
  if◌then◌else◌, Bool-cases, inl, inr,
}
use ietf_scion_testbed.Store.{Sample, Store, last}
use ietf_scion_testbed.Store
use ietf_scion_testbed.Store.Series.{Event, put_all, samples_of, last?, last?-snoc, last-put_all}
use ietf_scion_testbed.Derive.State.{Deriver, service_up}
use ietf_scion_testbed.Scrape.{
  Target, Rule, Families, Metric, health_key, sum_readings, allowlist, scrape_target,
}
use ietf_scion_testbed.Scrape.Keys.{
  IsPlain, IsOwnPart, same_target, metric_key-health_key, health_key-same_target,
}
use ietf_scion_testbed.Scrape.Puts.{
  put_of, sum_puts, family_puts, families_puts, metric_puts, is_success, scrape_puts,
  scrape_target-put_all, put_all-append, samples_of-append, samples_of-others,
}

module _ (fl : Float) where
  open fl use {F, dec, eq}

  -- one scrape: its target, its time, and the families that it fetched, if it did
  pub record Round : Type 0 where
    pub target : Target
    pub now : ℤ
    pub answer : Option (Families F)

  -- scrapes in the order in which they write
  unfoldable pub scrape_all : Store F → List Round → Store F
  scrape_all st [] = st
  scrape_all st (r ∷ rest) = scrape_all (scrape_target fl st r.target r.now r.answer) rest

  abbrev pub succeeded : Option (Families F) → Bool
  succeeded none = false
  succeeded (some families) = true

  -- whether the last scrape of a target fetched it, `before` if there is none
  unfoldable pub last_succeeded : Target → Bool → List Round → Bool
  last_succeeded t before [] = before
  last_succeeded t before (r ∷ rest) =
      last_succeeded t (if same_target r.target t then succeeded r.answer else before) rest

  abbrev pub ArePlain : List Round → Type 0
  ArePlain = All (λ r. IsPlain r.target.service)

  puts_of : List Round → List (Event fl)
  puts_of [] = []
  puts_of (r ∷ rest) = scrape_puts fl r.target r.now r.answer ++ puts_of rest

  scrape_all-put_all :
      (rounds : List Round) (st : Store F) → scrape_all st rounds ≡ put_all fl st (puts_of rounds)
  unfolding scrape_all puts_of put_all
  scrape_all-put_all [] st = refl
  scrape_all-put_all (r ∷ rest) st =
      scrape_all-put_all rest (scrape_target fl st r.target r.now r.answer)
      ∙ ap (λ s. put_all fl s (puts_of rest)) (scrape_target-put_all fl st r.target r.now r.answer)
      ∙ sym (put_all-append fl (scrape_puts fl r.target r.now r.answer) (puts_of rest) st)

  allowlist-IsOwnPart : All (λ rl. IsOwnPart rl.key_part) allowlist
  unfolding allowlist
  allowlist-IsOwnPart = (
    (refl, refl),
    (
      (refl, refl),
      (
        (refl, refl),
        (
          (refl, refl),
          ((refl, refl), ((refl, refl), ((refl, refl), ((refl, refl), ((refl, refl), tt))))),
        ),
      ),
    ),
  )

  module _ (u : Target) (q : IsPlain u.service) where
    Elsewhere : List (Event fl) → Type 0
    Elsewhere = All (λ e. (e.key == health_key u) ≡ false)

    module _ (t : Target) (p : IsPlain t.service) (now : ℤ) where
      sum_puts-Elsewhere :
          (rl : Rule) (sums : Map Bytes F)
          → IsOwnPart rl.key_part
          → Elsewhere (sum_puts fl t now rl sums)
      unfolding sum_puts Elsewhere
      sum_puts-Elsewhere rl [] own = tt
      sum_puts-Elsewhere rl ((if_id, v) ∷ rest) own =
          (metric_key-health_key t u rl.key_part if_id p q own, sum_puts-Elsewhere rl rest own)

      family_puts-Elsewhere :
          (rl : Rule) (o : Option (List (Metric F)))
          → IsOwnPart rl.key_part
          → Elsewhere (family_puts fl t now rl o)
      unfolding family_puts Elsewhere
      family_puts-Elsewhere rl none own = tt
      family_puts-Elsewhere rl (some metrics) own =
          sum_puts-Elsewhere rl (sum_readings fl rl [] metrics) own

      families_puts-Elsewhere :
          (families : Families F) (rules : List Rule)
          → All (λ rl. IsOwnPart rl.key_part) rules
          → Elsewhere (families_puts fl t now families rules)
      unfolding families_puts Elsewhere
      families_puts-Elsewhere families [] own = tt
      families_puts-Elsewhere families (rl ∷ rest) (o, own) =
          All-append (λ e. (e.key == health_key u) ≡ false)
            (family_puts fl t now rl (lookup rl.family families))
            (families_puts fl t now families rest)
            (family_puts-Elsewhere rl (lookup rl.family families) o)
            (families_puts-Elsewhere families rest own)

      metric_puts-Elsewhere :
          (answer : Option (Families F)) → Elsewhere (metric_puts fl t now answer)
      unfolding metric_puts Elsewhere
      metric_puts-Elsewhere none = tt
      metric_puts-Elsewhere (some families) =
          families_puts-Elsewhere families allowlist allowlist-IsOwnPart

      abbrev health_sample : Option (Families F) → Sample F
      health_sample answer = record { t = now; v = is_success fl answer }

      -- the only sample of a scrape under the health key
      scrape_puts-health :
          (answer : Option (Families F))
          → samples_of fl (health_key u) (scrape_puts fl t now answer)
            ≡ (if same_target t u then health_sample answer ∷ [] else [])
      unfolding samples_of Elsewhere
      scrape_puts-health answer =
          rw
            (
              samples_of-append fl (health_key u) (metric_puts fl t now answer)
                  (put_of fl (health_key t) now (is_success fl answer) ∷ []),
              samples_of-others fl (health_key u) (metric_puts fl t now answer)
                  (metric_puts-Elsewhere answer),
              health_key-same_target t u p q,
            )
            refl

    -- what a log says of the target's health
    abbrev shows : Option (Sample F) → Bool
    shows none = false
    shows (some s) = not (eq s.v (dec 0 0))

    module _ (up : eq (dec 1 0) (dec 0 0) ≡ false) (down : eq (dec 0 0) (dec 0 0) ≡ true) where
      shows-success :
          (t : ℤ) (answer : Option (Families F))
          → shows (some (record { t = t; v = is_success fl answer })) ≡ succeeded answer
      shows-success t none = rw down refl
      shows-success t (some families) = rw up refl

      log_after :
          (rounds : List Round) (log : List (Sample F))
          → ArePlain rounds
          → shows (last? fl (log ++ samples_of fl (health_key u) (puts_of rounds)))
            ≡ last_succeeded u (shows (last? fl log)) rounds
      unfolding last_succeeded puts_of samples_of
      log_after [] log h = rw (append-nil log) refl
      log_after (r ∷ rest) log (p, h) =
          let later = samples_of fl (health_key u) (puts_of rest) in
          rw
            (
              samples_of-append fl (health_key u) (scrape_puts fl r.target r.now r.answer)
                  (puts_of rest),
              scrape_puts-health r.target p r.now r.answer,
            )
            (elim (Bool-cases (same_target r.target u)) [
              | inr other ↦ rw other (log_after rest log h)
              | inl same ↦
                  let s : Sample F = record { t = r.now; v = is_success fl r.answer } in
                  rw
                    (
                      same,
                      sym (append_assoc log (s ∷ []) later),
                      log_after rest (log ++ s ∷ []) h,
                      last?-snoc fl log s,
                      shows-success r.now r.answer,
                    )
                    refl
            ])

      -- If the number 1 is not equal to 0 and 0 is: from a new store, after any scrapes, in any
      -- order, of targets whose services hold no slash, a deriver with this store reports the
      -- service of such a target up exactly if the newest scrape of that target fetched its metrics;
      -- before the first it does not.
      pub service_up-newest :
          (c : ℤ) (rounds : List Round) (d : Deriver F)
          → ArePlain rounds
          → d.st ≡ scrape_all (Store.new fl c) rounds
          → service_up fl d u.as_num u.service ≡ last_succeeded u false rounds
      unfolding service_up health_key
      service_up-newest c rounds d h e =
          ap shows (
            ap (λ st. last fl st (health_key u)) (e ∙ scrape_all-put_all rounds (Store.new fl c))
            ∙ last-put_all fl c (puts_of rounds) (health_key u))
          ∙ log_after rounds [] h
