-- ===== src/Linkd/Shape/Merging.antt =====
-- shape.go: partial updates, one after the other.
use ietf_scion_testbed.Prelude.{
  ◌≡◌, refl, ap, ◌∙◌, Option, none, some, List, [], ◌∷◌, ◌++◌, Option-cases, ◌⊎◌, inl, inr, All,
}
use ietf_scion_testbed.Linkd.Shape.{Params, or_kept, merge}

-- the updates of the requests, one after the other
unfoldable pub merge_all : {F : Type 0} → Params F → List (Params F) → Params F
unfolding merge
merge_all cur [] = cur
merge_all cur (u ∷ us) = merge_all (merge cur u) us

module _ {F : Type 0} where
  -- A parameter that no update gives is the one at the start; else it is that of an update that gives
  -- it, and that none after it gives.
  abbrev pub IsLatest : (Params F → Option F) → Params F → List (Params F) → Option F → Type 0
  IsLatest get start us o =
      (All (λ u. get u ≡ none) us × (o ≡ get start))
      ⊎ ((before : List (Params F)) × (u : Params F) × (after : List (Params F)) × (v : F) × (us
            ≡ before ++ u ∷ after)
          × (get u ≡ some v)
          × All (λ w. get w ≡ none) after
          × (o ≡ some v))

  pub record AreLatest (start : Params F) (us : List (Params F)) (p : Params F) : Type 0 where
    pub delay_ms : IsLatest (λ q. q.delay_ms) start us p.delay_ms
    pub jitter_ms : IsLatest (λ q. q.jitter_ms) start us p.jitter_ms
    pub loss_pct : IsLatest (λ q. q.loss_pct) start us p.loss_pct
    pub rate_mbit : IsLatest (λ q. q.rate_mbit) start us p.rate_mbit

  IsLatest-cons :
      (get : Params F → Option F) (start start' u : Params F) (us : List (Params F)) (o : Option F)
      → get start' ≡ or_kept (get start) (get u)
      → IsLatest get start' us o
      → IsLatest get start (u ∷ us) o
  IsLatest-cons get start start' u us o e (inl (unset, k)) = elim (Option-cases (get u)) [
    | inl none_given ↦ inl ((none_given, unset), k ∙ e ∙ rw none_given refl)
    | inr (v, given) ↦ inr ([], u, us, v, refl, given, unset, k ∙ e ∙ rw given refl)
  ]
  IsLatest-cons get start start' u us o e (inr (before, w, after, v, k, given, unset, same)) =
      inr (u ∷ before, w, after, v, ap (λ l. u ∷ l) k, given, unset, same)

  merge_all-IsLatest :
      (get : Params F → Option F)
      → ((cur u : Params F) → get (merge cur u) ≡ or_kept (get cur) (get u))
      → (start : Params F) (us : List (Params F)) → IsLatest get start us (get (merge_all start us))
  unfolding merge_all
  merge_all-IsLatest get m start [] = inl (tt, refl)
  merge_all-IsLatest get m start (u ∷ us) =
      IsLatest-cons get start (merge start u) u us _ (m start u)
        (merge_all-IsLatest get m (merge start u) us)

  -- After any sequence of partial updates, each of the four parameters is the one that the last
  -- update to give it gave, and the one at the start if no update gave it.
  pub merge_all-AreLatest :
      (start : Params F) (us : List (Params F)) → AreLatest start us (merge_all start us)
  unfolding merge
  merge_all-AreLatest start us = record {
    delay_ms = merge_all-IsLatest (λ q. q.delay_ms) (λ cur u. refl) start us;
    jitter_ms = merge_all-IsLatest (λ q. q.jitter_ms) (λ cur u. refl) start us;
    loss_pct = merge_all-IsLatest (λ q. q.loss_pct) (λ cur u. refl) start us;
    rate_mbit = merge_all-IsLatest (λ q. q.rate_mbit) (λ cur u. refl) start us;
  }
