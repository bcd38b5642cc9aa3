-- ===== src/Derive/Frames.antt =====
-- derive.go: the KPIs of a frame against counts and sums over its views, and its views against the
-- topology.
use ietf_scion_testbed.Prelude.{
  ℕ, ◌+◌, ◌≡◌, refl, sym, ap, ◌∙◌, Bool, false, none, some, List, [], ◌∷◌, ◌++◌, append_assoc,
  append-nil, map, arith, if◌then◌else◌, length, bytes, ◌==◌, bytes_eq, nat_eq, ℤ, pos, Float,
}
use ietf_scion_testbed.Topo.{Link, As, Graph}
use ietf_scion_testbed.Derive.State.{LinkVm, AsVm, Frame, Deriver}
use ietf_scion_testbed.Derive.Views.{
  Tally, tally_link, derive_link, derive_links, derive_as, derive_ases, frame,
}

module _ (fl : Float) where
  open fl use {F, dec, of_int, add, div}

  -- whether a link is up by its view: a view that is stale does not count
  unfoldable pub seen_up : LinkVm F → Bool
  seen_up vm = if vm.is_stale then false else vm.is_up

  unfoldable pub count_up : List (LinkVm F) → ℕ
  unfolding seen_up
  count_up [] = 0
  count_up (vm ∷ vms) = (if seen_up vm then 1 else 0) + count_up vms

  unfoldable pub count_shaped : List (LinkVm F) → ℕ
  count_shaped [] = 0
  count_shaped (vm ∷ vms) = (elim vm.shaping [ none ↦ 0 | some s ↦ 1 ]) + count_shaped vms

  -- a sum from left to right, as floating-point addition is not associative
  unfoldable pub sum_from : F → List F → F
  sum_from total [] = total
  sum_from total (v ∷ vs) = sum_from (add total v) vs

  -- the traffic of each link, of both directions
  unfoldable pub traffic : List (LinkVm F) → List F
  traffic [] = []
  traffic (vm ∷ vms) = add vm.rate_ab_mbit vm.rate_ba_mbit ∷ traffic vms

  -- The RTTs of the core links that are up, each the mean of its two ends; a view is at the place of
  -- its link.
  unfoldable pub core_rtts : List Link → List (LinkVm F) → List F
  unfolding seen_up
  core_rtts (l ∷ ls) (vm ∷ vms) =
      let rest = core_rtts ls vms in
      if seen_up vm
      then (if l.type == bytes "core"
          then div (add vm.rtt_ms_a vm.rtt_ms_b) (dec 2 0) ∷ rest
          else rest)
      else rest
  core_rtts _ _ = []

  -- the mean, 0 of no values
  unfoldable pub mean : List F → F
  unfolding sum_from
  mean [] = dec 0 0
  mean (v ∷ vs) = div (sum_from (dec 0 0) (v ∷ vs)) (of_int (pos (length (v ∷ vs))))

  -- What the KPIs of a frame say of its views: the views are those of the graph's links, in order,
  -- and of its ASes.
  pub record KpiCounts (g : Graph) (f : Frame F) : Type 0 where
    pub ids : map (λ vm. vm.id) f.links ≡ map (λ l. l.id) g.links
    pub ias : map (λ vm. vm.ia) f.ases ≡ map (λ s. s.ia) g.ases
    pub links_up : f.kpi.links_up ≡ count_up f.links
    pub shaped : f.kpi.shaped ≡ count_shaped f.links
    pub links_total : f.kpi.links_total ≡ length f.links
    pub total_mbit : f.kpi.total_mbit ≡ sum_from (dec 0 0) (traffic f.links)
    pub avg_core_rtt_ms : f.kpi.avg_core_rtt_ms ≡ mean (core_rtts g.links f.links)
    pub beacons_per_sec :
        f.kpi.beacons_per_sec ≡ sum_from (dec 0 0) (map (λ vm. vm.beacons_per_sec) f.ases)

  -- the views that the loop over the links derives
  views : Deriver F → ℤ → List Link → List (LinkVm F)
  views d now_unix [] = []
  views d now_unix (l ∷ ls) =
      let (d', vm) = derive_link fl d now_unix l in vm ∷ views d' now_unix ls

  -- what the loop adds to a tally, over its links and their views
  record Tallied (c c' : Tally fl) (ls : List Link) (vms : List (LinkVm F)) : Type 0 where
    links : c'.links ≡ c.links ++ vms
    links_up : c'.links_up ≡ c.links_up + count_up vms
    shaped : c'.shaped ≡ c.shaped + count_shaped vms
    total_mbit : c'.total_mbit ≡ sum_from c.total_mbit (traffic vms)
    core_rtt_sum : c'.core_rtt_sum ≡ sum_from c.core_rtt_sum (core_rtts ls vms)
    core_count : c'.core_count ≡ c.core_count + length (core_rtts ls vms)

  Tallied-cons :
      (c c' : Tally fl) (l : Link) (vm : LinkVm F) (ls : List Link) (vms : List (LinkVm F))
      → Tallied (tally_link fl c l vm) c' ls vms
      → Tallied c c' (l ∷ ls) (vm ∷ vms)
  unfolding tally_link count_up seen_up count_shaped traffic core_rtts sum_from
  Tallied-cons c c' l vm ls vms h = record {
    links = h.links ∙ append_assoc c.links (vm ∷ []) vms;
    links_up = ground (arith, h.links_up);
    shaped = ground (arith, h.shaped);
    total_mbit = h.total_mbit;
    core_rtt_sum = ground (arith, h.core_rtt_sum);
    core_count = ground (arith, h.core_count);
  }

  derive_links-Tallied :
      (ls : List Link) (d : Deriver F) (now_unix : ℤ) (c : Tally fl)
      → Tallied c (derive_links fl d now_unix c ls).1 ls (views d now_unix ls)
  unfolding derive_links views count_up count_shaped traffic core_rtts sum_from
  derive_links-Tallied [] d now_unix c = record {
    links = sym (append-nil c.links);
    links_up = omega arith;
    shaped = omega arith;
    total_mbit = refl;
    core_rtt_sum = refl;
    core_count = omega arith;
  }
  derive_links-Tallied (l ∷ ls) d now_unix c =
      let (d', vm) = derive_link fl d now_unix l in
      Tallied-cons c _ l vm ls (views d' now_unix ls)
        (derive_links-Tallied ls d' now_unix (tally_link fl c l vm))

  views-ids :
      (ls : List Link) (d : Deriver F) (now_unix : ℤ)
      → map (λ vm. vm.id) (views d now_unix ls) ≡ map (λ l. l.id) ls
  unfolding views derive_link
  views-ids [] d now_unix = refl
  views-ids (l ∷ ls) d now_unix =
      ap (λ rest. l.id ∷ rest) (views-ids ls (derive_link fl d now_unix l).0 now_unix)

  length-views :
      (ls : List Link) (d : Deriver F) (now_unix : ℤ) → length ls ≡ length (views d now_unix ls)
  unfolding views
  length-views [] d now_unix = refl
  length-views (l ∷ ls) d now_unix =
      ground (arith, length-views ls (derive_link fl d now_unix l).0 now_unix)

  derive_ases-views :
      (ss : List As) (d : Deriver F) (out : List (AsVm F)) (total : F)
      → ((derive_ases fl d out total ss).0 ≡ out ++ map (derive_as fl d) ss)
        × ((derive_ases fl d out total ss).1
            ≡ sum_from total (map (λ vm. vm.beacons_per_sec) (map (derive_as fl d) ss)))
  unfolding derive_ases sum_from
  derive_ases-views [] d out total = (sym (append-nil out), refl)
  derive_ases-views (s ∷ ss) d out total =
      let (p, q) = derive_ases-views ss d (out ++ derive_as fl d s ∷ []) _ in
      (p ∙ append_assoc out (derive_as fl d s ∷ []) _, q)

  as_views-ias :
      (ss : List As) (d : Deriver F)
      → map (λ vm. vm.ia) (map (derive_as fl d) ss) ≡ map (λ s. s.ia) ss
  unfolding derive_as
  as_views-ias [] d = refl
  as_views-ias (s ∷ ss) d = ap (λ rest. s.ia ∷ rest) (as_views-ias ss d)

  mean-sum :
      (vs : List F)
      → (if length vs == 0 then dec 0 0 else div (sum_from (dec 0 0) vs) (of_int (pos (length vs))))
        ≡ mean vs
  unfolding mean
  mean-sum [] = refl
  mean-sum (v ∷ vs) = ground arith

  zero_add : (n : ℕ) → 0 + n ≡ n
  zero_add n = omega arith

  -- The KPIs of every frame are counts and sums over its own views, which are one for each link and
  -- each AS of the graph, in order: the links that are up by a view that is not stale, those that
  -- have a shaping, and all of them; the sum of the traffic; the mean RTT of the core links that are
  -- up, 0 if none is; and the sum of the beacons of the ASes. Sums are from left to right.
  pub frame-KpiCounts :
      (d : Deriver F) (now now_unix : ℤ) → KpiCounts d.g (frame fl d now now_unix).1
  unfolding frame
  frame-KpiCounts d now now_unix =
      let vms = views d now_unix d.g.links in
      let start : Tally fl = record {
        links = [];
        total_mbit = dec 0 0;
        core_rtt_sum = dec 0 0;
        links_up = 0;
        shaped = 0;
        core_count = 0;
      } in
      let c = derive_links-Tallied d.g.links d now_unix start in
      let d' = (derive_links fl d now_unix start d.g.links).0 in
      let (p, q) = derive_ases-views d.g.ases d' [] (dec 0 0) in
      record {
        ids = rw c.links (views-ids d.g.links d now_unix);
        ias = rw p (as_views-ias d.g.ases d');
        links_up = rw c.links (c.links_up ∙ zero_add _);
        shaped = rw c.links (c.shaped ∙ zero_add _);
        links_total = rw c.links (length-views d.g.links d now_unix);
        total_mbit = rw c.links c.total_mbit;
        avg_core_rtt_ms =
            rw (c.links, c.core_count, c.core_rtt_sum, zero_add (length (core_rtts d.g.links vms)))
              (mean-sum (core_rtts d.g.links vms));
        beacons_per_sec = rw p q;
      }
