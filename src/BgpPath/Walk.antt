-- ===== src/BgpPath/Walk.antt =====
-- bgppath.go: the walk against the chains of hops of Trails.
use ietf_scion_testbed.Prelude.{
  ℕ, zero, suc, ◌<◌, ◌≡◌, ◌⊎◌, inl, inr, refl, sym, ◌∙◌, true, false, some, List, [], ◌∷◌, ◌++◌,
  append_assoc, append-nil, arith, Bool-cases, Option-cases, Bytes, ◌==◌, nat_eq, bytes_eq,
  nat_beq_iff, lookup, length, contains,
}
use ietf_scion_testbed.BgpPath.{Vm, Hop, Index, Routes, key, route, walk_from, walk}
use ietf_scion_testbed.BgpPath.Trails.{
  unvisited, unvisited-le-length, unvisited-cons-lt, Trail, stop, step, Fresh, next_hop, seen,
  Blocked,
}

-- What the loop adds to `vm` from `cur` on.
record Walked (idx : Index) (routes : Routes) (dst cur : ℕ) (visited : List ℕ) (vm vm' : Vm)
    : Type 0 where
  ps : List ℕ
  ls : List Bytes
  final : ℕ
  as_path : vm'.as_path ≡ vm.as_path ++ ps
  path_links : vm'.path_links ≡ vm.path_links ++ ls
  trail : Trail idx routes dst cur ps ls final
  fresh : Fresh visited ps
  outcome :
      ((vm'.complete ≡ true) × (final ≡ dst))
      ⊎ ((vm'.complete ≡ false) × Blocked idx routes dst (seen visited ps) final)

Ends : ℕ → Index → Routes → ℕ → ℕ → List ℕ → Vm → Type 0
Ends fuel idx routes dst cur visited vm =
    (vm' : Vm) × (walk_from fuel idx routes dst cur visited vm ≡ some vm')
    × Walked idx routes dst cur visited vm vm'

stops :
    (idx : Index) (routes : Routes) (dst cur : ℕ) (visited : List ℕ) (vm vm' : Vm)
    → vm'.as_path ≡ vm.as_path
    → vm'.path_links ≡ vm.path_links
    → ((vm'.complete ≡ true) × (cur ≡ dst))
      ⊎ ((vm'.complete ≡ false) × Blocked idx routes dst visited cur)
    → Walked idx routes dst cur visited vm vm'
stops idx routes dst cur visited vm vm' p q out = record {
  ps = [];
  ls = [];
  final = cur;
  as_path = p ∙ sym (append-nil vm.as_path);
  path_links = q ∙ sym (append-nil vm.path_links);
  trail = stop cur;
  fresh = tt;
  outcome = out;
}

goes_on :
    (idx : Index) (routes : Routes) (dst cur : ℕ) (visited : List ℕ) (vm vm' : Vm) (if_id : Bytes)
    (h : Hop)
    → route routes cur dst ≡ some if_id
    → lookup (key cur if_id) idx ≡ some h
    → contains visited h.peer ≡ false
    → Walked idx routes dst h.peer
        (h.peer ∷ visited)
        (record vm {
          as_path = vm.as_path ++ h.peer ∷ [];
          path_links = vm.path_links ++ h.link_id ∷ [];
        })
        vm'
    → Walked idx routes dst cur visited vm vm'
goes_on idx routes dst cur visited vm vm' if_id h r l f w = record {
  ps = h.peer ∷ w.ps;
  ls = h.link_id ∷ w.ls;
  final = w.final;
  as_path = w.as_path ∙ append_assoc vm.as_path (h.peer ∷ []) w.ps;
  path_links = w.path_links ∙ append_assoc vm.path_links (h.link_id ∷ []) w.ls;
  trail = step cur if_id h w.ps w.ls w.final r l w.trail;
  fresh = (f, w.fresh);
  outcome = w.outcome;
}

walk_from-Ends :
    (fuel : ℕ) (idx : Index) (routes : Routes) (dst cur : ℕ) (visited : List ℕ) (vm : Vm)
    → unvisited idx visited < fuel
    → vm.complete ≡ false
    → Ends fuel idx routes dst cur visited vm
unfolding Ends walk_from next_hop
walk_from-Ends zero idx routes dst cur visited vm m c = absurd (omega arith)
walk_from-Ends (suc fuel) idx routes dst cur visited vm m c = elim (Bool-cases (cur == dst)) [
  | inl there ↦ (
    record vm { complete = true },
    rw (there, walk_from),
    stops idx routes dst cur visited vm _ refl refl (inl (refl, (nat_beq_iff cur dst).0 there)),
  )
  | inr away ↦ elim (Option-cases (route routes cur dst)) [
    | inl lost ↦ (
      vm,
      rw (away, lost, walk_from),
      stops idx routes dst cur visited vm vm refl refl
          (inr (c, record { not_there = ground arith; reason = inl (rw (lost, next_hop)) })),
    )
    | inr (if_id, r) ↦ elim (Option-cases (lookup (key cur if_id) idx)) [
      | inl unknown ↦ (
        vm,
        rw (away, r, unknown, walk_from),
        stops idx routes dst cur visited vm vm refl refl (
            inr (c, record { not_there = ground arith; reason = inl (rw (r, unknown, next_hop)) })),
      )
      | inr (h, l) ↦ elim (Bool-cases (contains visited h.peer)) [
        | inl looped ↦ (
          vm,
          rw (away, r, l, looped, walk_from),
          stops idx routes dst cur visited vm vm refl refl (
              inr (
                c,
                record { not_there = ground arith; reason = inr (h, rw (r, l, next_hop), looped) },
              )),
        )
        | inr new ↦
            let (vm', e, w) =
              walk_from-Ends fuel idx routes dst h.peer (h.peer ∷ visited)
                (record vm {
                  as_path = vm.as_path ++ h.peer ∷ [];
                  path_links = vm.path_links ++ h.link_id ∷ [];
                })
                (omega (arith, unvisited-cons-lt idx visited (key cur if_id) h l new)) c in
            (
              vm',
              rw (away, r, l, new, walk_from) e,
              goes_on idx routes dst cur visited vm vm' if_id h r l new w,
            )
      ]
    ]
  ]
]

-- What a walk reports, in full.
pub record Report (idx : Index) (routes : Routes) (src dst : ℕ) (vm : Vm) : Type 0 where
  pub hops : List ℕ
  pub final : ℕ
  pub as_path : vm.as_path ≡ src ∷ hops
  pub trail : Trail idx routes dst src hops vm.path_links final
  pub fresh : Fresh (src ∷ []) hops
  pub outcome :
      ((vm.complete ≡ true) × (final ≡ dst))
      ⊎ ((vm.complete ≡ false) × Blocked idx routes dst (seen (src ∷ []) hops) final)

-- For any index and any route tables the walk ends, and what it returns is a chain of hops from
-- `src`, each along the best route of its AS towards `dst` and over the link that the index gives;
-- no AS is visited twice. Either the walk is complete and its last AS is `dst`, or it is incomplete,
-- its last AS is not `dst`, and there no next hop is known or the next hop has been visited before.
pub walk-Report :
    (idx : Index) (routes : Routes) (src dst : ℕ)
    → (vm : Vm) × (walk idx routes src dst ≡ some vm) × Report idx routes src dst vm
unfolding walk Ends
walk-Report idx routes src dst = elim (Bool-cases (src == dst)) [
  | inl same ↦ (
    record { src = []; dst = []; as_path = src ∷ []; path_links = []; complete = true },
    rw (same, walk),
    record {
      hops = [];
      final = src;
      as_path = refl;
      trail = stop src;
      fresh = tt;
      outcome = inl (refl, (nat_beq_iff src dst).0 same);
    },
  )
  | inr other ↦
      let vm : Vm = record {
        src = [];
        dst = [];
        as_path = src ∷ [];
        path_links = [];
        complete = false;
      } in
      let (vm', e, w) =
        walk_from-Ends (suc (length idx)) idx routes dst src (src ∷ []) vm
          (omega (arith, unvisited-le-length idx (src ∷ []))) refl in
      (
        vm',
        rw (other, walk) e,
        record {
          hops = w.ps;
          final = w.final;
          as_path = w.as_path;
          trail = rw w.path_links w.trail;
          fresh = w.fresh;
          outcome = w.outcome;
        },
      )
]
