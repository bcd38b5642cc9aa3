-- ===== src/LinkdClient/Reports.antt =====
-- client.go: a poll of the links against the last report on the A side of each.
use ietf_scion_testbed.Prelude.{
  ℕ, ◌≡◌, refl, ◌∙◌, arith, not, Option, none, some, List, [], ◌∷◌, ◌++◌, Bytes, ◌==◌, bytes_eq,
  lookup, lookup-insert, if◌then◌else◌, In, Settled, last_of, last_of-append,
}
use ietf_scion_testbed.Topo.{As, Link}
use ietf_scion_testbed.Derive.State.{Shaping}
use ietf_scion_testbed.LinkdClient.{Client, LinkEntry, Wire, as_if_key, end_key, fetch_links}
use ietf_scion_testbed.LinkdClient.Poll.{
  Polled, a_side_idx, current, note_entry, note_entries, note_answer, note_answers, poll,
}
use ietf_scion_testbed.LinkdClient.Ends.{OwnASides, lookup-a_side_idx}

-- what an AS's daemon reports, by interface
unfoldable pub entry_reports :
    {F V : Type 0} → (LinkEntry F → V) → ℕ → List (LinkEntry F) → List (Bytes × V)
entry_reports f as_num [] = []
entry_reports f as_num (e ∷ rest) = (as_if_key as_num e.if_id, f e) ∷ entry_reports f as_num rest

unfoldable pub answer_reports :
    {F V : Type 0} → (LinkEntry F → V) → ℕ → Option (List (LinkEntry F)) → List (Bytes × V)
unfolding entry_reports
answer_reports f as_num none = []
answer_reports f as_num (some entries) = entry_reports f as_num entries

-- what a report says of the shaping: nothing unless it is marked as shaped
unfoldable pub shaping_reported : {F : Type 0} → LinkEntry F → Option (Shaping F)
shaping_reported e = if not e.is_shaped then none else e.shaping

current-shaping_reported : {F : Type 0} (e : LinkEntry F) → current e ≡ shaping_reported e
unfolding shaping_reported
current-shaping_reported e = ground arith

module _ {F : Type 0} where
  -- the entries of a link in the maps of a poll, given the reports since
  Holds : Link → Polled F → Option (Option (Shaping F)) × Option (Option (Shaping F)) → Type 0
  Holds l p held = (lookup l.id p.out ≡ held.0) × (lookup l.id p.base ≡ held.1)

  abbrev reported : {V : Type 0} → Link → (LinkEntry F → V) → ℕ → LinkEntry F → Option V → Option V
  reported l f as_num e before =
      if as_if_key as_num e.if_id == end_key l.a then some (f e) else before

  note_entry-Holds :
      (l : Link) (as_num : ℕ) (p : Polled F) (e : LinkEntry F) (o : Option Bytes)
      → Settled
          (λ id. (id == l.id) ≡ (as_if_key as_num e.if_id == end_key l.a))
          (as_if_key as_num e.if_id)
          (end_key l.a)
          o
      → Holds l (note_entry p e o) (
        reported l shaping_reported as_num e (lookup l.id p.out),
        reported l (λ e. e.baseline) as_num e (lookup l.id p.base),
      )
  unfolding Holds
  note_entry-Holds l as_num p e none h = rw h (refl, refl)
  note_entry-Holds l as_num p e (some id) h =
      (rw (current-shaping_reported, lookup-insert, h) refl, rw (lookup-insert, h) refl)

  module _ (links : List Link) (l : Link) (own : OwnASides links) (m : In l links) where
    note_entries-Holds :
        (es : List (LinkEntry F)) (as_num : ℕ) (p : Polled F)
        → Holds l (note_entries (a_side_idx [] links) as_num p es) (
          last_of (end_key l.a) (lookup l.id p.out) (entry_reports shaping_reported as_num es),
          last_of (end_key l.a) (lookup l.id p.base) (entry_reports (λ e. e.baseline) as_num es),
        )
    unfolding Holds note_entries entry_reports last_of
    note_entries-Holds [] as_num p = (refl, refl)
    note_entries-Holds (e ∷ rest) as_num p =
        let key = as_if_key as_num e.if_id in
        let o = lookup key (a_side_idx [] links) in
        let (x, y) = note_entry-Holds l as_num p e o (lookup-a_side_idx links l key own m) in
        let (u, v) = note_entries-Holds rest as_num (note_entry p e o) in
        (u ∙ rw x refl, v ∙ rw y refl)

    note_answer-Holds :
        (answer : Option (List (LinkEntry F))) (as_num : ℕ) (p : Polled F)
        → Holds l (note_answer (a_side_idx [] links) as_num p answer) (
          last_of (end_key l.a) (lookup l.id p.out) (answer_reports shaping_reported as_num answer),
          last_of
              (end_key l.a)
              (lookup l.id p.base)
              (answer_reports (λ e. e.baseline) as_num answer),
        )
    unfolding Holds answer_reports last_of
    note_answer-Holds none as_num p = (refl, refl)
    note_answer-Holds (some es) as_num p = note_entries-Holds es as_num p

module _ {F : Type 0} (w : Wire F) where
  -- what the daemons report, in the order of the graph's ASes
  unfoldable pub reports : {V : Type 0} → (LinkEntry F → V) → Client → List As → List (Bytes × V)
  unfolding answer_reports
  reports f c [] = []
  reports f c (as_rec ∷ rest) =
      answer_reports f as_rec.num (fetch_links w c as_rec.num) ++ reports f c rest

  note_answers-Holds :
      (c : Client) (l : Link) (ases : List As) (p : Polled F)
      → OwnASides c.g.links
      → In l c.g.links
      → Holds l (note_answers w c (a_side_idx [] c.g.links) p ases) (
        last_of (end_key l.a) (lookup l.id p.out) (reports shaping_reported c ases),
        last_of (end_key l.a) (lookup l.id p.base) (reports (λ e. e.baseline) c ases),
      )
  unfolding Holds note_answers reports last_of
  note_answers-Holds c l [] p own m = (refl, refl)
  note_answers-Holds c l (as_rec ∷ rest) p own m =
      let answer = fetch_links w c as_rec.num in
      let (x, y) = note_answer-Holds c.g.links l own m answer as_rec.num p in
      let (u, v) =
        note_answers-Holds c l rest (note_answer (a_side_idx [] c.g.links) as_rec.num p answer) own
          m in
      (u ∙ rw (x, last_of-append) refl, v ∙ rw (y, last_of-append) refl)

  -- If the graph's links have the same id exactly if they have the same A side: of every link,
  -- `Poll` holds as current shaping that of the last report on its A side, nil if that report is
  -- not marked as shaped, and as baseline the report's; it holds neither if no AS that answered
  -- reports the side.
  pub poll-reports :
      (c : Client) (l : Link)
      → OwnASides c.g.links
      → In l c.g.links
      → (lookup l.id (poll w c).out
          ≡ last_of (end_key l.a) none (reports shaping_reported c c.g.ases))
        × (lookup l.id (poll w c).base
            ≡ last_of (end_key l.a) none (reports (λ e. e.baseline) c c.g.ases))
  unfolding poll Holds lookup
  poll-reports c l own m = note_answers-Holds c l c.g.ases (record { out = []; base = [] }) own m
