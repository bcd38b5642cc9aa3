-- ===== src/Linkd/Coalesce/Windows.antt =====
-- coalesce.go: the calls, and the runs within a window, over the events of the coalescer.
use ietf_scion_testbed.Prelude.{
  ℕ, suc, ◌+◌, ◌*◌, ◌≤◌, ◌≡◌, refl, Bool, true, false, List, [], ◌∷◌, arith, if◌then◌else◌,
}
use ietf_scion_testbed.Linkd.Coalesce.{Coalescer, Event, called, fired, idle, step}

-- The state after a history, newest event first.
unfoldable pub state_after : List Event → Coalescer
state_after [] = idle
state_after (e ∷ es) = (step (state_after es) e).0

-- how often `f` has run
unfoldable pub runs : List Event → ℕ
unfolding state_after
runs [] = 0
runs (e ∷ es) = (if (step (state_after es) e).1 then 1 else 0) + runs es

-- how many windows have closed
abbrev pub fires : List Event → ℕ
fires [] = 0
fires (called ∷ es) = fires es
fires (fired ∷ es) = suc (fires es)

-- whether `f` has not run since the newest call
unfoldable pub pending : List Event → Bool
unfolding state_after
pending [] = false
pending (called ∷ es) = if (step (state_after es) called).1 then false else true
pending (fired ∷ es) = if (step (state_after es) fired).1 then false else pending es

record Inv (es : List Event) (c : Coalescer) : Type 0 where
  same : state_after es ≡ c
  dirty_pending : c.dirty ≡ pending es
  dirty_timer : c.dirty ≡ true → c.timer ≡ true
  bounded : runs es ≤ 2 * fires es + (if c.timer then 1 else 0)

state_after-Inv : (es : List Event) → Inv es (state_after es)
unfolding state_after runs pending step
state_after-Inv [] = record {
  same = refl;
  dirty_pending = refl;
  dirty_timer = λ h. cc;
  bounded = omega arith;
}
state_after-Inv (called ∷ es) =
    let h = state_after-Inv es in
    record {
      same = refl;
      dirty_pending = ground (arith, h.dirty_pending, h.dirty_timer);
      dirty_timer = ground (arith, h.dirty_timer);
      bounded = ground (arith, h.bounded, h.dirty_timer);
    }
state_after-Inv (fired ∷ es) =
    let h = state_after-Inv es in
    record {
      same = refl;
      dirty_pending = ground (arith, h.dirty_pending, h.dirty_timer);
      dirty_timer = ground arith;
      bounded = ground (arith, h.bounded, h.dirty_timer);
    }

-- After any history of calls and timer events: if `f` has not run since the newest call, then the
-- timer is set, and when it fires `f` runs. So no call goes without a run after it.
pub pending_runs :
    (es : List Event)
    → pending es ≡ true
    → ((state_after es).timer ≡ true)
      × ((step (state_after es) fired).1 ≡ true)
      × (pending (fired ∷ es) ≡ false)
unfolding step pending
pending_runs es p =
    let h = state_after-Inv es in
    (
      ground (arith, h.dirty_pending, h.dirty_timer),
      ground (arith, h.dirty_pending),
      ground (arith, h.dirty_pending),
    )

-- After any history `f` has run at most twice for each window that has closed, and once more for
-- the window that is open, if one is.
pub runs-le : (es : List Event) → runs es ≤ 2 * fires es + (if (state_after es).timer then 1 else 0)
runs-le es = (state_after-Inv es).bounded

-- three clicks in a window make one run at once and one at its end
burst : runs (fired ∷ called ∷ called ∷ called ∷ []) ≡ 2
unfolding runs step
burst = refl
