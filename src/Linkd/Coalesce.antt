-- ===== src/Linkd/Coalesce.antt =====
-- linkd/internal/staticinfo/coalesce.go: the coalescer of reloads, as a machine of the events that
-- its lock orders: a call, and the timer. The wrapped function runs outside the lock, so a run of it
-- is an output of the step that starts it.
pub mod Windows
pub mod Examples
use ietf_scion_testbed.Prelude.{ℕ, ◌+◌, Bool, true, false, List, [], ◌∷◌, if◌then◌else◌}

-- `timer` says whether a timer is set.
pub record Coalescer : Type 0 where
  pub timer : Bool
  pub dirty : Bool

pub data Event : Type 0 where
  called : Event
  fired : Event

abbrev pub idle : Coalescer
idle = record { timer = false; dirty = false }

-- The new state, and whether `f` runs.
unfoldable pub call : Coalescer → Coalescer × Bool
call c = if c.timer then (record c { dirty = true }, false) else (record c { timer = true }, true)

unfoldable pub fire : Coalescer → Coalescer × Bool
fire c = (record { timer = false; dirty = false }, c.dirty)

unfoldable pub step : Coalescer → Event → Coalescer × Bool
unfolding call fire
step c called = call c
step c fired = fire c
