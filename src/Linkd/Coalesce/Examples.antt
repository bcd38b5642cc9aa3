-- ===== src/Linkd/Coalesce/Examples.antt =====
-- The theorems on a burst of clicks.
use ietf_scion_testbed.Prelude.{◌+◌, ◌*◌, ◌≤◌, ◌≡◌, refl, true, false, [], ◌∷◌, if◌then◌else◌}
use ietf_scion_testbed.Linkd.Coalesce.{called, fired, step}
use ietf_scion_testbed.Linkd.Coalesce.Windows.{
  state_after, runs, fires, pending, pending_runs, runs-le,
}

pending_runs_example :
    ((state_after (called ∷ called ∷ [])).timer ≡ true)
    × ((step (state_after (called ∷ called ∷ [])) fired).1 ≡ true)
    × (pending (fired ∷ called ∷ called ∷ []) ≡ false)
unfolding pending step
pending_runs_example = pending_runs (called ∷ called ∷ []) refl

runs-le_example :
    runs (fired ∷ called ∷ called ∷ [])
    ≤ 2 * fires (fired ∷ called ∷ called ∷ [])
      + (if (state_after (fired ∷ called ∷ called ∷ [])).timer then 1 else 0)
runs-le_example = runs-le (fired ∷ called ∷ called ∷ [])
