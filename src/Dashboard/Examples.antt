-- ===== src/Dashboard/Examples.antt =====
-- The theorems at a link between two ASes, of which neither daemon takes requests, and at two clients
-- of the live feed.
use ietf_scion_testbed.Prelude.{
  ℕ, ℤ, ◌≡◌, refl, true, false, Option, none, some, List, [], ◌∷◌, bytes, bytes_eq, nat_eq, lookup,
  insert, pos, milli, length, contains,
}
use ietf_scion_testbed.Store
use ietf_scion_testbed.Derive.State
use ietf_scion_testbed.Derive.State.{Deriver}
use ietf_scion_testbed.LinkdClient.{new}
use ietf_scion_testbed.LinkdClient.Examples.{graph}
use ietf_scion_testbed.Dashboard.{ShapingRequest, no_shaping}
use ietf_scion_testbed.Dashboard.Air.{Conn, connect, greet, join, leave, cast, write}
use ietf_scion_testbed.Dashboard.Live.{
  FullFrame, Live, Event, accepted, snapshot_sent, registered, closed, frame_tick, frame_sent,
  start, run,
}
use ietf_scion_testbed.Dashboard.Steady.{due, IsServed}
use ietf_scion_testbed.Dashboard.Gapless.{run-IsServed}

abbrev request : ShapingRequest ℤ
request = record { direction = bytes "both"; shaping = no_shaping }

abbrev deriver : Deriver ℤ
deriver = State.new milli graph (Store.new milli (pos 2))

-- the second client registers behind the first frame, and its write of the second one fails
abbrev events : List (Event ℤ)
events =
    accepted 7 (pos 1) (pos 0)
    ∷ snapshot_sent 7 true
    ∷ registered 7
    ∷ accepted 8 (pos 2) (pos 0)
    ∷ frame_tick (pos 3) (pos 0) true
    ∷ snapshot_sent 8 true
    ∷ registered 8
    ∷ frame_sent true
    ∷ frame_sent true
    ∷ frame_tick (pos 1003) (pos 1) true
    ∷ frame_sent false
    ∷ frame_sent true
    ∷ closed 8
    ∷ []

abbrev feed : Live ℤ
feed = run milli (start milli graph deriver none) events

abbrev heard : Option (Conn (FullFrame ℤ)) → ℕ
heard none = 0
heard (some conn) = length conn.received

both_heard : (heard (lookup 7 feed.air.clients) ≡ 3) × (heard (lookup 8 feed.air.clients) ≡ 1)
unfolding run lookup start leave write join greet connect insert cast
both_heard = (refl, refl)

run-IsServed_example :
    IsServed
      (contains feed.air.conns 7)
      (due feed.air.casting 7)
      feed.air.aired
      (lookup 7 feed.air.clients)
run-IsServed_example = run-IsServed milli graph deriver none events 7
