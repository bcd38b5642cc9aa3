-- ===== src/Dashboard.antt =====
-- dashboard/backend/internal/api/api.go: the handlers of the dashboard's REST interface, and the frames
-- that it sends. The router, and JSON on the wire, are Go's: a handler takes the query or path
-- values and the decoded body. What it sends to the link daemons is behind its reply.
pub mod Air
pub mod Live
pub mod Steady
pub mod Broadcast
pub mod Gapless
pub mod Replies
pub mod Examples
use ietf_scion_testbed.Prelude.{
  ℕ, ◌*◌, Bool, true, false, not, Option, none, some, List, [], ◌∷◌, ◌++◌, if◌then◌else◌, Bytes,
  bytes, ◌==◌, bytes_eq, nat_eq, itoa, atoi, ℤ, pos, ◌-ℤ◌, ltb_ℤ, Map, lookup, insert, Float,
  has_prefix, drop, length, reverse, cut_suffix,
}
use ietf_scion_testbed.Store
use ietf_scion_testbed.Store.{Sample}
use ietf_scion_testbed.Topo.{Link, Graph}
use ietf_scion_testbed.Derive.State.{Shaping}
use ietf_scion_testbed.LinkdClient.{Client, Wire, Request, Result}
use ietf_scion_testbed.LinkdClient.Apply.{apply, all_health}

-- the query's minutes: 15 unless it gives a positive number, and 60 at most
abbrev given_minutes : Option ℤ → ℤ
given_minutes none = pos 15
given_minutes (some n) = if ltb_ℤ (pos 0) n then n else pos 15

unfoldable pub history_minutes : Bytes → ℤ
history_minutes query =
    let mins = if query == [] then pos 15 else given_minutes (atoi query) in
    if ltb_ℤ (pos 60) mins then pos 60 else mins

abbrev pub minutes_ms : ℤ → ℤ
minutes_ms (pos n) = pos (n * 60000)
minutes_ms n = pos 0

-- `none` is 400: the key is missing
unfoldable pub handle_history :
    (fl : Float) → Store.Store (fl.F) → Bytes → Bytes → ℤ → Option (List (Sample (fl.F)))
unfolding history_minutes
handle_history fl st key query now_ms =
    if key == []
    then none
    else some (Store.series fl st key (now_ms -ℤ minutes_ms (history_minutes query)))

-- the loop of `New`
unfoldable pub links_by_id : Map Bytes Link → List Link → Map Bytes Link
links_by_id m [] = m
links_by_id m (l ∷ rest) = links_by_id (insert l.id l m) rest

pub record ShapingRequest (F : Type 0) : Type 0 where
  pub direction : Bytes
  pub shaping : Shaping F

-- 404, 400, 400; then 200, or 502 if all failed
pub data ShapingReply : Type 0 where
  unknown_link : ShapingReply
  bad_body : ShapingReply
  bad_direction : ShapingReply
  some_done : List Result → ShapingReply
  all_lost : List Result → ShapingReply

unfoldable pub valid_direction : Bytes → Bool
valid_direction d =
    if d == bytes "a_to_b" then true else if d == bytes "b_to_a" then true else d == bytes "both"

abbrev none_is_ok : List Result → Bool
none_is_ok [] = true
none_is_ok (r ∷ rest) = if r.is_ok then false else none_is_ok rest

unfoldable pub all_failed : List Result → Bool
all_failed [] = false
all_failed (r ∷ rest) = none_is_ok (r ∷ rest)

unfoldable pub reply_of : List Result → ShapingReply
unfolding all_failed
reply_of results = if all_failed results then all_lost results else some_done results

abbrev pub no_shaping : {F : Type 0} → Shaping F
no_shaping = record { delay_ms = none; jitter_ms = none; loss_pct = none; rate_mbit = none }

module _ {F : Type 0} (w : Wire F) (c : Client) where
  abbrev pub replied : List Request × List Result → List Request × ShapingReply
  replied (sent, results) = (sent, reply_of results)

  unfoldable pub shaping_at :
      Option Link → Option (ShapingRequest F) → Bool → List Request × ShapingReply
  unfolding valid_direction reply_of
  shaping_at none body clear = ([], unknown_link)
  shaping_at (some link) none clear = ([], bad_body)
  shaping_at (some link) (some req) clear =
      if not (valid_direction req.direction)
      then ([], bad_direction)
      else replied (apply w c link req.direction (if clear then no_shaping else req.shaping) clear)

  unfoldable pub apply_shaping :
      Map Bytes Link → Bytes → Option (ShapingRequest F) → Bool → List Request × ShapingReply
  unfolding shaping_at
  apply_shaping links id body clear = shaping_at (lookup id links) body clear

  -- the loop of `handleResetAll`
  unfoldable pub reset_links : List Link → List Request × List Result
  reset_links [] = ([], [])
  reset_links (l ∷ rest) =
      let (sent, results) = apply w c l (bytes "both") no_shaping true in
      let (later, others) = reset_links rest in (sent ++ later, results ++ others)

  unfoldable pub handle_reset_all : Graph → List Request × ShapingReply
  unfolding reset_links reply_of
  handle_reset_all g = replied (reset_links g.links)

module _ (fl : Float) where
  open fl use {F, dec, eq}

  abbrev noted_target : Map Bytes Bool → Option Bytes → Option (Sample F) → Map Bytes Bool
  noted_target m (some label) (some sm) = insert label (not (eq sm.v (dec 0 0))) m
  noted_target m _ _ = m

  -- the loop over the keys
  unfoldable pub health_targets : Store.Store F → Map Bytes Bool → List Bytes → Map Bytes Bool
  unfolding cut_suffix
  health_targets st m [] = m
  health_targets st m (k ∷ rest) =
      health_targets st (noted_target m (cut_suffix k (bytes "/_up/")) (Store.last fl st k)) rest

  abbrev named : Map Bytes Bool → Map ℕ Bool → Map Bytes Bool
  named m [] = m
  named m ((as_num, up) ∷ rest) = named (insert (itoa as_num) up m) rest

  unfoldable pub handle_health : Store.Store F → Wire F → Client → Map Bytes Bool × Map Bytes Bool
  unfolding health_targets
  handle_health st w c = (health_targets st [] (Store.keys fl st []), named [] (all_health w c))
