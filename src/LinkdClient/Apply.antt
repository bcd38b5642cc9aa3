-- ===== src/LinkdClient/Apply.antt =====
-- client.go: `Apply`, which writes or clears the shaping of a link at its daemons, and `AllHealth`.
use ietf_scion_testbed.Prelude.{
  ℕ, Bool, true, false, ◌||◌, Option, none, some, List, [], ◌∷◌, ◌++◌, if◌then◌else◌, Bytes, bytes,
  ◌==◌, bytes_eq, nat_eq, itoa, ltb, leb, take, Map, lookup, insert, Outcome, done, failed,
}
use ietf_scion_testbed.Topo.{As, Endpoint, Link}
use ietf_scion_testbed.Derive.State.{Shaping}
use ietf_scion_testbed.LinkdClient.{Client, Wire, Request, Reply, unanswered, answered, Result}

abbrev pub failure : ℕ → Bytes → Result
failure as_num error = record { as_num = as_num; is_ok = false; error = error }

abbrev pub success : ℕ → Result
success as_num = record { as_num = as_num; is_ok = true; error = [] }

-- the endpoints of a direction, none for a direction that is unknown
unfoldable pub endpoints : Link → Bytes → List Endpoint
endpoints link direction =
    if direction == bytes "a_to_b"
    then link.a ∷ []
    else if direction == bytes "b_to_a"
    then link.b ∷ []
    else if direction == bytes "both"
    then link.a ∷ link.b ∷ []
    else []

-- `fmt.Sprintf("%s/api/v1/links/%s", base, ep.IfID)`
abbrev pub link_url : Bytes → Endpoint → Bytes
link_url base ep = base ++ (bytes "/api/v1/links/" ++ ep.if_id)

-- The result of a reply. Of an error's body, 512 bytes are kept.
abbrev pub judged : ℕ → Reply → Result
judged as_num (unanswered e) = failure as_num e
judged as_num (answered status body) =
    if ltb status 200 || leb 300 status
    then failure as_num (bytes "status " ++ (itoa status ++ (bytes ": " ++ take 512 body)))
    else success as_num

module _ {F : Type 0} (w : Wire F) where
  open w use {send, encode_shaping}

  -- The result, behind the requests that were sent.
  abbrev pub send_put : ℕ → Bytes → Outcome Bytes Bytes → List Request × Result
  send_put as_num url (failed e) = ([], failure as_num e)
  send_put as_num url (done raw) =
      let r : Request = record { method = bytes "PUT"; url = url; body = some raw } in
      (r ∷ [], judged as_num (send r))

  abbrev pub send_delete : ℕ → Bytes → List Request × Result
  send_delete as_num url =
      let r : Request = record { method = bytes "DELETE"; url = url; body = none } in
      (r ∷ [], judged as_num (send r))

  abbrev pub apply_at : Endpoint → Shaping F → Bool → Option Bytes → List Request × Result
  apply_at ep p clear none = ([], failure ep.as_num (bytes "AS not in graph"))
  apply_at ep p clear (some base) =
      if clear
      then send_delete ep.as_num (link_url base ep)
      else send_put ep.as_num (link_url base ep) (encode_shaping p)

  unfoldable pub apply_one : Client → Endpoint → Shaping F → Bool → List Request × Result
  apply_one c ep p clear = apply_at ep p clear (lookup ep.as_num c.base)

  -- the loop of `Apply`
  unfoldable pub apply_each : Client → Shaping F → Bool → List Endpoint → List Request × List Result
  unfolding apply_one
  apply_each c p clear [] = ([], [])
  apply_each c p clear (ep ∷ rest) =
      let (sent, result) = apply_one c ep p clear in
      let (later, results) = apply_each c p clear rest in (sent ++ later, result ∷ results)

  unfoldable pub apply : Client → Link → Bytes → Shaping F → Bool → List Request × List Result
  unfolding apply_each endpoints
  apply c link direction p clear = apply_each c p clear (endpoints link direction)

  abbrev healthy : Reply → Bool
  healthy (unanswered e) = false
  healthy (answered status body) = status == 200

  abbrev healthy_at : Option Bytes → Bool
  healthy_at none = false
  healthy_at (some base) =
      healthy (send (record { method = bytes "GET"; url = base ++ bytes "/healthz"; body = none }))

  unfoldable pub health_one : Client → ℕ → Bool
  health_one c as_num = healthy_at (lookup as_num c.base)

  unfoldable pub health_each : Client → Map ℕ Bool → List As → Map ℕ Bool
  unfolding health_one
  health_each c out [] = out
  health_each c out (as_rec ∷ rest) =
      health_each c (insert as_rec.num (health_one c as_rec.num) out) rest

  unfoldable pub all_health : Client → Map ℕ Bool
  unfolding health_each
  all_health c = health_each c [] c.g.ases
