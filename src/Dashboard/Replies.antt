-- ===== src/Dashboard/Replies.antt =====
-- api.go with client.go: what a request to shape or to reset a link comes to.
use ietf_scion_testbed.Prelude.{
  ◌≡◌, Bool, true, false, Option, none, some, List, [], ◌∷◌, map, if◌then◌else◌, Bytes, bytes,
  bytes_eq, nat_eq, All, In, ◌⊎◌,
}
use ietf_scion_testbed.Topo.{Endpoint, Link}
use ietf_scion_testbed.LinkdClient.{Client, Wire, Request, Result}
use ietf_scion_testbed.LinkdClient.Apply.{endpoints}
use ietf_scion_testbed.Dashboard.{
  ShapingRequest, ShapingReply, unknown_link, bad_body, bad_direction, some_done, all_lost,
  valid_direction,
}

abbrev pub method_for : Bool → Bytes
method_for clear = if clear then bytes "DELETE" else bytes "PUT"

-- Requests with one method, and one result of each endpoint's AS in turn.
abbrev pub IsSent : Bool → List Endpoint → List Request × List Result → Type 0
IsSent clear eps (sent, results) =
    All (λ (r : Request). r.method ≡ method_for clear) sent
    × (map (λ (r : Result). r.as_num) results ≡ map (λ (ep : Endpoint). ep.as_num) eps)

module _ {F : Type 0} (w : Wire F) (c : Client) where
  abbrev IsSentTo : Bool → Endpoint → List Request × Result → Type 0
  IsSentTo clear ep (sent, result) =
      All (λ (r : Request). r.method ≡ method_for clear) sent × (result.as_num ≡ ep.as_num)

-- what a reply says of the results
abbrev pub IsReplyOf : List Result → ShapingReply → Type 0
IsReplyOf rs unknown_link = ⊥
IsReplyOf rs bad_body = ⊥
IsReplyOf rs bad_direction = ⊥
IsReplyOf rs (some_done rs') = (rs' ≡ rs) × (r : Result) × In r rs × (r.is_ok ≡ true)
IsReplyOf rs (all_lost rs') = (rs' ≡ rs) × All (λ (r : Result). r.is_ok ≡ false) rs

-- the endpoints of a direction that is valid
abbrev AreSome : List Endpoint → Type 0
AreSome [] = ⊥
AreSome (ep ∷ rest) = Unit

abbrev pub Directed : List Endpoint → Bool → ShapingReply → List Request → Type 0
Directed eps clear reply sent =
    (rs : List Result) × IsSent clear eps (sent, rs) × IsReplyOf rs reply

-- the replies to a request for a link, given the link and the body
abbrev pub IsReplied :
    {F : Type 0}
    → Option Link
    → Option (ShapingRequest F)
    → Bool
    → List Request × ShapingReply
    → Type 0
IsReplied none body clear (sent, reply) = (sent ≡ []) × (reply ≡ unknown_link)
IsReplied (some link) none clear (sent, reply) = (sent ≡ []) × (reply ≡ bad_body)
IsReplied (some link) (some req) clear (sent, reply) =
    ((valid_direction req.direction ≡ false) × (sent ≡ []) × (reply ≡ bad_direction))
    ⊎ ((valid_direction req.direction ≡ true)
        × Directed (endpoints link req.direction) clear reply sent)
