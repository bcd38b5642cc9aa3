-- ===== src/Linkd/Api.antt =====
-- linkd/internal/api/api.go: the handlers of the REST interface. A handler is a function from the
-- kernel's state to the new state, the response, and whether it calls `OnChange`. The kernel is
-- reached through `Shaper`. The router, and JSON on the wire, are Go's: a handler takes the path
-- value and the decoded body.
pub mod Requests
pub mod Keeping
pub mod Reports
pub mod Examples
use ietf_scion_testbed.Prelude.{
  ℕ, ◌+◌, Bool, true, false, not, ◌&&◌, ◌||◌, Option, none, some, List, [], ◌∷◌, ◌++◌,
  if◌then◌else◌, Bytes, ◌==◌, bytes_eq, Map, lookup, insert, length, Float,
}
use ietf_scion_testbed.Linkd.Shape.{Params, Invalid, Shaper, merge, is_empty, validate}

-- `topo.Interface` with its device
pub record ManagedIface : Type 0 where
  pub if_id : Bytes
  pub neighbor : Bytes
  pub link_to : Bytes
  pub local_ip : Bytes
  pub dev : Bytes

pub record LinkJson (F : Type 0) : Type 0 where
  pub if_id : Bytes
  pub neighbor : Bytes
  pub link_to : Bytes
  pub device : Bytes
  pub shaping : Option (Params F)
  pub baseline : Option (Params F)
  pub shaped : Bool

-- The response to a request: the status code is that of the constructor.
pub data Response (F : Type 0) : Type 0 where
  ok_params : Params F → Response F
  ok_cleared : Response F
  -- 404
  not_found : Response F
  -- 400: the body is no JSON, or the merged parameters are invalid
  bad_body : Response F
  bad_params : Invalid → Response F
  -- 502: the kernel could not be read or written
  bad_gateway : Response F

pub record Server (F : Type 0) : Type 0 where
  pub ifaces : Map Bytes ManagedIface
  pub order : List Bytes
  pub baseline : Map Bytes (Params F)

-- the loop of `New` over the interfaces
unfoldable pub add_ifaces : {F : Type 0} → Server F → List ManagedIface → Server F
add_ifaces s [] = s
add_ifaces s (i ∷ is) =
    add_ifaces (record s { ifaces = insert i.if_id i s.ifaces; order = s.order ++ i.if_id ∷ [] }) is

unfoldable pub new : {F : Type 0} → List ManagedIface → Map Bytes (Params F) → Server F
unfolding add_ifaces
new ifaces baseline = add_ifaces (record { ifaces = []; order = []; baseline = baseline }) ifaces

module _ (fl : Float) {K : Type 0} (sh : Shaper (fl.F) K) where
  open fl use {F, dec, sub, mul, lt, le}
  open sh use {get, apply, clear}

  abbrev value_or_zero : Option F → F
  value_or_zero none = dec 0 0
  value_or_zero (some v) = v

  -- math.Abs and math.Max of numbers that are not NaN
  abbrev abs : F → F
  abs x = if lt x (dec 0 0) then sub (dec 0 0) x else x

  abbrev max_of : F → F → F
  max_of a b = if lt a b then b else a

  unfoldable pub approx_eq : Option F → Option F → Bool
  approx_eq a b =
      let av = value_or_zero a in
      let bv = value_or_zero b in
      let diff = abs (sub av bv) in
      le diff (dec 1 1) || le diff (mul (dec 1 2) (max_of (abs av) (abs bv)))

  unfoldable pub params_equal : Params F → Params F → Bool
  unfolding approx_eq
  params_equal a b =
      approx_eq a.delay_ms b.delay_ms
      && approx_eq a.jitter_ms b.jitter_ms
      && approx_eq a.loss_pct b.loss_pct
      && approx_eq a.rate_mbit b.rate_mbit

  -- a read that fails counts as unshaped
  abbrev read_or_empty : Option (Params F) → Params F
  read_or_empty none = record {
    delay_ms = none;
    jitter_ms = none;
    loss_pct = none;
    rate_mbit = none;
  }
  read_or_empty (some p) = p

  abbrev shown : Option (Params F) → Option (Params F)
  shown none = none
  shown (some p) = if is_empty fl p then none else some p

  abbrev is_shaped : Params F → Option (Params F) → Bool
  is_shaped cur none = not (is_empty fl cur)
  is_shaped cur (some b) = not (params_equal cur b)

  -- one round of `list`
  unfoldable pub link_json : Server F → K → ManagedIface → LinkJson F
  unfolding params_equal
  link_json s k m = record {
    if_id = m.if_id;
    neighbor = m.neighbor;
    link_to = m.link_to;
    device = m.dev;
    shaping = shown (get k m.dev);
    baseline = lookup m.if_id s.baseline;
    shaped = is_shaped (read_or_empty (get k m.dev)) (lookup m.if_id s.baseline);
  }

  -- `s.ifaces[ifid]`: the zero value for a missing key
  abbrev iface_at : Option ManagedIface → ManagedIface
  iface_at none = record { if_id = []; neighbor = []; link_to = []; local_ip = []; dev = [] }
  iface_at (some m) = m

  -- the loop of `list`
  unfoldable pub list_links : Server F → K → List (LinkJson F) → List Bytes → List (LinkJson F)
  unfolding link_json
  list_links s k out [] = out
  list_links s k out (i ∷ is) =
      list_links s k (out ++ link_json s k (iface_at (lookup i s.ifaces)) ∷ []) is

  unfoldable pub handle_list : Server F → K → List (LinkJson F)
  unfolding list_links
  handle_list s k = list_links s k [] s.order

  abbrev pub Outcome : Type 0
  Outcome = K × Response F × Bool

  -- the answer to an `Apply` of `p` that gave `r`
  abbrev pub applied : Params F → K × Bool → Outcome
  applied p (k, true) = (k, ok_params p, true)
  applied p (k, false) = (k, bad_gateway, false)

  abbrev pub cleared : K × Bool → Outcome
  cleared (k, true) = (k, ok_cleared, true)
  cleared (k, false) = (k, bad_gateway, false)

  -- `put` from the validation on
  unfoldable pub put_merged : K → Bytes → Params F → Option Invalid → Outcome
  put_merged k dev merged (some e) = (k, bad_params e, false)
  put_merged k dev merged none = applied merged (apply k dev merged)

  unfoldable pub put_read : K → Bytes → Params F → Option (Params F) → Outcome
  unfolding put_merged
  put_read k dev upd none = (k, bad_gateway, false)
  put_read k dev upd (some cur) = put_merged k dev (merge cur upd) (validate fl (merge cur upd))

  unfoldable pub put_found : K → Option ManagedIface → Option (Params F) → Outcome
  unfolding put_read
  put_found k none body = (k, not_found, false)
  put_found k (some m) none = (k, bad_body, false)
  put_found k (some m) (some upd) = put_read k m.dev upd (get k m.dev)

  unfoldable pub handle_put : Server F → K → Bytes → Option (Params F) → Outcome
  unfolding put_found
  handle_put s k if_id body = put_found k (lookup if_id s.ifaces) body

  -- `del` of a known interface, given its baseline
  unfoldable pub del_known : K → Bytes → Option (Params F) → Outcome
  del_known k dev (some base) = applied base (apply k dev base)
  del_known k dev none = cleared (clear k dev)

  unfoldable pub del_found : Server F → K → Option ManagedIface → Outcome
  unfolding del_known
  del_found s k none = (k, not_found, false)
  del_found s k (some m) = del_known k m.dev (lookup m.if_id s.baseline)

  unfoldable pub handle_del : Server F → K → Bytes → Outcome
  unfolding del_found
  handle_del s k if_id = del_found s k (lookup if_id s.ifaces)
