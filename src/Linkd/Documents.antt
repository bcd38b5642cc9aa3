-- ===== src/Linkd/Documents.antt =====
-- Decoded JSON documents, and the two merges of the live parameters into one: the methods `merged` of
-- linkd/internal/staticinfo/staticinfo.go and linkd/internal/topowriter/topowriter.go. A document
-- is an object: a base file that holds `null` is left out.
pub mod Merges
pub mod Speeds
pub mod Examples
use ietf_scion_testbed.Prelude.{
  ℕ, ◌+◌, ℤ, pos, negsuc, Bool, true, false, ◌&&◌, Option, none, some, List, [], ◌∷◌, ◌++◌,
  if◌then◌else◌, Bytes, bytes, ◌==◌, bytes_eq, Map, lookup, itoa, Float, Codec,
}
use ietf_scion_testbed.Linkd.Shape.{Params}

-- `number` is a number that was read, `integer` one that the writers put in.
mutual
  pub data Json (F : Type 0) : Type 0 where
    null : Json F
    boolean : Bool → Json F
    number : F → Json F
    integer : ℤ → Json F
    text : Bytes → Json F
    array : Items F → Json F
    object : Fields F → Json F

  pub data Items (F : Type 0) : Type 0 where
    no_item : Items F
    item : Json F → Items F → Items F

  pub data Fields (F : Type 0) : Type 0 where
    no_field : Fields F
    field : Bytes → Json F → Fields F → Fields F

module _ {F : Type 0} where
  unfoldable pub field_at : Bytes → Fields F → Option (Json F)
  field_at key no_field = none
  field_at key (field name v rest) = if name == key then some v else field_at key rest

  unfoldable pub set_field : Bytes → Json F → Fields F → Fields F
  set_field key v no_field = field key v no_field
  set_field key v (field name old rest) =
      if name == key then field name v rest else field name old (set_field key v rest)

  -- the fields of an object; none of another value or a missing one
  abbrev pub fields_of : Option (Json F) → Fields F
  fields_of (some (object fs)) = fs
  fields_of _ = no_field

  -- An object that is missing, or not an object, is made.
  unfoldable pub set_inter : Fields F → Bytes → Bytes → Json F → Fields F
  set_inter doc section if_id v =
      let sec = fields_of (field_at section doc) in
      let entry = fields_of (field_at if_id sec) in
      set_field section (object (set_field if_id (object (set_field (bytes "Inter") v entry)) sec))
        doc

-- `%d`
unfoldable pub format_int : ℤ → Bytes
format_int (pos n) = itoa n
format_int (negsuc n) = b'-' ∷ itoa (n + 1)

module _ (fl : Float) where
  open fl use {F, dec, mul, lt, round, to_int}

  -- the delay in whole microseconds
  unfoldable pub latency_of : Params F → Option (Json F)
  unfolding format_int
  latency_of p = elim p.delay_ms [
    | none ↦ none
    | some ms ↦ some (text (format_int (to_int (round (mul ms (dec 1000 0)))) ++ bytes "us"))
  ]

  -- the rate in kbit/s, if it is positive
  unfoldable pub bandwidth_of : Params F → Option (Json F)
  bandwidth_of p = elim p.rate_mbit [
    | none ↦ none
    | some mbit ↦
        if lt (dec 0 0) mbit then some (integer (to_int (mul mbit (dec 1000 0)))) else none
  ]

  unfoldable pub set_some : Fields F → Bytes → Bytes → Option (Json F) → Fields F
  set_some doc section if_id none = doc
  set_some doc section if_id (some v) = set_inter doc section if_id v

  -- one round of the loop of `merged`
  unfoldable pub merge_iface : Fields F → Bytes → Params F → Fields F
  merge_iface doc if_id p =
      set_some (set_some doc (bytes "Latency") if_id (latency_of p)) (bytes "Bandwidth") if_id
        (bandwidth_of p)

  -- the loop, over `live` in an arbitrary order
  unfoldable pub merge_live : Fields F → Map Bytes (Params F) → Fields F
  merge_live doc [] = doc
  merge_live doc ((if_id, p) ∷ rest) = merge_live (merge_iface doc if_id p) rest

  -- `merged` of the static info; `none` is an error, and `base` is none if the file cannot be read
  unfoldable pub merged : Codec (Fields F) → Option Bytes → Map Bytes (Params F) → Option Bytes
  merged json none live = none
  merged json (some base) live = elim (json.unmarshal base) [
    | none ↦ none
    | some doc ↦ json.marshal (merge_live doc live)
  ]

  -- the speed in bit/s that a live rate gives, if it is positive
  unfoldable pub speed_of : Option (Params F) → Option (Json F)
  speed_of none = none
  speed_of (some p) = elim p.rate_mbit [
    | none ↦ none
    | some mbit ↦
        if lt (dec 0 0) mbit
        then some (integer (to_int (round (mul mbit (dec 1000000 0)))))
        else none
  ]

  -- an interface's entry with the speed; a value that is no object stays
  unfoldable pub set_speed : Json F → Option (Json F) → Json F
  set_speed (object iface) (some speed) = object (
      set_field (bytes "idint")
        (object (set_field (bytes "speed") speed (fields_of (field_at (bytes "idint") iface))))
        iface)
  set_speed iface _ = iface

  -- the loop over the interfaces of one border router
  unfoldable pub set_speeds : Map Bytes (Params F) → Fields F → Fields F
  set_speeds live no_field = no_field
  set_speeds live (field if_id iface rest) =
      field if_id (set_speed iface (speed_of (lookup if_id live))) (set_speeds live rest)

  -- the value of `interfaces`, which is not set if it is missing
  unfoldable pub in_ifaces : Map Bytes (Params F) → Fields F → Option (Json F) → Fields F
  in_ifaces live router (some (object ifaces)) =
      set_field (bytes "interfaces") (object (set_speeds live ifaces)) router
  in_ifaces live router _ = router

  unfoldable pub in_router : Map Bytes (Params F) → Json F → Json F
  in_router live (object router) =
      object (in_ifaces live router (field_at (bytes "interfaces") router))
  in_router live router = router

  -- the loop over the border routers
  unfoldable pub in_routers : Map Bytes (Params F) → Fields F → Fields F
  in_routers live no_field = no_field
  in_routers live (field name router rest) =
      field name (in_router live router) (in_routers live rest)

  -- the value of `border_routers`
  unfoldable pub merge_routers : Map Bytes (Params F) → Fields F → Option (Json F) → Fields F
  merge_routers live doc (some (object routers)) =
      set_field (bytes "border_routers") (object (in_routers live routers)) doc
  merge_routers live doc _ = doc

  unfoldable pub merge_speeds : Fields F → Map Bytes (Params F) → Fields F
  merge_speeds doc live = merge_routers live doc (field_at (bytes "border_routers") doc)

  -- `merged` of the topology
  unfoldable pub merged_topology :
      Codec (Fields F) → Option Bytes → Map Bytes (Params F) → Option Bytes
  merged_topology json none live = none
  merged_topology json (some base) live = elim (json.unmarshal base) [
    | none ↦ none
    | some doc ↦ json.marshal (merge_speeds doc live)
  ]
