-- ===== src/Linkd/Documents/Speeds.antt =====
-- topowriter.go: the merge of the speeds into a topology document.
use ietf_scion_testbed.Prelude.{
  ◌≡◌, refl, ap, ◌∙◌, Bool, true, false, ◌&&◌, Option, none, some, arith, if◌then◌else◌, Bytes,
  bytes, ◌==◌, bytes_eq, bytes_beq_iff, nat_eq, Map, lookup, Float,
}
use ietf_scion_testbed.Linkd.Shape.{Params}
use ietf_scion_testbed.Linkd.Documents.{
  Json, null, boolean, number, integer, text, array, object, Fields, no_field, field, field_at,
  set_field, fields_of, speed_of, set_speed, set_speeds, in_ifaces, in_router, in_routers,
  merge_routers, merge_speeds,
}
use ietf_scion_testbed.Linkd.Documents.Merges.{field_at-set_field, or_else}

module _ {F : Type 0} where
  abbrev in_object : Bytes → Option (Json F) → Option (Json F)
  in_object key o = field_at key (fields_of o)

  -- the entry of an interface of a border router
  abbrev pub entry_at : Fields F → Bytes → Bytes → Option (Json F)
  entry_at doc router if_id =
      in_object if_id
        (in_object (bytes "interfaces") (in_object router (field_at (bytes "border_routers") doc)))

  abbrev pub is_object : Option (Json F) → Bool
  is_object (some (object fs)) = true
  is_object _ = false

  -- the value at a key of the `idint` of an interface
  abbrev pub idint_at : Option (Json F) → Bytes → Option (Json F)
  idint_at entry key = in_object key (in_object (bytes "idint") entry)

module _ (fl : Float) (live : Map Bytes (Params (fl.F))) where
  open fl use {F}

  abbrev mapped : (Json F → Json F) → Option (Json F) → Option (Json F)
  mapped f none = none
  mapped f (some v) = some (f v)

  field_at-in_routers :
      (name : Bytes) (fs : Fields F)
      → field_at name (in_routers fl live fs) ≡ mapped (in_router fl live) (field_at name fs)
  unfolding field_at in_routers
  field_at-in_routers name no_field = refl
  field_at-in_routers name (field other router rest) = ground (arith, field_at-in_routers name rest)

  with_speed : Bytes → Json F → Json F
  with_speed if_id iface = set_speed fl iface (speed_of fl (lookup if_id live))

  field_at-set_speeds :
      (if_id : Bytes) (fs : Fields F)
      → field_at if_id (set_speeds fl live fs) ≡ mapped (with_speed if_id) (field_at if_id fs)
  unfolding field_at set_speeds with_speed
  field_at-set_speeds if_id no_field = refl
  field_at-set_speeds if_id (field other iface rest) =
      ground (arith, bytes_beq_iff other if_id, field_at-set_speeds if_id rest)

  abbrev iface_of : Bytes → Option (Json F) → Option (Json F)
  iface_of if_id router = in_object if_id (in_object (bytes "interfaces") router)

  iface_of-in_ifaces :
      (if_id : Bytes) (router : Fields F) (x : Option (Json F))
      → field_at (bytes "interfaces") router ≡ x
      → in_object if_id (field_at (bytes "interfaces") (in_ifaces fl live router x))
        ≡ mapped (with_speed if_id) (in_object if_id x)
  unfolding in_ifaces field_at
  iface_of-in_ifaces if_id router none e = ap (in_object if_id) e
  iface_of-in_ifaces if_id router (some null) e = ap (in_object if_id) e
  iface_of-in_ifaces if_id router (some (boolean b)) e = ap (in_object if_id) e
  iface_of-in_ifaces if_id router (some (number n)) e = ap (in_object if_id) e
  iface_of-in_ifaces if_id router (some (integer n)) e = ap (in_object if_id) e
  iface_of-in_ifaces if_id router (some (text t)) e = ap (in_object if_id) e
  iface_of-in_ifaces if_id router (some (array vs)) e = ap (in_object if_id) e
  iface_of-in_ifaces if_id router (some (object ifaces)) e =
      ap (in_object if_id) (
        field_at-set_field (bytes "interfaces") (bytes "interfaces")
          (object (set_speeds fl live ifaces)) router)
      ∙ field_at-set_speeds if_id ifaces

  iface_of-in_router :
      (if_id : Bytes) (o : Option (Json F))
      → iface_of if_id (mapped (in_router fl live) o) ≡ mapped (with_speed if_id) (iface_of if_id o)
  unfolding in_router field_at
  iface_of-in_router if_id none = refl
  iface_of-in_router if_id (some null) = refl
  iface_of-in_router if_id (some (boolean b)) = refl
  iface_of-in_router if_id (some (number n)) = refl
  iface_of-in_router if_id (some (integer n)) = refl
  iface_of-in_router if_id (some (text t)) = refl
  iface_of-in_router if_id (some (array vs)) = refl
  iface_of-in_router if_id (some (object router)) = iface_of-in_ifaces if_id router _ refl

  entry_at-merge_routers :
      (doc : Fields F) (router if_id : Bytes) (x : Option (Json F))
      → field_at (bytes "border_routers") doc ≡ x
      → entry_at (merge_routers fl live doc x) router if_id
        ≡ mapped (with_speed if_id) (iface_of if_id (in_object router x))
  unfolding merge_routers field_at
  entry_at-merge_routers doc router if_id none e = ap (λ o. iface_of if_id (in_object router o)) e
  entry_at-merge_routers doc router if_id (some null) e =
      ap (λ o. iface_of if_id (in_object router o)) e
  entry_at-merge_routers doc router if_id (some (boolean b)) e =
      ap (λ o. iface_of if_id (in_object router o)) e
  entry_at-merge_routers doc router if_id (some (number n)) e =
      ap (λ o. iface_of if_id (in_object router o)) e
  entry_at-merge_routers doc router if_id (some (integer n)) e =
      ap (λ o. iface_of if_id (in_object router o)) e
  entry_at-merge_routers doc router if_id (some (text t)) e =
      ap (λ o. iface_of if_id (in_object router o)) e
  entry_at-merge_routers doc router if_id (some (array vs)) e =
      ap (λ o. iface_of if_id (in_object router o)) e
  entry_at-merge_routers doc router if_id (some (object routers)) e =
      ap (λ o. iface_of if_id (in_object router o))
        (field_at-set_field (bytes "border_routers") (bytes "border_routers")
          (object (in_routers fl live routers)) doc)
      ∙ ap (iface_of if_id) (field_at-in_routers router routers)
      ∙ iface_of-in_router if_id (field_at router routers)

  idint_at-set_speed :
      (iface : Fields F) (o : Option (Json F)) (key : Bytes)
      → idint_at (some (set_speed fl (object iface) o)) key
        ≡ or_else (if bytes "speed" == key then o else none) (idint_at (some (object iface)) key)
  unfolding set_speed
  idint_at-set_speed iface none key = ground arith
  idint_at-set_speed iface (some speed) key =
      let old = fields_of (field_at (bytes "idint") iface) in
      ap (in_object key) (
        field_at-set_field (bytes "idint") (bytes "idint")
          (object (set_field (bytes "speed") speed old)) iface)
      ∙ field_at-set_field (bytes "speed") key speed old
      ∙ ground arith

  idint_at-with_speed :
      (if_id : Bytes) (entry : Option (Json F)) (key : Bytes)
      → idint_at (mapped (with_speed if_id) entry) key
        ≡ or_else
            (if is_object entry && bytes "speed" == key
              then speed_of fl (lookup if_id live)
              else none)
            (idint_at entry key)
  unfolding with_speed set_speed
  idint_at-with_speed if_id none key = refl
  idint_at-with_speed if_id (some null) key = refl
  idint_at-with_speed if_id (some (boolean b)) key = refl
  idint_at-with_speed if_id (some (number n)) key = refl
  idint_at-with_speed if_id (some (integer n)) key = refl
  idint_at-with_speed if_id (some (text t)) key = refl
  idint_at-with_speed if_id (some (array vs)) key = refl
  idint_at-with_speed if_id (some (object iface)) key =
      idint_at-set_speed iface (speed_of fl (lookup if_id live)) key

  -- For any document, border router, interface and key of its `idint`: after the merge it holds, at
  -- `speed` of an interface whose entry is an object, the speed that the live rate gives, if it
  -- gives one; else what the base document holds.
  pub idint_at-merge_speeds :
      (doc : Fields F) (router if_id key : Bytes)
      → idint_at (entry_at (merge_speeds fl doc live) router if_id) key
        ≡ or_else
            (if is_object (entry_at doc router if_id) && bytes "speed" == key
              then speed_of fl (lookup if_id live)
              else none)
            (idint_at (entry_at doc router if_id) key)
  unfolding merge_speeds
  idint_at-merge_speeds doc router if_id key =
      ap (λ entry. idint_at entry key) (entry_at-merge_routers doc router if_id _ refl)
      ∙ idint_at-with_speed if_id (entry_at doc router if_id) key
