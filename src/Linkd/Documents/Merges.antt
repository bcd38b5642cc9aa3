-- ===== src/Linkd/Documents/Merges.antt =====
-- staticinfo.go: the merge of the live parameters into a document.
use mathlib.Core.Path.{subst}
use ietf_scion_testbed.Prelude.{
  ◌≡◌, refl, ap, ◌∙◌, Bool, true, false, ◌&&◌, Option, none, some, [], ◌∷◌, map, arith, inl, inr,
  Bool-cases, if◌then◌else◌, Bytes, bytes, ◌==◌, bytes_eq, bytes_beq_iff, nat_eq, Map, lookup,
  Float, Distinct, contains,
}
use ietf_scion_testbed.Linkd.Shape.{Params}
use ietf_scion_testbed.Linkd.Documents.{
  Json, Fields, no_field, field, object, field_at, set_field, fields_of, set_inter, latency_of,
  bandwidth_of, set_some, merge_iface, merge_live,
}

module _ {F : Type 0} where
  pub field_at-set_field :
      (key wanted : Bytes) (v : Json F) (fs : Fields F)
      → field_at wanted (set_field key v fs)
        ≡ (if key == wanted then some v else field_at wanted fs)
  unfolding field_at set_field
  field_at-set_field key wanted v no_field = refl
  field_at-set_field key wanted v (field name old rest) = ground (
    arith,
    bytes_beq_iff key wanted,
    bytes_beq_iff name key,
    bytes_beq_iff name wanted,
    field_at-set_field key wanted v rest,
  )

  -- the value at a path of three keys
  abbrev pub value_at : Fields F → Bytes → Bytes → Bytes → Option (Json F)
  value_at doc section if_id key =
      field_at key (fields_of (field_at if_id (fields_of (field_at section doc))))

  value_at-set_inter :
      (doc : Fields F) (section if_id : Bytes) (v : Json F) (section' if_id' key : Bytes)
      → value_at (set_inter doc section if_id v) section' if_id' key ≡ (
          if section == section' && if_id == if_id' && bytes "Inter" == key
          then some v
          else value_at doc section' if_id' key)
  unfolding set_inter
  value_at-set_inter doc section if_id v section' if_id' key =
      let sec = fields_of (field_at section doc) in
      let entry = fields_of (field_at if_id sec) in
      ground (
        arith,
        bytes_beq_iff section section',
        bytes_beq_iff if_id if_id',
        field_at-set_field section section'
            (object (set_field if_id (object (set_field (bytes "Inter") v entry)) sec)) doc,
        field_at-set_field if_id if_id' (object (set_field (bytes "Inter") v entry)) sec,
        field_at-set_field (bytes "Inter") key v entry,
      )

abbrev pub or_else : {A : Type 0} → Option A → Option A → Option A
or_else none old = old
or_else (some a) old = some a

one_section :
    (section : Bytes) → (bytes "Latency" == section) ≡ true → (bytes "Bandwidth" == section) ≡ false
one_section section h =
    ground
      (arith, bytes_beq_iff (bytes "Latency") section, bytes_beq_iff (bytes "Bandwidth") section, h)

module _ (fl : Float) where
  open fl use {F}

  -- What the parameters of an interface put at a key of its entry in a section.
  abbrev pub written : Bytes → Bytes → Params F → Option (Json F)
  written section key p =
      if bytes "Inter" == key
      then (if bytes "Latency" == section
          then latency_of fl p
          else (if bytes "Bandwidth" == section then bandwidth_of fl p else none))
      else none

  abbrev pub written_live : Bytes → Bytes → Option (Params F) → Option (Json F)
  written_live section key none = none
  written_live section key (some p) = written section key p

  value_at-set_some :
      (doc : Fields F) (section if_id : Bytes) (o : Option (Json F)) (section' if_id' key : Bytes)
      → value_at (set_some fl doc section if_id o) section' if_id' key
        ≡ or_else
            (if section == section' && if_id == if_id' && bytes "Inter" == key then o else none)
            (value_at doc section' if_id' key)
  unfolding set_some
  value_at-set_some doc section if_id none section' if_id' key = ground arith
  value_at-set_some doc section if_id (some v) section' if_id' key =
      value_at-set_inter doc section if_id v section' if_id' key ∙ ground arith

  choose :
      (l b i k : Bool) (latency bandwidth old : Option (Json F))
      → (l ≡ true → b ≡ false)
      → or_else
          (if b && i && k then bandwidth else none)
          (or_else (if l && i && k then latency else none) old)
        ≡ or_else
            (if i
              then (if k then (if l then latency else (if b then bandwidth else none)) else none)
              else none)
            old
  choose true true i k latency bandwidth old h = absurd (cc (h refl))
  choose true false true true latency bandwidth old h = refl
  choose true false true false latency bandwidth old h = refl
  choose true false false k latency bandwidth old h = refl
  choose false true true true latency bandwidth old h = refl
  choose false true true false latency bandwidth old h = refl
  choose false true false k latency bandwidth old h = refl
  choose false false true true latency bandwidth old h = refl
  choose false false true false latency bandwidth old h = refl
  choose false false false k latency bandwidth old h = refl

  value_at-merge_iface :
      (doc : Fields F) (if_id : Bytes) (p : Params F) (section if_id' key : Bytes)
      → value_at (merge_iface fl doc if_id p) section if_id' key
        ≡ or_else
            (if if_id == if_id' then written section key p else none)
            (value_at doc section if_id' key)
  unfolding merge_iface
  value_at-merge_iface doc if_id p section if_id' key =
      value_at-set_some (set_some fl doc (bytes "Latency") if_id (latency_of fl p))
        (bytes "Bandwidth") if_id (bandwidth_of fl p) section if_id' key
      ∙ ap
          (λ old.
            or_else
              (if bytes "Bandwidth" == section && if_id == if_id' && bytes "Inter" == key
                then bandwidth_of fl p
                else none)
              old)
          (value_at-set_some doc (bytes "Latency") if_id (latency_of fl p) section if_id' key)
      ∙ choose (bytes "Latency" == section) (bytes "Bandwidth" == section) (if_id == if_id')
          (bytes "Inter" == key) (latency_of fl p) (bandwidth_of fl p)
          (value_at doc section if_id' key) (one_section section)

  lookup-absent :
      (live : Map Bytes (Params F)) (if_id : Bytes)
      → contains (map (λ entry. entry.0) live) if_id ≡ false
      → lookup if_id live ≡ none
  unfolding lookup
  lookup-absent [] if_id h = refl
  lookup-absent ((name, p) ∷ rest) if_id h = ground (arith, h, lookup-absent rest if_id)

  -- Whatever order the live parameters are taken in, as long as they hold each interface once: for any
  -- section, interface and key, the merged document holds, at `Latency` and `Bandwidth`, the interface
  -- and `Inter`, what the live parameters of the interface give, where they give a value; at any other
  -- three keys, and where they give none, what the base document holds.
  pub value_at-merge_live :
      (doc : Fields F) (live : Map Bytes (Params F)) (section if_id key : Bytes)
      → Distinct (map (λ entry. entry.0) live)
      → value_at (merge_live fl doc live) section if_id key
        ≡ or_else (written_live section key (lookup if_id live)) (value_at doc section if_id key)
  unfolding merge_live lookup
  value_at-merge_live doc [] section if_id key h = refl
  value_at-merge_live doc ((name, p) ∷ rest) section if_id key (fresh, h) =
      let then_rest = value_at-merge_live (merge_iface fl doc name p) rest section if_id key h in
      let here : Bool → Option (Json F) =
        λ b. or_else (if b then written section key p else none) (value_at doc section if_id key) in
      elim (Bool-cases (name == if_id)) [
        | inl same ↦
            let absent : lookup if_id rest ≡ none = lookup-absent rest if_id (
              subst (λ x. contains (map (λ entry. entry.0) rest) x ≡ false)
                ((bytes_beq_iff name if_id).0 same) fresh) in
            rw same (
              then_rest
              ∙ ap
                  (λ o.
                    or_else (written_live section key o)
                      (value_at (merge_iface fl doc name p) section if_id key))
                  absent
              ∙ value_at-merge_iface doc name p section if_id key
              ∙ ap here same)
        | inr differs ↦ rw differs (
            then_rest
            ∙ ap (λ old. or_else (written_live section key (lookup if_id rest)) old)
                (value_at-merge_iface doc name p section if_id key ∙ ap here differs))
      ]
