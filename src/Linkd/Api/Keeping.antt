-- ===== src/Linkd/Api/Keeping.antt =====
-- What every request keeps of the kernel.
use ietf_scion_testbed.Prelude.{
  ◌≡◌, refl, Bool, true, false, Option, none, some, List, [], ◌∷◌, Bytes, bytes_eq, lookup, Float,
}
use ietf_scion_testbed.Linkd.Shape.{Params, Invalid, Shaper, merge, validate}
use ietf_scion_testbed.Linkd.Api.{
  ManagedIface, Server, applied, cleared, put_merged, put_read, put_found, del_known, del_found,
}
use ietf_scion_testbed.Linkd.Api.Requests.{Request, put, delete, handle, handle_all}

module _ (fl : Float) {K : Type 0} (sh : Shaper (fl.F) K) where
  open fl use {F}
  open sh use {get, apply, clear}

  -- Facts of the kernel that valid parameters and removals keep are kept by every request.
  module _ (P : K → Type 0)
      (apply_keeps : (k : K) (dev : Bytes) (p : Params F)
        → validate fl p ≡ none
        → P k
        → P (apply k dev p).0)
      (clear_keeps : (k : K) (dev : Bytes) → P k → P (clear k dev).0) where
    applied_keeps : (p : Params F) (r : K × Bool) → P r.0 → P (applied fl sh p r).0
    applied_keeps p (k, true) h = h
    applied_keeps p (k, false) h = h

    cleared_keeps : (r : K × Bool) → P r.0 → P (cleared fl sh r).0
    cleared_keeps (k, true) h = h
    cleared_keeps (k, false) h = h

    put_merged_keeps :
        (k : K) (dev : Bytes) (merged : Params F) (v : Option Invalid)
        → validate fl merged ≡ v
        → P k
        → P (put_merged fl sh k dev merged v).0
    unfolding put_merged
    put_merged_keeps k dev merged (some e) q h = h
    put_merged_keeps k dev merged none q h =
        applied_keeps merged (apply k dev merged) (apply_keeps k dev merged q h)

    put_read_keeps :
        (k : K) (dev : Bytes) (upd : Params F) (g : Option (Params F))
        → P k
        → P (put_read fl sh k dev upd g).0
    unfolding put_read
    put_read_keeps k dev upd none h = h
    put_read_keeps k dev upd (some cur) h = put_merged_keeps k dev (merge cur upd) _ refl h

    put_found_keeps :
        (k : K) (o : Option ManagedIface) (body : Option (Params F))
        → P k
        → P (put_found fl sh k o body).0
    unfolding put_found
    put_found_keeps k none body h = h
    put_found_keeps k (some m) none h = h
    put_found_keeps k (some m) (some upd) h = put_read_keeps k m.dev upd (get k m.dev) h

    del_known_keeps :
        (k : K) (dev : Bytes) (b : Option (Params F))
        → ((p : Params F) → b ≡ some p → validate fl p ≡ none)
        → P k
        → P (del_known fl sh k dev b).0
    unfolding del_known
    del_known_keeps k dev (some base) v h =
        applied_keeps base (apply k dev base) (apply_keeps k dev base (v base refl) h)
    del_known_keeps k dev none v h = cleared_keeps (clear k dev) (clear_keeps k dev h)

    handle_keeps :
        (s : Server F) (k : K) (r : Request F)
        → ((i : Bytes) (p : Params F) → lookup i s.baseline ≡ some p → validate fl p ≡ none)
        → P k
        → P (handle fl sh s k r).0
    unfolding handle
    handle_keeps s k (put if_id body) v h = put_found_keeps k (lookup if_id s.ifaces) body h
    handle_keeps s k (delete if_id) v h = del_found_keeps (lookup if_id s.ifaces)
      where
        del_found_keeps : (o : Option ManagedIface) → P (del_found fl sh s k o).0
        del_found_keeps none = h
        del_found_keeps (some m) = del_known_keeps k m.dev (lookup m.if_id s.baseline) (v m.if_id) h

    -- If every baseline profile is valid: whatever holds of the kernel at the start, is kept by every
    -- write of valid parameters and by every removal, holds after any sequence of requests. So no
    -- request hands the kernel parameters that `Validate` refuses.
    pub handle_all_keeps :
        (s : Server F) (k : K) (rs : List (Request F))
        → ((i : Bytes) (p : Params F) → lookup i s.baseline ≡ some p → validate fl p ≡ none)
        → P k
        → P (handle_all fl sh s k rs)
    unfolding handle_all
    handle_all_keeps s k [] v h = h
    handle_all_keeps s k (r ∷ rs) v h =
        handle_all_keeps s (handle fl sh s k r).0 rs v (handle_keeps s k r v h)
