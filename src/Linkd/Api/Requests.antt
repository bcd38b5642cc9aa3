-- ===== src/Linkd/Api/Requests.antt =====
-- What the handlers do to the kernel, over single requests and over sequences of them.
use ietf_scion_testbed.Prelude.{
  ◌≡◌, refl, Bool, true, false, Option, none, some, List, [], ◌∷◌, arith, Bytes, bytes_eq, lookup,
  Float,
}
use ietf_scion_testbed.Linkd.Shape.{Params, Invalid, Shaper, merge, validate}
use ietf_scion_testbed.Linkd.Api.{
  ManagedIface, Server, Response, ok_params, ok_cleared, not_found, bad_body, bad_params, Outcome,
  put_merged, put_read, put_found, handle_put, del_found, handle_del,
}

abbrev pub is_ok : {F : Type 0} → Response F → Bool
is_ok (ok_params p) = true
is_ok ok_cleared = true
is_ok _ = false

abbrev pub is_client_error : {F : Type 0} → Response F → Bool
is_client_error not_found = true
is_client_error bad_body = true
is_client_error (bad_params e) = true
is_client_error _ = false

-- a request that changes the shaping
pub data Request (F : Type 0) : Type 0 where
  put : Bytes → Option (Params F) → Request F
  delete : Bytes → Request F

module _ (fl : Float) {K : Type 0} (sh : Shaper (fl.F) K) where
  open fl use {F}
  open sh use {get, apply, clear}

  unfoldable pub handle : Server F → K → Request F → Outcome fl sh
  unfolding handle_put handle_del
  handle s k (put if_id body) = handle_put fl sh s k if_id body
  handle s k (delete if_id) = handle_del fl sh s k if_id

  -- The kernel after a sequence of requests.
  unfoldable pub handle_all : Server F → K → List (Request F) → K
  unfolding handle
  handle_all s k [] = k
  handle_all s k (r ∷ rs) = handle_all s (handle s k r).0 rs

  -- `OnChange` is called exactly on success, and a client error leaves the kernel alone.
  abbrev pub IsAnswered : K → Outcome fl sh → Type 0
  IsAnswered k o = (o.2 ≡ is_ok o.1) × (is_client_error o.1 ≡ true → o.0 ≡ k)

  put_found-IsAnswered :
      (k : K) (o : Option ManagedIface) (body : Option (Params F))
      → IsAnswered k (put_found fl sh k o body)
  unfolding put_found
  put_found-IsAnswered k none body = (refl, λ h. refl)
  put_found-IsAnswered k (some m) none = (refl, λ h. refl)
  put_found-IsAnswered k (some m) (some upd) = (ground arith, ground arith)

  del_found-IsAnswered :
      (s : Server F) (k : K) (o : Option ManagedIface) → IsAnswered k (del_found fl sh s k o)
  unfolding del_found
  del_found-IsAnswered s k none = (refl, λ h. refl)
  del_found-IsAnswered s k (some m) = (ground arith, ground arith)

  -- For every server, kernel and request: the change callback is called exactly if the response is a
  -- success, and a response of 400 or 404 leaves the kernel as it was.
  pub handle-IsAnswered : (s : Server F) (k : K) (r : Request F) → IsAnswered k (handle s k r)
  unfolding handle
  handle-IsAnswered s k (put if_id body) = put_found-IsAnswered k (lookup if_id s.ifaces) body
  handle-IsAnswered s k (delete if_id) = del_found-IsAnswered s k (lookup if_id s.ifaces)

  -- Why a PUT succeeds, and what it leaves in the kernel.
  pub record IsApplied (s : Server F) (k : K) (if_id : Bytes) (body : Option (Params F))
      (o : Outcome fl sh) : Type 0 where
    pub iface : ManagedIface
    pub upd : Params F
    pub cur : Params F
    pub known : lookup if_id s.ifaces ≡ some iface
    pub decoded : body ≡ some upd
    pub read : get k iface.dev ≡ some cur
    pub valid : validate fl (merge cur upd) ≡ none
    pub wrote : apply k iface.dev (merge cur upd) ≡ (o.0, true)
    pub reply : o.1 ≡ ok_params (merge cur upd)

  Merged : K → Bytes → Params F → Option Invalid → Type 0
  Merged k dev merged v =
      (v ≡ none)
      × (apply k dev merged ≡ ((put_merged fl sh k dev merged v).0, true))
      × ((put_merged fl sh k dev merged v).1 ≡ ok_params merged)

  put_merged-inv :
      (k : K) (dev : Bytes) (merged : Params F) (v : Option Invalid)
      → (put_merged fl sh k dev merged v).2 ≡ true
      → Merged k dev merged v
  unfolding put_merged Merged
  put_merged-inv k dev merged (some e) h = cc
  put_merged-inv k dev merged none h = (refl, ground arith, ground arith)

  put_found-IsApplied :
      (s : Server F) (k : K) (if_id : Bytes) (o : Option ManagedIface) (body : Option (Params F))
      → lookup if_id s.ifaces ≡ o
      → (put_found fl sh k o body).2 ≡ true
      → IsApplied s k if_id body (put_found fl sh k o body)
  unfolding put_found put_read Merged
  put_found-IsApplied s k if_id none body e h = cc
  put_found-IsApplied s k if_id (some m) none e h = cc
  put_found-IsApplied s k if_id (some m) (some upd) e h = from_read (get k m.dev) refl h
    where
      from_read :
          (g : Option (Params F))
          → get k m.dev ≡ g
          → (put_read fl sh k m.dev upd g).2 ≡ true
          → IsApplied s k if_id (some upd) (put_read fl sh k m.dev upd g)
      from_read none q h' = cc
      from_read (some cur) q h' =
          let (v, w, r) = put_merged-inv k m.dev (merge cur upd) (validate fl (merge cur upd)) h' in
          record {
            iface = m;
            upd = upd;
            cur = cur;
            known = e;
            decoded = refl;
            read = q;
            valid = v;
            wrote = w;
            reply = r;
          }

  -- A PUT that reports a change is for a known interface and a body that decodes; what the kernel
  -- was given, and what the response shows, is the update merged over what the kernel reported, and
  -- is valid.
  pub handle_put-IsApplied :
      (s : Server F) (k : K) (if_id : Bytes) (body : Option (Params F))
      → (handle_put fl sh s k if_id body).2 ≡ true
      → IsApplied s k if_id body (handle_put fl sh s k if_id body)
  unfolding handle_put
  handle_put-IsApplied s k if_id body h =
      put_found-IsApplied s k if_id (lookup if_id s.ifaces) body refl h
