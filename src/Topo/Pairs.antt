-- ===== src/Topo/Pairs.antt =====
-- Which links the records of the interfaces give.
use ietf_scion_testbed.Prelude.{
  ℕ, ◌<◌, ◌≡◌, ◌≢◌, ◌↔◌, ◌⊎◌, ◌&&◌, ◌||◌, ◌==◌, refl, ap, arith, if◌then◌else◌, Bool, Bytes, bytes,
  bytes_beq_iff, inl, inr, true, false, Option, none, some, List, [], ◌∷◌, ◌++◌, ltb, ltb→lt,
  Bool-cases, bytes_eq, nat_eq, lookup, All, All-append, In, In-append_left, In-append_right,
  Returns, Returns->>=, Returns-each, Returns-mono,
}
use ietf_scion_testbed.Topo.{Endpoint, Link}
use ietf_scion_testbed.Topo.Files.{IfaceRec, Loaded}
use ietf_scion_testbed.Topo.Load.{is_core, type_of, link_from, link_with, subnet_of, pair_recs}
use ietf_scion_testbed.Topo.Index.{Indexed}

-- The end of a link at an interface.
abbrev pub end_at : IfaceRec → Endpoint
end_at r = record {
  ia = r.ia;
  as_num = r.as_num;
  if_id = r.if_id;
  ip = r.local_host;
  link_to = r.link_to;
}

-- The AS is one of the core, by the files that were read.
abbrev pub IsCore : Loaded → ℕ → Type 0
IsCore s num = lookup num s.core_by_num ≡ some true

abbrev pub AreCore : Loaded → IfaceRec → IfaceRec → Type 0
AreCore s rec other = IsCore s rec.as_num × IsCore s other.as_num

-- The type of a link: between two core ASes, or of interfaces of which one is marked for peering, or
-- neither.
pub data HasType (s : Loaded) (rec other : IfaceRec) : Bytes → Type 0 where
  core_link : AreCore s rec other → HasType s rec other (bytes "core")
  peer_link :
      ¬ AreCore s rec other
      → (rec.link_to ≡ bytes "peer") ⊎ (other.link_to ≡ bytes "peer")
      → HasType s rec other (bytes "peer")
  child_link :
      ¬ AreCore s rec other
      → rec.link_to ≢ bytes "peer"
      → other.link_to ≢ bytes "peer"
      → HasType s rec other (bytes "child")

is_core-IsCore : (s : Loaded) (num : ℕ) → (is_core s.core_by_num num ≡ true) ↔ IsCore s num
unfolding is_core
is_core-IsCore s num = go (lookup num s.core_by_num)
  where
    go :
        (o : Option Bool)
        → ((elim o as (λ x. Bool) [ none ↦ false | some core ↦ core ]) ≡ true) ↔ (o ≡ some true)
    go none = (λ e. absurd (cc e), λ e. absurd (cc e))
    go (some core) = (ap some, λ e. ground (arith, e))

type_by-HasType :
    (s : Loaded) (rec other : IfaceRec) (c d p q : Bool)
    → (c ≡ true) ↔ IsCore s rec.as_num
    → (d ≡ true) ↔ IsCore s other.as_num
    → (p ≡ true) ↔ (rec.link_to ≡ bytes "peer")
    → (q ≡ true) ↔ (other.link_to ≡ bytes "peer")
    → HasType s rec other
        (if c && d then bytes "core" else if p || q then bytes "peer" else bytes "child")
type_by-HasType s rec other true true p q e f g h = core_link (e.0 refl, f.0 refl)
type_by-HasType s rec other true false true q e f g h =
    peer_link (λ k. absurd (cc (f.1 k.1))) (inl (g.0 refl))
type_by-HasType s rec other true false false true e f g h =
    peer_link (λ k. absurd (cc (f.1 k.1))) (inr (h.0 refl))
type_by-HasType s rec other true false false false e f g h =
    child_link (λ k. absurd (cc (f.1 k.1))) (λ k. absurd (cc (g.1 k))) (λ k. absurd (cc (h.1 k)))
type_by-HasType s rec other false d true q e f g h =
    peer_link (λ k. absurd (cc (e.1 k.0))) (inl (g.0 refl))
type_by-HasType s rec other false d false true e f g h =
    peer_link (λ k. absurd (cc (e.1 k.0))) (inr (h.0 refl))
type_by-HasType s rec other false d false false e f g h =
    child_link (λ k. absurd (cc (e.1 k.0))) (λ k. absurd (cc (g.1 k))) (λ k. absurd (cc (h.1 k)))

type_of-HasType :
    (s : Loaded) (rec other : IfaceRec) → HasType s rec other (type_of s.core_by_num rec other)
unfolding type_of
type_of-HasType s rec other =
    type_by-HasType s rec other (is_core s.core_by_num rec.as_num)
      (is_core s.core_by_num other.as_num) (rec.link_to == bytes "peer")
      (other.link_to == bytes "peer") (is_core-IsCore s rec.as_num) (is_core-IsCore s other.as_num)
      (bytes_beq_iff rec.link_to (bytes "peer")) (bytes_beq_iff other.link_to (bytes "peer"))

-- A link joins two interfaces that were read, from the lower AS to the higher, where the first has
-- the address of the second as its remote address.
pub record IsPair (s : Loaded) (l : Link) : Type 0 where
  pub rec : IfaceRec
  pub other : IfaceRec
  pub rec_read : In rec s.recs
  pub other_read : In other s.recs
  pub meets : other.local_addr ≡ rec.remote_addr
  pub ordered : rec.as_num < other.as_num
  pub a_end : l.a ≡ end_at rec
  pub b_end : l.b ≡ end_at other
  pub type : HasType s rec other l.type

-- the links hold one from `rec` to `other`
abbrev pub Joined : IfaceRec → IfaceRec → List Link → Type 0
Joined rec other links = (l : Link) × In l links × (l.a ≡ end_at rec) × (l.b ≡ end_at other)

link_with-IsPair :
    (s : Loaded) (rec : IfaceRec) (o : Option IfaceRec)
    → Indexed s
    → In rec s.recs
    → lookup rec.remote_addr s.by_local_addr ≡ o
    → Returns (All (IsPair s)) (link_with s.core_by_num rec o)
unfolding link_with
link_with-IsPair s rec none x r e = tt
link_with-IsPair s rec (some other) x r e = elim (Bool-cases (ltb rec.as_num other.as_num)) [
  | inl lower ↦
      let found = x.sound rec.remote_addr other e in
      rw lower (
        Returns-each (All (IsPair s)) (subnet_of rec.local_host) _ (λ subnet. (
          record {
            rec = rec;
            other = other;
            rec_read = r;
            other_read = found.0;
            meets = found.1;
            ordered = ltb→lt rec.as_num other.as_num lower;
            a_end = refl;
            b_end = refl;
            type = type_of-HasType s rec other;
          },
          tt,
        )))
  | inr differs ↦ rw differs tt
]

pub pair_recs-IsPair :
    (s : Loaded) (recs : List IfaceRec) (links : List Link)
    → Indexed s
    → ((rec : IfaceRec) → In rec recs → In rec s.recs)
    → All (IsPair s) links
    → Returns (All (IsPair s)) (pair_recs s recs links)
unfolding pair_recs
pair_recs-IsPair s [] links x r h = h
pair_recs-IsPair s (rec ∷ rest) links x r h =
    Returns->>= (All (IsPair s)) (All (IsPair s)) (link_with s.core_by_num rec _) _
      (link_with-IsPair s rec _ x (r rec (inl refl)) refl)
      (λ found p.
        pair_recs-IsPair s rest (links ++ found) x (λ rec' m. r rec' (inr m))
          (All-append (IsPair s) links found h p))

pair_recs-In :
    (s : Loaded) (recs : List IfaceRec) (links : List Link) (l : Link)
    → In l links
    → Returns (In l) (pair_recs s recs links)
unfolding pair_recs
pair_recs-In s [] links l h = h
pair_recs-In s (rec ∷ rest) links l h =
    Returns-each (In l) (link_with s.core_by_num rec _) _
      (λ found. pair_recs-In s rest (links ++ found) l (In-append_left l links found h))

link_with-Joined :
    (s : Loaded) (rec other : IfaceRec)
    → ltb rec.as_num other.as_num ≡ true
    → Returns (Joined rec other) (link_with s.core_by_num rec (some other))
unfolding link_with
link_with-Joined s rec other lower = rw lower (
    Returns-each (Joined rec other) (subnet_of rec.local_host) _
      (λ subnet. (link_from s.core_by_num rec other subnet, inl refl, refl, refl)))

pub pair_recs-Joined :
    (s : Loaded) (recs : List IfaceRec) (links : List Link) (rec other : IfaceRec)
    → In rec recs
    → lookup rec.remote_addr s.by_local_addr ≡ some other
    → ltb rec.as_num other.as_num ≡ true
    → Returns (Joined rec other) (pair_recs s recs links)
unfolding pair_recs
pair_recs-Joined s [] links rec other m e lower = absurd m
pair_recs-Joined s (first ∷ rest) links rec other (inl here) e lower =
    Returns->>= (Joined rec other) (Joined rec other) (link_with s.core_by_num first _) _
      (rw (here, e) (link_with-Joined s rec other lower))
      (λ found (l, m, ea, eb).
        Returns-mono (In l) (Joined rec other) (pair_recs s rest (links ++ found))
          (λ out m'. (l, m', ea, eb))
          (pair_recs-In s rest (links ++ found) l (In-append_right l links found m)))
pair_recs-Joined s (first ∷ rest) links rec other (inr later) e lower =
    Returns-each (Joined rec other) (link_with s.core_by_num first _) _
      (λ found. pair_recs-Joined s rest (links ++ found) rec other later e lower)
