-- ===== src/Topo/Graphs.antt =====
-- The graph that loading returns.
use ietf_scion_testbed.Prelude.{
  ◌≡◌, ◌<◌, refl, sym, ap, ◌∙◌, true, false, lt→ltb, Option, some, List, [], ◌∷◌, arith, Bytes,
  bytes_eq, nat_eq, lookup, sort_by, All, All-of_In, In, IsOrdered, sort_by-IsOrdered, In-sort_by,
  All-sort_by, Outcome, done, failed, ◌>>=◌, Returns,
}
use ietf_scion_testbed.Topo.{Link, As, Graph}
use ietf_scion_testbed.Topo.Files.{TopologyFile, IfaceRec, LoadError, Loaded, load_files, empty}
use ietf_scion_testbed.Topo.Load.{pair_recs, as_lt, link_lt, sorted_graph, load_from, load}
use ietf_scion_testbed.Topo.Index.{Indexed, load_files-Indexed, Indexed-empty}
use ietf_scion_testbed.Topo.Pairs.{IsPair, Joined, pair_recs-IsPair, pair_recs-Joined}

-- Two interfaces that were read, the first in the lower AS, with the second's address as its remote
-- one, which is the address of no other interface.
pub record Meets (s : Loaded) (rec other : IfaceRec) : Type 0 where
  pub rec_read : In rec s.recs
  pub other_read : In other s.recs
  pub meets : other.local_addr ≡ rec.remote_addr
  pub ordered : rec.as_num < other.as_num
  pub alone : (r : IfaceRec) → In r s.recs → r.local_addr ≡ other.local_addr → r ≡ other

-- every such pair has its link
abbrev pub Complete : Loaded → List Link → Type 0
Complete s links = (rec other : IfaceRec) → Meets s rec other → Joined rec other links

Meets-lookup :
    (s : Loaded) (rec other : IfaceRec)
    → Indexed s
    → Meets s rec other
    → lookup rec.remote_addr s.by_local_addr ≡ some other
Meets-lookup s rec other x h =
    let (found, e) = x.covers other h.other_read in
    let (m, same) = x.sound other.local_addr found e in
    ap (λ a. lookup a s.by_local_addr) (sym h.meets) ∙ e ∙ ap some (h.alone found m same)

Complete-of :
    (s : Loaded) (m : Outcome LoadError (List Link))
    → ((rec other : IfaceRec) → Meets s rec other → Returns (Joined rec other) m)
    → Returns (Complete s) m
Complete-of s (failed e) h = tt
Complete-of s (done links) h = h

pair_recs-Complete : (s : Loaded) → Indexed s → Returns (Complete s) (pair_recs s s.recs [])
pair_recs-Complete s x = Complete-of s (pair_recs s s.recs []) (λ rec other h.
    pair_recs-Joined s s.recs [] rec other h.rec_read (Meets-lookup s rec other x h)
      (lt→ltb rec.as_num other.as_num h.ordered))

-- The graph of what was read.
pub record IsGraphOf (s : Loaded) (g : Graph) : Type 0 where
  pub ases_ordered : IsOrdered as_lt g.ases
  pub ases_kept : All (λ a. In a g.ases) s.ases
  pub links_ordered : IsOrdered link_lt g.links
  pub links_paired : All (IsPair s) g.links
  pub links_complete : Complete s g.links

link_lt-asym : (l m : Link) → link_lt l m ≡ true → link_lt m l ≡ false
link_lt-asym l m h = ground arith

as_lt-asym : (a b : As) → as_lt a b ≡ true → as_lt b a ≡ false
as_lt-asym a b h = ground arith

sorted_graph-IsGraphOf :
    (s : Loaded) (links : List Link)
    → All (IsPair s) links
    → Complete s links
    → IsGraphOf s (sorted_graph s links)
unfolding sorted_graph
sorted_graph-IsGraphOf s links p c = record {
  ases_ordered = sort_by-IsOrdered as_lt as_lt-asym s.ases;
  ases_kept =
      All-of_In (λ a. In a (sort_by as_lt s.ases)) s.ases (λ a m. In-sort_by as_lt a s.ases m);
  links_ordered = sort_by-IsOrdered link_lt link_lt-asym links;
  links_paired = All-sort_by link_lt (IsPair s) links p;
  links_complete = λ rec other h.
      let (l, m, ea, eb) = c rec other h in (l, In-sort_by link_lt l links m, ea, eb);
}

-- The graph is that of what the files gave.
abbrev pub IsLoaded : List Bytes → List (Option TopologyFile) → Graph → Type 0
IsLoaded cores files g =
    (s : Loaded) × (load_files cores empty files ≡ done s) × Indexed s × IsGraphOf s g

load_from-IsLoaded :
    (cores : List Bytes) (files : List (Option TopologyFile))
    → Returns (IsLoaded cores files) (load_from cores files)
unfolding load_from
load_from-IsLoaded cores files =
    go (load_files cores empty files) refl (load_files-Indexed cores empty files Indexed-empty)
  where
    go :
        (m : Outcome LoadError Loaded)
        → load_files cores empty files ≡ m
        → Returns Indexed m
        → Returns
            (IsLoaded cores files)
            (m >>= λ s. pair_recs s s.recs [] >>= λ links. done (sorted_graph s links))
    go (failed e) k x = tt
    go (done s) k x =
        finish (pair_recs s s.recs []) (pair_recs-IsPair s s.recs [] x (λ rec m. m) tt)
          (pair_recs-Complete s x)
      where
        finish :
            (m : Outcome LoadError (List Link))
            → Returns (All (IsPair s)) m
            → Returns (Complete s) m
            → Returns (IsLoaded cores files) (m >>= λ links. done (sorted_graph s links))
        finish (failed e) p c = tt
        finish (done links) p c = (s, k, x, sorted_graph-IsGraphOf s links p c)

-- Whatever the files hold, a graph that is returned has the ASes that were read, by ascending number,
-- and links by ascending numbers of their ASes. Each link joins two interfaces that were read, from
-- the lower AS to the higher, of which the first has the second's address as its remote one; it is of
-- type core if both ASes are core ASes, else of type peer if one of the interfaces is marked so, else
-- of type child. Two such interfaces have a link, if no other interface that was read has the
-- second's address.
pub load-IsLoaded :
    (cores : List Bytes) (files : List (Option TopologyFile))
    → Returns (IsLoaded cores files) (load (some cores) files)
unfolding load
load-IsLoaded cores [] = tt
load-IsLoaded cores (file ∷ files) = load_from-IsLoaded cores (file ∷ files)
