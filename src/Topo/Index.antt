-- ===== src/Topo/Index.antt =====
-- The address index of a loaded topology.
use ietf_scion_testbed.Prelude.{
  ℕ, ◌≡◌, refl, beq_refl, In-append_cases, sym, ap, ◌∙◌, inl, inr, Option, none, some, List, [],
  ◌∷◌, Bool-cases, Bytes, ◌==◌, bytes_eq, nat_eq, contains, bytes_beq_iff, Map, lookup,
  lookup-insert, In, In-append_left, In-append_right, Returns, Returns->>=, Returns-each,
}
use ietf_scion_testbed.Topo.Files.{
  IfaceFile, TopologyFile, IfaceRec, Loaded, add_rec, rec_of, host_of, ia_to_num,
  first_control_service_host, add_as, load_ifaces, load_routers, load_file, load_files, empty,
}

-- The address index holds records that were read, each at its own address, and has an entry at the
-- address of every record that was read.
pub record Indexed (s : Loaded) : Type 0 where
  pub sound :
      (addr : Bytes) (rec : IfaceRec)
      → lookup addr s.by_local_addr ≡ some rec
      → In rec s.recs × (rec.local_addr ≡ addr)
  pub covers :
      (rec : IfaceRec)
      → In rec s.recs
      → (found : IfaceRec) × (lookup rec.local_addr s.by_local_addr ≡ some found)

add_rec_sound :
    (s : Loaded) (rec : IfaceRec)
    → Indexed s
    → (addr : Bytes) (found : IfaceRec) → lookup addr (add_rec s rec).by_local_addr ≡ some found
    → In found (add_rec s rec).recs × (found.local_addr ≡ addr)
unfolding add_rec
add_rec_sound s rec h addr found e = elim (Bool-cases (rec.local_addr == addr)) [
  | inl same ↦
      let e' : rec ≡ found = cc (e, same, lookup-insert rec.local_addr addr rec s.by_local_addr) in
      (
        In-append_right found s.recs (rec ∷ []) (inl e'),
        ap (λ r. r.local_addr) (sym e') ∙ (bytes_beq_iff rec.local_addr addr).0 same,
      )
  | inr differs ↦
      let old =
        h.sound addr found
          (cc (e, differs, lookup-insert rec.local_addr addr rec s.by_local_addr)) in
      (In-append_left found s.recs (rec ∷ []) old.0, old.1)
]

add_rec_covers :
    (s : Loaded) (rec : IfaceRec)
    → Indexed s
    → (r : IfaceRec) → In r (add_rec s rec).recs
    → (found : IfaceRec) × (lookup r.local_addr (add_rec s rec).by_local_addr ≡ some found)
unfolding add_rec
add_rec_covers s rec h r m = elim (Bool-cases (rec.local_addr == r.local_addr)) [
  | inl same ↦ (rec, rw (lookup-insert, same) refl)
  | inr differs ↦ elim (In-append_cases r s.recs (rec ∷ []) m) [
    | inl old ↦ let (found, e) = h.covers r old in (found, rw (lookup-insert, differs) e)
    | inr (inl new) ↦ absurd (cc (differs, beq_refl rec.local_addr, ap (λ x. x.local_addr) new))
    | inr (inr m') ↦ absurd m'
  ]
]

Indexed-add_rec : (s : Loaded) (rec : IfaceRec) → Indexed s → Indexed (add_rec s rec)
Indexed-add_rec s rec h = record { sound = add_rec_sound s rec h; covers = add_rec_covers s rec h }

load_ifaces-Indexed :
    (num : ℕ) (ia : Bytes) (s : Loaded) (ifaces : Map Bytes IfaceFile)
    → Indexed s
    → Returns Indexed (load_ifaces num ia s ifaces)
unfolding load_ifaces
load_ifaces-Indexed num ia s [] h = h
load_ifaces-Indexed num ia s ((if_id, ic) ∷ rest) h =
    Returns-each Indexed (host_of ic.local_addr) _ (λ host.
      load_ifaces-Indexed num ia (add_rec s (rec_of num ia if_id ic host)) rest
        (Indexed-add_rec s (rec_of num ia if_id ic host) h))

load_routers-Indexed :
    (num : ℕ) (ia : Bytes) (s : Loaded) (routers : Map Bytes (Map Bytes IfaceFile))
    → Indexed s
    → Returns Indexed (load_routers num ia s routers)
unfolding load_routers
load_routers-Indexed num ia s [] h = h
load_routers-Indexed num ia s ((name, ifaces) ∷ rest) h =
    Returns->>= Indexed Indexed (load_ifaces num ia s ifaces) _
      (load_ifaces-Indexed num ia s ifaces h) (λ s' h'. load_routers-Indexed num ia s' rest h')

load_file-Indexed :
    (cores : List Bytes) (s : Loaded) (tf : TopologyFile)
    → Indexed s
    → Returns Indexed (load_file cores s tf)
unfolding load_file
load_file-Indexed cores s tf h = Returns-each Indexed (ia_to_num tf.isd_as) _ (λ num.
    Returns-each Indexed (first_control_service_host tf.control_service) _ (λ mgmt.
      load_routers-Indexed num tf.isd_as
        (add_as s
          (record { ia = tf.isd_as; num = num; core = contains cores tf.isd_as; mgmt_ip = mgmt }))
        tf.border_routers (record { sound = h.sound; covers = h.covers })))

pub load_files-Indexed :
    (cores : List Bytes) (s : Loaded) (files : List (Option TopologyFile))
    → Indexed s
    → Returns Indexed (load_files cores s files)
unfolding load_files
load_files-Indexed cores s [] h = h
load_files-Indexed cores s (none ∷ rest) h = tt
load_files-Indexed cores s (some tf ∷ rest) h =
    Returns->>= Indexed Indexed (load_file cores s tf) _ (load_file-Indexed cores s tf h)
      (λ s' h'. load_files-Indexed cores s' rest h')

pub Indexed-empty : Indexed empty
unfolding lookup
Indexed-empty = record { sound = λ addr rec e. absurd (cc e); covers = λ rec m. absurd m }
