-- ===== src/Linkd/Sync/Reloads.antt =====
-- What the status reports after a write, and after two.
use ietf_scion_testbed.Prelude.{
  ◌≡◌, ◌≢◌, ◌↔◌, ◌⊎◌, refl, sym, ap, ◌∙◌, Bool, true, false, not, ◌&&◌, ◌||◌, Option, none, some,
  [], ◌∷◌, ◌++◌, arith, Bool-cases, length, length-append, inl, inr, Bytes, ◌==◌, nat_eq, bytes_eq,
  bytes_beq_iff, beq_refl,
}
use ietf_scion_testbed.Linkd.Sync.{
  Writer, Written, trim_newline, is_current, file_of, write_changed, write_doc, status,
}

trim_newline-file_of : (doc : Bytes) → trim_newline (file_of doc) ≡ doc
unfolding trim_newline
trim_newline-file_of [] = refl
trim_newline-file_of (c ∷ []) = refl
trim_newline-file_of (c ∷ d ∷ rest) = ap (λ t. c ∷ t) (trim_newline-file_of (d ∷ rest))

is_current-file_of : (doc : Bytes) → is_current (some (file_of doc)) doc ≡ true
unfolding is_current
is_current-file_of doc = rw (trim_newline-file_of doc) (beq_refl doc)

abbrev pub EndsInNewline : Bytes → Type 0
EndsInNewline doc = (rest : Bytes) × (doc ≡ rest ++ b'\n' ∷ [])

-- The file is the document, with or without a newline at its end; a document that ends in a
-- newline of its own needs another one.
abbrev pub Stores : Option Bytes → Option Bytes → Type 0
Stores file none = ⊥
Stores none (some doc) = ⊥
Stores (some text) (some doc) = (text ≡ doc ++ b'\n' ∷ []) ⊎ ((text ≡ doc) × ¬ EndsInNewline doc)

trim_newline-cases :
    (text : Bytes) → (text ≡ file_of (trim_newline text)) ⊎ (text ≡ trim_newline text)
unfolding trim_newline
trim_newline-cases [] = inr refl
trim_newline-cases (c ∷ []) = elim (Bool-cases (c == b'\n')) [
  | inl newline ↦ rw newline (inl (ap (λ x. x ∷ []) (ground (arith, newline))))
  | inr other ↦ rw other (inr refl)
]
trim_newline-cases (c ∷ d ∷ rest) = elim (trim_newline-cases (d ∷ rest)) [
  | inl e ↦ inl (ap (λ t. c ∷ t) e)
  | inr e ↦ inr (ap (λ t. c ∷ t) e)
]

trimmed-EndsInNewline : (doc : Bytes) → (trim_newline doc ≡ doc) ↔ (¬ EndsInNewline doc)
trimmed-EndsInNewline doc = (there, back)
  where
    there : trim_newline doc ≡ doc → ¬ EndsInNewline doc
    there e (rest, k) =
        let same : rest ≡ rest ++ b'\n' ∷ [] =
          sym (trim_newline-file_of rest) ∙ ap trim_newline (sym k) ∙ e ∙ k in
        absurd (omega (arith, ap length same, length-append rest (b'\n' ∷ [])))

    back : ¬ EndsInNewline doc → trim_newline doc ≡ doc
    back n = elim (trim_newline-cases doc) [
      | inl added ↦ absurd (n (trim_newline doc, added))
      | inr plain ↦ sym plain
    ]

is_current-Stores :
    (file : Option Bytes) (doc : Bytes) → (is_current file doc ≡ true) ↔ Stores file (some doc)
unfolding is_current
is_current-Stores none doc = (λ e. cc, λ e. absurd e)
is_current-Stores (some text) doc = (there, back)
  where
    there : (trim_newline text == doc) ≡ true → Stores (some text) (some doc)
    there e =
        let k : trim_newline text ≡ doc = (bytes_beq_iff (trim_newline text) doc).0 e in
        elim (trim_newline-cases text) [
          | inl added ↦ inl (added ∙ ap file_of k)
          | inr plain ↦
              inr (plain ∙ k, (trimmed-EndsInNewline doc).0 (ap trim_newline (sym (plain ∙ k)) ∙ k))
        ]

    back : Stores (some text) (some doc) → (trim_newline text == doc) ≡ true
    back (inl e) = rw (ap trim_newline e ∙ trim_newline-file_of doc) (beq_refl doc)
    back (inr (e, k)) = rw (ap trim_newline e ∙ (trimmed-EndsInNewline doc).1 k) (beq_refl doc)

-- What holds after a call of `Write` for the merged document `doc`, none if the merge failed.
pub record IsReported (w : Writer) (file doc : Option Bytes) (signal_ok : Bool) (r : Written)
    : Type 0 where
  -- metadata is reported written exactly if the file afterwards is the merged document
  pub metadata : ((status r.writer).0 ≡ true) ↔ Stores r.file doc
  -- the reload is reported delivered exactly if metadata is, and no signal was sent or it succeeded
  pub delivered : (status r.writer).1 ≡ ((status r.writer).0 && (not r.signalled || signal_ok))
  -- an error is returned exactly if the reload is not reported delivered
  pub error : r.is_err ≡ not (status r.writer).1
  -- where the metadata could not be written, the file is as it was
  pub untouched : (status r.writer).0 ≡ false → r.file ≡ file
  -- a service is signalled exactly if there is one, and the file was not the document but now is
  pub signalled : (r.signalled ≡ true) ↔ ((w.unit ≢ []) × (¬ Stores file doc) × Stores r.file doc)

unit-differs : (u : Bytes) → u ≢ [] → (u == []) ≡ false
unit-differs u h = elim (Bool-cases (u == [])) [
  | inl e ↦ absurd (h ((bytes_beq_iff u []).0 e))
  | inr e ↦ e
]

write_changed-IsReported :
    (w : Writer) (file : Option Bytes) (doc : Bytes) (write_ok signal_ok : Bool)
    → ¬ Stores file (some doc)
    → IsReported w file (some doc) signal_ok (write_changed w file doc write_ok signal_ok)
unfolding write_changed status
write_changed-IsReported w file doc false signal_ok h = record {
  metadata = (λ e. cc, λ k. absurd (h k));
  delivered = refl;
  error = refl;
  untouched = λ k. refl;
  signalled = (λ e. cc, λ (u, n, k). absurd (h k));
}
write_changed-IsReported w file doc true signal_ok h = elim (Bool-cases (w.unit == [])) [
  | inl no_unit ↦ rw no_unit (record {
    metadata = (λ e. inl refl, λ k. refl);
    delivered = refl;
    error = refl;
    untouched = λ k. cc;
    signalled = (λ e. cc, λ (u, n, k). absurd (u ((bytes_beq_iff w.unit []).0 no_unit)));
  })
  | inr has_unit ↦ rw has_unit (record {
    metadata = (λ e. inl refl, λ k. refl);
    delivered = ground arith;
    error = ground arith;
    untouched = λ k. cc;
    signalled = (
      λ e. (λ none_set. cc (has_unit, (bytes_beq_iff w.unit []).1 none_set), h, inl refl),
      λ k. refl,
    );
  })
]

-- Every call of `Write`, whatever fails. Metadata is reported written exactly if the file
-- afterwards is the merged document, and otherwise the file is as it was. A service is signalled
-- exactly if there is one and the file was not the document before and is it afterwards. The reload
-- is reported delivered exactly if metadata is reported written, and no signal was sent or it
-- succeeded; else, and only then, an error is returned.
pub write_doc-IsReported :
    (w : Writer) (file doc : Option Bytes) (write_ok signal_ok : Bool)
    → IsReported w file doc signal_ok (write_doc w file doc write_ok signal_ok)
unfolding write_doc status
write_doc-IsReported w file none write_ok signal_ok = record {
  metadata = (λ e. cc, λ k. absurd k);
  delivered = refl;
  error = refl;
  untouched = λ k. refl;
  signalled = (λ e. cc, λ (u, n, k). absurd k);
}
write_doc-IsReported w file (some doc) write_ok signal_ok =
    elim (Bool-cases (is_current file doc)) [
      | inl same ↦
          let k = (is_current-Stores file doc).0 same in
          rw same (record {
            metadata = (λ e. k, λ e. refl);
            delivered = refl;
            error = refl;
            untouched = λ e. refl;
            signalled = (λ e. cc, λ (u, n, k'). absurd (n k));
          })
      | inr differs ↦ rw differs (
          write_changed-IsReported w file doc write_ok signal_ok
            (λ k. cc (differs, (is_current-Stores file doc).1 k)))
    ]

write_doc-failed_signal :
    (w : Writer) (file : Option Bytes) (doc : Bytes)
    → is_current file doc ≡ false
    → (w.unit == []) ≡ false
    → write_doc w file (some doc) true false ≡ record {
      writer = record w { meta_fail = false; hup_fail = true };
      file = some (file_of doc);
      signalled = true;
      is_err = true;
    }
unfolding write_doc write_changed
write_doc-failed_signal w file doc differs unit = rw (differs, unit)

write_doc-unchanged :
    (w : Writer) (doc : Bytes) (write_ok signal_ok : Bool)
    → write_doc w (some (file_of doc)) (some doc) write_ok signal_ok ≡ record {
      writer = record w { meta_fail = false; hup_fail = false };
      file = some (file_of doc);
      signalled = false;
      is_err = false;
    }
unfolding write_doc
write_doc-unchanged w doc write_ok signal_ok = rw (is_current-file_of doc)

-- A reload that failed is forgotten: if the document is new, the write succeeds, there is a service
-- to signal and the signal fails, then the next call of `Write` for the same document sends no
-- signal, leaves the file, and reports the reload as delivered.
pub write_doc_forgets :
    (w : Writer) (file : Option Bytes) (doc : Bytes) (write_ok signal_ok : Bool)
    → is_current file doc ≡ false
    → w.unit ≢ []
    → let first = write_doc w file (some doc) true false in
      let second = write_doc first.writer first.file (some doc) write_ok signal_ok in
      ((status first.writer).1 ≡ false)
      × (second.signalled ≡ false)
      × (second.file ≡ first.file)
      × ((status second.writer).1 ≡ true)
unfolding status
write_doc_forgets w file doc write_ok signal_ok differs unit =
    rw
      (
        write_doc-failed_signal w file doc differs (unit-differs w.unit unit),
        write_doc-unchanged (record w { meta_fail = false; hup_fail = true }) doc write_ok
            signal_ok,
      )
      (refl, refl, refl, refl)
