-- ===== src/Linkd/Sync/Examples.antt =====
-- The theorems on a writer that signals a service.
use ietf_scion_testbed.Prelude.{◌≡◌, ◌≢◌, refl, true, false, some, [], ◌∷◌, Bytes, bytes_eq, nat_eq}
use ietf_scion_testbed.Linkd.Sync.{Writer, write_doc, status, is_current, trim_newline}
use ietf_scion_testbed.Linkd.Sync.Reloads.{IsReported, write_doc-IsReported, write_doc_forgets}

abbrev sample : Writer
sample = record { unit = b's' ∷ []; meta_fail = false; hup_fail = false }

abbrev old : Bytes
old = b'o' ∷ b'\n' ∷ []

abbrev new : Bytes
new = b'n' ∷ b'w' ∷ []

write_doc-IsReported_example :
    IsReported sample
      (some old)
      (some new)
      false
      (write_doc sample (some old) (some new) true false)
write_doc-IsReported_example = write_doc-IsReported sample (some old) (some new) true false

unit_given : sample.unit ≢ []
unit_given e = cc

write_doc_forgets_example :
    let first = write_doc sample (some old) (some new) true false in
    let second = write_doc first.writer first.file (some new) true true in
    ((status first.writer).1 ≡ false)
    × (second.signalled ≡ false)
    × (second.file ≡ first.file)
    × ((status second.writer).1 ≡ true)
unfolding is_current trim_newline
write_doc_forgets_example = write_doc_forgets sample (some old) new true true refl unit_given
