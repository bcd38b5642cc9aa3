-- ===== src/Linkd/Sync.antt =====
-- linkd/internal/staticinfo/staticinfo.go and linkd/internal/topowriter/topowriter.go: the method
-- `Write`, which the two writers share line by line, over the document that `merged` gives. Reading
-- the output file, writing it atomically and the signal are the environment's: the file's contents
-- before and after are explicit, and so is whether the write and the signal succeed.
pub mod Reloads
pub mod Examples
use ietf_scion_testbed.Prelude.{
  Bool, true, false, not, Option, none, some, List, [], ◌∷◌, ◌++◌, if◌then◌else◌, Bytes, ◌==◌,
  nat_eq, bytes_eq, nat_beq, Float, Codec, Map,
}
use ietf_scion_testbed.Linkd.Shape.{Params}
use ietf_scion_testbed.Linkd.Documents.{Fields, merged, merged_topology}

-- `unit` is empty if no service is to be signalled.
pub record Writer : Type 0 where
  pub unit : Bytes
  pub meta_fail : Bool
  pub hup_fail : Bool

-- The writer and the output file afterwards, whether the service was signalled, and whether an
-- error is returned.
pub record Written : Type 0 where
  pub writer : Writer
  pub file : Option Bytes
  pub signalled : Bool
  pub is_err : Bool

-- bytes.TrimSuffix(existing, "\n")
unfoldable pub trim_newline : Bytes → Bytes
trim_newline [] = []
trim_newline (c ∷ []) = if c == b'\n' then [] else c ∷ []
trim_newline (c ∷ d ∷ rest) = c ∷ trim_newline (d ∷ rest)

-- an output file that cannot be read is not the document
unfoldable pub is_current : Option Bytes → Bytes → Bool
is_current none doc = false
is_current (some existing) doc = trim_newline existing == doc

-- what `WriteAtomic` leaves: the data and a newline
abbrev pub file_of : Bytes → Bytes
file_of doc = doc ++ b'\n' ∷ []

-- `Write` from the write of the file on
unfoldable pub write_changed : Writer → Option Bytes → Bytes → Bool → Bool → Written
write_changed w file doc false signal_ok = record {
  writer = record w { meta_fail = true; hup_fail = true };
  file = file;
  signalled = false;
  is_err = true;
}
write_changed w file doc true signal_ok =
    if w.unit == []
    then record {
      writer = record w { meta_fail = false; hup_fail = false };
      file = some (file_of doc);
      signalled = false;
      is_err = false;
    }
    else record {
      writer = record w { meta_fail = false; hup_fail = not signal_ok };
      file = some (file_of doc);
      signalled = true;
      is_err = not signal_ok;
    }

unfoldable pub write_doc : Writer → Option Bytes → Option Bytes → Bool → Bool → Written
unfolding write_changed is_current
write_doc w file none write_ok signal_ok = record {
  writer = record w { meta_fail = true; hup_fail = true };
  file = file;
  signalled = false;
  is_err = true;
}
write_doc w file (some doc) write_ok signal_ok =
    if is_current file doc
    then record {
      writer = record w { meta_fail = false; hup_fail = false };
      file = file;
      signalled = false;
      is_err = false;
    }
    else write_changed w file doc write_ok signal_ok

module _ (fl : Float) where
  open fl use {F}

  -- `Write` of the static info; `base` is the base file, none if it cannot be read
  unfoldable pub write_static_info :
      Codec (Fields F)
      → Writer
      → Option Bytes
      → Option Bytes
      → Map Bytes (Params F)
      → Bool
      → Bool
      → Written
  unfolding write_doc
  write_static_info json w file base live write_ok signal_ok =
      write_doc w file (merged fl json base live) write_ok signal_ok

  -- `Write` of the topology
  unfoldable pub write_topology :
      Codec (Fields F)
      → Writer
      → Option Bytes
      → Option Bytes
      → Map Bytes (Params F)
      → Bool
      → Bool
      → Written
  unfolding write_doc
  write_topology json w file base live write_ok signal_ok =
      write_doc w file (merged_topology fl json base live) write_ok signal_ok

-- `Status`: metadata written, reload signal delivered
unfoldable pub status : Writer → Bool × Bool
status w = (not w.meta_fail, not w.hup_fail)
