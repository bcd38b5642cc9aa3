-- ===== src/Prelude/Codecs.antt =====
-- encoding/json on the documents of one type, as an interface. What the program relies on is a
-- hypothesis of its own: what was written is read back.
use mathlib.Core.Path.{◌≡◌}
use mathlib.Core.Option.{Option, some}
use ietf_scion_testbed.Prelude.Keys.{Bytes}

pub record Codec (A : Type 0) : Type 0 where
  pub marshal : A → Option Bytes
  pub unmarshal : Bytes → Option A

abbrev pub ReadsBack : {A : Type 0} → Codec A → Type 0
ReadsBack {A} c = (a : A) (b : Bytes) → c.marshal a ≡ some b → c.unmarshal b ≡ some a
