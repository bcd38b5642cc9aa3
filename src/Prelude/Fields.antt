-- ===== src/Prelude/Fields.antt =====
-- Go's package strings, over bytes: Split at line ends, Fields, CutPrefix, CutSuffix, TrimPrefix.
use Prim.Native.Nat.{ℕ}
use mathlib.Core.Bool.{Bool, ◌&&◌, ◌||◌}
use mathlib.Core.Option.{Option, none, some}
use mathlib.Core.List.{List, [], ◌∷◌}
use ietf_scion_testbed.Prelude.Tests.{if◌then◌else◌, leb}
use ietf_scion_testbed.Prelude.Keys.{Bytes, ◌==◌, nat_eq, bytes_eq}

-- a character in front of the first piece
abbrev pub cons_char : ℕ → List Bytes → List Bytes
cons_char c [] = (c ∷ []) ∷ []
cons_char c (piece ∷ pieces) = (c ∷ piece) ∷ pieces

-- strings.Split(s, "\n")
unfoldable pub split_lines : Bytes → List Bytes
split_lines [] = [] ∷ []
split_lines (c ∷ cs) =
    let rest = split_lines cs in if c == b'\n' then [] ∷ rest else cons_char c rest

-- the white space of ASCII, which is all that birdc prints
abbrev pub is_space : ℕ → Bool
is_space c = c == b' ' || (leb 9 c && leb c 13)

-- the pieces between white space, empty ones included
unfoldable pub split_spaces : Bytes → List Bytes
split_spaces [] = [] ∷ []
split_spaces (c ∷ cs) =
    let rest = split_spaces cs in if is_space c then [] ∷ rest else cons_char c rest

unfoldable pub drop_empty : List Bytes → List Bytes
drop_empty [] = []
drop_empty ([] ∷ pieces) = drop_empty pieces
drop_empty ((c ∷ cs) ∷ pieces) = (c ∷ cs) ∷ drop_empty pieces

-- strings.Fields
unfoldable pub fields : Bytes → List Bytes
unfolding split_spaces drop_empty
fields line = drop_empty (split_spaces line)

-- strings.CutPrefix
unfoldable pub cut_prefix : Bytes → Bytes → Option Bytes
cut_prefix s [] = some s
cut_prefix [] (p ∷ ps) = none
cut_prefix (c ∷ s) (p ∷ ps) = if c == p then cut_prefix s ps else none

-- strings.CutSuffix
unfoldable pub cut_suffix : Bytes → Bytes → Option Bytes
cut_suffix [] suffix = if suffix == [] then some [] else none
cut_suffix (c ∷ s) suffix =
    let rest = cut_suffix s suffix in
    if c ∷ s == suffix then some [] else elim rest [ none ↦ none | some before ↦ some (c ∷ before) ]

-- strings.TrimPrefix
unfoldable pub trim_prefix : Bytes → Bytes → Bytes
unfolding cut_prefix
trim_prefix s prefix = elim (cut_prefix s prefix) [ none ↦ s | some rest ↦ rest ]
