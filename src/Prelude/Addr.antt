-- ===== src/Prelude/Addr.antt =====
-- Cutting texts at a byte, and net.SplitHostPort.
use Prim.Native.Nat.{ℕ}
use mathlib.Core.Path.{◌≡◌}
use mathlib.Core.Bool.{true, false, not, ◌&&◌, ◌||◌}
use mathlib.Core.Option.{Option, none, some}
use mathlib.Core.List.{[], ◌∷◌, ◌++◌}
use native.Mathlib.Omega.{arith}
use ietf_scion_testbed.Prelude.Tests.{if◌then◌else◌}
use ietf_scion_testbed.Prelude.Keys.{Bytes, ◌==◌, nat_eq, bytes_eq, contains, beq_refl}

-- the text before the first byte `sep`, and behind it
unfoldable pub cut_at : ℕ → Bytes → Option (Bytes × Bytes)
cut_at sep [] = none
cut_at sep (c ∷ cs) =
    let rest = cut_at sep cs in
    if c == sep
    then some ([], cs)
    else (elim rest [ none ↦ none | some (before, after) ↦ some (c ∷ before, after) ])

-- The host of a bracketed address, given what stands between the brackets and behind them.
unfoldable pub bracketed : Bytes → Bytes → Option (Bytes × Bytes)
bracketed host [] = none
bracketed host (c ∷ port) =
    if c == b':' && not (contains port b':' || contains (host ++ port) b'[' || contains port b']')
    then some (host, port)
    else none

-- The host of a plain address, given what stands before and behind its first colon.
unfoldable pub plain : Bytes → Bytes → Option (Bytes × Bytes)
plain host port =
    if contains port b':' || contains (host ++ port) b'[' || contains (host ++ port) b']'
    then none
    else some (host, port)

-- net.SplitHostPort; none is an error. The last colon must be the only one outside brackets.
unfoldable pub split_host_port : Bytes → Option (Bytes × Bytes)
unfolding cut_at bracketed plain
split_host_port [] = none
split_host_port (c ∷ cs) = elim (c == b'[') [
  | true ↦ elim (cut_at b']' cs) [ none ↦ none | some (host, rest) ↦ bracketed host rest ]
  | false ↦ elim (cut_at b':' (c ∷ cs)) [ none ↦ none | some (host, port) ↦ plain host port ]
]

-- net.JoinHostPort: brackets round a host with a colon or a percent sign
unfoldable pub join_host_port : Bytes → Bytes → Bytes
join_host_port host port =
    if contains host b':' || contains host b'%'
    then b'[' ∷ (host ++ b']' ∷ b':' ∷ port)
    else host ++ b':' ∷ port

pub cut_at-append :
    (sep : ℕ) (before after : Bytes)
    → contains before sep ≡ false
    → cut_at sep (before ++ sep ∷ after) ≡ some (before, after)
unfolding cut_at
cut_at-append sep [] after h = ground (arith, beq_refl sep)
cut_at-append sep (c ∷ cs) after h = ground (arith, h, cut_at-append sep cs after)
