-- ===== src/Prelude.antt =====
-- The names that the other modules share: those of the libraries, passed on, and the children's.
mod Tests
mod Lists
mod Keys
mod Maps
mod Inserts
mod Int
mod Modulo
mod Floats
mod Sort
mod Sorted
mod Decimal
mod Atoi
mod Addr
mod Fields
mod Outcomes
mod Thins
mod Codecs
mod Milli
pub use Tests.*
pub use Lists.*
pub use Keys.*
unfoldable pub use Maps.*
unfoldable pub use Inserts.*
unfoldable pub use Int.*
pub use Modulo.*
pub use Floats.*
unfoldable pub use Sort.*
pub use Sorted.*
unfoldable pub use Decimal.*
unfoldable pub use Atoi.*
unfoldable pub use Addr.*
unfoldable pub use Fields.*
pub use Outcomes.*
pub use Thins.*
pub use Codecs.*
unfoldable pub use Milli.*
pub use Prim.Native.Nat.{ℕ, zero, suc, ◌+◌, ◌-◌, ◌*◌, ◌/◌, ◌%◌, ◌^◌, ◌≤◌, ◌<◌}
pub use Prim.Native.String.{String}
pub use mathlib.Core.Path.{◌≡◌, refl, sym, ap, ◌∙◌}
pub use mathlib.Core.Logic.{◌≢◌, ◌↔◌, ◌⊎◌, inl, inr}
pub use mathlib.Core.Bool.{Bool, true, false, not, ◌&&◌, ◌||◌}
pub use mathlib.Core.Option.{Option, none, some}
pub use mathlib.Core.List.{List, [], reverse, ◌∷◌, ◌++◌, map, append-nil, append_assoc}
pub use native.Mathlib.Omega.{arith}
