-- ===== src/Base.antt =====
-- The names that the other modules share: the libraries', passed on, and those of the child modules.
mod Tests
mod Lists
mod Options
mod Bytes
mod Tables
mod Switch
pub use Tests.*
pub use Lists.*
pub use Options.*
unfoldable pub use Bytes.*
unfoldable pub use Tables.*
unfoldable pub use Switch.*
pub use Prim.Native.Nat.{ℕ, zero, suc, ◌+◌, ◌-◌, ◌*◌, ◌/◌, ◌%◌, ◌^◌, ◌≤◌, ◌<◌}
pub use Prim.Native.String.{String}
pub use mathlib.Core.Path.{◌≡◌, refl, sym, ap, ◌∙◌, subst}
pub use mathlib.Core.Logic.{◌≢◌, ◌↔◌, ◌⊎◌, inl, inr}
pub use mathlib.Core.Bool.{Bool, true, false, not, ◌&&◌, ◌||◌}
pub use mathlib.Core.Option.{Option, none, some}
pub use mathlib.Core.List.{List, [], ◌∷◌, ◌++◌, map}
pub use native.Mathlib.Omega.{arith}
