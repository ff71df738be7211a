-- ===== src/Base.antt =====
-- The names that the other modules share: the libraries', passed on, and those of eight children.
mod Tests
mod Strings
mod Lists
mod Maps
mod Queues
mod Texts
mod Integers
mod Numbers
unfoldable pub use Tests.*
unfoldable pub use Strings.*
pub use Strings.Trim.{trim_space-trim_space}
unfoldable pub use Lists.*
unfoldable pub use Maps.*
unfoldable pub use Queues.*
unfoldable pub use Texts.*
unfoldable pub use Integers.*
unfoldable pub use Numbers.*
pub use Prim.Native.Nat.{ℕ, zero, suc, ◌+◌, ◌-◌, ◌*◌, ◌/◌, ◌%◌, ◌^◌, ◌≤◌, ◌<◌}
pub use mathlib.Core.Path.{◌≡◌, refl, sym, ap, ◌∙◌, subst}
pub use mathlib.Core.Logic.{◌≢◌, ◌↔◌, ◌⊎◌, inl, inr}
pub use mathlib.Core.Bool.{Bool, true, false, not, ◌&&◌, ◌||◌}
pub use mathlib.Core.Option.{Option, none, some}
pub use mathlib.Core.List.{List, [], ◌∷◌, ◌++◌, map, append-nil, append_assoc}
pub use native.Mathlib.Omega.{arith}
unfoldable pub use native.Mathlib.Decide.{dec_lt, ℕ_discrete}
