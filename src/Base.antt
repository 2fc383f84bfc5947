-- ===== src/Base.antt =====
-- The names that all modules share: the libraries', passed on, and those of the children.
mod Tests
mod Lists
mod Texts
mod Results
pub mod Dict
pub mod Sets
pub mod Sort
pub mod Split
pub use Tests.*
pub use Lists.*
unfoldable pub use Texts.*
pub use Results.*
pub use Prim.Native.Nat.{ℕ, zero, suc, ◌+◌, ◌-◌, ◌*◌, ◌/◌, ◌%◌, ◌≤◌, ◌<◌}
pub use Prim.Native.String.{String}
pub use mathlib.Core.Path.{◌≡◌, refl, sym, ap, fun_ext, ◌∙◌}
pub use mathlib.Core.Logic.{◌≢◌, ◌⊎◌, inl, inr, ◌↔◌}
pub use mathlib.Core.Bool.{Bool, true, false, ◌&&◌, ◌||◌, not, false≢true}
pub use mathlib.Core.Option.{Option, none, some}
pub use mathlib.Core.List.{List, [], ◌∷◌, ◌++◌, map}
pub use native.Mathlib.Omega.{arith}
