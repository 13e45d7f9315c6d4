-- ===== src/Base.antt =====
-- The names that every module shares: the libraries' own, passed on, and those of the children
-- (tests on numbers, lists, texts, and the outcomes of Rust code).
mod Tests
mod Lists
mod Texts
mod Outcomes
mod Trim
pub use Tests.*
pub use Lists.*
unfoldable pub use Texts.*
pub use Outcomes.*
unfoldable pub use Trim.*
pub use Prim.Native.Nat.{ℕ, zero, suc, ◌+◌, ◌-◌, ◌*◌, ◌/◌, ◌%◌, ◌^◌, ◌≤◌, ◌<◌}
pub use mathlib.Core.Path.{◌≡◌, refl, sym, ap, ◌∙◌, subst}
pub use mathlib.Core.Logic.{◌≢◌, ◌↔◌, ◌⊎◌, inl, inr}
pub use mathlib.Core.Bool.{Bool, true, false, ◌&&◌, ◌||◌, not}
pub use mathlib.Core.Option.{Option, none, some}
pub use mathlib.Core.List.{List, [], ◌∷◌, ◌++◌, map, append_assoc, append-nil}
pub use native.Mathlib.Omega.{arith}
