-- ===== src/Base.antt =====
-- The names that the other modules share: the libraries', passed on, and those of the children.
pub mod Tests
pub mod Texts
pub mod Lists
pub mod Sorting
pub mod Dict
pub mod Int
pub mod Decimal
pub mod Result
pub use Tests.{ltb, leb, eqb, if◌then◌else◌, Bool-cases, Option-cases, is_some, if_rule}
pub use Texts.{◌==◌, not_blank}
unfoldable pub use Texts.{String-discrete, strip}
pub use Lists.{drop, contains, length, Distinct, All}
pub use Prim.Native.Nat.{ℕ, zero, suc, ◌+◌, ◌-◌, ◌≤◌, ◌<◌}
pub use Prim.Native.String.{String, ◌++◌ as ◌<>◌}
pub use mathlib.Core.Path.{◌≡◌, refl, sym, ap, subst, ◌∙◌}
pub use mathlib.Core.Logic.{◌≢◌, ◌⊎◌, inl, inr}
pub use mathlib.Core.Bool.{Bool, true, false, not, ◌&&◌, ◌||◌}
pub use mathlib.Core.Option.{Option, none, some}
pub use mathlib.Core.List.{List, [], ◌∷◌, ◌++◌, map}
pub use native.Mathlib.Omega.{arith}
