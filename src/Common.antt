-- ===== src/Common.antt =====
-- Names that every other module uses: the libraries', passed on, and those of the children.
mod Tests
mod Family
pub mod Lists
pub use Tests.*
pub use Family.{eq_self, update, update_self, update_cases, ap-update, eq_true}
pub use Lists.{length, length-append, get_or, set, take, drop, replicate, All}
pub use Prim.Native.Nat.{ℕ, zero, suc, ◌+◌, ◌-◌, ◌*◌, ◌/◌, ◌%◌, ◌^◌, ◌≤◌, ◌<◌, min}
pub use mathlib.Core.Path.{◌≡◌, refl, sym, ap, ◌∙◌}
pub use mathlib.Core.Logic.{◌≢◌, ◌⊎◌, inl, inr}
pub use mathlib.Core.Bool.{Bool, true, false, not, ◌&&◌, ◌||◌}
pub use mathlib.Core.Option.{Option, none, some}
pub use mathlib.Core.List.{List, [], ◌∷◌, ◌++◌}
pub use native.Mathlib.Omega.{arith}
