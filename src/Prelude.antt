-- ===== src/Prelude.antt =====
-- The names that all parts share: the libraries', passed on, and those of the children.
mod Tests
mod Lists
mod Equality
pub mod Map
pub mod Sort
pub use Tests.*
pub use Lists.{
  length, take, drop, All, length-append, length-map, drop-length-append, take-length-append,
  last?-append_one, drop_last-append_one, filter-append, filter-filter, All-append, Among,
  All-Among, All-weaken, All-self,
}
unfoldable pub use Lists.{filter, find, every, any, last?, drop_last}
unfoldable pub use Equality.{text_ltb}
pub use Equality.{Eq, ◌==◌, nat_eq, Text, text_beq, text_beq_iff, text_eq, beq_refl}
pub use Prim.Native.Nat.{ℕ, zero, suc, ◌+◌, ◌-◌, ◌*◌, ◌/◌, ◌%◌, ◌≤◌, ◌<◌, min, max}
pub use mathlib.Core.Path.{◌≡◌, refl, sym, ap, ◌∙◌}
pub use mathlib.Core.Logic.{◌≢◌, ◌↔◌, ◌⊎◌, inl, inr}
pub use mathlib.Core.Bool.{Bool, true, false, not, ◌&&◌, ◌||◌}
pub use mathlib.Core.Option.{Option, none, some}
pub use mathlib.Core.List.{List, [], ◌∷◌, ◌++◌, map, append-nil, append_assoc}
pub use native.Mathlib.Omega.{arith}
