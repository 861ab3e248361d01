-- ===== src/Base.antt =====
-- The names that the other modules share: the libraries', passed on, and those of the children.
mod Tests
mod Equality
mod Lists
mod Maps
mod Int
pub use Tests.*
pub use Int.*
pub use Equality.*
unfoldable pub use Lists.{keep, any, all, find, count}
pub use Lists.{
  length, get_elem?, In-append, append-In, In-get, length-append, length-keep-le, In, find-In,
  find-none, all-In, any-In, In-any,
}
unfoldable pub use Maps.{lookup, insert, erase}
pub use Maps.{
  Map, lookup-insert, lookup-insert_self, lookup-erase, length-insert-le, length-erase-le,
}
pub use Prim.Native.Nat.{ℕ, zero, suc, ◌+◌, ◌-◌, ◌*◌, ◌/◌, ◌%◌, ◌^◌, ◌≤◌, ◌<◌, min, max}
pub use Prim.Native.Char.{code}
pub use Prim.Native.String.{String}
pub use mathlib.Core.Path.{◌≡◌, refl, sym, ap, ◌∙◌, subst}
pub use mathlib.Core.Logic.{◌≢◌, ◌↔◌, ◌⊎◌, inl, inr}
pub use mathlib.Core.Bool.{Bool, true, false, not, ◌&&◌, ◌||◌}
pub use mathlib.Core.Option.{Option, none, some}
pub use mathlib.Core.List.{List, [], ◌∷◌, ◌++◌, map}
pub use native.Mathlib.Omega.{arith}
