-- ===== src/Common.antt =====
-- The names that the other modules share: the libraries', passed on, and those of the children.
mod Tests
mod Lists
mod Int
mod Maps
mod Chars
pub use Tests.*
pub use Lists.{
  length, length-append, Unique, replicate, take, drop, get_elem?, modify, length-modify,
  get_elem?-modify,
}
pub use Int.*
unfoldable pub use Chars.{chars}
pub use Chars.{chars-of_list}
unfoldable pub use Lists.{contains}
unfoldable pub use Maps.{lookup, insert, delete}
pub use Maps.{Map, has, Distinct, lookup-nil, lookup-insert, lookup-delete}
pub use Prim.Native.Nat.{ℕ, zero, suc, ◌+◌, ◌-◌, ◌*◌, ◌/◌, ◌%◌, ◌≤◌, ◌<◌}
pub use Prim.Native.String.{String}
pub use mathlib.Core.Path.{◌≡◌, refl, sym, ap, ◌∙◌, subst}
pub use mathlib.Core.Logic.{◌≢◌, ◌↔◌, ◌⊎◌, inl, inr}
pub use mathlib.Core.Bool.{Bool, true, false, not, ◌&&◌, ◌||◌}
pub use mathlib.Core.Option.{Option, none, some, some-injective}
pub use mathlib.Core.List.{List, [], ◌∷◌, ◌++◌, map, reverse}
pub use native.Mathlib.Omega.{arith}
