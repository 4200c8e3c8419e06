-- ===== src/Prelude.antt =====
-- The names that the other modules share: the libraries', passed on, and those of the children,
-- which model the parts of Go's standard library that the gateway walks: strings, maps, int64.
mod Tests
mod Lists
mod Int
mod Texts
mod Spaces
mod Letters
mod Maps
mod Results
mod Sorting
mod Members
pub use Tests.*
pub use Lists.*
unfoldable pub use Int.*
unfoldable pub use Texts.*
unfoldable pub use Spaces.*
unfoldable pub use Letters.*
unfoldable pub use Maps.*
unfoldable pub use Sorting.*
pub use Members.*
pub use Results.{
  Result, ok, err, ◌>>=◌, ◌>>◌, >>=-eq-ok, ok-injective, err-injective, >>-eq-err, Result-cases,
}
pub use Prim.Native.Nat.{ℕ, zero, suc, ◌+◌, ◌-◌, ◌*◌, ◌/◌, ◌%◌, ◌^◌, ◌≤◌, ◌<◌}
pub use mathlib.Core.Path.{◌≡◌, refl, sym, ap, ◌∙◌}
pub use mathlib.Core.Logic.{◌≢◌, ◌↔◌, ◌⊎◌, inl, inr}
pub use mathlib.Core.Bool.{Bool, true, false, not, ◌&&◌, ◌||◌}
pub use mathlib.Core.Option.{Option, none, some}
pub use mathlib.Core.List.{List, [], ◌∷◌, ◌++◌, map, reverse, Memᴰ, Permᴰ}
pub use native.Mathlib.Omega.{arith}
