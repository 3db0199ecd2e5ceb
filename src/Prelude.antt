-- ===== src/Prelude.antt =====
-- The names that the other modules share: the libraries', passed on, and those of the children.
mod Tests
mod Lists
mod Strings
mod Sort
mod Dicts
mod Sets
mod Results
pub mod Floats
pub mod Utf8
pub use Tests.*
pub use Lists.*
pub use Strings.{Text, codes, text_eq_refl, text_eq_iff}
unfoldable pub use Strings.{text_eq, text_lt, is_space, is_blank}
pub use Sort.{
  insert_sorted-perm, sorted-perm, length-insert_sorted, length-sorted, All-insert_sorted,
  All-sorted, Any-insert_sorted, IsSortedBy, IsAscending, insert_sorted-IsAscending,
  sorted-IsAscending, insert_sorted-IsSortedBy, sorted-IsSortedBy,
}
unfoldable pub use Sort.{insert_sorted, sorted}
pub use Dicts.{Dict, lookup-insert, lookup-remove, lookup-insert_self, lookup-remove_self}
unfoldable pub use Dicts.{lookup, insert, remove}
pub use Sets.{has-add_to, has-discard, has-union}
unfoldable pub use Sets.{has, add_to, discard, union}
pub use Results.{
  Error, value_error, overflow_error, index_error, transition_error, port_error,
  authentication_error, foreign_error, Result, ok, raise, ◌>>=◌, >>=-eq-ok, Result-cases,
  ok-injective,
}
pub use Prim.Native.Nat.{ℕ, zero, suc, ◌+◌, ◌-◌, ◌*◌, ◌/◌, ◌%◌, ◌^◌, ◌≤◌, ◌<◌, min, max}
pub use mathlib.Core.Path.{◌≡◌, refl, sym, ap, ap₂, ◌∙◌, subst}
pub use mathlib.Core.Logic.{◌≢◌, ◌↔◌, ◌⊎◌, inl, inr}
pub use mathlib.Core.Bool.{Bool, true, false, ◌&&◌, ◌||◌, not}
pub use mathlib.Core.Option.{Option, none, some}
pub use mathlib.Core.List.{List, [], ◌∷◌, ◌++◌, map, reverse, Perm}
pub use native.Mathlib.Omega.{arith}
