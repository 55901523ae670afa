-- ===== src/Base.antt =====
-- The names that the other modules share: the libraries', passed on, and those of the children.
mod Tests
mod Lists
mod Strings
mod Ints
mod Map
mod Text
mod Find
mod Sort
pub mod Result
pub use Tests.*
pub use Lists.*
pub use Prim.Native.Nat.{ℕ, zero, suc, ◌+◌, ◌-◌, ◌*◌, ◌/◌, ◌%◌, ◌^◌, ◌≤◌, ◌<◌}
pub use mathlib.Core.Path.{◌≡◌, refl, sym, ap, ◌∙◌, subst}
pub use mathlib.Core.Logic.{◌≢◌, ◌↔◌, ◌⊎◌, inl, inr, ⊎_elim}
pub use mathlib.Core.Bool.{Bool, true, false, not, ◌&&◌, ◌||◌}
pub use mathlib.Core.Option.{Option, none, some}
pub use mathlib.Core.List.{List, [], ◌∷◌, ◌++◌, map, Memᴰ, append-nil, append_assoc}
pub use native.Mathlib.Omega.{arith}
unfoldable pub use Strings.{str_eq, has, occ}
pub use Strings.{
  Str, codes, str_eq_iff, str_eq_refl, str_eq_sym, has_iff, has-append, occ-append, has-occ,
  Distinct,
}
unfoldable pub use Map.{lookup, insert, delete}
pub use Map.{domain, lookup-insert, lookup-delete, lookup-domain, domain-insert}
unfoldable pub use Text.{has_prefix, contains_byte, split, join}
pub use Text.{has_prefix_iff, contains_byte-append, split-ne-nil, join-split}
unfoldable pub use Sort.{str_lt, insert_sorted, sort_strings}
pub use Sort.{str_lt-total, str_lt-asym, str_lt_trans, occ-sort_strings}
unfoldable pub use Ints.{has_int, occ_int}
pub use Ints.{has_int_iff, has_int-append, occ_int-append, has_int-occ_int, DistinctInts}
unfoldable pub use Find.{index, cut}
pub use Find.{
  slice, index-no_byte, index-skip, index-first, take-append, drop-append, cut-first,
  append_cancel_left, append_cancel_right,
}
