-- ===== src/Base.antt =====
-- The names that the other modules share: the libraries', passed on, and those of the children.
mod Tests
mod Strings
mod Floats
mod Lists
mod Words
mod Sorting
mod Decimal
mod Order
mod Arithmetic
mod Subtraction
mod Tables
pub use Tests.*
unfoldable pub use Words.{
  is_space, is_stripped, ends_stripped, join, split, strip, cons_head, attach,
}
pub use Words.{IsWord, split-IsWord, split-join}
unfoldable pub use Sorting.{insert, sort}
pub use Sorting.{
  IsSorted, All-insert, All-sort, In-sort, sort-IsSorted, take-IsSorted, In-take_sorted,
}
unfoldable pub use Order.{text_leb}
pub use Order.{text_leb_total, text_leb_trans}
unfoldable pub use Arithmetic.{
  add_double, one_minus, divide_double, round_to_12, round_half_even, rounded_ratio, sqrt_double,
}
pub use Arithmetic.{one}
unfoldable pub use Subtraction.{rounded_double, sub_double}
pub use Subtraction.{sub_double-positive}
unfoldable pub use Decimal.{digits, decimal, zeros, padded, value_from}
pub use Decimal.{value_from-padded, length-padded}
unfoldable pub use Lists.{elem, filter}
pub use Lists.{
  length, take, All, In, AreDistinct, All-map, All-append, All-take, All-In, All-of,
  AreDistinct-take, In-append, In-take, length-take, All-of_map, elem-In, drop, concat,
  take_append_drop, drop-drop, drop_all, length-take-drop, All-drop, In-filter,
}
unfoldable pub use Floats.{leb_double, ltb_double, ◌+ℤ◌, negate}
pub use Floats.{+ℤ-swap}
pub use Floats.{ℤ, pos, negsuc, Double, nan, minus_infinity, finite, plus_infinity}
unfoldable pub use Tables.{lookup, put, remove}
pub use Tables.{
  Table, lookup-put, lookup-remove, lookup-put_self, HasUniqueKeys, put-HasUniqueKeys, In-lookup,
  lookup-In,
}
pub use Strings.{Text, literal, text_beq_refl, text_beq_iff, text_eq}
unfoldable pub use Strings.{text_beq}
pub use Prim.Native.Nat.{ℕ, zero, suc, ◌+◌, ◌-◌, ◌*◌, ◌/◌, ◌%◌, ◌≤◌, ◌<◌}
pub use mathlib.Core.Path.{◌≡◌, refl, sym, ap, ◌∙◌, subst}
pub use mathlib.Core.Logic.{◌≢◌, ◌↔◌, ◌⊎◌, inl, inr}
pub use mathlib.Core.Bool.{Bool, true, false, not, ◌&&◌, ◌||◌}
pub use mathlib.Core.Option.{Option, none, some}
pub use mathlib.Core.List.{List, [], ◌∷◌, ◌++◌, map}
pub use native.Mathlib.Omega.{arith}
