-- ===== src/Base.antt =====
-- The names that the other modules share: the libraries', passed on, and those of the children.
mod Tests
mod Int
mod Lists
mod Words
mod Find
mod Bits
mod Bitmaps
mod Masks
pub use Tests.*
pub use Int.{ℤ, pos, negsuc, pos_part, neg_part, sub_ℕ, ltb_ℤ}
unfoldable pub use Int.{◌+ℤ◌, ◌-ℤ◌}
pub use Lists.*
pub use Words.*
unfoldable pub use Find.{find_from, count_below}
pub use Find.{find_from_sound, find_from_first, find_from-none}
pub use Find.{
  count_below-le, count_below-ext, count_below-switch, count_below-all, count_below-none,
}
unfoldable pub use Bits.{test_bit, set_bit, clear_bit, bitmap_test, bitmap_set, bitmap_clear}
pub use Bits.{
  bitmap_test-set_self, bitmap_test-set_ne, bitmap_test-clear_self, bitmap_test-clear_ne,
}
pub use Masks.{bit_and-mask, pow-add}
pub use Bitmaps.{count-bitmap_set, count-bitmap_clear}
pub use Bits.{length-bitmap_set, length-bitmap_clear}
pub use Prim.Native.Nat.{ℕ, zero, suc, ◌+◌, ◌-◌, ◌*◌, ◌/◌, ◌%◌, ◌^◌, ◌≤◌, ◌<◌, min, bit_and}
pub use mathlib.Core.Path.{◌≡◌, refl, sym, ap, ap₂, ◌∙◌, subst}
pub use mathlib.Core.Logic.{◌≢◌, ◌↔◌, ◌⊎◌, inl, inr}
pub use mathlib.Core.Bool.{Bool, true, false, not, ◌&&◌, ◌||◌}
pub use mathlib.Core.Option.{Option, none, some}
pub use mathlib.Core.List.{List, [], ◌∷◌, ◌++◌, map, append_assoc, append-nil}
pub use native.Mathlib.Omega.{arith}
