-- ===== src/Base/Bitmaps.antt =====
-- How many bits of a bitmap are set, after one of them is switched.
use Prim.Native.Nat.{ℕ, ◌+◌, ◌/◌, ◌<◌}
use mathlib.Core.Path.{◌≡◌, sym}
use mathlib.Core.Bool.{true, false}
use mathlib.Core.List.{List}
use trade_kernel.Base.Lists.{length}
use trade_kernel.Base.Find.{count_below, count_below-switch}
use trade_kernel.Base.Bits.{
  bitmap_test, bitmap_set, bitmap_clear, bitmap_test-set_self, bitmap_test-set_ne,
  bitmap_test-clear_self, bitmap_test-clear_ne,
}

module _ (w : ℕ) (bm : List ℕ) (n i : ℕ) (below : i < n) (room : i / w < length bm) where
  pub count-bitmap_set :
      bitmap_test w bm i ≡ false
      → count_below (bitmap_test w (bitmap_set w bm i)) n ≡ count_below (bitmap_test w bm) n + 1
  count-bitmap_set clear =
      count_below-switch (bitmap_test w bm) (bitmap_test w (bitmap_set w bm i)) n i below clear
        (bitmap_test-set_self w bm i room)
        (λ j ne. sym (bitmap_test-set_ne w bm i j room (λ e. ne (sym e))))

  pub count-bitmap_clear :
      bitmap_test w bm i ≡ true
      → count_below (bitmap_test w bm) n ≡ count_below (bitmap_test w (bitmap_clear w bm i)) n + 1
  count-bitmap_clear set =
      count_below-switch (bitmap_test w (bitmap_clear w bm i)) (bitmap_test w bm) n i below
        (bitmap_test-clear_self w bm i room) set
        (λ j ne. bitmap_test-clear_ne w bm i j room (λ e. ne (sym e)))
