-- ===== src/Pmm/Clear.antt =====
-- `bitmap_clear` of one page: the bits, and the number of free pages.
use myos_gui_desktop.Base.{ℕ, ◌+◌, ◌<◌, ◌≡◌, true, false, arith}
use myos_gui_desktop.Base.Tests.{◌==◌, if◌then◌else◌}
use myos_gui_desktop.Base.Lists.{length}
use myos_gui_desktop.Base.Bitmap.{test_bit-clear_bit}
use myos_gui_desktop.Base.Runs.{clear_count, clear_count_set}
use myos_gui_desktop.Pmm.{Pmm, max_pages, bitmap_words, bitmap_test, bitmap_clear}
use myos_gui_desktop.Pmm.Valid.{free_count}

module _ (page : ℕ) (p : Pmm) (words : length p.page_bitmap ≡ bitmap_words)
    (inside : page < max_pages) where
  pub bitmap_test-bitmap_clear :
      (j : ℕ)
      → bitmap_test (bitmap_clear p.page_bitmap page) j
        ≡ (if page == j then false else bitmap_test p.page_bitmap j)
  unfolding bitmap_test bitmap_clear
  bitmap_test-bitmap_clear j =
      test_bit-clear_bit 32 (omega arith) p.page_bitmap page j (omega (arith, words, inside))

  -- Freeing a taken page makes one more free page.
  pub free_count-bitmap_clear :
      bitmap_test p.page_bitmap page ≡ true
      → clear_count (bitmap_test (bitmap_clear p.page_bitmap page)) max_pages ≡ free_count p + 1
  free_count-bitmap_clear taken =
      clear_count_set (bitmap_test (bitmap_clear p.page_bitmap page)) (bitmap_test p.page_bitmap)
        page max_pages (λ j. ground (arith, bitmap_test-bitmap_clear j))
        (ground (arith, bitmap_test-bitmap_clear page)) inside
