-- ===== src/Pmm/Valid.antt =====
-- The invariant of the page allocator.
use myos_gui_desktop.Base.{ℕ, ◌+◌, ◌/◌, ◌%◌, ◌^◌, ◌≤◌, ◌<◌, ◌≡◌, false, arith}
use myos_gui_desktop.Base.Lists.{length}
use myos_gui_desktop.Base.Runs.{clear_count, clear_count-le}
use myos_gui_desktop.Pmm.{
  Pmm, page_size, managed_limit, max_pages, bitmap_words, bitmap_test, pmm_free_pages,
}

-- How many pages are free.
abbrev pub free_count : Pmm → ℕ
free_count p = clear_count (bitmap_test p.page_bitmap) max_pages

-- The pages that may be handed out.
abbrev pub InManaged : Pmm → ℕ → Type 0
InManaged p i = (p.managed_start / page_size ≤ i) × (i < p.managed_end / page_size)

pub record IsValid (p : Pmm) : Type 0 where
  pub words : length p.page_bitmap ≡ bitmap_words
  pub start_pos : 0 < p.managed_start
  pub start_aligned : p.managed_start % page_size ≡ 0
  pub end_aligned : p.managed_end % page_size ≡ 0
  pub ordered : p.managed_start ≤ p.managed_end
  pub limit : p.managed_end ≤ managed_limit
  pub used_word : p.used_pages_count < 2 ^ 32
  pub total_le : p.total_pages_count ≤ max_pages
  pub counted : (p.used_pages_count + free_count p) % 2 ^ 32 ≡ p.total_pages_count
  pub managed : (i : ℕ) → i < max_pages → bitmap_test p.page_bitmap i ≡ false → InManaged p i

-- In a valid state the number that `pmm_free_pages` reports is the number of clear bits.
pub pmm_free_pages-eq-free_count : (p : Pmm) → IsValid p → pmm_free_pages p ≡ free_count p
unfolding pmm_free_pages
pmm_free_pages-eq-free_count p v =
    omega (arith, v.used_word, v.counted, clear_count-le (bitmap_test p.page_bitmap) max_pages)
