-- ===== src/Pmm/RoundTrip.antt =====
-- A block that `pmm_alloc_pages` hands out and `pmm_free_pages_block` takes back.
use myos_gui_desktop.Base.{ℕ, ◌+◌, ◌-◌, ◌/◌, ◌<◌, ◌≡◌, ◌≢◌, inl, inr, false, arith}
use myos_gui_desktop.Base.Tests.{Bool-cases}
use myos_gui_desktop.Base.Runs.{within, clear_count-le, clear_count_same}
use myos_gui_desktop.Pmm.{
  Pmm, page_size, max_pages, bitmap_test, pmm_alloc_pages, pmm_free_pages_block,
}
use myos_gui_desktop.Pmm.Valid.{IsValid}
use myos_gui_desktop.Pmm.Alloc.{Handed, pmm_alloc_pages-Handed, pmm_alloc_pages-IsValid}
use myos_gui_desktop.Pmm.Free.{IsBlock, Freed, pmm_free_pages_block-Freed}

-- The two states have the same free pages and the same counters.
pub record SamePages (p q : Pmm) : Type 0 where
  pub bits : (i : ℕ) → bitmap_test q.page_bitmap i ≡ bitmap_test p.page_bitmap i
  pub used : q.used_pages_count ≡ p.used_pages_count
  pub total : q.total_pages_count ≡ p.total_pages_count

restored :
    {p q r : Pmm} {count a : ℕ}
    → IsValid p
    → IsValid q
    → Handed p count a q
    → Freed count (a / page_size) q r
    → SamePages p r
restored {p} {q} {r} {count} {a} v w h f = record {
  bits = bits;
  used = omega (
    arith,
    f.counted,
    f.used_word w.used_word,
    v.used_word,
    h.fewer,
    h.used,
    clear_count_same (bitmap_test r.page_bitmap) (bitmap_test p.page_bitmap) max_pages
        (λ j l. bits j),
    clear_count-le (bitmap_test p.page_bitmap) max_pages,
  );
  total = omega (arith, f.total, h.same_total);
}
  where
    bits : (i : ℕ) → bitmap_test r.page_bitmap i ≡ bitmap_test p.page_bitmap i
    bits i = elim (Bool-cases (within (a / page_size) count i)) [
      | inl mine ↦
          let start : ℕ = a / page_size in
          let at : start + (i - start) ≡ i = ground (arith, mine) in
          let was_free : bitmap_test p.page_bitmap i ≡ false =
            rw at at (h.was_free (i - start) (ground (arith, mine))) in
          ground (arith, f.bits i, mine, was_free)
      | inr other ↦ ground (arith, f.bits i, h.taken i)
    ]

-- Giving back what `pmm_alloc_pages` handed out restores every bit of the bitmap and both counters.
pub pmm_free_pages_block-pmm_alloc_pages :
    (count : ℕ) {p : Pmm}
    → IsValid p
    → 0 < count
    → (pmm_alloc_pages count p).0 ≢ 0
    → let (a, q) = pmm_alloc_pages count p in SamePages p (pmm_free_pages_block a count q)
pmm_free_pages_block-pmm_alloc_pages count {p} v pos nonzero =
    let h : Handed p count (pmm_alloc_pages count p).0 (pmm_alloc_pages count p).1 =
      pmm_alloc_pages-Handed count v nonzero in
    let w : IsValid (pmm_alloc_pages count p).1 = pmm_alloc_pages-IsValid count v in
    let b : IsBlock (pmm_alloc_pages count p).1 (pmm_alloc_pages count p).0 count = record {
      some_pages = pos;
      low = omega (arith, h.same_start, h.low);
      high = omega (arith, h.same_end, h.high);
      aligned = h.aligned;
    } in
    restored v w h (pmm_free_pages_block-Freed w b)
