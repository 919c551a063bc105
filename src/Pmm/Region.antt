-- ===== src/Pmm/Region.antt =====
-- `mark_usable_region` while `pmm_initialize` runs: which pages it adds to the free ones.

use myos_gui_desktop.Base.{
  ℕ, ◌+◌, ◌-◌, ◌*◌, ◌/◌, ◌%◌, ◌≤◌, ◌<◌, ◌≡◌, refl, ◌⊎◌, inl, inr, false, arith,
}
use myos_gui_desktop.Base.Tests.{ltb, leb, if◌then◌else◌, Bool-cases}
use myos_gui_desktop.Base.Masks.{round_down}
use myos_gui_desktop.Pmm.{
  Pmm, page_size, max_pages, managed_limit, bitmap_test, mark_pages, raise_end, mark_between,
  mark_usable_region,
}
use myos_gui_desktop.Pmm.Mark.{Marked, IsFresh, align_up_page, mark_pages-Marked, Marked-IsFresh}

-- `q` is fresh, and what is free in it was free in `p` or is a page between the two addresses.
pub record Grown (start end : ℕ) (p q : Pmm) : Type 0 where
  pub fresh : IsFresh q
  pub same_start : q.managed_start ≡ p.managed_start
  pub from :
      (i : ℕ)
      → i < max_pages
      → bitmap_test q.page_bitmap i ≡ false
      → (bitmap_test p.page_bitmap i ≡ false)
        ⊎ ((start ≤ i * page_size) × (i * page_size + page_size ≤ end))

Grown-refl : {start end : ℕ} {p : Pmm} → IsFresh p → Grown start end p p
Grown-refl f = record { fresh = f; same_start = refl; from = λ i l e. inl e }

-- Marking the whole pages between two page-aligned addresses in the managed memory.
module _ {p : Pmm} (f : IsFresh p) {start end : ℕ} (low : p.managed_start ≤ start)
    (high : end ≤ managed_limit) (le : start < end) (a : start % page_size ≡ 0)
    (b : end % page_size ≡ 0) where
  abbrev raised : Pmm
  raised = raise_end end p

  raised-IsFresh : IsFresh raised × (end ≤ raised.managed_end)
  raised-IsFresh = elim (Bool-cases (ltb p.managed_end end)) [
    | inl up ↦ rw up (
      record {
        valid = record {
          words = f.valid.words;
          start_pos = f.valid.start_pos;
          start_aligned = f.valid.start_aligned;
          end_aligned = b;
          ordered = omega arith;
          limit = high;
          used_word = f.valid.used_word;
          total_le = f.valid.total_le;
          counted = f.valid.counted;
          managed = λ i l e. ground (arith, f.valid.managed i l e);
        };
        unused = f.unused;
        all_counted = f.all_counted;
      },
      omega arith,
    )
    | inr same ↦ rw same (f, ground arith)
  ]

  raised-Marked :
      Marked
        (end / page_size - start / page_size)
        (start / page_size)
        raised
        (mark_pages (end / page_size - start / page_size) (start / page_size) raised)
  raised-Marked =
      mark_pages-Marked (end / page_size - start / page_size) (start / page_size) raised
        raised-IsFresh.0.valid.words (omega arith)

  same_raised : (raised.page_bitmap ≡ p.page_bitmap) × (raised.managed_start ≡ p.managed_start)
  same_raised = ground arith

  mark-Grown :
      Grown start end p
        (mark_pages (end / page_size - start / page_size) (start / page_size) raised)
  mark-Grown = record {
    fresh =
        Marked-IsFresh raised-IsFresh.0 (omega (arith, same_raised.1))
          (omega (arith, raised-IsFresh.1)) (omega arith) raised-Marked;
    same_start = omega (arith, raised-Marked.start, same_raised.1);
    from = λ i l e. ground (arith, raised-Marked.bits i, same_raised.0);
  }

mark_between-Grown :
    {p : Pmm}
    → IsFresh p
    → (start end : ℕ) → p.managed_start ≤ start
    → end ≤ managed_limit
    → start % page_size ≡ 0
    → end % page_size ≡ 0
    → Grown start end p (mark_between start end p)
unfolding mark_between
mark_between-Grown f start end low high a b = elim (Bool-cases (leb end start)) [
  | inl empty ↦ rw empty (Grown-refl f)
  | inr some_pages ↦ rw some_pages (mark-Grown f low high (ground arith) a b)
]

Grown-mono :
    {start end start0 end0 : ℕ} {p q : Pmm}
    → start0 ≤ start
    → end ≤ end0
    → Grown start end p q
    → Grown start0 end0 p q
Grown-mono a b g = record {
  fresh = g.fresh;
  same_start = g.same_start;
  from = λ i l e. ground (arith, g.from i l e);
}

-- `mark_usable_region` on a fresh state keeps it fresh: only whole pages of the region become free.
pub mark_usable_region-Grown :
    (start0 end0 : ℕ) {p : Pmm}
    → IsFresh p
    → p.managed_start ≤ managed_limit
    → start0 ≤ managed_limit
    → end0 ≤ managed_limit
    → Grown start0 end0 p (mark_usable_region start0 end0 p)
unfolding mark_usable_region
mark_usable_region-Grown start0 end0 {p} f ms hs he =
    rw (align_up_page start0 hs, round_down end0 (omega arith))
      (Grown-mono (clip_start.0) clip_end.0
        (mark_between-Grown f start end clip_start.1 clip_end.1 clip_start.2 clip_end.2))
  where
    start : ℕ
    start =
        if ltb ((start0 + 4095) / 4096 * 4096) p.managed_start
        then p.managed_start
        else (start0 + 4095) / 4096 * 4096

    end : ℕ
    end = if ltb managed_limit (end0 / 4096 * 4096) then managed_limit else end0 / 4096 * 4096

    clip_start : (start0 ≤ start) × (p.managed_start ≤ start) × (start % page_size ≡ 0)
    clip_start = (ground arith, ground arith, ground (arith, f.valid.start_aligned))

    clip_end : (end ≤ end0) × (end ≤ managed_limit) × (end % page_size ≡ 0)
    clip_end = (ground arith, ground arith, ground arith)
