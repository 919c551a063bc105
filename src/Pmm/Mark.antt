-- ===== src/Pmm/Mark.antt =====
-- `mark_usable_region`: the pages that it makes free, and the invariant at start-up.

use myos_gui_desktop.Base.{
  ℕ, zero, suc, ◌+◌, ◌-◌, ◌*◌, ◌/◌, ◌%◌, ◌^◌, ◌≤◌, ◌<◌, ◌≡◌, refl, ap, ◌∙◌, inl, inr, false,
  bit_and, arith,
}
use myos_gui_desktop.Base.Tests.{if◌then◌else◌, Bool-cases}
use myos_gui_desktop.Base.Lists.{length}
use myos_gui_desktop.Base.Bitmap.{length-clear_bit}
use myos_gui_desktop.Base.Masks.{round_down}
use myos_gui_desktop.Base.Runs.{within, clear_count-le}
use myos_gui_desktop.Pmm.{
  Pmm, page_size, max_pages, managed_limit, bitmap_words, bitmap_test, bitmap_clear, align_up,
  mark_pages,
}
use myos_gui_desktop.Pmm.Clear.{bitmap_test-bitmap_clear, free_count-bitmap_clear}
use myos_gui_desktop.Pmm.Valid.{IsValid, free_count}

-- One round of the loop of `mark_usable_region`.
abbrev mark_one : ℕ → Pmm → Pmm
mark_one page p =
    if bitmap_test p.page_bitmap page
    then record p {
      page_bitmap = bitmap_clear p.page_bitmap page;
      total_pages_count = (p.total_pages_count + 1) % 2 ^ 32;
    }
    else p

-- `q` is `p` with `n` pages from `i` on free and counted.
pub record Marked (n i : ℕ) (p q : Pmm) : Type 0 where
  pub words : length q.page_bitmap ≡ length p.page_bitmap
  pub start : q.managed_start ≡ p.managed_start
  pub end : q.managed_end ≡ p.managed_end
  pub used : q.used_pages_count ≡ p.used_pages_count
  pub bits :
      (j : ℕ)
      → bitmap_test q.page_bitmap j ≡ (if within i n j then false else bitmap_test p.page_bitmap j)
  pub counted : p.total_pages_count ≡ free_count p → q.total_pages_count ≡ free_count q

module _ (page : ℕ) (p : Pmm) (words : length p.page_bitmap ≡ bitmap_words)
    (inside : page < max_pages) where
  mark_one-Marked : Marked 1 page p (mark_one page p)
  mark_one-Marked = elim (Bool-cases (bitmap_test p.page_bitmap page)) [
    | inl taken ↦ rw taken record {
      words = cleared_words;
      start = refl;
      end = refl;
      used = refl;
      bits = λ j. ground (arith, bitmap_test-bitmap_clear page p words inside j);
      counted = λ e. omega (
        arith,
        free_count-bitmap_clear page p words inside taken,
        clear_count-le (bitmap_test p.page_bitmap) max_pages,
      );
    }
    | inr free ↦ rw free record {
      words = refl;
      start = refl;
      end = refl;
      used = refl;
      bits = λ j. ground arith;
      counted = λ e. e;
    }
  ]
    where
      cleared_words : length (bitmap_clear p.page_bitmap page) ≡ length p.page_bitmap
      cleared_words = unfold bitmap_clear in length-clear_bit 32 p.page_bitmap page

Marked-trans :
    {n i : ℕ} {p q r : Pmm} → Marked 1 i p q → Marked n (i + 1) q r → Marked (suc n) i p r
Marked-trans a b = record {
  words = omega (arith, a.words, b.words);
  start = omega (arith, a.start, b.start);
  end = omega (arith, a.end, b.end);
  used = omega (arith, a.used, b.used);
  bits = λ j. ground (arith, a.bits j, b.bits j);
  counted = λ e. b.counted (a.counted e);
}

pub mark_pages-Marked :
    (n i : ℕ) (p : Pmm)
    → length p.page_bitmap ≡ bitmap_words
    → i + n ≤ max_pages
    → Marked n i p (mark_pages n i p)
unfolding mark_pages
mark_pages-Marked zero i p words fits = record {
  words = refl;
  start = refl;
  end = refl;
  used = refl;
  bits = λ j. ground arith;
  counted = λ e. e;
}
mark_pages-Marked (suc n) i p words fits =
    let one : Marked 1 i p (mark_one i p) = mark_one-Marked i p words (omega arith) in
    Marked-trans one
      (mark_pages-Marked n (i + 1) (mark_one i p) (omega (arith, one.words)) (omega arith))

-- What holds while `pmm_initialize` runs.
pub record IsFresh (p : Pmm) : Type 0 where
  pub valid : IsValid p
  pub unused : p.used_pages_count ≡ 0
  pub all_counted : p.total_pages_count ≡ free_count p

-- `align_up` to a page rounds up to a multiple of the page size.
pub align_up_page : (x : ℕ) → x ≤ managed_limit → align_up x page_size ≡ (x + 4095) / 4096 * 4096
unfolding align_up
align_up_page x h =
    let fits : (x + 4096 - 1) % 2 ^ 32 ≡ x + 4095 = omega arith in
    ap (λ t. bit_and t (2 ^ 32 - 4096)) fits ∙ round_down (x + 4095) (omega arith)

-- The pages of a region are free after it is marked, in a state that was fresh.
module _ {p q : Pmm} (f : IsFresh p) {first last : ℕ} (low : p.managed_start / page_size ≤ first)
    (high : last ≤ p.managed_end / page_size) (le : first ≤ last)
    (m : Marked (last - first) first p q) where
  Marked-IsValid : IsValid q
  Marked-IsValid = record {
    words = omega (arith, m.words, f.valid.words);
    start_pos = omega (arith, m.start, f.valid.start_pos);
    start_aligned = rw m.start f.valid.start_aligned;
    end_aligned = rw m.end f.valid.end_aligned;
    ordered = omega (arith, m.start, m.end, f.valid.ordered);
    limit = omega (arith, m.end, f.valid.limit);
    used_word = omega (arith, m.used, f.unused);
    total_le =
        omega
          (arith, m.counted f.all_counted, clear_count-le (bitmap_test q.page_bitmap) max_pages);
    counted = omega (
      arith,
      m.used,
      f.unused,
      m.counted f.all_counted,
      clear_count-le (bitmap_test q.page_bitmap) max_pages,
    );
    managed = λ i l e.
        rw (m.start, m.end)
          (elim (Bool-cases (within first (last - first) i)) [
            | inl in_region ↦ (ground (arith, low), ground (arith, high))
            | inr other ↦ f.valid.managed i l (ground (arith, m.bits i))
          ]);
  }

  pub Marked-IsFresh : IsFresh q
  Marked-IsFresh = record {
    valid = Marked-IsValid;
    unused = omega (arith, m.used, f.unused);
    all_counted = m.counted f.all_counted;
  }
