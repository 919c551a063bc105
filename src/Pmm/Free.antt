-- ===== src/Pmm/Free.antt =====
-- `pmm_free_pages_block`: which pages it frees, the invariant, and giving back what was handed out.
use myos_gui_desktop.Base.{
  ℕ, zero, suc, ◌+◌, ◌-◌, ◌*◌, ◌/◌, ◌%◌, ◌^◌, ◌≤◌, ◌<◌, ◌≡◌, refl, ◌⊎◌, inl, inr, false, not, ◌||◌,
  arith,
}
use myos_gui_desktop.Base.Tests.{◌==◌, ltb, leb, if◌then◌else◌, Bool-cases}
use myos_gui_desktop.Base.Lists.{length}
use myos_gui_desktop.Base.Bitmap.{length-clear_bit}
use myos_gui_desktop.Base.Runs.{within}
use myos_gui_desktop.Pmm.{
  Pmm, page_size, max_pages, bitmap_words, bitmap_test, bitmap_clear, free_loop,
  pmm_free_pages_block,
}
use myos_gui_desktop.Pmm.Clear.{bitmap_test-bitmap_clear, free_count-bitmap_clear}
use myos_gui_desktop.Pmm.Valid.{IsValid, free_count}

-- One round of the loop of `pmm_free_pages_block`.
abbrev pub free_one : ℕ → Pmm → Pmm
free_one page p =
    if bitmap_test p.page_bitmap page
    then record p {
      page_bitmap = bitmap_clear p.page_bitmap page;
      used_pages_count = (p.used_pages_count + 2 ^ 32 - 1) % 2 ^ 32;
    }
    else p

-- `q` is `p` with the pages `i, …, i + n - 1` free.
pub record Freed (n i : ℕ) (p q : Pmm) : Type 0 where
  pub words : length q.page_bitmap ≡ length p.page_bitmap
  pub start : q.managed_start ≡ p.managed_start
  pub end : q.managed_end ≡ p.managed_end
  pub total : q.total_pages_count ≡ p.total_pages_count
  pub bits :
      (j : ℕ)
      → bitmap_test q.page_bitmap j ≡ (if within i n j then false else bitmap_test p.page_bitmap j)
  pub counted :
      (q.used_pages_count + free_count q) % 2 ^ 32 ≡ (p.used_pages_count + free_count p) % 2 ^ 32
  pub used_word : p.used_pages_count < 2 ^ 32 → q.used_pages_count < 2 ^ 32

module _ (page : ℕ) (p : Pmm) (words : length p.page_bitmap ≡ bitmap_words)
    (inside : page < max_pages) where
  free_one-Freed : Freed 1 page p (free_one page p)
  free_one-Freed = elim (Bool-cases (bitmap_test p.page_bitmap page)) [
    | inl taken ↦ rw taken record {
      words = cleared_words;
      start = refl;
      end = refl;
      total = refl;
      bits = λ j. ground (arith, bitmap_test-bitmap_clear page p words inside j);
      counted = omega (arith, free_count-bitmap_clear page p words inside taken);
      used_word = λ h. omega arith;
    }
    | inr free ↦ rw free record {
      words = refl;
      start = refl;
      end = refl;
      total = refl;
      bits = λ j. ground arith;
      counted = refl;
      used_word = λ h. h;
    }
  ]
    where
      cleared_words : length (bitmap_clear p.page_bitmap page) ≡ length p.page_bitmap
      cleared_words = unfold bitmap_clear in length-clear_bit 32 p.page_bitmap page

Freed-trans : {n i : ℕ} {p q r : Pmm} → Freed 1 i p q → Freed n (i + 1) q r → Freed (suc n) i p r
Freed-trans a b = record {
  words = omega (arith, a.words, b.words);
  start = omega (arith, a.start, b.start);
  end = omega (arith, a.end, b.end);
  total = omega (arith, a.total, b.total);
  bits = λ j. ground (arith, a.bits j, b.bits j);
  counted = omega (arith, a.counted, b.counted);
  used_word = λ h. b.used_word (a.used_word h);
}

pub free_loop-Freed :
    (n i : ℕ) (p : Pmm)
    → length p.page_bitmap ≡ bitmap_words
    → i + n ≤ max_pages
    → Freed n i p (free_loop n i p)
unfolding free_loop
free_loop-Freed zero i p words fits = record {
  words = refl;
  start = refl;
  end = refl;
  total = refl;
  bits = λ j. ground arith;
  counted = refl;
  used_word = λ h. h;
}
free_loop-Freed (suc n) i p words fits =
    let one : Freed 1 i p (free_one i p) = free_one-Freed i p words (omega arith) in
    Freed-trans one
      (free_loop-Freed n (i + 1) (free_one i p) (omega (arith, one.words)) (omega arith))

-- What `pmm_free_pages_block` asks of a request: a block of the managed memory, whose end is a
-- 32-bit address.
pub record IsBlock (p : Pmm) (address count : ℕ) : Type 0 where
  pub some_pages : 0 < count
  pub low : p.managed_start ≤ address
  pub high : address + count * page_size ≤ p.managed_end
  pub aligned : address % page_size ≡ 0

module _ {p : Pmm} (v : IsValid p) {address count : ℕ} (b : IsBlock p address count) where
  block_below : address / page_size + count ≤ max_pages
  block_below = omega (arith, b.aligned, b.high, v.limit)

  -- A block of the managed memory is freed page by page: its pages are free afterwards, no other
  -- page changes, and used and free pages together stay the same number.
  pub pmm_free_pages_block-Freed :
      Freed count (address / page_size) p (pmm_free_pages_block address count p)
  unfolding pmm_free_pages_block
  pmm_free_pages_block-Freed =
      let open_guard : (count == 0)
            || ltb address p.managed_start
            || leb p.managed_end address
            || not (address % page_size == 0)
          ≡ false =
        ground (arith, b.some_pages, b.low, b.high, b.aligned) in
      let in_range : ltb p.managed_end ((address + count * page_size) % 2 ^ 32) ≡ false =
        ground (arith, b.high, v.limit) in
      rw open_guard
        (rw in_range (free_loop-Freed count (address / page_size) p v.words block_below))

Freed-IsValid :
    {p q : Pmm} {address count : ℕ}
    → IsValid p
    → IsBlock p address count
    → Freed count (address / page_size) p q
    → IsValid q
Freed-IsValid {p} {q} {address} {count} v b f = record {
  words = omega (arith, f.words, v.words);
  start_pos = omega (arith, f.start, v.start_pos);
  start_aligned = rw (f.start) v.start_aligned;
  end_aligned = rw (f.end) v.end_aligned;
  ordered = omega (arith, f.start, f.end, v.ordered);
  limit = omega (arith, f.end, v.limit);
  used_word = f.used_word v.used_word;
  total_le = omega (arith, f.total, v.total_le);
  counted = omega (arith, f.counted, f.total, v.counted);
  managed = λ i l e.
      rw (f.start, f.end)
        (elim (Bool-cases (within (address / page_size) count i)) [
          | inl in_block ↦ (ground (arith, b.low), ground (arith, b.high, b.aligned))
          | inr other ↦ v.managed i l (ground (arith, f.bits i))
        ]);
}

-- The requests that `pmm_free_pages_block` lets pass are those of `IsBlock`, as long as the end of
-- the block is a 32-bit address.
request-cases :
    (address count : ℕ) (p : Pmm)
    → address + count * page_size < 2 ^ 32
    → IsBlock p address count ⊎ (pmm_free_pages_block address count p ≡ p)
unfolding pmm_free_pages_block
request-cases address count p fits =
    elim (Bool-cases (
      (count == 0)
      || ltb address p.managed_start
      || leb p.managed_end address
      || not (address % page_size == 0))) [
        | inl refused ↦ inr (rw refused)
        | inr go ↦ elim (Bool-cases (ltb p.managed_end ((address + count * page_size) % 2 ^ 32))) [
          | inl too_high ↦ inr (rw (go, too_high))
          | inr ends ↦ inl record {
            some_pages = ground (arith, go);
            low = ground (arith, go);
            high = ground (arith, ends);
            aligned = ground (arith, go);
          }
        ]
      ]

-- `pmm_free_pages_block` keeps the invariant, whatever block is named, if the end of the block is a
-- 32-bit address.
pub pmm_free_pages_block-IsValid :
    (address count : ℕ) {p : Pmm}
    → IsValid p
    → address + count * page_size < 2 ^ 32
    → IsValid (pmm_free_pages_block address count p)
pmm_free_pages_block-IsValid address count {p} v fits = elim (request-cases address count p fits) [
  | inl b ↦ Freed-IsValid v b (pmm_free_pages_block-Freed v b)
  | inr same ↦ rw same v
]
