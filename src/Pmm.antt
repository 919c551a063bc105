-- ===== src/Pmm.antt =====
-- The physical page allocator, kernel/mm/pmm.c: its static variables are the fields of `Pmm`, and
-- each function takes them and returns them. A page is a bit of `page_bitmap`, clear when the page
-- is free. Pointers are numbers, and 0 is the null pointer.
pub mod Valid
pub mod Scan
pub mod Alloc
pub mod Clear
pub mod Free
pub mod RoundTrip
pub mod Mark
pub mod Region
pub mod Init
mod Tests
use myos_gui_desktop.Base.{
  ℕ, zero, suc, ◌+◌, ◌-◌, ◌*◌, ◌/◌, ◌%◌, ◌^◌, bit_and, Bool, true, false, not, ◌&&◌, ◌||◌, List, [],
  ◌∷◌,
}
use myos_gui_desktop.Base.Tests.{ltb, leb, ◌==◌, if◌then◌else◌}
use myos_gui_desktop.Base.Lists.{replicate, take}
use myos_gui_desktop.Base.Bitmap.{Words, test_bit, set_bit, clear_bit}
use myos_gui_desktop.Base.Runs.{set_bits}

abbrev pub page_size : ℕ
page_size = 4096

-- `PMM_MANAGED_LIMIT`, `PMM_MAX_PAGES` and the number of words of `page_bitmap`.
abbrev pub managed_limit : ℕ
managed_limit = 0x0800_0000

abbrev pub max_pages : ℕ
max_pages = 32768

abbrev pub bitmap_words : ℕ
bitmap_words = 1024

abbrev pub e820_memory_usable : ℕ
e820_memory_usable = 1

abbrev pub e820_max_entries : ℕ
e820_max_entries = 32

-- `struct e820_entry`; `base` and `size` (the field `length`) are 64-bit words.
pub record E820Entry : Type 0 where
  pub base : ℕ
  pub size : ℕ
  pub kind : ℕ
  pub acpi : ℕ

pub record Pmm : Type 0 where
  pub page_bitmap : Words
  pub managed_start : ℕ
  pub managed_end : ℕ
  pub total_pages_count : ℕ
  pub used_pages_count : ℕ
  pub e820_entry_count : ℕ

-- `(value + alignment - 1) & ~(alignment - 1)` on 32-bit words.
unfoldable pub align_up : ℕ → ℕ → ℕ
align_up value alignment = bit_and ((value + alignment - 1) % 2 ^ 32) (2 ^ 32 - alignment)

pub bitmap_set : Words → ℕ → Words
bitmap_set = set_bit 32

unfoldable pub bitmap_clear : Words → ℕ → Words
bitmap_clear = clear_bit 32

unfoldable pub bitmap_test : Words → ℕ → Bool
bitmap_test = test_bit 32

-- The loop of `mark_usable_region`, `n` pages from `page` on.
unfoldable pub mark_pages : ℕ → ℕ → Pmm → Pmm
mark_pages zero page p = p
mark_pages (suc n) page p = mark_pages n (page + 1) (
    if bitmap_test p.page_bitmap page
    then record p {
      page_bitmap = bitmap_clear p.page_bitmap page;
      total_pages_count = (p.total_pages_count + 1) % 2 ^ 32;
    }
    else p)

-- `if (end > managed_end) managed_end = end;`
abbrev pub raise_end : ℕ → Pmm → Pmm
raise_end end p = if ltb p.managed_end end then record p { managed_end = end } else p

-- `mark_usable_region` from its test for an empty region on.
unfoldable pub mark_between : ℕ → ℕ → Pmm → Pmm
mark_between start end p =
    if leb end start
    then p
    else mark_pages (end / page_size - start / page_size) (start / page_size) (raise_end end p)

unfoldable pub mark_usable_region : ℕ → ℕ → Pmm → Pmm
mark_usable_region start end p =
    let aligned_start = align_up start page_size in
    let aligned_end = bit_and end (2 ^ 32 - page_size) in
    mark_between (if ltb aligned_start p.managed_start then p.managed_start else aligned_start)
      (if ltb managed_limit aligned_end then managed_limit else aligned_end) p

-- One round of the loop over the memory map.
unfoldable pub mark_entry : E820Entry → Pmm → Pmm
mark_entry entry p =
    if not (entry.kind == e820_memory_usable) || (entry.size == 0)
    then p
    else if leb managed_limit entry.base
    then p
    else (let end64 = (entry.base + entry.size) % 2 ^ 64 in
        mark_usable_region (entry.base % 2 ^ 32)
          (if ltb managed_limit end64 then managed_limit else end64 % 2 ^ 32) p)

unfoldable pub mark_entries : List E820Entry → Pmm → Pmm
mark_entries [] p = p
mark_entries (entry ∷ rest) p = mark_entries rest (mark_entry entry p)

-- The state before the loop over the memory map: every page is taken, and none is managed.
unfoldable pub reset : (start entry_count : ℕ) → Pmm
reset start entry_count = record {
  page_bitmap = replicate bitmap_words 0xffff_ffff;
  managed_start = start;
  managed_end = start;
  total_pages_count = 0;
  used_pages_count = 0;
  e820_entry_count = entry_count;
}

-- `kernel_end` is the address of the linker's symbol. The entries are the array that the boot
-- loader fills; of them the loop reads the first `entry_count`, and 32 at most.
unfoldable pub pmm_initialize : ℕ → List E820Entry → ℕ → Pmm
pmm_initialize kernel_end entries entry_count =
    let p =
      mark_entries (take e820_max_entries (take entry_count entries))
        (reset (align_up kernel_end page_size) entry_count) in
    if p.total_pages_count == 0 then mark_usable_region p.managed_start 0x0040_0000 p else p

-- The inner loop of `pmm_alloc_pages`: how many pages are free from `page + run` on, up to `count`.
unfoldable pub free_run : ℕ → Words → (last_page count page run : ℕ) → ℕ
free_run zero words last_page count page run = run
free_run (suc fuel) words last_page count page run =
    let more = free_run fuel words last_page count page (run + 1) in
    if ltb (page + run) last_page && not (bitmap_test words (page + run)) && ltb run count
    then more
    else run

-- What `pmm_alloc_pages` does with the run that it found.
abbrev pub take_run : (count page : ℕ) → Pmm → Pmm
take_run count page p = record p {
  page_bitmap = set_bits 32 count page p.page_bitmap;
  used_pages_count = (p.used_pages_count + count) % 2 ^ 32;
}

-- The outer loop: it takes the first run that is long enough, and goes on behind a shorter one.
-- A run of `count` ends by its own test, so `count + 1` rounds are enough for the inner loop.
unfoldable pub alloc_from : ℕ → (last_page count page : ℕ) → Pmm → ℕ × Pmm
alloc_from zero last_page count page p = (0, p)
alloc_from (suc fuel) last_page count page p =
    let run = free_run (count + 1) p.page_bitmap last_page count page 0 in
    let later = alloc_from fuel last_page count (page + run + 1) p in
    if ltb page last_page
    then (if run == count then (page * page_size, take_run count page p) else later)
    else (0, p)

unfoldable pub pmm_alloc_pages : ℕ → Pmm → ℕ × Pmm
pmm_alloc_pages count p =
    let first_page = p.managed_start / page_size in
    let last_page = p.managed_end / page_size in
    if (count == 0) || ltb p.total_pages_count count
    then (0, p)
    else alloc_from (last_page - first_page + 1) last_page count first_page p

unfoldable pub pmm_alloc_page : Pmm → ℕ × Pmm
pmm_alloc_page = pmm_alloc_pages 1

-- The loop of `pmm_free_pages_block`, for pages of the bitmap: a page behind its end is left alone here,
-- while the code goes out of the array.
pub free_loop : ℕ → ℕ → Pmm → Pmm
free_loop zero page p = p
free_loop (suc n) page p = free_loop n (page + 1) (
    if bitmap_test p.page_bitmap page
    then record p {
      page_bitmap = bitmap_clear p.page_bitmap page;
      used_pages_count = (p.used_pages_count + 2 ^ 32 - 1) % 2 ^ 32;
    }
    else p)

pub pmm_free_pages_block : ℕ → ℕ → Pmm → Pmm
pmm_free_pages_block address count p =
    if (count == 0)
      || ltb address p.managed_start
      || leb p.managed_end address
      || not (address % page_size == 0)
    then p
    else if ltb p.managed_end ((address + count * page_size) % 2 ^ 32)
    then p
    else free_loop count (address / page_size) p

pub pmm_free_page : ℕ → Pmm → Pmm
pmm_free_page page = pmm_free_pages_block page 1

pub pmm_free_pages : Pmm → ℕ
pmm_free_pages p = (p.total_pages_count + 2 ^ 32 - p.used_pages_count) % 2 ^ 32
