-- ===== src/Paging/Tests.antt =====
-- An address space in a small memory, and the theorems there.
use myos_gui_desktop.Base.{
  ℕ, ◌+◌, ◌*◌, ◌/◌, ◌%◌, ◌^◌, ◌<◌, ◌≡◌, refl, sym, ap, ◌∙◌, inl, inr, true, [], ◌∷◌, arith,
}
use myos_gui_desktop.Base.Lists.{replicate}
use myos_gui_desktop.Base.Tests.{◌==◌, if◌then◌else◌, Bool-cases, ==_iff}
use myos_gui_desktop.Base.Bitmap.{test_bit, set_bit, clear_bit}
use myos_gui_desktop.Base.Runs.{set_bits}
use myos_gui_desktop.Pmm.{
  Pmm, bitmap_test, bitmap_clear, align_up, reset, mark_pages, mark_between, mark_usable_region,
  mark_entry, mark_entries, pmm_initialize, free_run, alloc_from, pmm_alloc_pages, pmm_alloc_page,
}
use myos_gui_desktop.Pmm.Valid.{IsValid}
use myos_gui_desktop.Pmm.Init.{pmm_initialize_lem}
use myos_gui_desktop.Paging.{
  Statics, Memory, Paging, put, table_index, directory_index, new_table, ensure_table,
  paging_map_page_in_space, paging_unmap_page_in_space, paging_get_physical_in_space,
  paging_create_address_space,
}
use myos_gui_desktop.Paging.Space.{entry_in, IsApart}
use myos_gui_desktop.Paging.Map.{paging_get_physical_in_space-paging_map_page_in_space}
use myos_gui_desktop.Paging.Unmap.{paging_get_physical_in_space-paging_unmap_page_in_space}
use myos_gui_desktop.Paging.Overlap.{paging_create_address_space-overlap}

abbrev statics : Statics
statics = record {
  kernel_page_directory = 0x1000;
  identity_page_tables = 0x20_0000;
  framebuffer_page_tables = 0x30_0000;
  kernel_space = 0x40_0000;
}

-- Three free pages from 0x10000 on.
pages : Pmm
unfolding align_up reset mark_pages mark_between mark_usable_region mark_entry mark_entries
    pmm_initialize free_run alloc_from pmm_alloc_pages bitmap_test bitmap_clear test_bit set_bit
    clear_bit set_bits replicate
pages = pmm_initialize 0xfabc (record { base = 0xf000; size = 0x4800; kind = 1; acpi = 0 } ∷ []) 1

pages-IsValid : IsValid pages
unfolding pages
pages-IsValid =
    (pmm_initialize_lem 0xfabc (record { base = 0xf000; size = 0x4800; kind = 1; acpi = 0 } ∷ []) 1
      (omega arith) (omega arith)).0

starts_behind : 0x1000 < pages.managed_start
unfolding pages
starts_behind = omega arith

-- The space at 0x2000 has its directory at 0x5000, where entry 1 names the table at 0x7000, which maps
-- the page 0x400000 to 0x9000. The kernel's directory has the table 0x8000 as its entry 0.
abbrev words : Memory
words = put 0x2000 0x5000 (put 0x5004 0x7007 (put 0x7000 0x9007 (put 0x1000 0x8003 (λ a. 0))))

abbrev start : Paging
start = record {
  memory = words;
  current_space = 0x2000;
  boot_framebuffer_physical = 0;
  boot_framebuffer_size = 0;
  cr0 = 0;
  cr3 = 0x5000;
  pmm = pages;
}

words-entry : (j : ℕ) → j < 1024 → entry_in words 0x5000 j ≡ (if j == 1 then 0x7007 else 0)
words-entry j l = elim (Bool-cases (j == 1)) [
  | inl one ↦ rw one (ground (arith, one))
  | inr other ↦ rw other (ground (arith, other))
]

words-lt : (a : ℕ) → words a < 2 ^ 32
words-lt a = ground arith

words-present :
    (j : ℕ)
    → j < 1024
    → entry_in words 0x5000 j % 2 ≡ 1
    → (j ≡ 1) × (entry_in words 0x5000 j ≡ 0x7007)
words-present j l odd = elim (Bool-cases (j == 1)) [
  | inl one ↦ let e = words-entry j l in ((==_iff j 1).0 one, ground (arith, e, one))
  | inr other ↦ let e = words-entry j l in absurd (ground (arith, e, other, odd))
]

taken :
    (a page : ℕ)
    → a / 4096 ≡ page
    → bitmap_test pages.page_bitmap page ≡ true
    → bitmap_test pages.page_bitmap (a / 4096) ≡ true
taken a page same h = ap (bitmap_test pages.page_bitmap) same ∙ h

start-IsApart : (index : ℕ) → index < 4 → IsApart start 0x2000 index
unfolding pages bitmap_test test_bit
start-IsApart index l = record {
  words = words-lt;
  valid = pages-IsValid;
  some_space = omega arith;
  some_directory = omega arith;
  aligned = refl;
  inside = omega arith;
  apart = omega arith;
  slot_apart = omega arith;
  taken = refl;
  slot_taken = taken (0x2004 + 4 * index) 2 (omega arith) refl;
  directory_taken = refl;
  tables = λ j b odd.
      let (here, e) = words-present j b odd in
      (
        taken (entry_in words 0x5000 j) 7 (omega (arith, e)) refl,
        λ h. omega (arith, h, e),
        λ h. omega (arith, h, e),
        λ h. omega (arith, h, e),
      );
  distinct = λ j b n odd odd' h.
      n (omega (arith, (words-present j b odd).0, (words-present index (omega arith) odd').0));
}

new_table_mapped : (paging_map_page_in_space statics 0x2000 0x5678 0x9abc 6 start).0 ≡ true
unfolding pages paging_map_page_in_space ensure_table new_table table_index directory_index
    pmm_alloc_page pmm_alloc_pages alloc_from free_run bitmap_test test_bit
new_table_mapped = refl

paging_get_physical_in_space-paging_map_page_in_space_example :
    paging_get_physical_in_space 0x2000 0x5123
      (paging_map_page_in_space statics 0x2000 0x5678 0x9abc 6 start).1
    ≡ 0x9123
paging_get_physical_in_space-paging_map_page_in_space_example =
    paging_get_physical_in_space-paging_map_page_in_space statics start 0x2000 0x5678 0x9abc 6
      (omega arith) (omega arith) (omega arith) (start-IsApart 0 (omega arith)) new_table_mapped
      0x5123 (omega arith)

was_mapped : paging_get_physical_in_space 0x2000 0x40_0123 start ≡ 0x9123
unfolding paging_get_physical_in_space table_index directory_index
was_mapped = refl

paging_get_physical_in_space-paging_unmap_page_in_space_example :
    paging_get_physical_in_space 0x2000 0x40_0123
      (paging_unmap_page_in_space 0x2000 0x40_0456 start)
    ≡ 0
paging_get_physical_in_space-paging_unmap_page_in_space_example =
    paging_get_physical_in_space-paging_unmap_page_in_space start 0x2000 0x40_0456
      (start-IsApart 1 (omega arith)) 0x40_0123 (omega arith)

created : (paging_create_address_space statics start).0 ≡ 0x10000
unfolding pages paging_create_address_space pmm_alloc_page pmm_alloc_pages alloc_from free_run
    bitmap_test test_bit
created = refl

paging_create_address_space-overlap_example :
    (paging_create_address_space statics start).1.memory
      ((paging_create_address_space statics start).0 + 4096)
    ≡ (if (paging_create_address_space statics start).1.memory
            (paging_create_address_space statics start).0
          == (paging_create_address_space statics start).0 + 4096
        then 0x8003
        else 0)
paging_create_address_space-overlap_example =
    paging_create_address_space-overlap statics start refl pages-IsValid starts_behind
      (λ h. omega (arith, sym created ∙ h))
