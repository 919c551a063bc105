-- ===== src/Pmm/Tests.antt =====
-- The page allocator at a memory map of two entries, and the theorems there.
use myos_gui_desktop.Base.{◌⊎◌, ◌/◌, ◌<◌, ◌≡◌, refl, List, [], ◌∷◌, arith}
use myos_gui_desktop.Base.Lists.{replicate}
use myos_gui_desktop.Base.Bitmap.{test_bit, set_bit, clear_bit}
use myos_gui_desktop.Base.Runs.{set_bits}
use myos_gui_desktop.Pmm.{
  Pmm, E820Entry, bitmap_test, bitmap_clear, align_up, reset, mark_pages, mark_between,
  mark_usable_region, mark_entry, mark_entries, pmm_initialize, free_run, alloc_from,
  pmm_alloc_pages, free_loop, pmm_free_pages_block,
}
use myos_gui_desktop.Pmm.Valid.{IsValid, free_count}
use myos_gui_desktop.Pmm.Scan.{Scanned}
use myos_gui_desktop.Pmm.Alloc.{
  Handed, first_page, last_page, pmm_alloc_pages-IsValid, pmm_alloc_pages-Scanned,
  pmm_alloc_pages-Handed,
}
use myos_gui_desktop.Pmm.Free.{
  IsBlock, Freed, pmm_free_pages_block-Freed, pmm_free_pages_block-IsValid,
}
use myos_gui_desktop.Pmm.RoundTrip.{SamePages, pmm_free_pages_block-pmm_alloc_pages}
use myos_gui_desktop.Pmm.Init.{
  EachFree, Covered, LowMemory, entries_read, map_read, pmm_initialize_lem,
}

-- A reserved region, and three usable pages and a half behind the kernel.
abbrev map : List E820Entry
map =
    record { base = 0; size = 0x8000; kind = 2; acpi = 0 }
    ∷ record { base = 0xf000; size = 0x4800; kind = 1; acpi = 0 }
    ∷ []

boot : Pmm
unfolding align_up reset mark_pages mark_between mark_usable_region mark_entry mark_entries
    pmm_initialize free_run alloc_from pmm_alloc_pages free_loop pmm_free_pages_block bitmap_test
    bitmap_clear test_bit set_bit clear_bit set_bits replicate
boot = pmm_initialize 0xfabc map 2

boot_counters :
    (boot.total_pages_count ≡ 3)
    × (boot.managed_start ≡ 0x10000)
    × (boot.managed_end ≡ 0x13000)
    × (boot.used_pages_count ≡ 0)
unfolding boot
boot_counters = (refl, refl, refl, refl)

first_fit : (pmm_alloc_pages 2 boot).0 ≡ 0x10000
unfolding boot
first_fit = refl

pmm_initialize_lem_example :
    IsValid boot
    × (boot.used_pages_count ≡ 0)
    × (boot.total_pages_count ≡ free_count boot)
    × (EachFree boot (Covered (entries_read map 2))
        ⊎ (((map_read 0xfabc map 2).total_pages_count ≡ 0) × EachFree boot LowMemory))
unfolding boot
pmm_initialize_lem_example = pmm_initialize_lem 0xfabc map 2 (omega arith) (omega arith)

boot-IsValid : IsValid boot
boot-IsValid = pmm_initialize_lem_example.0

pmm_alloc_pages-IsValid_example : IsValid (pmm_alloc_pages 2 boot).1
pmm_alloc_pages-IsValid_example = pmm_alloc_pages-IsValid 2 boot-IsValid

counters_fit : boot.used_pages_count < boot.total_pages_count
counters_fit = omega (arith, boot_counters)

pmm_alloc_pages-Scanned_example :
    Scanned (last_page boot) 2 (first_page boot) boot (pmm_alloc_pages 2 boot)
pmm_alloc_pages-Scanned_example =
    pmm_alloc_pages-Scanned 2 boot-IsValid (omega (arith, boot_counters)) (omega arith)

pmm_alloc_pages-Handed_example : Handed boot 2 (pmm_alloc_pages 2 boot).0 (pmm_alloc_pages 2 boot).1
pmm_alloc_pages-Handed_example = pmm_alloc_pages-Handed 2 boot-IsValid (omega (arith, first_fit))

boot-IsBlock : IsBlock boot 0x11000 2
boot-IsBlock = omega (arith, boot_counters)

pmm_free_pages_block-Freed_example :
    Freed 2 (0x11000 / 4096) boot (pmm_free_pages_block 0x11000 2 boot)
pmm_free_pages_block-Freed_example = pmm_free_pages_block-Freed boot-IsValid boot-IsBlock

pmm_free_pages_block-pmm_alloc_pages_example :
    SamePages boot (pmm_free_pages_block (pmm_alloc_pages 2 boot).0 2 (pmm_alloc_pages 2 boot).1)
pmm_free_pages_block-pmm_alloc_pages_example =
    pmm_free_pages_block-pmm_alloc_pages 2 boot-IsValid (omega arith) (omega (arith, first_fit))

pmm_free_pages_block-IsValid_example : IsValid (pmm_free_pages_block 0x11000 5 boot)
pmm_free_pages_block-IsValid_example =
    pmm_free_pages_block-IsValid 0x11000 5 boot-IsValid (omega arith)
