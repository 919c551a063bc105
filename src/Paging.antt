-- ===== src/Paging.antt =====
-- Page tables, kernel/mm/paging.c and include/myos/paging.h. Memory is 32-bit words by their address,
-- and a pointer is an address, so the tables, the page directories and the structures
-- `address_space` are all parts of one memory, which every function reads and writes. The processor's
-- own copies of the entries, which `invlpg` drops, are not modelled.
pub mod Start
pub mod Words
pub mod Tables
pub mod Space
pub mod Ensure
pub mod Map
pub mod Unmap
pub mod Overlap
mod Tests
use myos_gui_desktop.Base.{
  ℕ, zero, suc, ◌+◌, ◌-◌, ◌*◌, ◌/◌, ◌%◌, ◌^◌, bit_and, bit_or, Bool, true, false, not, ◌&&◌, ◌||◌,
}
use myos_gui_desktop.Base.Tests.{ltb, leb, ◌==◌, if◌then◌else◌}
use myos_gui_desktop.Pmm.{Pmm, page_size, pmm_alloc_page, pmm_free_page}

abbrev pub page_present : ℕ
page_present = 1

abbrev pub page_writable : ℕ
page_writable = 2

abbrev pub page_user : ℕ
page_user = 4

abbrev pub page_entries : ℕ
page_entries = 1024

-- `PAGING_IDENTITY_LIMIT / (PAGE_SIZE * PAGE_ENTRIES)`, and `FRAMEBUFFER_PAGE_TABLES`.
abbrev pub page_table_count : ℕ
page_table_count = 32

abbrev pub framebuffer_page_tables_count : ℕ
framebuffer_page_tables_count = 8

-- Where the linker puts the static arrays and `kernel_space`.
pub record Statics : Type 0 where
  pub kernel_page_directory : ℕ
  pub identity_page_tables : ℕ
  pub framebuffer_page_tables : ℕ
  pub kernel_space : ℕ

abbrev pub Memory : Type 0
Memory = ℕ → ℕ

abbrev pub put : ℕ → ℕ → Memory → Memory
put address value m a = if a == address then value else m a

-- The static variables, with the memory, the processor's registers and the page allocator.
pub record Paging : Type 0 where
  pub memory : Memory
  pub current_space : ℕ
  pub boot_framebuffer_physical : ℕ
  pub boot_framebuffer_size : ℕ
  pub cr0 : ℕ
  pub cr3 : ℕ
  pub pmm : Pmm

abbrev pub with_memory : Paging → Memory → Paging
with_memory p m = record p { memory = m }

-- `space->page_directory` and `space->owned_tables[i]` of `struct address_space`, by their addresses.
abbrev pub page_directory_of : ℕ → ℕ
page_directory_of space = space

abbrev pub owned_table_of : (space i : ℕ) → ℕ
owned_table_of space i = space + 4 + 4 * i

-- `~(PAGE_SIZE - 1)`.
abbrev pub page_mask : ℕ
page_mask = 2 ^ 32 - 4096

-- The loop of `zero_page_table`, `n` entries from `i` on.
pub zero_from : (n i table : ℕ) → Memory → Memory
zero_from zero i table m = m
zero_from (suc n) i table m = zero_from n (i + 1) table (put (table + 4 * i) 0 m)

unfoldable pub zero_page_table : ℕ → Memory → Memory
zero_page_table = zero_from page_entries 0

pub copy_from : (n i dst src : ℕ) → Memory → Memory
copy_from zero i dst src m = m
copy_from (suc n) i dst src m = copy_from n (i + 1) dst src (put (dst + 4 * i) (m (src + 4 * i)) m)

unfoldable pub copy_page_table : (dst src : ℕ) → Memory → Memory
copy_page_table = copy_from page_entries 0

unfoldable pub directory_index : ℕ → ℕ
directory_index virtual_address = virtual_address / 2 ^ 22

unfoldable pub table_index : ℕ → ℕ
table_index virtual_address = bit_and (virtual_address / 2 ^ 12) 0x3ff

-- `((uintptr_t) table) | PAGE_PRESENT | PAGE_WRITABLE | (flags & PAGE_USER)`.
unfoldable pub table_entry : (table flags : ℕ) → ℕ
table_entry table flags =
    bit_or (bit_or (bit_or table page_present) page_writable) (bit_and flags page_user)

-- A table that the directory has no entry for.
unfoldable pub new_table : (space index flags : ℕ) → Paging → ℕ × Paging
new_table space index flags p =
    let got = pmm_alloc_page p.pmm in
    let table = got.0 in
    let directory = p.memory (page_directory_of space) in
    let q = record p { pmm = got.1 } in
    let zeroed = zero_page_table table p.memory in
    let owned = put (owned_table_of space index) table zeroed in
    if table == 0
    then (0, q)
    else (table, with_memory q (put (directory + 4 * index) (table_entry table flags) owned))

-- A copy of a table that belongs to the kernel.
unfoldable pub private_table : (space index flags table : ℕ) → Paging → ℕ × Paging
private_table space index flags table p =
    let got = pmm_alloc_page p.pmm in
    let private = got.0 in
    let directory = p.memory (page_directory_of space) in
    let q = record p { pmm = got.1 } in
    let copied = copy_page_table private table p.memory in
    let owned = put (owned_table_of space index) private copied in
    if private == 0
    then (0, q)
    else (private, with_memory q (put (directory + 4 * index) (table_entry private flags) owned))

unfoldable pub paging_switch_address_space : ℕ → Paging → Paging
paging_switch_address_space space p =
    if (space == 0) || (p.memory (page_directory_of space) == 0)
    then p
    else record p { current_space = space; cr3 = p.memory (page_directory_of space) }

-- The loop of `paging_create_address_space` over the `n` pointers from `i` on.
pub no_tables : (n i space : ℕ) → Memory → Memory
no_tables zero i space m = m
no_tables (suc n) i space m = no_tables n (i + 1) space (put (owned_table_of space i) 0 m)

-- The loop of `paging_destroy_address_space` over the `n` pointers from `i` on.
pub free_tables : (n i space : ℕ) → Paging → Paging
free_tables zero i space p = p
free_tables (suc n) i space p =
    let table = p.memory (owned_table_of space i) in
    free_tables n (i + 1) space (
      if not (table == 0)
      then record p {
        pmm = pmm_free_page table p.pmm;
        memory = put (owned_table_of space i) 0 p.memory;
      }
      else p)

module _ (k : Statics) where
  unfoldable pub ensure_table : (space index flags : ℕ) → Paging → ℕ × Paging
  ensure_table space index flags p =
      let at = p.memory (page_directory_of space) + 4 * index in
      let entry = p.memory at in
      let table = bit_and entry page_mask in
      let more = bit_or entry (bit_and flags (bit_or page_writable page_user)) in
      if bit_and entry page_present == 0
      then new_table space index flags p
      else if not (space == k.kernel_space) && (p.memory (owned_table_of space index) == 0)
      then private_table space index flags table p
      else (table, with_memory p (put at more p.memory))

  unfoldable pub paging_map_page_in_space :
      (space virtual_address physical_address flags : ℕ) → Paging → Bool × Paging
  paging_map_page_in_space space virtual_address physical_address flags p =
      let virtual = bit_and virtual_address page_mask in
      let physical = bit_and physical_address page_mask in
      let got = ensure_table space (directory_index virtual) flags p in
      let entry = bit_or (bit_or physical page_present) flags in
      if (space == 0) || (p.memory (page_directory_of space) == 0)
      then (false, p)
      else if got.0 == 0
      then (false, got.1)
      else (true, with_memory got.1 (put (got.0 + 4 * table_index virtual) entry got.1.memory))

  unfoldable pub paging_map_page :
      (virtual_address physical_address flags : ℕ) → Paging → Bool × Paging
  paging_map_page virtual_address physical_address flags p =
      paging_map_page_in_space p.current_space virtual_address physical_address flags p

  unfoldable pub paging_create_address_space : Paging → ℕ × Paging
  paging_create_address_space p =
      let made = pmm_alloc_page p.pmm in
      let space = made.0 in
      let cleared = no_tables page_entries 0 space p.memory in
      let got = pmm_alloc_page made.1 in
      let directory = got.0 in
      let copied = copy_page_table directory k.kernel_page_directory cleared in
      if space == 0
      then (0, record p { pmm = made.1 })
      else if directory == 0
      then (0, record p { pmm = pmm_free_page space got.1; memory = cleared })
      else (
        space,
        record p { pmm = got.1; memory = put (page_directory_of space) directory copied },
      )

  unfoldable pub paging_destroy_address_space : ℕ → Paging → Paging
  paging_destroy_address_space space p =
      let left =
        if p.current_space == space then paging_switch_address_space k.kernel_space p else p in
      let freed = free_tables page_entries 0 space left in
      let directory = freed.memory (page_directory_of space) in
      let without = if not (directory == 0) then pmm_free_page directory freed.pmm else freed.pmm in
      if (space == 0) || (space == k.kernel_space)
      then p
      else record freed { pmm = pmm_free_page space without }

unfoldable pub paging_unmap_page_in_space : (space virtual_address : ℕ) → Paging → Paging
paging_unmap_page_in_space space virtual_address p =
    let directory = p.memory (page_directory_of space) in
    let entry = p.memory (directory + 4 * directory_index virtual_address) in
    let table = bit_and entry page_mask in
    if (space == 0) || (directory == 0)
    then p
    else if bit_and entry page_present == 0
    then p
    else with_memory p (put (table + 4 * table_index virtual_address) 0 p.memory)

unfoldable pub paging_unmap_page : ℕ → Paging → Paging
paging_unmap_page virtual_address p = paging_unmap_page_in_space p.current_space virtual_address p

unfoldable pub paging_get_physical_in_space : (space virtual_address : ℕ) → Paging → ℕ
paging_get_physical_in_space space virtual_address p =
    let directory = p.memory (page_directory_of space) in
    let entry = p.memory (directory + 4 * directory_index virtual_address) in
    let table = bit_and entry page_mask in
    let page = p.memory (table + 4 * table_index virtual_address) in
    if (space == 0) || (directory == 0)
    then 0
    else if bit_and entry page_present == 0
    then 0
    else if bit_and page page_present == 0
    then 0
    else bit_or (bit_and page page_mask) (bit_and virtual_address (page_size - 1))

unfoldable pub paging_get_physical : ℕ → Paging → ℕ
paging_get_physical virtual_address p =
    paging_get_physical_in_space p.current_space virtual_address p

unfoldable pub paging_set_boot_framebuffer : (physical_address size : ℕ) → Paging → Paging
paging_set_boot_framebuffer physical_address size p = record p {
  boot_framebuffer_physical = physical_address;
  boot_framebuffer_size = size;
}

unfoldable pub paging_is_enabled : Paging → Bool
paging_is_enabled p = not (bit_and p.cr0 0x8000_0000 == 0)
