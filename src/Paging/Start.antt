-- ===== src/Paging/Start.antt =====
-- How paging is turned on: `paging_initialize` of kernel/mm/paging.c.
use myos_gui_desktop.Base.{ℕ, zero, suc, ◌+◌, ◌-◌, ◌*◌, ◌%◌, ◌^◌, bit_and, bit_or, not, ◌&&◌}
use myos_gui_desktop.Base.Tests.{ltb, leb, ◌==◌, if◌then◌else◌}
use myos_gui_desktop.Paging.{
  Statics, Memory, Paging, put, page_present, page_writable, page_entries, page_table_count,
  framebuffer_page_tables_count, page_mask, page_directory_of, owned_table_of, zero_page_table,
  directory_index, table_index,
}

-- `entry | PAGE_PRESENT | PAGE_WRITABLE`.
abbrev pub kernel_entry : ℕ → ℕ
kernel_entry address = bit_or (bit_or address page_present) page_writable

module _ (k : Statics) where
  -- The first loop, `n` entries from `i` on.
  pub clear_directory : (n i : ℕ) → Memory → Memory
  clear_directory zero i m = m
  clear_directory (suc n) i m = clear_directory n (i + 1) (
      put (owned_table_of k.kernel_space i) 0
        (put (k.kernel_page_directory + 4 * i) page_writable m))

  -- The address of `identity_page_tables[table]`.
  abbrev pub identity_table : ℕ → ℕ
  identity_table table = k.identity_page_tables + table * 4096

  -- The loop over the entries of an identity table, `n` of them from `entry` on.
  pub identity_entries : (n entry table : ℕ) → Memory → Memory
  identity_entries zero entry table m = m
  identity_entries (suc n) entry table m = identity_entries n (entry + 1) table (
      put (identity_table table + 4 * entry) (kernel_entry ((table * page_entries + entry) * 4096))
        m)

  -- The loop over the identity tables, `n` of them from `table` on.
  pub identity_tables : (n table : ℕ) → Memory → Memory
  identity_tables zero table m = m
  identity_tables (suc n) table m = identity_tables n (table + 1) (
      put (k.kernel_page_directory + 4 * table) (kernel_entry (identity_table table))
        (identity_entries page_entries 0 table m))

  -- The inner loop over the frame buffer: `n` entries are left in the table. It gives the address
  -- behind.
  pub map_entries : (n index table address end : ℕ) → Memory → ℕ × Memory
  map_entries zero index table address end m = (address, m)
  map_entries (suc n) index table address end m =
      let rest =
        map_entries n (index + 1) table (address + 4096) end
          (put (table + 4 * index) (kernel_entry address) m) in
      if ltb address end then rest else (address, m)

  -- The outer loop. Every round starts another directory entry, of which there are 1024.
  pub map_framebuffer : (fuel address end table_slots_used : ℕ) → Memory → Memory
  map_framebuffer zero address end table_slots_used m = m
  map_framebuffer (suc fuel) address end table_slots_used m =
      let at = k.kernel_page_directory + 4 * directory_index address in
      let missing = bit_and (m at) page_present == 0 in
      let slot = k.framebuffer_page_tables + table_slots_used * 4096 in
      let added = put at (kernel_entry slot) (zero_page_table slot m) in
      let ready = if missing then added else m in
      let used = if missing then table_slots_used + 1 else table_slots_used in
      let index = table_index address in
      let done =
        map_entries (page_entries - index) index (bit_and (ready at) page_mask) address end ready in
      let rest = map_framebuffer fuel done.0 end used done.1 in
      if not (ltb address end)
      then m
      else if missing && leb framebuffer_page_tables_count table_slots_used
      then m
      else rest

  -- `end` wraps round with the last page of the address space.
  pub paging_initialize : Paging → Paging
  paging_initialize p =
      let cleared = clear_directory page_entries 0 p.memory in
      let identity = identity_tables page_table_count 0 cleared in
      let start = bit_and p.boot_framebuffer_physical page_mask in
      let end =
        bit_and ((p.boot_framebuffer_physical + p.boot_framebuffer_size + 4095) % 2 ^ 32)
          page_mask in
      let shown =
        if not (p.boot_framebuffer_physical == 0) && not (p.boot_framebuffer_size == 0)
        then map_framebuffer page_entries start end 0 identity
        else identity in
      record p {
        memory = put (page_directory_of k.kernel_space) k.kernel_page_directory shown;
        current_space = k.kernel_space;
        cr3 = k.kernel_page_directory;
        cr0 = bit_or p.cr0 0x8000_0000;
      }
