-- ===== src/Paging/Space.antt =====
-- What an address space translates, and when its parts lie apart.
use myos_gui_desktop.Base.{
  ℕ, ◌+◌, ◌*◌, ◌/◌, ◌%◌, ◌^◌, ◌<◌, ◌≡◌, ◌≢◌, ◌||◌, refl, inl, inr, true, false, bit_or, arith,
}
use myos_gui_desktop.Base.Tests.{◌==◌, if◌then◌else◌, Bool-cases}
use myos_gui_desktop.Base.Masks.{bit_or_low, page_offset}
use myos_gui_desktop.Pmm.{bitmap_test}
use myos_gui_desktop.Pmm.Valid.{IsValid}
use myos_gui_desktop.Paging.{Memory, Paging, owned_table_of, paging_get_physical_in_space}
use myos_gui_desktop.Paging.Words.{
  bit_and-mask, bit_and-present, table_index-eq, directory_index-eq,
}

-- The entry of a directory, and the table that it names.
abbrev pub entry_in : Memory → (directory index : ℕ) → ℕ
entry_in m directory index = m (directory + 4 * index)

abbrev pub table_in : Memory → (directory index : ℕ) → ℕ
table_in m directory index = entry_in m directory index / 4096 * 4096

-- The entry of a page, or 0 where there is no table.
abbrev pub page_entry : Memory → (directory index entry : ℕ) → ℕ
page_entry m directory index entry =
    if entry_in m directory index % 2 == 0 then 0 else m (table_in m directory index + 4 * entry)

-- The physical address, or 0.
abbrev pub translated : Memory → (directory virtual : ℕ) → ℕ
translated m directory virtual =
    let page = page_entry m directory (virtual / 2 ^ 22) (virtual / 4096 % 1024) in
    if page % 2 == 0 then 0 else page / 4096 * 4096 + virtual % 4096

pub paging_get_physical_in_space-translated :
    (p : Paging) (space virtual : ℕ)
    → ((a : ℕ) → p.memory a < 2 ^ 32)
    → space ≢ 0
    → p.memory space ≢ 0
    → paging_get_physical_in_space space virtual p ≡ translated p.memory (p.memory space) virtual
unfolding paging_get_physical_in_space
paging_get_physical_in_space-translated p space virtual words some_space some_directory =
    let m : Memory = p.memory in
    let directory : ℕ = m space in
    let there : ((space == 0) || (directory == 0)) ≡ false = ground arith in
    let e : ℕ = entry_in m directory (virtual / 2 ^ 22) in
    let w : ℕ = m (e / 4096 * 4096 + 4 * (virtual / 4096 % 1024)) in
    let joined : bit_or (w / 4096 * 4096) (virtual % 4096) ≡ w / 4096 * 4096 + virtual % 4096 =
      bit_or_low 12 (w / 4096) (virtual % 4096) (omega arith) in
    rw
      (
        directory_index-eq virtual,
        table_index-eq virtual,
        there,
        bit_and-present e,
        bit_and-mask e (words _),
        bit_and-present w,
        bit_and-mask w (words _),
        page_offset virtual,
        joined,
      )
      (elim (Bool-cases (e % 2 == 0)) [
        | inl absent ↦ rw absent refl
        | inr present ↦ rw present refl
      ])

-- The page of an address is not one that the allocator hands out.
abbrev pub IsTaken : Paging → ℕ → Type 0
IsTaken p a = bitmap_test p.pmm.page_bitmap (a / 4096) ≡ true

-- Around one entry of its directory, the parts of the space lie in pages of their own, which are taken.
pub record IsApart (p : Paging) (space index : ℕ) : Type 0 where
  pub words : (a : ℕ) → p.memory a < 2 ^ 32
  pub valid : IsValid p.pmm
  pub some_space : space ≢ 0
  pub some_directory : p.memory space ≢ 0
  pub aligned : p.memory space % 4096 ≡ 0
  pub inside : index < 1024
  pub apart : space / 4096 ≢ p.memory space / 4096
  pub slot_apart : owned_table_of space index / 4096 ≢ p.memory space / 4096
  pub taken : IsTaken p space
  pub slot_taken : IsTaken p (owned_table_of space index)
  pub directory_taken : IsTaken p (p.memory space)
  pub tables :
      (j : ℕ)
      → j < 1024
      → entry_in p.memory (p.memory space) j % 2 ≡ 1
      → IsTaken p (entry_in p.memory (p.memory space) j)
        × (entry_in p.memory (p.memory space) j / 4096 ≢ p.memory space / 4096)
        × (entry_in p.memory (p.memory space) j / 4096 ≢ space / 4096)
        × (entry_in p.memory (p.memory space) j / 4096 ≢ owned_table_of space index / 4096)
  pub distinct :
      (j : ℕ)
      → j < 1024
      → j ≢ index
      → entry_in p.memory (p.memory space) j % 2 ≡ 1
      → entry_in p.memory (p.memory space) index % 2 ≡ 1
      → entry_in p.memory (p.memory space) j / 4096
        ≢ entry_in p.memory (p.memory space) index / 4096

-- The entry `index` has a table of its own with the translations that it had, and nothing else that
-- the space translates is changed.
pub record Ensured (m : Memory) (space index table : ℕ) (t : Memory) : Type 0 where
  pub words : (a : ℕ) → t a < 2 ^ 32
  pub low : table < 2 ^ 32
  pub aligned : table % 4096 ≡ 0
  pub directory : t space ≡ m space
  pub present : entry_in t (m space) index % 2 ≡ 1
  pub names : entry_in t (m space) index / 4096 ≡ table / 4096
  pub others : (j : ℕ) → j ≢ index → j < 1024 → entry_in t (m space) j ≡ entry_in m (m space) j
  pub same : (x : ℕ) → x < 1024 → t (table + 4 * x) ≡ page_entry m (m space) index x
  pub other_tables :
      (j x : ℕ)
      → j ≢ index
      → j < 1024
      → x < 1024
      → entry_in m (m space) j % 2 ≡ 1
      → t (table_in m (m space) j + 4 * x) ≡ m (table_in m (m space) j + 4 * x)
  pub alone :
      (j : ℕ)
      → j ≢ index
      → j < 1024
      → entry_in m (m space) j % 2 ≡ 1
      → entry_in m (m space) j / 4096 ≢ table / 4096
  pub apart : (table / 4096 ≢ space / 4096) × (table / 4096 ≢ m space / 4096)
