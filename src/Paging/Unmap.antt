-- ===== src/Paging/Unmap.antt =====
-- What `paging_unmap_page_in_space` does to the translations of a space.
use myos_gui_desktop.Base.{
  ℕ, ◌+◌, ◌*◌, ◌/◌, ◌%◌, ◌^◌, ◌<◌, ◌≡◌, ◌||◌, ◌&&◌, refl, sym, ap, ◌∙◌, inl, inr, true, false,
  arith,
}
use myos_gui_desktop.Base.Tests.{◌==◌, if◌then◌else◌, Bool-cases, ==_iff}
use myos_gui_desktop.Paging.{
  Memory, Paging, put, with_memory, paging_unmap_page_in_space, paging_get_physical_in_space,
}
use myos_gui_desktop.Paging.Words.{
  bit_and-mask, bit_and-present, table_index-eq, directory_index-eq,
}
use myos_gui_desktop.Paging.Tables.{put-IsWords}
use myos_gui_desktop.Paging.Space.{
  entry_in, table_in, page_entry, translated, paging_get_physical_in_space-translated, IsApart,
  Ensured,
}
use myos_gui_desktop.Paging.Map.{of_entry, of_entry-chosen, page_entry-put, directory_kept}

-- A table that is there already.
present-Ensured :
    {p : Paging} {space index : ℕ}
    → IsApart p space index
    → entry_in p.memory (p.memory space) index % 2 ≡ 1
    → Ensured p.memory space index (table_in p.memory (p.memory space) index) p.memory
present-Ensured {p} {space} {index} apart present =
    let (taken, off_directory, off_space, off_own) = apart.tables index apart.inside present in
    let there : (entry_in p.memory (p.memory space) index % 2 == 0) ≡ false =
      ground (arith, present) in
    record {
      words = apart.words;
      low = omega (arith, apart.words (p.memory space + 4 * index));
      aligned = omega arith;
      directory = refl;
      present = present;
      names = omega arith;
      others = λ j n l. refl;
      same = λ x l. rw there refl;
      other_tables = λ j x n l b pr. refl;
      alone = λ j n l pr h. apart.distinct j l n pr present (omega (arith, h));
      apart = (λ h. off_space (omega (arith, h)), λ h. off_directory (omega (arith, h)));
    }

-- Where a page has no table, none of its addresses is translated.
of_absent :
    (a page : ℕ) (m : Memory) (directory : ℕ)
    → (a / 4096 ≡ page → entry_in m directory (a / 2 ^ 22) % 2 ≡ 0)
    → translated m directory a ≡ (if a / 4096 == page then 0 else translated m directory a)
of_absent a page m directory h = elim (Bool-cases (a / 4096 == page)) [
  | inl same ↦
      let none : (entry_in m directory (a / 2 ^ 22) % 2 == 0) ≡ true =
        ground (arith, h ((==_iff (a / 4096) page).0 same)) in
      rw (same, none) refl
  | inr other ↦ rw other refl
]

-- After paging_unmap_page_in_space no address of the page is translated, and every other address of
-- the space as before, if the parts of the space that are used lie in pages of their own.
pub paging_get_physical_in_space-paging_unmap_page_in_space :
    (p : Paging) (space virtual : ℕ)
    → IsApart p space (virtual / 2 ^ 22)
    → (a : ℕ) → a < 2 ^ 32
    → paging_get_physical_in_space space a (paging_unmap_page_in_space space virtual p)
      ≡ (if a / 4096 == virtual / 4096 then 0 else paging_get_physical_in_space space a p)
unfolding paging_unmap_page_in_space
paging_get_physical_in_space-paging_unmap_page_in_space p space virtual apart a l =
    let m : Memory = p.memory in
    let index : ℕ = virtual / 2 ^ 22 in
    let entry : ℕ = virtual / 4096 % 1024 in
    let table : ℕ = table_in m (m space) index in
    let e : ℕ = entry_in m (m space) index in
    let w : Paging = with_memory p (put (table + 4 * entry) 0 m) in
    let old =
      paging_get_physical_in_space-translated p space a apart.words apart.some_space
        apart.some_directory in
    let there : ((space == 0) || (m space == 0)) ≡ false =
      ground (arith, apart.some_space, apart.some_directory) in
    let place : ((a / 2 ^ 22 == index) && (a / 4096 % 1024 == entry))
        ≡ (a / 4096 == virtual / 4096) =
      ground arith in
    elim (Bool-cases (e % 2 == 0)) [
      | inl absent ↦
          rw (directory_index-eq virtual, table_index-eq virtual, there, bit_and-present e, absent)
            (old
              ∙ of_absent a (virtual / 4096) m (m space) (λ h.
                ap (λ i. entry_in m (m space) i % 2) (omega (arith, h))
                ∙ (==_iff (e % 2) 0).0 absent)
              ∙ ap (λ x. if a / 4096 == virtual / 4096 then 0 else x) (sym old))
      | inr present ↦
          let odd : e % 2 ≡ 1 = ground (arith, present) in
          let ensured = present-Ensured apart odd in
          let same : w.memory space ≡ m space =
            directory_kept ensured apart.aligned apart.inside entry 0 (omega arith) in
          rw
            (
              directory_index-eq virtual,
              table_index-eq virtual,
              there,
              bit_and-present e,
              bit_and-mask e (apart.words _),
              present,
            )
            (paging_get_physical_in_space-translated w space a
                (put-IsWords (table + 4 * entry) 0 m (omega arith) apart.words) apart.some_space
                (λ h. apart.some_directory (sym same ∙ h))
              ∙ ap (λ d. translated w.memory d a) same
              ∙ ap (of_entry a) (
                  page_entry-put ensured apart.aligned apart.inside entry 0 (omega arith)
                    (a / 2 ^ 22) (a / 4096 % 1024) (omega arith) (omega arith))
              ∙ of_entry-chosen a 0 (page_entry m (m space) (a / 2 ^ 22) (a / 4096 % 1024)) 0
                  (a / 2 ^ 22 == index) (a / 4096 % 1024 == entry) refl
              ∙ ap (λ b. if b then 0 else translated m (m space) a) place
              ∙ ap (λ x. if a / 4096 == virtual / 4096 then 0 else x) (sym old))
    ]
