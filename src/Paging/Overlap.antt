-- ===== src/Paging/Overlap.antt =====
-- The structure `address_space` is four bytes longer than the page that `paging_create_address_space`
-- takes for it.
use myos_gui_desktop.Base.{ℕ, ◌+◌, ◌*◌, ◌%◌, ◌<◌, ◌≤◌, ◌≡◌, ◌≢◌, refl, ap, ◌∙◌, inl, inr, arith}
use myos_gui_desktop.Base.Tests.{◌==◌, if◌then◌else◌, Bool-cases, ==_iff}
use myos_gui_desktop.Pmm.{Pmm, pmm_alloc_page, pmm_free_page}
use myos_gui_desktop.Pmm.Valid.{IsValid}
use myos_gui_desktop.Pmm.Alloc.{pmm_alloc_pages-Handed, pmm_alloc_pages-IsValid}
use myos_gui_desktop.Paging.{
  Statics, Memory, Paging, put, no_tables, copy_page_table, paging_create_address_space,
}
use myos_gui_desktop.Paging.Tables.{
  put_same, put_other, no_tables-outside, no_tables-inside, copy_page_table_away,
  copy_page_table-inside,
}

-- Where a page from the allocator lies.
record Managed (p : Pmm) (page : ℕ) : Type 0 where
  aligned : page % 4096 ≡ 0
  low : p.managed_start ≤ page

pmm_alloc_page-Managed :
    (p : Pmm)
    → IsValid p
    → (pmm_alloc_page p).0 ≢ 0
    → Managed p (pmm_alloc_page p).0 × ((pmm_alloc_page p).1.managed_start ≡ p.managed_start)
unfolding pmm_alloc_page
pmm_alloc_page-Managed p valid some =
    let h = pmm_alloc_pages-Handed 1 valid some in
    (record { aligned = h.aligned; low = h.low }, h.same_start)

pmm_alloc_page-IsValid : (p : Pmm) → IsValid p → IsValid (pmm_alloc_page p).1
unfolding pmm_alloc_page
pmm_alloc_page-IsValid p valid = pmm_alloc_pages-IsValid 1 valid

module _ (k : Statics) (p : Paging) (aligned : k.kernel_page_directory % 4096 ≡ 0) where
  overlap :
      (space directory : ℕ)
      → space % 4096 ≡ 0
      → directory % 4096 ≡ 0
      → k.kernel_page_directory < space
      → k.kernel_page_directory < directory
      → put space directory
          (copy_page_table directory k.kernel_page_directory (no_tables 1024 0 space p.memory))
          (space + 4096)
        ≡ (if directory == space + 4096 then p.memory k.kernel_page_directory else 0)
  overlap space directory a b low low' =
      let cleared : Memory = no_tables 1024 0 space p.memory in
      let kernel : ℕ = k.kernel_page_directory in
      put_other space (space + 4096) directory (copy_page_table directory kernel cleared)
        (omega arith)
      ∙ elim (Bool-cases (directory == space + 4096)) [
        | inl next ↦ rw next (
            ap (copy_page_table directory kernel cleared)
              (omega (arith, (==_iff directory (space + 4096)).0 next))
            ∙ copy_page_table-inside directory kernel cleared 0
                (λ x y l m. omega (arith, aligned, b)) (omega arith)
            ∙ no_tables-outside 1024 0 space p.memory (kernel + 4 * 0) (λ j l m. omega arith)
            ∙ ap p.memory (omega arith))
        | inr apart ↦ rw apart (
            copy_page_table_away directory kernel cleared (space + 4096)
              (λ j l h. ground (arith, apart, h, a, b))
            ∙ ap cleared (omega arith)
            ∙ no_tables-inside 1024 0 space p.memory 1023 (omega arith) (omega arith))
      ]

  -- Where paging_create_address_space returns a space, the word behind its page, which is
  -- owned_tables[1023], is the first entry of the kernel's page directory if the new directory is the
  -- next page, and else it has been set to 0, whatever page it belongs to, if the allocator is valid
  -- and the kernel's directory lies below the pages that the allocator manages.
  pub paging_create_address_space-overlap :
      IsValid p.pmm
      → k.kernel_page_directory < p.pmm.managed_start
      → (paging_create_address_space k p).0 ≢ 0
      → (paging_create_address_space k p).1.memory ((paging_create_address_space k p).0 + 4096) ≡ (
          if (paging_create_address_space k p).1.memory (paging_create_address_space k p).0
            == (paging_create_address_space k p).0 + 4096
          then p.memory k.kernel_page_directory
          else 0)
  unfolding paging_create_address_space
  paging_create_address_space-overlap valid below =
      go (pmm_alloc_page p.pmm) (pmm_alloc_page (pmm_alloc_page p.pmm).1)
        (pmm_alloc_page-Managed p.pmm valid)
        (pmm_alloc_page-Managed (pmm_alloc_page p.pmm).1 (pmm_alloc_page-IsValid p.pmm valid))
    where
      created : ℕ × Pmm → ℕ × Pmm → ℕ × Paging
      created made got =
          let cleared : Memory = no_tables 1024 0 made.0 p.memory in
          if made.0 == 0
          then (0, record p { pmm = made.1 })
          else if got.0 == 0
          then (0, record p { pmm = pmm_free_page made.0 got.1; memory = cleared })
          else (
            made.0,
            record p {
              pmm = got.1;
              memory = put made.0 got.0 (copy_page_table got.0 k.kernel_page_directory cleared);
            },
          )

      go :
          (made got : ℕ × Pmm)
          → (made.0 ≢ 0 → Managed p.pmm made.0 × (made.1.managed_start ≡ p.pmm.managed_start))
          → (got.0 ≢ 0 → Managed made.1 got.0 × (got.1.managed_start ≡ made.1.managed_start))
          → (created made got).0 ≢ 0
          → (created made got).1.memory ((created made got).0 + 4096) ≡ (
              if (created made got).1.memory (created made got).0 == (created made got).0 + 4096
              then p.memory k.kernel_page_directory
              else 0)
      go made got first second some = elim (Bool-cases (made.0 == 0)) [
        | inl null ↦ absurd (some (rw null refl))
        | inr space ↦ elim (Bool-cases (got.0 == 0)) [
          | inl null ↦ absurd (some (rw (space, null) refl))
          | inr directory ↦
              let (at, same) = first (ground (arith, space)) in
              let (at', same') = second (ground (arith, directory)) in
              let copied : Memory =
                copy_page_table got.0 k.kernel_page_directory (no_tables 1024 0 made.0 p.memory) in
              rw (space, directory, put_same made.0 made.0 got.0 copied refl)
                (overlap made.0 got.0 at.aligned at'.aligned (omega (arith, at.low, below))
                  (omega (arith, at'.low, same, below)))
        ]
      ]
