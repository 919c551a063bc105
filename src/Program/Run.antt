-- ===== src/Program/Run.antt =====
-- `run_loaded_image` of kernel/core/usermode.c: the pages of a program, its process and its end.
use myos_gui_desktop.Base.{
  ℕ, zero, suc, ◌+◌, ◌-◌, ◌*◌, ◌/◌, ◌%◌, ◌^◌, Bool, true, false, not, ◌||◌, Option, none, some,
  List, [], ◌∷◌, ◌++◌,
}
use myos_gui_desktop.Base.Tests.{ltb, leb, ◌==◌, if◌then◌else◌}
use myos_gui_desktop.Base.Lists.{get_or, set}
use myos_gui_desktop.Base.Int.{ℤ, negsuc}
use myos_gui_desktop.Pmm.{Pmm, pmm_alloc_page, pmm_free_page}
use myos_gui_desktop.Paging.{
  Statics, Memory, Paging, put, with_memory, paging_create_address_space,
  paging_destroy_address_space, paging_map_page_in_space, paging_unmap_page_in_space,
  paging_switch_address_space,
}
use myos_gui_desktop.Process.{Processes, exited, allocate_process}
use myos_gui_desktop.Process.Descriptors.{process_at, user_process_close_all}
use myos_gui_desktop.Program.{program_base, image_size, Launch, refused, launched}

abbrev pub image_pages_count : ℕ
image_pages_count = 16

-- `USER_STACK_BASE` and `USER_PAGE_FLAGS`.
abbrev pub stack_base : ℕ
stack_base = program_base + image_size

abbrev pub user_page_flags : ℕ
user_page_flags = 6

pub record Machine : Type 0 where
  pub paging : Paging
  pub processes : Processes

abbrev pub with_pmm : Paging → Pmm → Paging
with_pmm p pmm = record p { pmm = pmm }

abbrev free : ℕ → Paging → Paging
free page p = with_pmm p (pmm_free_page page p.pmm)

-- One byte of a word is set.
abbrev pub put_byte : (address value : ℕ) → Memory → Memory
put_byte address value m =
    let word = m (address / 4 * 4) in
    let unit = 2 ^ (8 * (address % 4)) in
    put (address / 4 * 4) (word - word / unit % 256 * unit + value % 256 * unit) m

-- The loop that allocates the pages, `n` more than those in `pages`: whether all were there.
unfoldable pub alloc_image_pages : (n : ℕ) → (pages : List ℕ) → Pmm → Bool × List ℕ × Pmm
alloc_image_pages zero pages p = (true, pages, p)
alloc_image_pages (suc n) pages p =
    let got = pmm_alloc_page p in
    let rest = alloc_image_pages n (pages ++ (got.0 ∷ [])) got.1 in
    if got.0 == 0 then (false, pages, got.1) else rest

unfoldable pub free_all : List ℕ → Paging → Paging
free_all [] p = p
free_all (page ∷ pages) p = free_all pages (free page p)

-- The loops that unmap pages of the image, `n` of them from `i` on.
unfoldable pub unmap_image : (n i space : ℕ) → Paging → Paging
unmap_image zero i space p = p
unmap_image (suc n) i space p =
    unmap_image n (i + 1) space (paging_unmap_page_in_space space (program_base + i * 4096) p)

-- The loops that unmap and free page by page.
unfoldable pub unmap_and_free : (i space : ℕ) → List ℕ → Paging → Paging
unmap_and_free i space [] p = p
unmap_and_free i space (page ∷ pages) p =
    unmap_and_free (i + 1) space pages
      (free page (paging_unmap_page_in_space space (program_base + i * 4096) p))

-- The loop that clears a page, `n` bytes from `i` on.
unfoldable pub clear_page : (n i page : ℕ) → Memory → Memory
clear_page zero i page m = m
clear_page (suc n) i page m = clear_page n (i + 1) page (put_byte (page + i) 0 m)

unfoldable pub clear_pages : List ℕ → Memory → Memory
clear_pages [] m = m
clear_pages (page ∷ pages) m = clear_pages pages (clear_page 4096 0 page m)

-- The loop that copies the image, `n` bytes from `i` on.
unfoldable pub copy_image : (n i : ℕ) → (pages : List ℕ) → (image : ℕ → ℕ) → Memory → Memory
copy_image zero i pages image m = m
copy_image (suc n) i pages image m =
    copy_image n (i + 1) pages image (put_byte (get_or pages (i / 4096) 0 + i % 4096) (image i) m)

module _ (k : Statics) where
  -- The loop that maps the pages, from `i` on: the number of the page that failed, if one did.
  unfoldable pub map_image : (i space : ℕ) → List ℕ → Paging → Option ℕ × Paging
  map_image i space [] p = (none, p)
  map_image i space (page ∷ pages) p =
      let got = paging_map_page_in_space k space (program_base + i * 4096) page user_page_flags p in
      let rest = map_image (i + 1) space pages got.1 in if not got.0 then (some i, got.1) else rest

  -- What a refusal gives back last.
  abbrev pub dismiss : (space stack_page : ℕ) → Paging → Paging
  dismiss space stack_page p = free stack_page (paging_destroy_address_space k space p)

  -- The end of `run_loaded_image`, from the process in place `i` on. `usermode_enter` runs the program,
  -- with its system calls, until it exits.
  unfoldable pub run_process :
      (usermode_enter : (entry stack : ℕ) → Machine → ℤ × Machine)
      → (i entry space stack_page : ℕ) → (pages : List ℕ) → Machine
      → ℤ × Machine
  run_process usermode_enter i entry space stack_page pages w =
      let process = process_at w.processes i in
      let placed = record w.processes {
        processes = set w.processes.processes i (record process { address_space = space });
      } in
      let done =
        usermode_enter entry (stack_base + 4096)
          (record { paging = paging_switch_address_space space w.paging; processes = placed }) in
      let left = paging_switch_address_space k.kernel_space done.1.paging in
      let after = process_at done.1.processes i in
      let ended = record done.1.processes {
        processes =
            set done.1.processes.processes i (record after { exit_code = done.0; state = exited });
      } in
      let closed_all = user_process_close_all ended in
      let unmapped = free stack_page (paging_unmap_page_in_space space stack_base left) in
      let freed = paging_destroy_address_space k space (unmap_and_free 0 space pages unmapped) in
      let last = process_at closed_all i in
      (
        done.0,
        record {
          paging = freed;
          processes = record closed_all {
            processes = set closed_all.processes i (record last { address_space = 0 });
            current_process_index = none;
          };
        },
      )

  -- The part behind the mapping of the pages.
  unfoldable pub start_mapped :
      (usermode_enter : (entry stack : ℕ) → Machine → ℤ × Machine)
      → (name : List ℕ) → (entry : ℕ) → (image : ℕ → ℕ) → (size space stack_page : ℕ)
      → (pages : List ℕ) → Machine
      → ℤ × Machine
  start_mapped usermode_enter name entry image size space stack_page pages w =
      let cleared = clear_page 4096 0 stack_page (clear_pages pages w.paging.memory) in
      let filled = with_memory w.paging (copy_image size 0 pages image cleared) in
      let made = allocate_process name entry w.processes in
      let undone =
        unmap_and_free 0 space pages (paging_unmap_page_in_space space stack_base filled) in
      elim (made.0) [
        | none ↦
            (negsuc 24, record { paging = dismiss space stack_page undone; processes = made.1 })
        | some i ↦
            run_process usermode_enter i entry space stack_page pages
              (record { paging = filled; processes = made.1 })
      ]

  -- The image stands in an array of the kernel, apart from the pages that are written.
  unfoldable pub run_loaded_image :
      (usermode_enter : (entry stack : ℕ) → Machine → ℤ × Machine)
      → (name : List ℕ) → (entry : ℕ) → (image : ℕ → ℕ) → (size : ℕ) → Machine
      → ℤ × Machine
  run_loaded_image usermode_enter name entry image size w =
      let stack = pmm_alloc_page w.paging.pmm in
      let stack_page = stack.0 in
      let made = paging_create_address_space k (with_pmm w.paging stack.1) in
      let space = made.0 in
      let dropped =
        if not (space == 0) then paging_destroy_address_space k space made.1 else made.1 in
      let none_left = if not (stack_page == 0) then free stack_page dropped else dropped in
      let (all, pages, pmm) = alloc_image_pages image_pages_count [] made.1.pmm in
      let owned = with_pmm made.1 pmm in
      let mapped = map_image 0 space pages owned in
      let with_stack =
        paging_map_page_in_space k space stack_base stack_page user_page_flags mapped.1 in
      if ltb entry program_base || leb stack_base entry || ltb image_size size
      then (negsuc 20, w)
      else if (stack_page == 0) || (space == 0)
      then (negsuc 21, record w { paging = none_left })
      else if not all
      then (negsuc 21, record w { paging = dismiss space stack_page (free_all pages owned) })
      else elim (mapped.0) [
        | some i ↦ (
          negsuc 22,
          record w {
            paging = dismiss space stack_page (free_all pages (unmap_image i 0 space mapped.1));
          },
        )
        | none ↦
            if not with_stack.0
            then (
              negsuc 23,
              record w {
                paging = dismiss space stack_page (unmap_and_free 0 space pages with_stack.1);
              },
            )
            else start_mapped usermode_enter name entry image size space stack_page pages
                (record w { paging = with_stack.1 })
      ]

  -- The calls of `run_loaded_image` at the ends of `run_mexe_program` and `run_elf_program`.
  unfoldable pub run_launch :
      (usermode_enter : (entry stack : ℕ) → Machine → ℤ × Machine)
      → (name : List ℕ) → Launch
      → Machine
      → ℤ × Machine
  run_launch usermode_enter name (refused code) w = (code, w)
  run_launch usermode_enter name (launched entry image size) w =
      run_loaded_image usermode_enter name entry image size w
