-- ===== src/Program/Outcome.antt =====
-- What `run_loaded_image` leaves in the table of processes.
use myos_gui_desktop.Base.{
  ℕ, zero, suc, ◌+◌, ◌<◌, ◌≤◌, ◌≡◌, ◌≢◌, refl, sym, ap, ◌∙◌, Bool, true, false, not, ◌||◌, Option,
  none, some, List, [], ◌∷◌, map, subst, arith,
}
use myos_gui_desktop.Base.Tests.{ltb, leb, ◌==◌, if◌then◌else◌}
use myos_gui_desktop.Base.Lists.{
  length, get_or, set, take, length-set, get_or-set_self, get_or-set_ne,
}
use myos_gui_desktop.Base.Int.{ℤ, negsuc}
use myos_gui_desktop.Strings.Compare.{text_of}
use myos_gui_desktop.Pmm.{pmm_alloc_page}
use myos_gui_desktop.Paging.{
  Statics, paging_create_address_space, paging_map_page_in_space, Paging, with_memory,
  paging_switch_address_space, paging_unmap_page_in_space,
}
use myos_gui_desktop.Process.{
  UserProcess, Processes, Descriptor, running, exited, closed, empty_process, current_process,
  allocate_process,
}
use myos_gui_desktop.Process.Descriptors.{process_at, descriptor, user_process_close_all}
use myos_gui_desktop.Process.Slots.{
  Started, Chosen, Chosen-inside, Allocation, started, full, allocate_process-Allocation,
}
use myos_gui_desktop.Program.{program_base, image_size}
use myos_gui_desktop.Program.Run.{
  Machine, with_pmm, alloc_image_pages, image_pages_count, map_image, user_page_flags, free_all,
  unmap_image, stack_base, dismiss, copy_image, clear_page, clear_pages, unmap_and_free,
  run_process, start_mapped, run_loaded_image,
}

-- A program that runs in ring 3 changes the machine by system calls only, none of which makes another
-- process the current one or changes the number of places in the table.
pub record IsProgram (usermode_enter : (entry stack : ℕ) → Machine → ℤ × Machine) : Type 0 where
  pub current :
      (entry stack : ℕ) (w : Machine)
      → (usermode_enter entry stack w).1.processes.current_process_index
        ≡ w.processes.current_process_index
  pub places :
      (entry stack : ℕ) (w : Machine)
      → length (usermode_enter entry stack w).1.processes.processes ≡ length w.processes.processes

-- A process that has exited, behind its end.
pub record Finished (i : ℕ) (code : ℤ) (w : Processes) : Type 0 where
  pub has_exited : (process_at w i).state ≡ exited
  pub exit_code : (process_at w i).exit_code ≡ code
  pub files : (fd : ℕ) → (descriptor w i fd).is_open ≡ false
  pub no_space : (process_at w i).address_space ≡ 0
  pub no_current : w.current_process_index ≡ none

abbrev close : Descriptor → Descriptor
close d = record d { is_open = false }

abbrev close_files : UserProcess → UserProcess
close_files process = record process { fds = map close process.fds }

all_closed : (fds : List Descriptor) (fd : ℕ) → (get_or (map close fds) fd closed).is_open ≡ false
all_closed [] fd = refl
all_closed (d ∷ fds) zero = refl
all_closed (d ∷ fds) (suc fd) = all_closed fds fd

current_lem :
    (u : Processes) (i : ℕ) → i < 8 → u.current_process_index ≡ some i → current_process u ≡ some i
unfolding current_process
current_lem u i l h =
    let low : leb 8 i ≡ false = ground (arith, l) in rw (current_process, h, low) refl

user_process_close_all_lem :
    (u : Processes) (i : ℕ)
    → i < 8
    → u.current_process_index ≡ some i
    → user_process_close_all u
      ≡ record u { processes = set u.processes i (close_files (process_at u i)) }
unfolding user_process_close_all
user_process_close_all_lem u i l h = rw (user_process_close_all, current_lem u i l h) refl

-- The end of process `i`, behind which every other process is as in `u`.
abbrev Ended : (i : ℕ) (code : ℤ) (u w : Processes) → Type 0
Ended i code u w = Finished i code w × ((j : ℕ) → j ≢ i → process_at w j ≡ process_at u j)

-- The end of a process, once its program has exited.
finished_lem :
    (u : Processes) (i : ℕ) (code : ℤ)
    → i < length u.processes
    → i < 8
    → u.current_process_index ≡ some i
    → let ended = record u {
      processes = set u.processes i (record (process_at u i) { exit_code = code; state = exited });
    } in
      let closed_all = user_process_close_all ended in
      Ended i code u (record closed_all {
        processes =
            set closed_all.processes i (record (process_at closed_all i) { address_space = 0 });
        current_process_index = none;
      })
finished_lem u i code l small h =
    let new : UserProcess = record (process_at u i) { exit_code = code; state = exited } in
    let ended : Processes = record u { processes = set u.processes i new } in
    let at_new : process_at ended i ≡ new = get_or-set_self u.processes i new empty_process l in
    let shut : UserProcess = close_files (process_at ended i) in
    let inner : List UserProcess = set ended.processes i shut in
    let inside : i < length ended.processes = omega (arith, l, length-set u.processes i new) in
    let at_shut : get_or inner i empty_process ≡ shut =
      get_or-set_self ended.processes i shut empty_process inside in
    let last : UserProcess = record (get_or inner i empty_process) { address_space = 0 } in
    let at_last : get_or (set inner i last) i empty_process ≡ last =
      get_or-set_self inner i last empty_process
        (omega (arith, inside, length-set ended.processes i shut)) in
    let all : get_or (set inner i last) i empty_process
        ≡ record (close_files new) { address_space = 0 } =
      at_last
      ∙ ap (λ (p : UserProcess). record p { address_space = 0 }) at_shut
      ∙ ap (λ (p : UserProcess). record (close_files p) { address_space = 0 }) at_new in
    subst
      (λ (c : Processes). Ended i code u (record c {
        processes = set c.processes i (record (process_at c i) { address_space = 0 });
        current_process_index = none;
      }))
      (sym (user_process_close_all_lem ended i small h))
      (
        record {
          has_exited = ap (λ (p : UserProcess). p.state) all;
          exit_code = ap (λ (p : UserProcess). p.exit_code) all;
          files = λ fd.
              ap (λ (p : UserProcess). (get_or p.fds fd closed).is_open) all
              ∙ all_closed (process_at u i).fds fd;
          no_space = ap (λ (p : UserProcess). p.address_space) all;
          no_current = refl;
        },
        λ j n.
            get_or-set_ne inner i j last empty_process (λ h. n (sym h))
            ∙ get_or-set_ne ended.processes i j shut empty_process (λ h. n (sym h))
            ∙ get_or-set_ne u.processes i j new empty_process (λ h. n (sym h)),
      )

-- The machine when the program is entered: its process is the current one and running, with
-- no file open, and no other process is changed.
pub record Entered (name : List ℕ) (entry i : ℕ) (w b : Processes) : Type 0 where
  pub chosen : Chosen w.processes i
  pub current : b.current_process_index ≡ some i
  pub pid : (process_at b i).pid ≡ w.next_pid
  pub runs : (process_at b i).state ≡ running
  pub entered : (process_at b i).entry ≡ entry
  pub named : text_of (process_at b i).name ≡ take 31 (text_of name)
  pub no_files : (fd : ℕ) → descriptor b i fd ≡ closed
  pub others : (j : ℕ) → j ≢ i → process_at b j ≡ process_at w j
  pub places : length b.processes ≡ length w.processes

-- The outcome of a call: a refusal with a code from -21 to -25, or the program that `usermode_enter`
-- runs from a machine `begun`, at `entry` and with the end of the stack page.
-- Behind it the code is the one that it gave, and the processes are those that it left, but for its own.
pub data Outcome (usermode_enter : (entry stack : ℕ) → Machine → ℤ × Machine) (name : List ℕ)
    (entry : ℕ) (w : Processes) : ℤ × Machine → Type 0 where
  refusal :
      (n : ℕ) (q : Machine)
      → 20 ≤ n
      → n ≤ 24
      → q.processes ≡ w
      → Outcome usermode_enter name entry w (negsuc n, q)
  ran :
      (i : ℕ) (begun q : Machine)
      → Entered name entry i w begun.processes
      → Finished i (usermode_enter entry (stack_base + 4096) begun).0 q.processes
      → ((j : ℕ)
          → j ≢ i
          → process_at q.processes j
            ≡ process_at (usermode_enter entry (stack_base + 4096) begun).1.processes j)
      → Outcome usermode_enter name entry w ((usermode_enter entry (stack_base + 4096) begun).0, q)

module _ (k : Statics) {usermode_enter : (entry stack : ℕ) → Machine → ℤ × Machine}
    (program : IsProgram usermode_enter) where
  -- The machine that the program starts from.
  abbrev placed : (i space : ℕ) → Machine → Machine
  placed i space w = record {
    paging = paging_switch_address_space space w.paging;
    processes = record w.processes {
      processes =
          set w.processes.processes i (record (process_at w.processes i) { address_space = space });
    };
  }

  run_process-Ended :
      (i entry space stack_page : ℕ) (pages : List ℕ) (w : Machine)
      → i < length w.processes.processes
      → i < 8
      → w.processes.current_process_index ≡ some i
      → let out = run_process k usermode_enter i entry space stack_page pages w in
        let done = usermode_enter entry (stack_base + 4096) (placed i space w) in
        (out.0 ≡ done.0) × Ended i done.0 done.1.processes out.1.processes
  unfolding run_process
  run_process-Ended i entry space stack_page pages w l small h =
      let begun : Machine = placed i space w in
      let done = usermode_enter entry (stack_base + 4096) begun in
      let places = program.places entry (stack_base + 4096) begun in
      (
        refl,
        finished_lem done.1.processes i done.0
            (omega (
              arith,
              l,
              places,
              length-set w.processes.processes i
                  (record (process_at w.processes i) { address_space = space }),
            ))
            small (program.current entry (stack_base + 4096) begun ∙ h),
      )

  placed-Entered :
      (name : List ℕ) (entry i space : ℕ) (v : Processes) (w : Machine)
      → Started name entry v i w.processes
      → Entered name entry i v (placed i space w).processes
  placed-Entered name entry i space v w begun =
      let ps : List UserProcess = w.processes.processes in
      let new : UserProcess = record (process_at w.processes i) { address_space = space } in
      let place : i < length ps = omega (arith, begun.places, Chosen-inside begun.chosen) in
      let at : get_or (set ps i new) i empty_process ≡ new =
        get_or-set_self ps i new empty_process place in
      record {
        chosen = begun.chosen;
        current = begun.current;
        pid = ap (λ (p : UserProcess). p.pid) at ∙ begun.pid;
        runs = ap (λ (p : UserProcess). p.state) at ∙ begun.runs;
        entered = ap (λ (p : UserProcess). p.entry) at ∙ begun.entered;
        named = ap (λ (p : UserProcess). text_of p.name) at ∙ begun.named;
        no_files = λ fd. ap (λ (p : UserProcess). get_or p.fds fd closed) at ∙ begun.files fd;
        others = λ j n. get_or-set_ne ps i j new empty_process (λ h. n (sym h)) ∙ begun.others j n;
        places = length-set ps i new ∙ begun.places;
      }

  start_mapped-Outcome :
      (name : List ℕ) (entry : ℕ) (image : ℕ → ℕ) (size space stack_page : ℕ) (pages : List ℕ)
      (w : Machine)
      → length w.processes.processes ≡ 8
      → Outcome usermode_enter name entry w.processes
          (start_mapped k usermode_enter name entry image size space stack_page pages w)
  unfolding start_mapped
  start_mapped-Outcome name entry image size space stack_page pages w eight =
      go (allocate_process name entry w.processes)
        (allocate_process-Allocation name entry w.processes)
    where
      filled : Paging
      filled = with_memory w.paging (
          copy_image size 0 pages image
            (clear_page 4096 0 stack_page (clear_pages pages w.paging.memory)))

      after : Option ℕ × Processes → ℤ × Machine
      after made = elim (made.0) [
        | none ↦ (
          negsuc 24,
          record {
            paging =
                dismiss k space stack_page (
                  unmap_and_free 0 space pages
                    (paging_unmap_page_in_space space stack_base filled));
            processes = made.1;
          },
        )
        | some i ↦
            run_process k usermode_enter i entry space stack_page pages
              (record { paging = filled; processes = made.1 })
      ]

      go :
          (made : Option ℕ × Processes)
          → Allocation name entry w.processes made
          → Outcome usermode_enter name entry w.processes (after made)
      go made (full all) = refusal 24 (after (none, w.processes)).1 (omega arith) (omega arith) refl
      go made (started i q begun) =
          let u : Machine = record { paging = filled; processes = q } in
          let place : i < length q.processes =
            omega (arith, begun.places, Chosen-inside begun.chosen) in
          let out = run_process k usermode_enter i entry space stack_page pages u in
          let (code, ended) =
            run_process-Ended i entry space stack_page pages u place
              (omega (arith, place, begun.places, eight)) begun.current in
          subst (λ c. Outcome usermode_enter name entry w.processes (c, out.1)) (sym code)
            (ran i (placed i space u) out.1 (placed-Entered name entry i space w.processes u begun)
              ended.0 ended.1)

  -- A check that refuses.
  guard_lem :
      (name : List ℕ) (entry : ℕ) {w : Processes} {rest : ℤ × Machine} (b : Bool) (n : ℕ)
      (q : Machine)
      → 20 ≤ n
      → n ≤ 24
      → q.processes ≡ w
      → Outcome usermode_enter name entry w rest
      → Outcome usermode_enter name entry w (if b then (negsuc n, q) else rest)
  guard_lem name entry true n q l h same rest = refusal n q l h same
  guard_lem name entry false n q l h same rest = rest

  -- The pages are mapped, or one of them fails.
  mapped_lem :
      (name : List ℕ) (entry : ℕ) (w : Machine) {rest : ℤ × Machine} (failed : Option ℕ)
      (undone : ℕ → Paging)
      → Outcome usermode_enter name entry w.processes rest
      → Outcome usermode_enter name entry w.processes
          (elim failed [ some i ↦ (negsuc 22, record w { paging = undone i }) | none ↦ rest ])
  mapped_lem name entry w (some i) undone rest =
      refusal 22 (record w { paging = undone i }) (omega arith) (omega arith) refl
  mapped_lem name entry w none undone rest = rest

  -- With 8 places in the table, and a program that makes no other process the current one and keeps the
  -- number of places, every call of run_loaded_image either refuses with a code from -21 to -25 and
  -- leaves the table of processes as it was, or enters the program at `entry`, with the end of the
  -- stack page, and returns its code. The program is entered with its process in the first place that
  -- is unused, or else the first that has exited: the current one, running, with the next process
  -- number, the entry, the first 31 characters of the name and no file open, and no other process
  -- changed. Afterwards that process has exited with the code that the program
  -- gave, has no file open and no address space, no process is the current one, and every other process
  -- is as the program left it.
  pub run_loaded_image-Outcome :
      (name : List ℕ) (entry : ℕ) (image : ℕ → ℕ) (size : ℕ) (w : Machine)
      → length w.processes.processes ≡ 8
      → Outcome usermode_enter name entry w.processes
          (run_loaded_image k usermode_enter name entry image size w)
  unfolding run_loaded_image
  run_loaded_image-Outcome name entry image size w eight =
      let stack = pmm_alloc_page w.paging.pmm in
      let made = paging_create_address_space k (with_pmm w.paging stack.1) in
      let (all, pages, pmm) = alloc_image_pages image_pages_count [] made.1.pmm in
      let mapped = map_image k 0 made.0 pages (with_pmm made.1 pmm) in
      let with_stack =
        paging_map_page_in_space k made.0 stack_base stack.0 user_page_flags mapped.1 in
      guard_lem name entry (ltb entry program_base || leb stack_base entry || ltb image_size size)
        20 _ (omega arith) (omega arith) refl
        (guard_lem name entry ((stack.0 == 0) || (made.0 == 0)) 21 _ (omega arith) (omega arith)
          refl
          (guard_lem name entry (not all) 21 _ (omega arith) (omega arith) refl (
            mapped_lem name entry w mapped.0
              (λ i. dismiss k made.0 stack.0 (free_all pages (unmap_image i 0 made.0 mapped.1)))
              (guard_lem name entry (not with_stack.0) 23 _ (omega arith) (omega arith) refl (
                start_mapped-Outcome name entry image size made.0 stack.0 pages
                  (record w { paging = with_stack.1 }) eight)))))
