-- ===== src/Process/Tests.antt =====
-- A table of processes, and the theorems there.
use myos_gui_desktop.Base.{ℕ, ◌≡◌, refl, none, some, [], ◌∷◌}
use myos_gui_desktop.Base.Lists.{length}
use myos_gui_desktop.Strings.{codes}
use myos_gui_desktop.Process.{
  UserProcess, Processes, ProcessState, unused, running, exited, no_processes, empty_process,
  allocate_process, process_by_visible_index, user_process_count, user_process_reap_exited,
  first_in,
}
use myos_gui_desktop.Process.Table.{
  nth, visible, Reaped, process_by_visible_index-visible, user_process_reap_exited-Reaped,
}
use myos_gui_desktop.Process.Slots.{Allocation, allocate_process-Allocation}

-- One that runs, one that has exited, one that is unused and one that runs.
abbrev with_state : (pid : ℕ) → ProcessState → UserProcess
with_state pid state = record empty_process { pid = pid; state = state }

abbrev table : Processes
table = record no_processes {
  next_pid = 5;
  processes =
      with_state 3 running ∷ with_state 2 exited ∷ with_state 0 unused ∷ with_state 4 running ∷ [];
}

process_by_visible_index-visible_example :
    (process_by_visible_index 2 table ≡ nth (visible table.processes) 2)
    × (user_process_count table ≡ length (visible table.processes))
process_by_visible_index-visible_example = process_by_visible_index-visible table 2

user_process_reap_exited-Reaped_example :
    Reaped table.processes
      (user_process_reap_exited table).0
      (user_process_reap_exited table).1.processes
    × ((user_process_reap_exited table).1.next_pid ≡ 5)
    × ((user_process_reap_exited table).1.current_process_index ≡ none)
user_process_reap_exited-Reaped_example = user_process_reap_exited-Reaped table

allocate_process-Allocation_example :
    Allocation (codes "hello") 0x40_0000 table (allocate_process (codes "hello") 0x40_0000 table)
allocate_process-Allocation_example = allocate_process-Allocation (codes "hello") 0x40_0000 table

unused_first : (allocate_process (codes "hello") 0x40_0000 table).0 ≡ some 2
unfolding allocate_process first_in
unused_first = refl
