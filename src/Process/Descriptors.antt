-- ===== src/Process/Descriptors.antt =====
-- The files that a process has open, in kernel/core/usermode.c.
use myos_gui_desktop.Base.{
  ℕ, ◌+◌, ◌%◌, ◌^◌, true, false, not, ◌||◌, Option, none, some, List, [], ◌∷◌, map,
}
use myos_gui_desktop.Base.Tests.{leb, if◌then◌else◌}
use myos_gui_desktop.Base.Lists.{length, get_or, set}
use myos_gui_desktop.Base.Int.{ℤ, pos, negsuc}
use myos_gui_desktop.DiskFs.{Ata}
use myos_gui_desktop.Volume.{Space, Volume}
use myos_gui_desktop.Paths.{diskfs_find_file}
use myos_gui_desktop.Files.{diskfs_read_index}
use myos_gui_desktop.Process.{
  Descriptor, closed, UserProcess, Processes, empty_process, process_fd_count, current_process,
}

abbrev pub process_at : Processes → ℕ → UserProcess
process_at w i = get_or w.processes i empty_process

-- `process->fds[fd]`, read and written.
abbrev pub descriptor : Processes → (i fd : ℕ) → Descriptor
descriptor w i fd = get_or (process_at w i).fds fd closed

abbrev pub put_descriptor : (i fd : ℕ) → Descriptor → Processes → Processes
put_descriptor i fd d w =
    let process = process_at w i in
    record w { processes = set w.processes i (record process { fds = set process.fds fd d }) }

-- The loop of `user_process_fd_open`: the first element of `fds`, from `fd` on, that is not open.
unfoldable pub first_closed : (fd : ℕ) → List Descriptor → Option ℕ
first_closed fd [] = none
first_closed fd (d ∷ rest) =
    let found = first_closed (fd + 1) rest in if not d.is_open then some fd else found

unfoldable pub user_process_fd_open : (path : List ℕ) → Space → Processes → ℤ × Processes
user_process_fd_open path s w = elim (current_process w) [
  | none ↦ (negsuc 0, w)
  | some i ↦ elim (diskfs_find_file path s) [
    | none ↦ (negsuc 1, w)
    | some file_index ↦ elim (first_closed 0 (process_at w i).fds) [
      | none ↦ (negsuc 2, w)
      | some fd ↦ (
        pos fd,
        put_descriptor i fd (record { is_open = true; file_index = file_index; offset = 0 }) w,
      )
    ]
  ]
]

-- The place of the current process, if its descriptor is open.
unfoldable pub open_in : (fd : ℕ) → Processes → Option ℕ
open_in fd w = elim (current_process w) [
  | none ↦ none
  | some i ↦ if leb process_fd_count fd || not (descriptor w i fd).is_open then none else some i
]

-- The result with the bytes that the buffer gets.
unfoldable pub user_process_fd_read :
    {Disk : Type 0}
    → Ata Disk
    → (fd size : ℕ) → Processes
    → Volume Disk
    → (ℤ × List ℕ) × Processes × Volume Disk
user_process_fd_read ata fd size w v = elim (open_in fd w) [
  | none ↦ ((negsuc 0, []), w, v)
  | some i ↦
      let d = descriptor w i fd in
      let got = diskfs_read_index ata d.file_index d.offset size v in
      let bytes = got.0.1 in
      let bytes_read = length bytes in
      if not got.0.0 then ((negsuc 1, bytes), w, got.1) else (
        (pos bytes_read, bytes),
        put_descriptor i fd (record d { offset = (d.offset + bytes_read) % 2 ^ 32 }) w,
        got.1,
      )
]

unfoldable pub user_process_fd_close : (fd : ℕ) → Processes → ℤ × Processes
user_process_fd_close fd w = elim (open_in fd w) [
  | none ↦ (negsuc 0, w)
  | some i ↦ (pos 0, put_descriptor i fd (record (descriptor w i fd) { is_open = false }) w)
]

unfoldable pub user_process_close_all : Processes → Processes
user_process_close_all w = elim (current_process w) [
  | none ↦ w
  | some i ↦
      let process = process_at w i in
      record w {
        processes = set w.processes i (record process {
          fds = map (λ (d : Descriptor). record d { is_open = false }) process.fds;
        });
      }
]
