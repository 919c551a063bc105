-- ===== src/Process.antt =====
-- Processes of ring 3, kernel/core/usermode.c: the table of processes and the files that they have
-- open. A pointer to a process is its place in the table, and the null pointer is none, as is -1 in
-- `current_process_index`.
pub mod Descriptors
pub mod Table
pub mod Slots
pub mod Reads
mod Tests
use myos_gui_desktop.Base.{
  ℕ, zero, suc, ◌+◌, ◌%◌, ◌^◌, Bool, true, false, not, ◌&&◌, ◌||◌, Option, none, some, List, [],
  ◌∷◌, ◌++◌,
}
use myos_gui_desktop.Base.Tests.{ltb, leb, ◌==◌, if◌then◌else◌}
use myos_gui_desktop.Base.Lists.{length, get_or, set, drop, replicate}
use myos_gui_desktop.Base.Int.{ℤ, pos, negsuc}
use myos_gui_desktop.Strings.{codes}

abbrev pub process_name_size : ℕ
process_name_size = 32

abbrev pub process_count : ℕ
process_count = 8

abbrev pub process_fd_count : ℕ
process_fd_count = 8

pub data ProcessState : Type 0 where
  unused : ProcessState
  running : ProcessState
  exited : ProcessState

-- An element of `fds`; the field `open` is `is_open` here.
pub record Descriptor : Type 0 where
  pub is_open : Bool
  pub file_index : ℕ
  pub offset : ℕ

-- `name` is the 32 bytes of the array.
pub record UserProcess : Type 0 where
  pub pid : ℕ
  pub state : ProcessState
  pub name : List ℕ
  pub entry : ℕ
  pub exit_code : ℤ
  pub address_space : ℕ
  pub fds : List Descriptor

pub record Processes : Type 0 where
  pub next_pid : ℕ
  pub processes : List UserProcess
  pub current_process_index : Option ℕ

abbrev pub closed : Descriptor
closed = record { is_open = false; file_index = 0; offset = 0 }

abbrev pub empty_process : UserProcess
empty_process = record {
  pid = 0;
  state = unused;
  name = replicate 32 0;
  entry = 0;
  exit_code = pos 0;
  address_space = 0;
  fds = replicate 8 closed;
}

-- What the static variables are at start-up.
abbrev pub no_processes : Processes
no_processes = record {
  next_pid = 1;
  processes = replicate 8 empty_process;
  current_process_index = none;
}

abbrev pub is_unused : ProcessState → Bool
is_unused unused = true
is_unused running = false
is_unused exited = false

abbrev pub is_exited : ProcessState → Bool
is_exited unused = false
is_exited running = false
is_exited exited = true

-- The bytes that the loop of `copy_process_name` copies, with room for `n`.
pub name_part : ℕ → List ℕ → List ℕ
name_part zero src = []
name_part (suc n) [] = []
name_part (suc n) (c ∷ src) = if c == 0 then [] else c ∷ name_part n src

unfoldable pub copy_process_name : (dst src : List ℕ) → List ℕ
copy_process_name dst src =
    let copied = name_part 31 src in copied ++ (0 ∷ drop (length copied + 1) dst)

unfoldable pub current_process : Processes → Option ℕ
current_process w = elim (w.current_process_index) [
  | none ↦ none
  | some i ↦ if leb process_count i then none else some i
]

pub process_state_name : ProcessState → List ℕ
process_state_name running = codes "running"
process_state_name exited = codes "exited"
process_state_name unused = codes "unused"

-- The loops of `allocate_process`: the first process in a state, from place `i` on.
unfoldable pub first_in : (ProcessState → Bool) → (i : ℕ) → List UserProcess → Option ℕ
first_in test i [] = none
first_in test i (process ∷ rest) =
    let found = first_in test (i + 1) rest in if test process.state then some i else found

-- What `allocate_process` makes of the process that it found.
unfoldable pub start_process : (i : ℕ) → (name : List ℕ) → (entry : ℕ) → Processes → Processes
start_process i name entry w =
    let old = get_or w.processes i empty_process in
    record {
      next_pid = (w.next_pid + 1) % 2 ^ 32;
      processes = set w.processes i (record {
        pid = w.next_pid;
        state = running;
        name = copy_process_name old.name name;
        entry = entry;
        exit_code = pos 0;
        address_space = 0;
        fds = replicate process_fd_count closed;
      });
      current_process_index = some i;
    }

unfoldable pub allocate_process : (name : List ℕ) → (entry : ℕ) → Processes → Option ℕ × Processes
allocate_process name entry w = elim (first_in is_unused 0 w.processes) [
  | some i ↦ (some i, start_process i name entry w)
  | none ↦ elim (first_in is_exited 0 w.processes) [
    | some i ↦ (some i, start_process i name entry w)
    | none ↦ (none, w)
  ]
]

-- The loop of `user_process_count`.
unfoldable pub count_used : List UserProcess → ℕ
count_used [] = 0
count_used (process ∷ rest) =
    let count = count_used rest in if not (is_unused process.state) then count + 1 else count

unfoldable pub user_process_count : Processes → ℕ
user_process_count w = count_used w.processes

-- The loop of `process_by_visible_index`, with `visible` processes seen before.
unfoldable pub visible_from : (visible index : ℕ) → List UserProcess → Option UserProcess
visible_from visible index [] = none
visible_from visible index (process ∷ rest) =
    let skip = visible_from visible index rest in
    let next = visible_from (visible + 1) index rest in
    if is_unused process.state then skip else if visible == index then some process else next

unfoldable pub process_by_visible_index : ℕ → Processes → Option UserProcess
process_by_visible_index index w = visible_from 0 index w.processes

unfoldable pub user_process_pid : ℕ → Processes → ℕ
user_process_pid index w = elim (process_by_visible_index index w) [
  | none ↦ 0
  | some process ↦ process.pid
]

unfoldable pub user_process_name : ℕ → Processes → List ℕ
user_process_name index w = elim (process_by_visible_index index w) [
  | none ↦ []
  | some process ↦ process.name
]

unfoldable pub user_process_state : ℕ → Processes → List ℕ
user_process_state index w = elim (process_by_visible_index index w) [
  | none ↦ []
  | some process ↦ process_state_name process.state
]

unfoldable pub user_process_exit_code : ℕ → Processes → ℤ
user_process_exit_code index w = elim (process_by_visible_index index w) [
  | none ↦ pos 0
  | some process ↦ process.exit_code
]

-- The loop of `user_process_wait_pid`.
unfoldable pub wait_in : (pid : ℕ) → List UserProcess → ℤ
wait_in pid [] = negsuc 0
wait_in pid (process ∷ rest) =
    let later = wait_in pid rest in
    if not (is_unused process.state) && (process.pid == pid)
    then (if is_exited process.state then process.exit_code else negsuc 1)
    else later

unfoldable pub user_process_wait_pid : (pid : ℕ) → Processes → ℤ
user_process_wait_pid pid w = wait_in pid w.processes

unfoldable pub reaped_process : UserProcess → UserProcess
reaped_process process = record process {
  state = unused;
  pid = 0;
  name = set process.name 0 0;
  entry = 0;
  exit_code = pos 0;
  address_space = 0;
}

-- The loop of `user_process_reap_exited`.
unfoldable pub reap_all : List UserProcess → ℕ × List UserProcess
reap_all [] = (0, [])
reap_all (process ∷ rest) =
    let done = reap_all rest in
    if is_exited process.state
    then (done.0 + 1, reaped_process process ∷ done.1)
    else (done.0, process ∷ done.1)

unfoldable pub user_process_reap_exited : Processes → ℕ × Processes
user_process_reap_exited w =
    let done = reap_all w.processes in (done.0, record w { processes = done.1 })

unfoldable pub user_process_current_pid : Processes → ℕ
user_process_current_pid w = elim (current_process w) [
  | none ↦ 0
  | some i ↦ (get_or w.processes i empty_process).pid
]
