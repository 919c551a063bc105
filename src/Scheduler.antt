-- ===== src/Scheduler.antt =====
-- The preemptive round-robin scheduler, kernel/sched/scheduler.c. Its static variables are the
-- fields of `Scheduler`. Frames and entry points are addresses, 0 the null pointer; the stacks on
-- which first frames are written are the field `stack_frames`.
pub mod Pick
pub mod Valid
pub mod Run
pub mod Switch
pub mod Fair
mod Tests
use Prim.Native.String.{String}
use myos_gui_desktop.Base.{
  ℕ, zero, suc, ◌+◌, ◌-◌, ◌*◌, ◌%◌, ◌^◌, bit_and, Bool, true, false, not, ◌&&◌, ◌||◌, List, [], ◌∷◌,
}
use myos_gui_desktop.Base.Tests.{ltb, leb, ◌==◌, if◌then◌else◌}
use myos_gui_desktop.Base.Lists.{get_or, set}

abbrev pub max_tasks : ℕ
max_tasks = 4

abbrev pub task_stack_size : ℕ
task_stack_size = 4096

abbrev pub task_quantum_ticks : ℕ
task_quantum_ticks = 20

pub data TaskState : Type 0 where
  unused runnable running sleeping exited : TaskState

-- `struct interrupt_frame` of include/myos/idt.h: 19 words.
pub record InterruptFrame : Type 0 where
  pub gs : ℕ
  pub fs : ℕ
  pub es : ℕ
  pub ds : ℕ
  pub edi : ℕ
  pub esi : ℕ
  pub ebp : ℕ
  pub esp : ℕ
  pub ebx : ℕ
  pub edx : ℕ
  pub ecx : ℕ
  pub eax : ℕ
  pub int_no : ℕ
  pub err_code : ℕ
  pub eip : ℕ
  pub cs : ℕ
  pub eflags : ℕ
  pub useresp : ℕ
  pub userss : ℕ

abbrev pub frame_size : ℕ
frame_size = 76

pub record Task : Type 0 where
  pub name : String
  pub frame : ℕ
  pub entry : ℕ
  pub ticks : ℕ
  pub runs : ℕ
  pub state : TaskState

abbrev pub no_task : Task
no_task = record { name = ""; frame = 0; entry = 0; ticks = 0; runs = 0; state = unused }

pub record Scheduler : Type 0 where
  pub tasks : List Task
  pub stack_frames : List (ℕ × InterruptFrame)
  pub task_count : ℕ
  pub current_task : ℕ
  pub current_quantum : ℕ
  pub switches : ℕ
  pub preempt_pending_flag : ℕ

-- Addresses that the linker fixes: the array of stacks, and the functions that tasks run.
pub record Symbols : Type 0 where
  pub task_stacks : ℕ
  pub idle_task : ℕ
  pub io_task : ℕ
  pub task_exit_trap : ℕ

abbrev pub task_at : Scheduler → ℕ → Task
task_at s i = get_or s.tasks i no_task

abbrev pub put_task : Scheduler → ℕ → Task → Scheduler
put_task s i t = record s { tasks = set s.tasks i t }

pub scheduler_request_reschedule : Scheduler → Scheduler
scheduler_request_reschedule s = record s { preempt_pending_flag = 1 }

-- `task_exit_trap`, up to the loop that waits for the next interrupt.
pub task_exit_trap : Scheduler → Scheduler
unfolding scheduler_request_reschedule
task_exit_trap s =
    scheduler_request_reschedule
      (put_task s s.current_task (record (task_at s s.current_task) { state = exited }))

-- One round of the loop of `io_task`.
pub io_task_round : Scheduler → Scheduler
io_task_round s =
    put_task s s.current_task
      (record (task_at s s.current_task) { runs = ((task_at s s.current_task).runs + 1) % 2 ^ 32 })

pub initial_frame : (entry exit_trap : ℕ) → InterruptFrame
initial_frame entry exit_trap = record {
  gs = 0x10;
  fs = 0x10;
  es = 0x10;
  ds = 0x10;
  edi = 0;
  esi = 0;
  ebp = 0;
  esp = 0;
  ebx = 0;
  edx = 0;
  ecx = 0;
  eax = 0;
  int_no = 0;
  err_code = 0;
  eip = entry;
  cs = 0x08;
  eflags = 0x202;
  useresp = exit_trap;
  userss = 0x10;
}

-- The address of a first frame, below the aligned top of the task's stack.
pub create_initial_frame : Symbols → ℕ → ℕ → ℕ × InterruptFrame
create_initial_frame symbols task_id entry = (
  bit_and ((symbols.task_stacks + task_id * task_stack_size + task_stack_size) % 2 ^ 32)
        (2 ^ 32 - 1 - 0xf)
      - frame_size,
  initial_frame entry symbols.task_exit_trap,
)

new_task : String → ℕ → Bool → ℕ → Task
new_task name entry current frame = record {
  name = name;
  frame = frame;
  entry = entry;
  ticks = 0;
  runs = 0;
  state = if current then running else runnable;
}

pub scheduler_add_task : Symbols → String → ℕ → Bool → Scheduler → Scheduler
unfolding new_task
scheduler_add_task symbols name entry current s =
    if leb max_tasks s.task_count
    then s
    else if current
    then record (put_task s s.task_count (new_task name entry true 0)) {
      task_count = s.task_count + 1;
    }
    else (let (address, frame) = create_initial_frame symbols s.task_count entry in
        record (put_task s s.task_count (new_task name entry false address)) {
          task_count = s.task_count + 1;
          stack_frames = (address, frame) ∷ s.stack_frames;
        })

-- `tasks` is the static array, as it is before.
pub scheduler_initialize : Symbols → Scheduler → Scheduler
scheduler_initialize symbols s =
    let reset : Scheduler = record s {
      task_count = 0;
      current_task = 0;
      current_quantum = 0;
      switches = 0;
      preempt_pending_flag = 0;
    } in
    scheduler_add_task symbols "io" symbols.io_task false (
      scheduler_add_task symbols "idle" symbols.idle_task false
        (scheduler_add_task symbols "shell" 0 true reset))

abbrev pub is_ready_state : TaskState → Bool
is_ready_state runnable = true
is_ready_state running = true
is_ready_state _ = false

abbrev pub is_ready : Scheduler → ℕ → Bool
is_ready s i = is_ready_state (task_at s i).state

-- The loop of `scheduler_pick_next` from `i` on, with `n` rounds left.
pub pick_from : ℕ → ℕ → Scheduler → ℕ
pick_from zero i s = s.current_task
pick_from (suc n) i s =
    let candidate = (s.current_task + i) % s.task_count in
    let rest = pick_from n (i + 1) s in if is_ready s candidate then candidate else rest

pub scheduler_pick_next : Scheduler → ℕ
scheduler_pick_next s = pick_from s.task_count 1 s

pub scheduler_on_tick : Scheduler → Scheduler
scheduler_on_tick s =
    if s.task_count == 0
    then s
    else (let quantum = (s.current_quantum + 1) % 2 ^ 32 in
        let task = task_at s s.current_task in
        record (put_task s s.current_task (record task { ticks = (task.ticks + 1) % 2 ^ 32 })) {
          current_quantum = quantum;
          preempt_pending_flag =
              if leb task_quantum_ticks quantum then 1 else s.preempt_pending_flag;
        })

-- The first part of the switch: the interrupted task keeps its frame and can run again.
abbrev pub suspend_state : TaskState → TaskState
suspend_state running = runnable
suspend_state state = state

pub suspend : ℕ → Scheduler → Scheduler
suspend frame s =
    let task = task_at s s.current_task in
    put_task s s.current_task (record task { frame = frame; state = suspend_state task.state })

-- No other task to run: the interrupted one goes on.
pub keep_running : Scheduler → Scheduler
keep_running s =
    record (put_task s s.current_task (record (task_at s s.current_task) { state = running })) {
      preempt_pending_flag = 0;
      current_quantum = 0;
    }

pub switch_to : ℕ → Scheduler → Scheduler
switch_to next s =
    let task = task_at s next in
    record (put_task s next (record task { runs = (task.runs + 1) % 2 ^ 32; state = running })) {
      current_task = next;
      current_quantum = 0;
      preempt_pending_flag = 0;
      switches = (s.switches + 1) % 2 ^ 32;
    }

-- It returns the frame to continue with.
pub scheduler_schedule_from_interrupt : ℕ → Scheduler → ℕ × Scheduler
scheduler_schedule_from_interrupt frame s =
    if ltb s.task_count 2 || (s.preempt_pending_flag == 0)
    then (frame, s)
    else (let saved = suspend frame s in
        let next = scheduler_pick_next saved in
        if (next == saved.current_task) || ((task_at saved next).frame == 0)
        then (frame, keep_running saved)
        else ((task_at saved next).frame, switch_to next saved))

pub scheduler_task_run_count : Scheduler → ℕ → ℕ
scheduler_task_run_count s id = if leb s.task_count id then 0 else (task_at s id).runs

pub scheduler_task_name : Scheduler → ℕ → String
scheduler_task_name s id = if leb s.task_count id then "" else (task_at s id).name

abbrev pub state_name : TaskState → String
state_name runnable = "runnable"
state_name running = "running"
state_name sleeping = "sleeping"
state_name exited = "exited"
state_name unused = "unused"

pub scheduler_task_state : Scheduler → ℕ → String
scheduler_task_state s id = if leb s.task_count id then "" else state_name (task_at s id).state
