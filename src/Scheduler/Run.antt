-- ===== src/Scheduler/Run.antt =====
-- Every run of the scheduler: start-up, and then ticks, requests, exits and switches in any order.

use myos_gui_desktop.Base.{
  ℕ, zero, suc, [], ◌∷◌, ◌+◌, ◌%◌, ◌^◌, ◌≤◌, ◌<◌, ◌≡◌, refl, inl, inr, arith,
}
use myos_gui_desktop.Base.Tests.{◌==◌, Bool-cases}
use myos_gui_desktop.Scheduler.{
  Scheduler, Symbols, running, max_tasks, no_task, task_at, put_task, scheduler_request_reschedule,
  task_exit_trap, io_task_round, scheduler_on_tick, scheduler_add_task, scheduler_initialize,
  scheduler_schedule_from_interrupt,
}
use myos_gui_desktop.Scheduler.Valid.{
  IsValid, OneRunning, put_current-IsValid, scheduler_request_reschedule-IsValid,
  scheduler_schedule_from_interrupt-IsValid,
}

-- What can happen to the scheduler: the timer, a request, the end of the current task, a round of
-- `io_task`, and an interrupt that left the frame at an address.
pub data Step (s : Scheduler) : Scheduler → Type 0 where
  tick : Step s (scheduler_on_tick s)
  request : Step s (scheduler_request_reschedule s)
  exit : Step s (task_exit_trap s)
  io : Step s (io_task_round s)
  interrupt : (frame : ℕ) → Step s (scheduler_schedule_from_interrupt frame s).1

pub data Reach (s : Scheduler) : Scheduler → Type 0 where
  here : Reach s s
  next : {t u : Scheduler} → Reach s t → Step t u → Reach s u

scheduler_on_tick-IsValid : {s : Scheduler} → IsValid s → IsValid (scheduler_on_tick s)
unfolding scheduler_on_tick
scheduler_on_tick-IsValid {s} v = elim (Bool-cases (s.task_count == 0)) [
  | inl none ↦ rw none v
  | inr some_tasks ↦
      let w : IsValid (put_task s s.current_task _) =
        put_current-IsValid v (record (task_at s s.current_task) {
          ticks = ((task_at s s.current_task).ticks + 1) % 2 ^ 32;
        }) in
      rw some_tasks record {
        slots = w.slots;
        count_le = w.count_le;
        current_in = w.current_in;
        one_running = w.one_running;
      }
]

Step-IsValid : {s t : Scheduler} → Step s t → IsValid s → IsValid t
unfolding task_exit_trap io_task_round
Step-IsValid tick v = scheduler_on_tick-IsValid v
Step-IsValid request v = scheduler_request_reschedule-IsValid v
Step-IsValid exit v = scheduler_request_reschedule-IsValid (put_current-IsValid v _)
Step-IsValid io v = put_current-IsValid v _
Step-IsValid (interrupt frame) v = scheduler_schedule_from_interrupt-IsValid v frame

Reach-IsValid : {s t : Scheduler} → IsValid s → Reach s t → IsValid t
Reach-IsValid v here = v
Reach-IsValid v (next r st) = Step-IsValid st (Reach-IsValid v r)

-- The static variables before start-up: zero bytes.
abbrev pub static_tasks : Scheduler
static_tasks = record {
  tasks = no_task ∷ no_task ∷ no_task ∷ no_task ∷ [];
  stack_frames = [];
  task_count = 0;
  current_task = 0;
  current_quantum = 0;
  switches = 0;
  preempt_pending_flag = 0;
}

only_shell :
    (symbols : Symbols) (i : ℕ)
    → (task_at (scheduler_initialize symbols static_tasks) i).state ≡ running
    → i ≡ 0
unfolding scheduler_initialize scheduler_add_task
only_shell symbols zero e = refl
only_shell symbols (suc zero) e = cc
only_shell symbols (suc (suc zero)) e = cc
only_shell symbols (suc (suc (suc zero))) e = cc
only_shell symbols (suc (suc (suc (suc i)))) e = cc

pub scheduler_initialize-IsValid :
    (symbols : Symbols) → IsValid (scheduler_initialize symbols static_tasks)
unfolding scheduler_initialize scheduler_add_task
scheduler_initialize-IsValid symbols = record {
  slots = refl;
  count_le = omega arith;
  current_in = omega arith;
  one_running = only_shell symbols;
}

-- In every state that the scheduler reaches from start-up, by ticks, requests, exits, rounds of the
-- I/O task and interrupts in any order, at most one task is running, and it is the current one,
-- which is one of the tasks that were added.
pub Reach-OneRunning :
    (symbols : Symbols) {t : Scheduler}
    → Reach (scheduler_initialize symbols static_tasks) t
    → OneRunning t × (t.current_task < t.task_count) × (t.task_count ≤ max_tasks)
Reach-OneRunning symbols r =
    let v = Reach-IsValid (scheduler_initialize-IsValid symbols) r in
    (v.one_running, v.current_in, v.count_le)
