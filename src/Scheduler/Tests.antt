-- ===== src/Scheduler/Tests.antt =====
-- The scheduler at its three tasks, and the theorems there.

use myos_gui_desktop.Base.{ℕ, zero, suc, ◌+◌, ◌≤◌, ◌<◌, ◌≡◌, refl, [], ◌∷◌, arith}
use myos_gui_desktop.Base.Lists.{take}
use myos_gui_desktop.Scheduler.{
  Scheduler, Symbols, running, runnable, max_tasks, no_task, create_initial_frame,
  scheduler_add_task, scheduler_initialize, scheduler_request_reschedule, scheduler_pick_next,
  pick_from, scheduler_on_tick, suspend, switch_to, keep_running, scheduler_schedule_from_interrupt,
}
use myos_gui_desktop.Scheduler.Pick.{Picked, behind, scheduler_pick_next-Picked}
use myos_gui_desktop.Scheduler.Valid.{IsValid, OneRunning}
use myos_gui_desktop.Scheduler.Run.{
  here, next, tick, interrupt, static_tasks, scheduler_initialize-IsValid, Reach-OneRunning,
}
use myos_gui_desktop.Scheduler.Switch.{Resumed, scheduler_schedule_from_interrupt-Resumed}
use myos_gui_desktop.Scheduler.Fair.{HasFrames, slices, slices-bounded_wait}

abbrev symbols : Symbols
symbols = record {
  task_stacks = 0x20000;
  idle_task = 0x1000;
  io_task = 0x1100;
  task_exit_trap = 0x1200;
}

boot : Scheduler
unfolding create_initial_frame scheduler_add_task scheduler_initialize scheduler_request_reschedule
    pick_from scheduler_pick_next suspend switch_to keep_running scheduler_schedule_from_interrupt
    scheduler_on_tick slices
boot = scheduler_initialize symbols static_tasks

-- Three switches go round the three tasks.
goes_round :
    ((slices (500 ∷ []) boot).current_task ≡ 1)
    × ((slices (500 ∷ 600 ∷ []) boot).current_task ≡ 2)
    × ((slices (500 ∷ 600 ∷ 700 ∷ []) boot).current_task ≡ 0)
unfolding boot
goes_round = (refl, refl, refl)

boot-IsValid : IsValid boot
unfolding boot
boot-IsValid = scheduler_initialize-IsValid symbols

boot_counts : (boot.task_count ≡ 3) × (boot.current_task ≡ 0)
unfolding boot
boot_counts = (refl, refl)

boot-HasFrames : HasFrames boot
unfolding boot
boot-HasFrames zero r other = absurd (other refl)
boot-HasFrames (suc zero) r other = omega arith
boot-HasFrames (suc (suc zero)) r other = omega arith
boot-HasFrames (suc (suc (suc zero))) r other = cc
boot-HasFrames (suc (suc (suc (suc i)))) r other = cc

scheduler_pick_next-Picked_example : Picked boot 1 (1 + boot.task_count) (scheduler_pick_next boot)
scheduler_pick_next-Picked_example = scheduler_pick_next-Picked boot

Reach-OneRunning_example :
    let t =
      (scheduler_schedule_from_interrupt 500
        (scheduler_on_tick (scheduler_initialize symbols static_tasks))).1 in
    OneRunning t × (t.current_task < t.task_count) × (t.task_count ≤ max_tasks)
Reach-OneRunning_example = Reach-OneRunning symbols (next (next here tick) (interrupt 500))

abbrev two_tasks : Scheduler
two_tasks = record {
  tasks =
      record { name = "a"; frame = 0; entry = 0; ticks = 0; runs = 0; state = running }
      ∷ record { name = "b"; frame = 900; entry = 0; ticks = 0; runs = 0; state = runnable }
      ∷ no_task
      ∷ no_task
      ∷ [];
  stack_frames = [];
  task_count = 2;
  current_task = 0;
  current_quantum = 20;
  switches = 0;
  preempt_pending_flag = 1;
}

two_tasks-OneRunning : OneRunning two_tasks
two_tasks-OneRunning zero e = refl
two_tasks-OneRunning (suc zero) e = cc
two_tasks-OneRunning (suc (suc zero)) e = cc
two_tasks-OneRunning (suc (suc (suc zero))) e = cc
two_tasks-OneRunning (suc (suc (suc (suc i)))) e = cc

two_tasks-IsValid : IsValid two_tasks
two_tasks-IsValid = record {
  slots = refl;
  count_le = omega arith;
  current_in = omega arith;
  one_running = two_tasks-OneRunning;
}

scheduler_schedule_from_interrupt-Resumed_example :
    Resumed two_tasks 800 (scheduler_schedule_from_interrupt 800 two_tasks)
scheduler_schedule_from_interrupt-Resumed_example =
    scheduler_schedule_from_interrupt-Resumed two_tasks-IsValid 800 (omega arith) (omega arith)

slices-bounded_wait_example :
    (n : ℕ) × (0 < n)
    × (n ≤ 2)
    × ((slices (take n (500 ∷ 600 ∷ [])) boot).current_task ≡ behind boot 2)
slices-bounded_wait_example =
    slices-bounded_wait (500 ∷ 600 ∷ []) boot-IsValid boot-HasFrames 2 (omega arith)
      (omega (arith, boot_counts)) (unfold boot in refl) (omega arith, (omega arith, tt))
      (omega arith)
