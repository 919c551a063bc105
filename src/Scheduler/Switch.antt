-- ===== src/Scheduler/Switch.antt =====
-- One switch: which frame the interrupt returns to, and which task waits how long.

use myos_gui_desktop.Base.{ℕ, ◌<◌, ◌≡◌, ◌≢◌, refl, inl, inr, Bool, false, ◌||◌, arith}
use myos_gui_desktop.Base.Tests.{ltb, ◌==◌, if◌then◌else◌, Bool-cases}
use myos_gui_desktop.Scheduler.{
  Scheduler, Task, running, max_tasks, task_at, put_task, suspend, keep_running, switch_to,
  scheduler_pick_next, scheduler_schedule_from_interrupt,
}
use myos_gui_desktop.Scheduler.Pick.{scheduler_pick_next-lt}
use myos_gui_desktop.Scheduler.Valid.{IsValid, task_at-put_task, task_at-suspend, suspend-IsValid}

-- What a switch that is due leaves: the frame `out.0` to continue with and the state `out.1`, for an
-- interrupt of the task `s.current_task` at `frame`.
pub record Resumed (s : Scheduler) (frame : ℕ) (out : ℕ × Scheduler) : Type 0 where
  pub is_running : (task_at out.1 out.1.current_task).state ≡ running
  pub no_longer_due : out.1.preempt_pending_flag ≡ 0
  pub new_quantum : out.1.current_quantum ≡ 0
  pub saved : (task_at out.1 s.current_task).frame ≡ frame
  pub resumes : out.0 ≡ (
      if out.1.current_task == s.current_task then frame else (task_at s out.1.current_task).frame)
  pub others : (i : ℕ) → i ≢ s.current_task → i ≢ out.1.current_task → task_at out.1 i ≡ task_at s i
  pub same_count : out.1.task_count ≡ s.task_count

module _ {s : Scheduler} (v : IsValid s) (frame : ℕ) where
  abbrev saved : Scheduler
  saved = suspend frame s

  w : IsValid saved
  w = suspend-IsValid v frame

  current_slot : s.current_task < max_tasks
  current_slot = omega (arith, v.count_le, v.current_in)

  -- The slot of the task that goes on, in the new state.
  module _ (next : ℕ) (t : Task) (lt : next < max_tasks) (r : Scheduler)
      (tasks : r.tasks ≡ (put_task saved next t).tasks) (current : r.current_task ≡ next) where
    at : (i : ℕ) → task_at r i ≡ (if next == i then t else task_at saved i)
    at i = rw tasks (task_at-put_task w next i t lt)

    resume-Resumed :
        t.state ≡ running
        → t.frame ≡ (task_at saved next).frame
        → r.preempt_pending_flag ≡ 0
        → r.current_quantum ≡ 0
        → r.task_count ≡ s.task_count
        → {f : ℕ} → f ≡ (if next == s.current_task then frame else (task_at s next).frame)
        → Resumed s frame (f, r)
    resume-Resumed state same pending quantum count e = record {
      is_running = rw current (ground (arith, at next));
      no_longer_due = pending;
      new_quantum = quantum;
      saved = ground (arith, at s.current_task, task_at-suspend v frame s.current_task);
      resumes = rw current e;
      others = λ i a b. ground (arith, at i, task_at-suspend v frame i);
      same_count = count;
    }

  keep_running-Resumed : Resumed s frame (frame, keep_running saved)
  unfolding keep_running suspend
  keep_running-Resumed =
      resume-Resumed s.current_task _ current_slot _ refl refl refl refl refl refl refl
        (ground arith)

  switch_to-Resumed :
      (next : ℕ)
      → next < s.task_count
      → (next == s.current_task) ≡ false
      → Resumed s frame ((task_at saved next).frame, switch_to next saved)
  unfolding switch_to suspend
  switch_to-Resumed next lt other =
      resume-Resumed next _ (omega (arith, v.count_le)) _ refl refl refl refl refl refl refl
        (ground (arith, task_at-suspend v frame next))

  -- When a switch is due and there are two tasks, one task is running afterwards, the interrupted
  -- one has its frame saved, the interrupt returns to the frame saved for the new task (or goes on,
  -- if the task did not change), the quantum starts again, and no other task changes.
  pub scheduler_schedule_from_interrupt-Resumed :
      1 < s.task_count
      → s.preempt_pending_flag ≢ 0
      → Resumed s frame (scheduler_schedule_from_interrupt frame s)
  unfolding scheduler_schedule_from_interrupt
  scheduler_schedule_from_interrupt-Resumed two due =
      let go : (ltb s.task_count 2 || (s.preempt_pending_flag == 0)) ≡ false = ground arith in
      rw go (elim (Bool-cases stays) [
        | inl stay ↦ rw stay keep_running-Resumed
        | inr switch ↦ rw switch (switch_to-Resumed (scheduler_pick_next saved) lt (changed switch))
      ])
    where
      stays : Bool
      stays =
          (scheduler_pick_next saved == saved.current_task)
          || ((task_at saved (scheduler_pick_next saved)).frame == 0)

      lt : scheduler_pick_next saved < s.task_count
      lt = unfold suspend in scheduler_pick_next-lt saved v.current_in

      changed : stays ≡ false → (scheduler_pick_next saved == s.current_task) ≡ false
      changed h = unfold suspend in ground arith
