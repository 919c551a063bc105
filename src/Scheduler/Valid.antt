-- ===== src/Scheduler/Valid.antt =====
-- The invariant of the scheduler, and that every operation keeps it.
use native.Mathlib.Decide.{ℕ_discrete}
use myos_gui_desktop.Base.{ℕ, ◌≤◌, ◌<◌, ◌≡◌, ◌≢◌, refl, sym, inl, inr, Bool, ◌||◌, arith}
use myos_gui_desktop.Base.Tests.{ltb, ◌==◌, if◌then◌else◌, Bool-cases}
use myos_gui_desktop.Base.Lists.{length, length-set, get_or-set}
use myos_gui_desktop.Scheduler.{
  Scheduler, Task, TaskState, unused, running, max_tasks, no_task, task_at, put_task, suspend_state,
  suspend, keep_running, switch_to, scheduler_request_reschedule, scheduler_pick_next,
  scheduler_schedule_from_interrupt,
}
use myos_gui_desktop.Scheduler.Pick.{scheduler_pick_next-lt}

-- At most the current task is running.
abbrev pub OneRunning : Scheduler → Type 0
OneRunning s = (i : ℕ) → (task_at s i).state ≡ running → i ≡ s.current_task

pub record IsValid (s : Scheduler) : Type 0 where
  pub slots : length s.tasks ≡ max_tasks
  pub count_le : s.task_count ≤ max_tasks
  pub current_in : s.current_task < s.task_count
  pub one_running : OneRunning s

never_running : (state : TaskState) → suspend_state state ≢ running
never_running unused = ground arith
never_running running = ground arith
never_running _ = ground arith

module _ {s : Scheduler} (v : IsValid s) where
  pub task_at-put_task :
      (i j : ℕ) (t : Task)
      → i < max_tasks
      → task_at (put_task s i t) j ≡ (if i == j then t else task_at s j)
  task_at-put_task i j t h = get_or-set s.tasks i j t no_task (omega (arith, v.slots))

  current_slot : s.current_task < max_tasks
  current_slot = omega (arith, v.count_le, v.current_in)

  -- A new value for the current task, which can run or not.
  pub put_current-IsValid : (t : Task) → IsValid (put_task s s.current_task t)
  put_current-IsValid t = record {
    slots = omega (arith, v.slots, length-set s.tasks s.current_task t);
    count_le = v.count_le;
    current_in = v.current_in;
    one_running = λ i e. elim (ℕ_discrete s.current_task i) [
      | yes same ↦ omega arith
      | no other ↦
          v.one_running i (ground (arith, task_at-put_task s.current_task i t current_slot))
    ];
  }

  pub task_at-suspend :
      (frame j : ℕ)
      → task_at (suspend frame s) j ≡ (
          if s.current_task == j
          then record (task_at s s.current_task) {
            frame = frame;
            state = suspend_state (task_at s s.current_task).state;
          }
          else task_at s j)
  unfolding suspend
  task_at-suspend frame j = task_at-put_task s.current_task j _ current_slot

  -- Between the two halves of a switch no task is running.
  pub suspend-none_running : (frame i : ℕ) → (task_at (suspend frame s) i).state ≢ running
  suspend-none_running frame i e = elim (ℕ_discrete s.current_task i) [
    | yes same ↦
        never_running (task_at s s.current_task).state (ground (arith, task_at-suspend frame i))
    | no other ↦ other (sym (v.one_running i (ground (arith, task_at-suspend frame i))))
  ]

  pub suspend-IsValid : (frame : ℕ) → IsValid (suspend frame s)
  unfolding suspend
  suspend-IsValid frame = put_current-IsValid _

  -- The task that is put in charge after `suspend`.
  resume-IsValid :
      ((i : ℕ) → (task_at s i).state ≢ running)
      → (next : ℕ) (t : Task) → next < s.task_count
      → {r : Scheduler} → r.tasks ≡ (put_task s next t).tasks
      → r.task_count ≡ s.task_count
      → r.current_task ≡ next
      → IsValid r
  resume-IsValid none next t lt {r} et ec en = record {
    slots = rw et (omega (arith, v.slots, length-set s.tasks next t));
    count_le = omega (arith, v.count_le);
    current_in = omega arith;
    one_running = λ i e. elim (ℕ_discrete next i) [
      | yes same ↦ omega arith
      | no other ↦
          let unchanged : task_at r i ≡ task_at s i =
            rw et (ground (arith, task_at-put_task next i t (omega (arith, v.count_le)))) in
          absurd (none i (rw unchanged at e))
    ];
  }

module _ {s : Scheduler} (v : IsValid s) where
  pub scheduler_request_reschedule-IsValid : IsValid (scheduler_request_reschedule s)
  unfolding scheduler_request_reschedule
  scheduler_request_reschedule-IsValid = record {
    slots = v.slots;
    count_le = v.count_le;
    current_in = v.current_in;
    one_running = v.one_running;
  }

  saved-picked : (frame : ℕ) → scheduler_pick_next (suspend frame s) < s.task_count
  unfolding suspend
  saved-picked frame = scheduler_pick_next-lt (suspend frame s) v.current_in

  keep_running-IsValid : (frame : ℕ) → IsValid (keep_running (suspend frame s))
  unfolding keep_running suspend
  keep_running-IsValid frame =
      resume-IsValid (suspend-IsValid v frame) (suspend-none_running v frame) s.current_task _
        v.current_in refl refl refl

  switch_to-IsValid :
      (frame next : ℕ) → next < s.task_count → IsValid (switch_to next (suspend frame s))
  unfolding switch_to suspend
  switch_to-IsValid frame next lt =
      resume-IsValid (suspend-IsValid v frame) (suspend-none_running v frame) next _ lt refl refl
        refl

  -- A switch keeps the invariant, whatever frame the interrupt left: at most one task is running,
  -- and it is the current one.
  pub scheduler_schedule_from_interrupt-IsValid :
      (frame : ℕ) → IsValid (scheduler_schedule_from_interrupt frame s).1
  unfolding scheduler_schedule_from_interrupt
  scheduler_schedule_from_interrupt-IsValid frame =
      elim (Bool-cases (ltb s.task_count 2 || (s.preempt_pending_flag == 0))) [
        | inl idle ↦ rw idle v
        | inr due ↦ rw due (elim (Bool-cases stays) [
          | inl stay ↦ rw stay (keep_running-IsValid frame)
          | inr go ↦ rw go (switch_to-IsValid frame _ (saved-picked frame))
        ])
      ]
    where
      saved : Scheduler
      saved = suspend frame s

      stays : Bool
      stays =
          (scheduler_pick_next saved == saved.current_task)
          || ((task_at saved (scheduler_pick_next saved)).frame == 0)
