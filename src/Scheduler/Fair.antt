-- ===== src/Scheduler/Fair.antt =====
-- A task that can run is reached within as many switches as it is places behind the current task.
use native.Mathlib.Nat.{mod-add-mod}
use native.Mathlib.Decide.{ℕ_discrete, dec_lt}
use myos_gui_desktop.Base.{
  ℕ, suc, ◌+◌, ◌-◌, ◌%◌, ◌≤◌, ◌<◌, ◌≡◌, ◌≢◌, refl, sym, ap, ◌∙◌, inl, inr, true, false, ◌||◌, List,
  [], ◌∷◌, arith,
}
use myos_gui_desktop.Base.Tests.{ltb, ◌==◌, Bool-cases}
use myos_gui_desktop.Base.Lists.{length, take}
use myos_gui_desktop.Scheduler.{
  Scheduler, TaskState, unused, running, task_at, is_ready, is_ready_state, suspend_state, suspend,
  switch_to, scheduler_request_reschedule, scheduler_pick_next, scheduler_schedule_from_interrupt,
}
use myos_gui_desktop.Scheduler.Pick.{Picked, first, nobody, behind, scheduler_pick_next-Picked}
use myos_gui_desktop.Scheduler.Valid.{
  IsValid, task_at-suspend, scheduler_request_reschedule-IsValid,
  scheduler_schedule_from_interrupt-IsValid,
}
use myos_gui_desktop.Scheduler.Switch.{Resumed, scheduler_schedule_from_interrupt-Resumed}

-- Every task that is ready and was interrupted has a frame to return to.
abbrev pub HasFrames : Scheduler → Type 0
HasFrames s = (i : ℕ) → is_ready s i ≡ true → i ≢ s.current_task → (task_at s i).frame ≢ 0

ready_suspend_state :
    (state : TaskState) → is_ready_state (suspend_state state) ≡ is_ready_state state
ready_suspend_state unused = refl
ready_suspend_state running = refl
ready_suspend_state _ = refl

pub is_ready-suspend :
    {s : Scheduler} (v : IsValid s) (frame i : ℕ) → is_ready (suspend frame s) i ≡ is_ready s i
is_ready-suspend {s} v frame i = elim (Bool-cases (s.current_task == i)) [
  | inl same ↦
      ground
        (arith, task_at-suspend v frame i, ready_suspend_state (task_at s s.current_task).state)
  | inr other ↦ ground (arith, task_at-suspend v frame i)
]

mod-ne : {n c e : ℕ} → c < n → 0 < e → e < n → (c + e) % n ≢ c
mod-ne hc he hn h = grind arith

-- The pick, seen from a ready task that is `d` places behind: it is no further.
record Reaches (s : Scheduler) (d r : ℕ) : Type 0 where
  place : ℕ
  pos : 0 < place
  le : place ≤ d
  here : r ≡ behind s place
  ready : is_ready s r ≡ true

Picked-Reaches :
    {s : Scheduler} (d : ℕ) {stop r : ℕ}
    → 0 < d
    → d < stop
    → is_ready s (behind s d) ≡ true
    → Picked s 1 stop r
    → Reaches s d r
Picked-Reaches {s} d pos lt k (first e a b ready none) = elim (dec_lt d e) [
  | yes before ↦ cc (none d pos before)
  | no behind ↦ record { place = e; pos = a; le = omega arith; here = refl; ready = ready }
]
Picked-Reaches d pos lt k (nobody none) = cc (none d pos lt)

module _ {s : Scheduler} (v : IsValid s) (f : HasFrames s) (due : s.preempt_pending_flag ≢ 0)
    (frame d : ℕ) (pos : 0 < d) (lt : d < s.task_count) (k : is_ready s (behind s d) ≡ true) where
  next : ℕ
  next = scheduler_pick_next (suspend frame s)

  next-Reaches : Reaches (suspend frame s) d next
  unfolding next suspend
  next-Reaches =
      Picked-Reaches d pos (omega arith) (is_ready-suspend v frame (behind s d) ∙ k)
        (scheduler_pick_next-Picked (suspend frame s))

  next_other : next ≢ s.current_task
  next_other e = mod-ne v.current_in next-Reaches.pos (omega (arith, next-Reaches.le)) (here' ∙ e)
    where
      here' : behind s next-Reaches.place ≡ next
      here' = unfold suspend in sym next-Reaches.here

  next_frame : (task_at (suspend frame s) next).frame ≢ 0
  next_frame =
      let same : task_at (suspend frame s) next ≡ task_at s next =
        ground (arith, next_other, task_at-suspend v frame next) in
      rw same (f next (sym (is_ready-suspend v frame next) ∙ next-Reaches.ready) next_other)

  -- The switch goes to a task between the current one and the one that waits.
  current-schedule : (scheduler_schedule_from_interrupt frame s).1.current_task ≡ next
  unfolding scheduler_schedule_from_interrupt switch_to next
  current-schedule =
      let go : (ltb s.task_count 2 || (s.preempt_pending_flag == 0)) ≡ false = ground arith in
      let stays : ((scheduler_pick_next (suspend frame s) == (suspend frame s).current_task)
            || ((task_at (suspend frame s) (scheduler_pick_next (suspend frame s))).frame == 0))
          ≡ false =
        ground (arith, next_frame, moved) in
      rw go (rw stays refl)
    where
      moved : (scheduler_pick_next (suspend frame s) == (suspend frame s).current_task) ≡ false
      moved = unfold suspend in ground (arith, next_other)

-- One switch takes the task that waits `d` places behind at most `d` places nearer.
record Nearer (s t : Scheduler) (d : ℕ) : Type 0 where
  steps : ℕ
  pos : 0 < steps
  le : steps ≤ d
  same_count : t.task_count ≡ s.task_count
  current : t.current_task ≡ behind s steps
  target : behind t (d - steps) ≡ behind s d
  frames : HasFrames t
  still : steps < d → is_ready t (behind s d) ≡ true

module _ {s : Scheduler} (v : IsValid s) (f : HasFrames s) (due : s.preempt_pending_flag ≢ 0)
    (frame d : ℕ) (nonzero : frame ≢ 0) (pos : 0 < d) (lt : d < s.task_count)
    (k : is_ready s (behind s d) ≡ true) where
  after : Scheduler
  after = (scheduler_schedule_from_interrupt frame s).1

  resumed : Resumed s frame (scheduler_schedule_from_interrupt frame s)
  resumed = scheduler_schedule_from_interrupt-Resumed v frame (omega arith) due

  reached : Reaches (suspend frame s) d (next v f due frame d pos lt k)
  reached = next-Reaches v f due frame d pos lt k

  here : after.current_task ≡ behind s reached.place
  unfolding after
  here = current-schedule v f due frame d pos lt k ∙ (unfold suspend in reached.here)

  after-HasFrames : HasFrames after
  unfolding after
  after-HasFrames i r other = elim (ℕ_discrete i s.current_task) [
    | yes same ↦ rw same (rw resumed.saved nonzero)
    | no ne ↦
        let unchanged : task_at after i ≡ task_at s i = resumed.others i ne other in
        rw unchanged (f i (rw unchanged at r) ne)
  ]

  at_target : behind after (d - reached.place) ≡ behind s d
  unfolding after
  at_target =
      let there : s.current_task + reached.place + (d - reached.place) ≡ s.current_task + d =
        omega (arith, reached.le) in
      rw (resumed.same_count, here)
        (mod-add-mod (s.current_task + reached.place) s.task_count (d - reached.place)
          ∙ ap (λ t. t % s.task_count) there)

  still_ready : reached.place < d → is_ready after (behind s d) ≡ true
  unfolding after
  still_ready l =
      let in_range : after.current_task < after.task_count =
        (scheduler_schedule_from_interrupt-IsValid v frame).current_in in
      let rest : behind after (d - reached.place) ≢ after.current_task =
        mod-ne in_range (omega arith) (omega (arith, resumed.same_count)) in
      let unchanged : task_at after (behind s d) ≡ task_at s (behind s d) =
        resumed.others (behind s d) (mod-ne v.current_in pos lt) (rw at_target at rest) in
      rw unchanged k

  schedule-Nearer : Nearer s after d
  unfolding after
  schedule-Nearer = record {
    steps = reached.place;
    pos = reached.pos;
    le = reached.le;
    same_count = resumed.same_count;
    current = here;
    target = at_target;
    frames = after-HasFrames;
    still = still_ready;
  }

-- Switches one after the other: each is requested, as the end of a quantum does too, and the next
-- interrupt, which left its frame at the address given, makes it.
unfoldable pub slices : List ℕ → Scheduler → Scheduler
slices [] s = s
slices (frame ∷ rest) s =
    slices rest (scheduler_schedule_from_interrupt frame (scheduler_request_reschedule s)).1

abbrev pub AllNonzero : List ℕ → Type 0
AllNonzero [] = Unit {0}
AllNonzero (frame ∷ rest) = (frame ≢ 0) × AllNonzero rest

slice-Nearer :
    {s : Scheduler}
    → IsValid s
    → HasFrames s
    → (frame d : ℕ) → frame ≢ 0
    → 0 < d
    → d < s.task_count
    → is_ready s (behind s d) ≡ true
    → Nearer s (slices (frame ∷ []) s) d
unfolding slices scheduler_request_reschedule after
slice-Nearer {s} v f frame d nonzero pos lt k =
    let n : Nearer (scheduler_request_reschedule s)
        (scheduler_schedule_from_interrupt frame (scheduler_request_reschedule s)).1 d =
      schedule-Nearer (scheduler_request_reschedule-IsValid v) f (omega arith) frame d nonzero pos
        lt k in
    record {
      steps = n.steps;
      pos = n.pos;
      le = n.le;
      same_count = n.same_count;
      current = n.current;
      target = n.target;
      frames = n.frames;
      still = n.still;
    }

-- In a valid state in which every ready task has a frame, a task that is ready, `d` places behind the
-- current one, is the current one after at most `d` requested switches, as long as no task changes its
-- state between them and every interrupt leaves a frame.
pub slices-bounded_wait :
    (frames : List ℕ) {s : Scheduler}
    → IsValid s
    → HasFrames s
    → (d : ℕ) → 0 < d
    → d < s.task_count
    → is_ready s (behind s d) ≡ true
    → AllNonzero frames
    → d ≤ length frames
    → (n : ℕ) × (0 < n) × (n ≤ d) × ((slices (take n frames) s).current_task ≡ behind s d)
unfolding slices
slices-bounded_wait [] v f d pos lt k all enough = absurd (omega arith)
slices-bounded_wait (frame ∷ rest) {s} v f d pos lt k all enough = elim (ℕ_discrete step.steps d) [
  | yes done ↦ (1, omega arith, omega arith, step.current ∙ ap (behind s) done)
  | no ne ↦
      let more : step.steps < d = omega (arith, step.le) in
      let goal : is_ready t (behind t (d - step.steps)) ≡ true = rw step.target (step.still more) in
      let (n, a, b, e) =
        slices-bounded_wait rest t-IsValid step.frames (d - step.steps) (omega arith)
          (omega (arith, step.same_count)) goal all.1 (omega (arith, step.pos)) in
      (suc n, omega arith, omega (arith, step.pos), e ∙ step.target)
]
  where
    t : Scheduler
    t = (scheduler_schedule_from_interrupt frame (scheduler_request_reschedule s)).1

    t-IsValid : IsValid t
    t-IsValid =
        scheduler_schedule_from_interrupt-IsValid (scheduler_request_reschedule-IsValid v) frame

    step : Nearer s t d
    step = slice-Nearer v f frame d all.0 pos lt k
