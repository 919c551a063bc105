-- ===== src/Scheduler/Pick.antt =====
-- `scheduler_pick_next` finds the first ready task behind the current one, going round.
use native.Mathlib.Nat.{mod-lt}
use native.Mathlib.Decide.{ℕ_discrete}
use myos_gui_desktop.Base.{ℕ, zero, suc, ◌+◌, ◌%◌, ◌≤◌, ◌<◌, ◌≡◌, inl, inr, true, false, arith}
use myos_gui_desktop.Base.Tests.{Bool-cases}
use myos_gui_desktop.Scheduler.{Scheduler, is_ready, pick_from, scheduler_pick_next}

-- The task that is `i` places behind the current one.
abbrev pub behind : Scheduler → ℕ → ℕ
behind s i = (s.current_task + i) % s.task_count

-- No task from `i` up to `d` places behind the current one, `d` excluded, is ready.
abbrev pub NoneReady : Scheduler → (i d : ℕ) → Type 0
NoneReady s i d = (j : ℕ) → i ≤ j → j < d → is_ready s (behind s j) ≡ false

-- The outcome of the search from `i` places behind the current task to `stop`.
pub data Picked (s : Scheduler) (i stop : ℕ) : ℕ → Type 0 where
  first :
      (d : ℕ)
      → i ≤ d
      → d < stop
      → is_ready s (behind s d) ≡ true
      → NoneReady s i d
      → Picked s i stop (behind s d)
  nobody : NoneReady s i stop → Picked s i stop s.current_task

extend_none :
    (s : Scheduler) (i d : ℕ)
    → is_ready s (behind s i) ≡ false
    → NoneReady s (i + 1) d
    → NoneReady s i d
extend_none s i d busy none j a b = elim (ℕ_discrete j i) [
  | yes e ↦ rw e busy
  | no ne ↦ none j (omega arith) b
]

pick_from-Picked : (n i : ℕ) (s : Scheduler) → Picked s i (i + n) (pick_from n i s)
unfolding pick_from
pick_from-Picked zero i s = nobody (λ j a b. absurd (omega arith))
pick_from-Picked (suc n) i s = elim (Bool-cases (is_ready s (behind s i))) [
  | inl ready ↦ rw ready (first i (omega arith) (omega arith) ready (λ j a b. absurd (omega arith)))
  | inr busy ↦ rw busy (later busy (pick_from-Picked n (i + 1) s))
]
  where
    later :
        is_ready s (behind s i) ≡ false
        → {r : ℕ} → Picked s (i + 1) (i + 1 + n) r
        → Picked s i (i + suc n) r
    later busy (first d a b ready none) =
        first d (omega arith) (omega arith) ready (extend_none s i d busy none)
    later busy (nobody none) =
        nobody (extend_none s i (i + suc n) busy (λ j a b. none j a (omega arith)))

-- `scheduler_pick_next` returns the first task behind the current one, in cyclic order and the
-- current one last, that is runnable or running; and the current one if there is none.
pub scheduler_pick_next-Picked :
    (s : Scheduler) → Picked s 1 (1 + s.task_count) (scheduler_pick_next s)
unfolding scheduler_pick_next
scheduler_pick_next-Picked s = pick_from-Picked s.task_count 1 s

Picked-lt :
    {s : Scheduler} {i stop r : ℕ}
    → s.current_task < s.task_count
    → Picked s i stop r
    → r < s.task_count
Picked-lt {s} h (first d a b ready none) = mod-lt (s.current_task + d) (omega arith)
Picked-lt h (nobody none) = h

pub scheduler_pick_next-lt :
    (s : Scheduler) → s.current_task < s.task_count → scheduler_pick_next s < s.task_count
scheduler_pick_next-lt s h = Picked-lt h (scheduler_pick_next-Picked s)
