-- ===== src/Process/Table.antt =====
-- The table of processes as the list of those that are in use: the reads by number, the count and
-- the reaping of processes that have exited.
use mathlib.Core.Option.{Option}
use myos_gui_desktop.Base.{
  ℕ, zero, suc, ◌+◌, ◌≡◌, refl, ap, inl, inr, Bool, true, false, not, ◌&&◌, none, some, List, [],
  ◌∷◌, arith,
}
use myos_gui_desktop.Base.Tests.{◌==◌, if◌then◌else◌, Bool-cases}
use myos_gui_desktop.Base.Lists.{length}
use myos_gui_desktop.Process.{
  UserProcess, Processes, ProcessState, unused, running, exited, is_unused, is_exited, count_used,
  user_process_count, visible_from, process_by_visible_index, reaped_process, reap_all,
  user_process_reap_exited,
}

-- The processes of a table in some states, in order.
abbrev pub kept : (ProcessState → Bool) → List UserProcess → List UserProcess
kept test [] = []
kept test (process ∷ rest) = if test process.state then process ∷ kept test rest else kept test rest

abbrev pub is_running : ProcessState → Bool
is_running state = not (is_unused state) && not (is_exited state)

-- The processes that the table shows, in order.
abbrev pub visible : List UserProcess → List UserProcess
visible = kept (λ state. not (is_unused state))

abbrev pub nth : {A : Type 0} → List A → ℕ → Option A
nth [] i = none
nth (x ∷ xs) zero = some x
nth (x ∷ xs) (suc i) = nth xs i

visible_from-nth :
    (ps : List UserProcess) (seen i n : ℕ)
    → n ≡ seen + i
    → visible_from seen n ps ≡ nth (visible ps) i
unfolding visible_from
visible_from-nth [] seen i n h = refl
visible_from-nth (process ∷ rest) seen zero n h = elim (Bool-cases (is_unused process.state)) [
  | inl skip ↦ rw skip (visible_from-nth rest seen 0 n h)
  | inr shown ↦ let here : (seen == n) ≡ true = ground (arith, h) in rw (shown, here) refl
]
visible_from-nth (process ∷ rest) seen (suc i) n h = elim (Bool-cases (is_unused process.state)) [
  | inl skip ↦ rw skip (visible_from-nth rest seen (suc i) n h)
  | inr shown ↦
      let later : (seen == n) ≡ false = ground (arith, h) in
      rw (shown, later) (visible_from-nth rest (seen + 1) i n (omega (arith, h)))
]

count_used-visible : (ps : List UserProcess) → count_used ps ≡ length (visible ps)
unfolding count_used
count_used-visible [] = refl
count_used-visible (process ∷ rest) = elim (Bool-cases (is_unused process.state)) [
  | inl skip ↦ rw skip (count_used-visible rest)
  | inr shown ↦ rw shown (omega (arith, count_used-visible rest))
]

-- Every index gives the process of that number among those that are in use, in the order of the
-- table, and none from the number of processes on, which user_process_count returns.
pub process_by_visible_index-visible :
    (w : Processes) (index : ℕ)
    → (process_by_visible_index index w ≡ nth (visible w.processes) index)
      × (user_process_count w ≡ length (visible w.processes))
unfolding process_by_visible_index user_process_count
process_by_visible_index-visible w index =
    (visible_from-nth w.processes 0 index index (omega arith), count_used-visible w.processes)

-- What reaping leaves of a table.
pub record Reaped (before : List UserProcess) (count : ℕ) (after : List UserProcess) : Type 0 where
  pub counted : count ≡ length (kept is_exited before)
  pub running : kept is_running after ≡ kept is_running before
  pub shown : visible after ≡ kept is_running before
  pub none_exited : kept is_exited after ≡ []
  pub places : length after ≡ length before

exited_used : (state : ProcessState) → is_exited state ≡ true → is_unused state ≡ false
exited_used unused h = absurd (ground (arith, h))
exited_used running h = refl
exited_used exited h = refl

reap_all-Reaped : (ps : List UserProcess) → Reaped ps (reap_all ps).0 (reap_all ps).1
unfolding reap_all reaped_process
reap_all-Reaped [] = record {
  counted = refl;
  running = refl;
  shown = refl;
  none_exited = refl;
  places = refl;
}
reap_all-Reaped (process ∷ rest) = elim (Bool-cases (is_exited process.state)) [
  | inl gone ↦
      let h = reap_all-Reaped rest in
      let used = exited_used process.state gone in
      rw gone (record {
        counted = rw gone (omega (arith, h.counted));
        running = rw (gone, used) h.running;
        shown = rw (gone, used) h.shown;
        none_exited = h.none_exited;
        places = ap suc h.places;
      })
  | inr stays ↦
      let h = reap_all-Reaped rest in
      elim (Bool-cases (is_unused process.state)) [
        | inl skip ↦ rw stays (record {
          counted = rw stays h.counted;
          running = rw (stays, skip) h.running;
          shown = rw (stays, skip) h.shown;
          none_exited = rw stays h.none_exited;
          places = ap suc h.places;
        })
        | inr used ↦ rw stays (record {
          counted = rw stays h.counted;
          running = rw (stays, used) (ap (λ l. process ∷ l) h.running);
          shown = rw (stays, used) (ap (λ l. process ∷ l) h.shown);
          none_exited = rw stays h.none_exited;
          places = ap suc h.places;
        })
      ]
]

-- user_process_reap_exited returns the number of processes that have exited; afterwards none is
-- exited, those that run are the same ones in the same order, the table shows them and no other, and
-- the current process and the next process number are as before.
pub user_process_reap_exited-Reaped :
    (w : Processes)
    → Reaped w.processes (user_process_reap_exited w).0 (user_process_reap_exited w).1.processes
      × ((user_process_reap_exited w).1.next_pid ≡ w.next_pid)
      × ((user_process_reap_exited w).1.current_process_index ≡ w.current_process_index)
unfolding user_process_reap_exited
user_process_reap_exited-Reaped w = (reap_all-Reaped w.processes, refl, refl)
