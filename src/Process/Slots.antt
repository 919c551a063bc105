-- ===== src/Process/Slots.antt =====
-- Which place of the table a new process gets, and what is there then.
use myos_gui_desktop.Base.{
  ℕ, zero, suc, ◌+◌, ◌-◌, ◌%◌, ◌^◌, ◌≤◌, ◌<◌, ◌≡◌, ◌≢◌, refl, sym, ap, ◌∙◌, inl, inr, Bool, true,
  false, Option, none, some, List, [], ◌∷◌, ◌++◌, arith,
}
use myos_gui_desktop.Base.Tests.{◌==◌, Bool-cases}
use myos_gui_desktop.Base.Lists.{
  length, get_or, set, take, drop, replicate, length-append, length-set, get_or-set_self,
  get_or-set_ne, get_or-replicate_same,
}
use myos_gui_desktop.Base.Int.{pos}
use myos_gui_desktop.Strings.Compare.{text_of}
use myos_gui_desktop.Process.{
  name_part, UserProcess, Processes, ProcessState, unused, running, exited, is_unused, is_exited,
  empty_process, closed, copy_process_name, first_in, start_process, allocate_process,
}
use myos_gui_desktop.Process.Descriptors.{process_at, descriptor}

abbrev pub state_at : List UserProcess → ℕ → ProcessState
state_at ps i = (get_or ps i empty_process).state

record Shifted (test : ProcessState → Bool) (ps : List UserProcess) (i place : ℕ) : Type 0 where
  from : i ≤ place
  inside : place - i < length ps
  passes : test (state_at ps (place - i)) ≡ true
  first : (j : ℕ) → j < place - i → test (state_at ps j) ≡ false

-- A search from place `i` on.
abbrev Search : (test : ProcessState → Bool) (ps : List UserProcess) (i : ℕ) → Option ℕ → Type 0
Search test ps i (some place) = Shifted test ps i place
Search test ps i none = (j : ℕ) → j < length ps → test (state_at ps j) ≡ false

Search-next :
    (test : ProcessState → Bool) (process : UserProcess) (ps : List UserProcess) (i : ℕ)
    (found : Option ℕ)
    → test process.state ≡ false
    → Search test ps (i + 1) found
    → Search test (process ∷ ps) i found
Search-next test process ps i none other h = later
  where
    later : (j : ℕ) → j < length (process ∷ ps) → test (state_at (process ∷ ps) j) ≡ false
    later zero l = other
    later (suc j) l = h j (omega arith)
Search-next test process ps i (some place) other h =
    let next : place - i ≡ suc (place - (i + 1)) = omega (arith, h.from) in
    record {
      from = omega (arith, h.from);
      inside = omega (arith, h.from, h.inside);
      passes = ap (λ x. test (state_at (process ∷ ps) x)) next ∙ h.passes;
      first = earlier;
    }
  where
    earlier : (j : ℕ) → j < place - i → test (state_at (process ∷ ps) j) ≡ false
    earlier zero l = other
    earlier (suc j) l = h.first j (omega arith)

first_in-Search :
    (test : ProcessState → Bool) (ps : List UserProcess) (i : ℕ)
    → Search test ps i (first_in test i ps)
unfolding first_in
first_in-Search test [] i = λ j l. absurd (omega arith)
first_in-Search test (process ∷ rest) i = elim (Bool-cases (test process.state)) [
  | inl here ↦ rw here (
      let same : i - i ≡ 0 = omega arith in
      record {
        from = omega arith;
        inside = omega arith;
        passes = ap (λ x. test (state_at (process ∷ rest) x)) same ∙ here;
        first = λ j l. absurd (omega arith);
      })
  | inr other ↦ rw other (
      Search-next test process rest i (first_in test (i + 1) rest) other
        (first_in-Search test rest (i + 1)))
]

-- The first place whose state passes the test.
pub record First (test : ProcessState → Bool) (ps : List UserProcess) (i : ℕ) : Type 0 where
  pub inside : i < length ps
  pub passes : test (state_at ps i) ≡ true
  pub first : (j : ℕ) → j < i → test (state_at ps j) ≡ false

Search-First :
    (test : ProcessState → Bool) (ps : List UserProcess) (i : ℕ)
    → Search test ps 0 (some i)
    → First test ps i
Search-First test ps i h =
    let same : i - 0 ≡ i = omega arith in
    record {
      inside = omega (arith, h.inside);
      passes = ap (λ x. test (state_at ps x)) (sym same) ∙ h.passes;
      first = λ j l. h.first j (omega (arith, l));
    }

-- The place that a new process gets: the first one that is unused, or else the first one that has
-- exited.
pub data Chosen (ps : List UserProcess) (i : ℕ) : Type 0 where
  fresh : First is_unused ps i → Chosen ps i
  reused :
      ((j : ℕ) → j < length ps → is_unused (state_at ps j) ≡ false)
      → First is_exited ps i
      → Chosen ps i

pub Chosen-inside : {ps : List UserProcess} {i : ℕ} → Chosen ps i → i < length ps
Chosen-inside (fresh found) = found.inside
Chosen-inside (reused others found) = found.inside

-- The bytes that are copied are the text, cut to the room.
name_part-text_of : (n : ℕ) (src : List ℕ) → name_part n src ≡ take n (text_of src)
unfolding name_part text_of
name_part-text_of zero src = refl
name_part-text_of (suc n) [] = refl
name_part-text_of (suc n) (c ∷ src) = elim (Bool-cases (c == 0)) [
  | inl ends ↦ rw ends refl
  | inr goes ↦ rw goes (ap (λ l. c ∷ l) (name_part-text_of n src))
]

-- The copy reads back as the bytes in front of its 0.
text_of-name_part :
    (n : ℕ) (src rest : List ℕ) → text_of (name_part n src ++ (0 ∷ rest)) ≡ name_part n src
unfolding name_part text_of
text_of-name_part zero src rest = refl
text_of-name_part (suc n) [] rest = refl
text_of-name_part (suc n) (c ∷ src) rest = elim (Bool-cases (c == 0)) [
  | inl ends ↦ rw ends refl
  | inr goes ↦ rw (goes) (rw goes (ap (λ l. c ∷ l) (text_of-name_part n src rest)))
]

copy_process_name-text_of :
    (dst src : List ℕ) → text_of (copy_process_name dst src) ≡ take 31 (text_of src)
unfolding copy_process_name
copy_process_name-text_of dst src =
    text_of-name_part 31 src (drop (length (name_part 31 src) + 1) dst) ∙ name_part-text_of 31 src

length-name_part : (n : ℕ) (src : List ℕ) → length (name_part n src) ≤ n
unfolding name_part
length-name_part zero src = omega arith
length-name_part (suc n) [] = omega arith
length-name_part (suc n) (c ∷ src) = elim (Bool-cases (c == 0)) [
  | inl ends ↦ rw ends (omega arith)
  | inr goes ↦ rw goes (omega (arith, length-name_part n src))
]

length-drop : (n : ℕ) (l : List ℕ) → length (drop n l) ≡ length l - n
length-drop zero l = omega arith
length-drop (suc n) [] = omega arith
length-drop (suc n) (x ∷ l) = omega (arith, length-drop n l)

length-copy_process_name :
    (dst src : List ℕ) → length dst ≡ 32 → length (copy_process_name dst src) ≡ 32
unfolding copy_process_name
length-copy_process_name dst src h =
    let copied : List ℕ = name_part 31 src in
    omega (
      arith,
      h,
      length-append copied (0 ∷ drop (length copied + 1) dst),
      length-drop (length copied + 1) dst,
      length-name_part 31 src,
    )

-- What is at a place after a process was started there.
pub record Started (name : List ℕ) (entry : ℕ) (w : Processes) (i : ℕ) (q : Processes)
    : Type 0 where
  pub chosen : Chosen w.processes i
  pub pid : (process_at q i).pid ≡ w.next_pid
  pub runs : (process_at q i).state ≡ running
  pub entered : (process_at q i).entry ≡ entry
  pub named : text_of (process_at q i).name ≡ take 31 (text_of name)
  pub name_room : length (process_at w i).name ≡ 32 → length (process_at q i).name ≡ 32
  pub files : (fd : ℕ) → descriptor q i fd ≡ closed
  pub others : (j : ℕ) → j ≢ i → process_at q j ≡ process_at w j
  pub current : q.current_process_index ≡ some i
  pub next : q.next_pid ≡ (w.next_pid + 1) % 2 ^ 32
  pub places : length q.processes ≡ length w.processes

-- The outcome of `allocate_process`.
pub data Allocation (name : List ℕ) (entry : ℕ) (w : Processes)
    : Option ℕ × Processes → Type 0 where
  started : (i : ℕ) (q : Processes) → Started name entry w i q → Allocation name entry w (some i, q)
  full :
      ((j : ℕ) → j < length w.processes → state_at w.processes j ≡ running)
      → Allocation name entry w (none, w)

start_process-Started :
    (name : List ℕ) (entry : ℕ) (w : Processes) (i : ℕ)
    → i < length w.processes
    → Chosen w.processes i
    → Started name entry w i (start_process i name entry w)
unfolding start_process
start_process-Started name entry w i l chosen =
    let new : UserProcess = record {
      pid = w.next_pid;
      state = running;
      name = copy_process_name (process_at w i).name name;
      entry = entry;
      exit_code = pos 0;
      address_space = 0;
      fds = replicate 8 closed;
    } in
    let there : get_or (set w.processes i new) i empty_process ≡ new =
      get_or-set_self w.processes i new empty_process l in
    record {
      chosen = chosen;
      pid = ap (λ (p : UserProcess). p.pid) there;
      runs = ap (λ (p : UserProcess). p.state) there;
      entered = ap (λ (p : UserProcess). p.entry) there;
      named =
          ap (λ (p : UserProcess). text_of p.name) there
          ∙ copy_process_name-text_of (process_at w i).name name;
      name_room = λ h.
          ap (λ (p : UserProcess). length p.name) there
          ∙ length-copy_process_name (process_at w i).name name h;
      files = λ fd.
          ap (λ (p : UserProcess). get_or p.fds fd closed) there
          ∙ get_or-replicate_same 8 fd closed;
      others = λ j n. get_or-set_ne w.processes i j new empty_process (λ h. n (sym h));
      current = refl;
      next = refl;
      places = length-set w.processes i new;
    }

only_running :
    (state : ProcessState) → is_unused state ≡ false → is_exited state ≡ false → state ≡ running
only_running unused h g = absurd (ground (arith, h))
only_running running h g = refl
only_running exited h g = absurd (ground (arith, g))

-- allocate_process takes the first process that is unused, or the first that has exited if none is
-- unused, starts it there with the next process number, no file open and a name that reads as the first
-- 31 characters of the text given (32 bytes for the name stay 32), makes it the current one and changes
-- no other; it returns null and changes nothing exactly where every process of the table is running.
pub allocate_process-Allocation :
    (name : List ℕ) (entry : ℕ) (w : Processes)
    → Allocation name entry w (allocate_process name entry w)
unfolding allocate_process
allocate_process-Allocation name entry w =
    go (first_in is_unused 0 w.processes) (first_in is_exited 0 w.processes)
      (first_in-Search is_unused w.processes 0) (first_in-Search is_exited w.processes 0)
  where
    chosen_by : Option ℕ → Option ℕ → Option ℕ × Processes
    chosen_by a b = elim a [
      | some i ↦ (some i, start_process i name entry w)
      | none ↦ elim b [ some i ↦ (some i, start_process i name entry w) | none ↦ (none, w) ]
    ]

    go :
        (a b : Option ℕ)
        → Search is_unused w.processes 0 a
        → Search is_exited w.processes 0 b
        → Allocation name entry w (chosen_by a b)
    go (some i) b h g =
        let found = Search-First is_unused w.processes i h in
        started i (start_process i name entry w)
          (start_process-Started name entry w i found.inside (fresh found))
    go none (some i) h g =
        let found = Search-First is_exited w.processes i g in
        started i (start_process i name entry w)
          (start_process-Started name entry w i found.inside (reused h found))
    go none none h g = full (λ j l. only_running (state_at w.processes j) (h j l) (g j l))
