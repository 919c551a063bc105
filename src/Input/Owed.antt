-- ===== src/Input/Owed.antt =====
-- What a poll of kernel/input/input.c makes of the reports that are due.
use myos_gui_desktop.Base.{
  ℕ, ◌+◌, ◌<◌, ◌≡◌, refl, ap, ◌∙◌, inl, inr, true, false, Option, none, some, List, [], ◌∷◌, arith,
}
use mathlib.Core.Bool.{xor}
use myos_gui_desktop.Base.Tests.{if◌then◌else◌, Bool-cases}
use myos_gui_desktop.Base.Lists.{length}
use myos_gui_desktop.Base.Int.{pos, eq_ℤ, eq_ℤ-eq, eq_ℤ_refl}
use myos_gui_desktop.Keyboard.{
  Keyboard, no_event, KeyboardEvent, keyboard_event_pop, keyboard_try_read_event,
}
use myos_gui_desktop.Keyboard.Buffer
use myos_gui_desktop.Keyboard.Buffer.{
  Ring, IsValid, contents, take_first, contents-pop, pop-IsValid, count, length-held,
}
use myos_gui_desktop.Mouse.{mouse_consume_wheel_delta, mouse_consume_click}
use myos_gui_desktop.Input.{
  World, GuiEvent, has_moved, key_event, reported, poll_button, poll_click, poll_move, poll_buttons,
  poll_mouse, input_poll_event,
}

-- How many reports the mouse still owes, a click counting three times: behind its report a
-- press and a way back may be due.
unfoldable pub mouse_owed : World → ℕ
mouse_owed w =
    (if eq_ℤ w.mouse.wheel_delta (pos 0) then 0 else 1)
    + (if xor w.mouse.left_down_flag w.last_left_down then 1 else 0)
    + (if w.mouse.click_pending then 3 else 0)
    + (if has_moved w then 1 else 0)

-- The events of the keyboard and what the mouse owes.
abbrev pub owed : World → ℕ
owed w = length (contents no_event w.keyboard.events) + mouse_owed w

-- What a poll leaves: an event lowers what is owed, and without one there was nothing to report.
abbrev pub Polled : World → (Option GuiEvent × World) → Type 0
Polled w p = elim (p.0) [
  | some e ↦ mouse_owed p.1 < mouse_owed w
  | none ↦ (mouse_owed w ≡ 0) × (p.1 ≡ w)
]

here-has_moved :
    (w : World)
    → w.mouse.movement_generation ≡ w.last_mouse_generation
    → w.mouse.cursor_x ≡ w.last_mouse_x
    → w.mouse.cursor_y ≡ w.last_mouse_y
    → has_moved w ≡ false
unfolding has_moved
here-has_moved w g x y =
    rw (g, x, y, eq_ℤ_refl w.last_mouse_x, eq_ℤ_refl w.last_mouse_y) (ground arith)

reported-has_moved : (w : World) → has_moved (reported w.mouse.cursor_x w.mouse.cursor_y w) ≡ false
unfolding reported
reported-has_moved w = here-has_moved (reported w.mouse.cursor_x w.mouse.cursor_y w) refl refl refl

poll_move-Polled :
    (w : World) → mouse_owed w ≡ (if has_moved w then 1 else 0) → Polled w (poll_move w)
unfolding xor poll_move mouse_owed reported
poll_move-Polled w h = elim (Bool-cases (has_moved w)) [
  | inl moved ↦ rw moved (ground (arith, reported-has_moved w))
  | inr still ↦ rw still (h ∙ ap (λ b. if b then 1 else 0) still, refl)
]

-- Behind the event of a button nothing is owed but the wheel and a click.
record IsReported (w t : World) : Type 0 where
  wheel : t.mouse.wheel_delta ≡ w.mouse.wheel_delta
  button : xor t.mouse.left_down_flag t.last_left_down ≡ false
  click : (t.mouse.click_pending ≡ true) → w.mouse.click_pending ≡ true
  move : has_moved t ≡ false

poll_button-IsReported : (w : World) → IsReported w (poll_button w).1
unfolding xor poll_button mouse_consume_click reported has_moved
poll_button-IsReported w = elim (Bool-cases w.mouse.left_down_flag) [
  | inl down ↦
      rw down (record { wheel = refl; button = refl; click = λ h. h; move = reported-has_moved w })
  | inr up ↦ elim (Bool-cases w.mouse.click_pending) [
    | inl c ↦
        rw (up, c)
          (record { wheel = refl; button = refl; click = λ h. refl; move = reported-has_moved w })
    | inr c ↦
        rw (up, c)
          (record { wheel = refl; button = refl; click = λ h. h; move = reported-has_moved w })
  ]
]

IsReported-mouse_owed :
    (w t : World)
    → IsReported w t
    → xor w.mouse.left_down_flag w.last_left_down ≡ true
    → mouse_owed t < mouse_owed w
unfolding mouse_owed has_moved xor
IsReported-mouse_owed w t r changed =
    rw (r.wheel, r.button, r.move, changed) (ground (arith, r.click))

poll_buttons-Polled :
    (w : World) → eq_ℤ w.mouse.wheel_delta (pos 0) ≡ true → Polled w (poll_buttons w)
unfolding xor poll_buttons poll_button poll_click mouse_consume_click mouse_owed reported
poll_buttons-Polled w h = elim (Bool-cases (xor w.mouse.left_down_flag w.last_left_down)) [
  | inl changed ↦
      rw (changed) (IsReported-mouse_owed w (poll_button w).1 (poll_button-IsReported w) changed)
  | inr same ↦ elim (Bool-cases w.mouse.click_pending) [
    | inl clicked ↦ rw (same, clicked) (ground arith)
    | inr none_pending ↦ simp (same, none_pending) (poll_move-Polled w (ground arith))
  ]
]

scroll-mouse_owed :
    (w : World)
    → eq_ℤ w.mouse.wheel_delta (pos 0) ≡ false
    → mouse_owed (record w {
      mouse = (mouse_consume_wheel_delta w.mouse).1;
      last_mouse_generation = w.mouse.movement_generation;
    })
      < mouse_owed w
unfolding mouse_consume_wheel_delta mouse_owed has_moved xor
scroll-mouse_owed w turned = ground arith

poll_mouse-Polled : (w : World) → Polled w (poll_mouse w)
unfolding poll_mouse mouse_consume_wheel_delta
poll_mouse-Polled w = elim (Bool-cases (eq_ℤ w.mouse.wheel_delta (pos 0))) [
  | inl still ↦
      let w' : World = record w { mouse = record w.mouse { wheel_delta = pos 0 } } in
      rw (eq_ℤ-eq w.mouse.wheel_delta (pos 0) still) (poll_buttons-Polled w' refl)
  | inr turned ↦ rw turned (scroll-mouse_owed w turned)
]

-- A first element that was taken makes the queue shorter; there is none only if it is empty.
abbrev Shorter : {A : Type 0} → List A → Option A → List A → Type 0
Shorter q first rest = elim first [ some x ↦ length rest < length q | none ↦ length q ≡ 0 ]

take_first-Shorter :
    {A : Type 0} (q : List A) (p : Option A × List A) → p ≡ take_first q → Shorter q p.0 p.1
unfolding take_first
take_first-Shorter [] p h = rw h refl
take_first-Shorter (x ∷ q) p h = rw h (omega arith)

abbrev pub IsDrained : World → Option GuiEvent × World → Type 0
IsDrained w p = elim (p.0) [ some e ↦ owed p.1 < owed w | none ↦ (owed w ≡ 0) × (p.1 ≡ w) ]

pub poll_mouse-keyboard : (w : World) → (poll_mouse w).1.keyboard ≡ w.keyboard
unfolding poll_mouse poll_buttons poll_button poll_click poll_move reported mouse_consume_click
poll_mouse-keyboard w = ground arith

Polled-IsDrained :
    (w : World) (p : Option GuiEvent × World)
    → p.1.keyboard ≡ w.keyboard
    → length (contents no_event w.keyboard.events) ≡ 0
    → Polled w p
    → IsDrained w p
unfolding mouse_owed has_moved
Polled-IsDrained w (some e, t) k h below = rw k (omega arith)
Polled-IsDrained w (none, t) k h (none_owed, same) = (omega arith, same)

-- The rest of a poll behind the read of the keyboard.
unfoldable pub after_read : World → Option KeyboardEvent × Keyboard → Option GuiEvent × World
after_read w read = elim (read.0) [
  | some e ↦ (some (key_event w e), record w { keyboard = read.1 })
  | none ↦ poll_mouse (record w { keyboard = read.1 })
]

after_read-IsDrained :
    (w : World) (first : Option KeyboardEvent) (k : Keyboard)
    → (first ≡ none → k ≡ w.keyboard)
    → Shorter (contents no_event w.keyboard.events) first (contents no_event k.events)
    → IsDrained w (after_read w (first, k))
unfolding after_read mouse_owed has_moved
after_read-IsDrained w (some e) k same shorter = omega arith
after_read-IsDrained w none k same shorter =
    rw (same refl)
      (Polled-IsDrained w (poll_mouse w) (poll_mouse-keyboard w) shorter (poll_mouse-Polled w))

pop-none :
    {A : Type 0} (blank : A) (r : Ring A)
    → (Buffer.pop blank r).0 ≡ none
    → (Buffer.pop blank r).1 ≡ r
unfolding Buffer.pop
pop-none blank r h = ground arith

-- A poll that reports an event lowers what is owed, and one that does not changes nothing and shows
-- that nothing is owed.
pub input_poll_event-owed :
    (w : World) → IsValid w.keyboard.events → IsDrained w (input_poll_event w)
unfolding input_poll_event keyboard_try_read_event keyboard_event_pop after_read
input_poll_event-owed w v =
    let p = Buffer.pop no_event w.keyboard.events in
    after_read-IsDrained w p.0 (record w.keyboard { events = p.1 })
      (λ h. ap (λ r. record w.keyboard { events = r }) (pop-none no_event w.keyboard.events h))
      (take_first-Shorter (contents no_event w.keyboard.events) (p.0, contents no_event p.1)
        (contents-pop no_event v))
