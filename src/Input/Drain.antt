-- ===== src/Input/Drain.antt =====
-- Polling until there is nothing left to report.
use myos_gui_desktop.Base.{
  ℕ, zero, suc, ◌≤◌, ◌≡◌, refl, ap, sym, subst, false, Option, none, some, List, [], ◌∷◌, arith,
}
use mathlib.Core.Bool.{xor}
use myos_gui_desktop.Base.Lists.{length}
use myos_gui_desktop.Base.Int.{pos, eq_ℤ-eq}
use myos_gui_desktop.Keyboard.{
  Keyboard, no_event, KeyboardEvent, keyboard_event_pop, keyboard_try_read_event,
}
use myos_gui_desktop.Keyboard.Buffer
use myos_gui_desktop.Keyboard.Buffer.{
  Ring, IsValid, contents, take_first, contents-pop, pop-IsValid, count, length-held,
}
use myos_gui_desktop.Input.{World, GuiEvent, has_moved, input_poll_event}
use myos_gui_desktop.Input.Owed.{
  mouse_owed, owed, IsDrained, after_read, poll_mouse-keyboard, input_poll_event-owed,
}

after_read-IsValid :
    (w : World) (first : Option KeyboardEvent) (k : Keyboard)
    → IsValid k.events
    → IsValid (after_read w (first, k)).1.keyboard.events
unfolding after_read
after_read-IsValid w (some e) k v = v
after_read-IsValid w none k v =
    subst (λ b. IsValid b.events) (sym (poll_mouse-keyboard (record w { keyboard = k }))) v

input_poll_event-IsValid :
    (w : World) → IsValid w.keyboard.events → IsValid (input_poll_event w).1.keyboard.events
unfolding input_poll_event keyboard_try_read_event keyboard_event_pop after_read
input_poll_event-IsValid w v =
    let p = Buffer.pop no_event w.keyboard.events in
    after_read-IsValid w p.0 (record w.keyboard { events = p.1 }) (pop-IsValid no_event v)

-- The state after `n` polls.
pub polls : ℕ → World → World
polls zero w = w
polls (suc n) w = polls n (input_poll_event w).1

IsDrained-silent :
    (w : World) (p : Option GuiEvent × World) → IsDrained w p → owed w ≡ 0 → p ≡ (none, w)
IsDrained-silent w (some e, t) d h = ground arith
IsDrained-silent w (none, t) d h = ap (λ u. (none, u)) d.1

IsDrained-owed :
    (w : World) (p : Option GuiEvent × World) (n : ℕ)
    → IsDrained w p
    → owed w ≤ suc n
    → owed p.1 ≤ n
IsDrained-owed w (some e, t) n d h = omega arith
IsDrained-owed w (none, t) n d h = rw (d.1) (omega (arith, d.0))

polls-owed :
    (n : ℕ) (w : World)
    → IsValid w.keyboard.events
    → owed w ≤ n
    → (owed (polls n w) ≡ 0) × IsValid (polls n w).keyboard.events
unfolding polls
polls-owed zero w v h = (omega arith, v)
polls-owed (suc n) w v h =
    polls-owed n (input_poll_event w).1 (input_poll_event-IsValid w v)
      (IsDrained-owed w (input_poll_event w) n (input_poll_event-owed w v) h)

owed-bound : (w : World) → IsValid w.keyboard.events → owed w ≤ 133
unfolding mouse_owed
owed-bound w v = ground (
  arith,
  length-held no_event w.keyboard.events.buffer w.keyboard.events.tail (count w.keyboard.events),
)

-- Nothing is left to report.
pub record IsQuiet (w : World) : Type 0 where
  pub silent : input_poll_event w ≡ (none, w)
  pub keys : contents no_event w.keyboard.events ≡ []
  pub wheel : w.mouse.wheel_delta ≡ pos 0
  pub click : w.mouse.click_pending ≡ false
  pub button : w.last_left_down ≡ w.mouse.left_down_flag
  pub x : w.last_mouse_x ≡ w.mouse.cursor_x
  pub y : w.last_mouse_y ≡ w.mouse.cursor_y

length-empty : {A : Type 0} (q : List A) → length q ≡ 0 → q ≡ []
length-empty [] h = refl
length-empty (x ∷ q) h = ground arith

owed-IsQuiet : (w : World) → IsValid w.keyboard.events → owed w ≡ 0 → IsQuiet w
unfolding mouse_owed xor has_moved
owed-IsQuiet w v h = record {
  silent = IsDrained-silent w (input_poll_event w) (input_poll_event-owed w v) h;
  keys = length-empty (contents no_event w.keyboard.events) (omega arith);
  wheel = eq_ℤ-eq w.mouse.wheel_delta (pos 0) (ground arith);
  click = ground arith;
  button = ground arith;
  x = sym (eq_ℤ-eq w.mouse.cursor_x w.last_mouse_x (ground arith));
  y = sym (eq_ℤ-eq w.mouse.cursor_y w.last_mouse_y (ground arith));
}

-- Within 133 polls everything is reported: 127 events of the keyboard and six of the mouse at most.
pub polls-IsQuiet : (w : World) (n : ℕ) → IsValid w.keyboard.events → 133 ≤ n → IsQuiet (polls n w)
polls-IsQuiet w n v h =
    let (none_owed, valid) = polls-owed n w v (omega (arith, owed-bound w v)) in
    owed-IsQuiet (polls n w) valid none_owed
