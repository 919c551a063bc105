-- ===== src/Keyboard/Tests.antt =====
-- The keyboard at a few keys, and the theorems there.
use myos_gui_desktop.Base.{◌≡◌, refl, true, false, not, [], ◌∷◌, arith}
use myos_gui_desktop.Base.Lists.{replicate, length-replicate}
use myos_gui_desktop.Keyboard.Buffer
use myos_gui_desktop.Keyboard.Buffer.{
  Ring, IsValid, contents, held, offer, take_first, contents-push, contents-pop,
}
use myos_gui_desktop.Keyboard.{
  Keyboard, no_event, current_modifiers, keyboard_buffer_push, keyboard_event_push, emit, gui_key,
  typed_char, press_char, press, handle_code, keyboard_handle_interrupt,
}
use myos_gui_desktop.Keyboard.Events.{
  IsReady, Reported, wide_code, is_release, chars_of, keyboard_handle_interrupt-Reported,
}
use myos_gui_desktop.Keyboard.Chars.{typed_char_letter}

empty : {A : Type 0} → A → Ring A
unfolding replicate Buffer.push Buffer.pop held
empty blank = record { buffer = replicate 128 blank; head = 0; tail = 0 }

fresh : Keyboard
unfolding empty current_modifiers keyboard_buffer_push keyboard_event_push emit gui_key typed_char
    press_char press handle_code keyboard_handle_interrupt
fresh = record {
  keys = empty 0;
  events = empty no_event;
  shift_down = false;
  ctrl_down = false;
  alt_down = false;
  caps_lock = false;
  extended_scancode = false;
}

-- Shift down, A, Shift up, B.
typed :
    chars_of (
      keyboard_handle_interrupt 0x30 (
        keyboard_handle_interrupt 0xaa
          (keyboard_handle_interrupt 0x1e (keyboard_handle_interrupt 0x2a fresh))))
    ≡ b'A' ∷ b'b' ∷ []
unfolding fresh
typed = refl

empty-IsValid : {A : Type 0} (blank : A) → IsValid (empty blank)
unfolding empty
empty-IsValid blank = record {
  size = length-replicate 128 blank;
  head_in = omega arith;
  tail_in = omega arith;
}

fresh-IsReady : IsReady fresh
unfolding fresh
fresh-IsReady = record { keys = empty-IsValid 0; events = empty-IsValid no_event }

keyboard_handle_interrupt-Reported_example :
    Reported fresh
      (wide_code fresh.extended_scancode 0x1e)
      (not (is_release 0x1e))
      (keyboard_handle_interrupt 0x1e fresh)
    × ((keyboard_handle_interrupt 0x1e fresh).extended_scancode ≡ false)
keyboard_handle_interrupt-Reported_example =
    keyboard_handle_interrupt-Reported 0x1e fresh-IsReady (omega arith) (omega arith)

typed_char_letter_example : typed_char true true 0x1e ≡ b'A'
typed_char_letter_example = typed_char_letter true true 0x1e (omega arith) refl
