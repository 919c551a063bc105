-- ===== src/Input/Tests.antt =====
-- The input layer at a few states, and the theorems there.
use myos_gui_desktop.Base.{true, false, arith}
use myos_gui_desktop.Base.Lists.{replicate, length-replicate}
use myos_gui_desktop.Base.Int.{pos}
use myos_gui_desktop.Keyboard.{no_event}
use myos_gui_desktop.Keyboard.Buffer.{IsValid}
use myos_gui_desktop.Mouse
use myos_gui_desktop.Mouse.{Mouse}
use myos_gui_desktop.Input.{World, input_poll_event}
use myos_gui_desktop.Input.Owed.{IsDrained, input_poll_event-owed}
use myos_gui_desktop.Input.Drain.{polls, IsQuiet, polls-IsQuiet}

-- A key and a click that nothing has reported yet.
busy : World
unfolding replicate
busy = record {
  keyboard = record {
    keys = record { buffer = replicate 128 0; head = 1; tail = 0 };
    events = record { buffer = replicate 128 no_event; head = 1; tail = 0 };
    shift_down = false;
    ctrl_down = false;
    alt_down = false;
    caps_lock = false;
    extended_scancode = false;
  };
  mouse = record Mouse.static_state {
    click_pending = true;
    wheel_delta = pos 2;
    movement_generation = 7;
  };
  last_left_down = false;
  last_mouse_x = pos 160;
  last_mouse_y = pos 100;
  last_mouse_generation = 0;
}

busy-IsValid : IsValid busy.keyboard.events
unfolding busy
busy-IsValid = record {
  size = length-replicate 128 no_event;
  head_in = omega arith;
  tail_in = omega arith;
}

input_poll_event-owed_example : IsDrained busy (input_poll_event busy)
input_poll_event-owed_example = input_poll_event-owed busy busy-IsValid

polls-IsQuiet_example : IsQuiet (polls 133 busy)
polls-IsQuiet_example = polls-IsQuiet busy 133 busy-IsValid (omega arith)
