-- ===== src/Input.antt =====
-- The input layer, kernel/input/input.c: it turns the state of the keyboard and the mouse into one
-- stream of events. `World` is the three components' static variables; a poll that fills no event
-- gives `none`. The check for a null event is left out: the one caller passes the address of a
-- variable.
pub mod Owed
pub mod Drain
mod Tests
use myos_gui_desktop.Base.{ℕ, Bool, true, false, not, ◌||◌, Option, none, some}
use myos_gui_desktop.Base.Tests.{◌==◌, if◌then◌else◌}
use mathlib.Core.Bool.{xor}
use myos_gui_desktop.Base.Int.{ℤ, pos, ◌-ℤ◌, eq_ℤ}
use myos_gui_desktop.Keyboard.{Keyboard, KeyboardEvent, keyboard_try_read_event}
use myos_gui_desktop.Mouse.{Mouse, mouse_consume_wheel_delta, mouse_consume_click}

pub data GuiEventType : Type 0 where
  no_event key mouse_move mouse_button mouse_scroll timer_tick : GuiEventType

pub record GuiEvent : Type 0 where
  pub kind : GuiEventType
  pub x : ℤ
  pub y : ℤ
  pub dx : ℤ
  pub dy : ℤ
  pub wheel_delta : ℤ
  pub key_char : ℕ
  pub keycode : ℕ
  pub modifiers : ℕ
  pub pressed : Bool
  pub ticks : ℕ

pub record World : Type 0 where
  pub keyboard : Keyboard
  pub mouse : Mouse
  pub last_left_down : Bool
  pub last_mouse_x : ℤ
  pub last_mouse_y : ℤ
  pub last_mouse_generation : ℕ

pub input_initialize : World → World
input_initialize w = record w {
  last_left_down = w.mouse.left_down_flag;
  last_mouse_x = w.mouse.cursor_x;
  last_mouse_y = w.mouse.cursor_y;
  last_mouse_generation = w.mouse.movement_generation;
}

pub key_event : World → KeyboardEvent → GuiEvent
key_event w e = record {
  kind = key;
  x = w.last_mouse_x;
  y = w.last_mouse_y;
  dx = pos 0;
  dy = pos 0;
  wheel_delta = pos 0;
  key_char = e.ascii;
  keycode = e.keycode;
  modifiers = e.modifiers;
  pressed = e.pressed;
  ticks = 0;
}

-- The event of a mouse at a position, with the way from the last position.
pub mouse_event : GuiEventType → World → (x y : ℤ) → Bool → GuiEvent
mouse_event kind w x y pressed = record {
  kind = kind;
  x = x;
  y = y;
  dx = x -ℤ w.last_mouse_x;
  dy = y -ℤ w.last_mouse_y;
  wheel_delta = pos 0;
  key_char = 0;
  keycode = 0;
  modifiers = 0;
  pressed = pressed;
  ticks = 0;
}

pub scroll_event : World → (wheel : ℤ) → GuiEvent
scroll_event w wheel = record {
  kind = mouse_scroll;
  x = w.mouse.cursor_x;
  y = w.mouse.cursor_y;
  dx = pos 0;
  dy = pos 0;
  wheel_delta = wheel;
  key_char = 0;
  keycode = 0;
  modifiers = 0;
  pressed = w.mouse.left_down_flag;
  ticks = 0;
}

-- The last position and generation that were reported.
pub reported : (x y : ℤ) → World → World
reported x y w = record w {
  last_mouse_x = x;
  last_mouse_y = y;
  last_mouse_generation = w.mouse.movement_generation;
}

pub poll_button : World → Option GuiEvent × World
poll_button w =
    let left_down = w.mouse.left_down_flag in
    let mouse = if not left_down then (mouse_consume_click w.mouse).1 else w.mouse in
    (
      some (mouse_event mouse_button w w.mouse.cursor_x w.mouse.cursor_y left_down),
      reported w.mouse.cursor_x w.mouse.cursor_y
          (record w { last_left_down = left_down; mouse = mouse }),
    )

pub poll_click : (x y : ℤ) → World → Option GuiEvent × World
poll_click x y w = (
  some (mouse_event mouse_button w x y false),
  reported x y (record w { last_left_down = false; mouse = (mouse_consume_click w.mouse).1 }),
)

unfoldable pub has_moved : World → Bool
has_moved w =
    not (w.mouse.movement_generation == w.last_mouse_generation)
    || not (eq_ℤ w.mouse.cursor_x w.last_mouse_x)
    || not (eq_ℤ w.mouse.cursor_y w.last_mouse_y)

pub poll_move : World → Option GuiEvent × World
poll_move w =
    if has_moved w
    then (
      some (mouse_event mouse_move w w.mouse.cursor_x w.mouse.cursor_y w.mouse.left_down_flag),
      reported w.mouse.cursor_x w.mouse.cursor_y w,
    )
    else (none, w)

-- The part behind the wheel. `mouse_consume_click` writes the position of the click to `x` and `y`.
pub poll_buttons : World → Option GuiEvent × World
poll_buttons w =
    if xor w.mouse.left_down_flag w.last_left_down
    then poll_button w
    else elim ((mouse_consume_click w.mouse).0) [
      | some (x, y) ↦ poll_click x y w
      | none ↦ poll_move w
    ]

pub poll_mouse : World → Option GuiEvent × World
poll_mouse w =
    let wheel = (mouse_consume_wheel_delta w.mouse).0 in
    let w' = record w { mouse = (mouse_consume_wheel_delta w.mouse).1 } in
    if not (eq_ℤ wheel (pos 0))
    then (
      some (scroll_event w wheel),
      record w' { last_mouse_generation = w.mouse.movement_generation },
    )
    else poll_buttons w'

pub input_poll_event : World → Option GuiEvent × World
input_poll_event w =
    let read = keyboard_try_read_event false w.keyboard in
    elim (read.0) [
      | some e ↦ (some (key_event w e), record w { keyboard = read.1 })
      | none ↦ poll_mouse (record w { keyboard = read.1 })
    ]
