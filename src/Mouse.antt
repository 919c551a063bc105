-- ===== src/Mouse.antt =====
-- The PS/2 mouse driver, kernel/drivers/input/mouse.c: bytes become packets, and packets move the
-- cursor and the buttons. A byte is what the interrupt reads from port 0x60. `int32_t` values are
-- integers: the cursor and the bounds stay small, and `wheel_delta` is read and reset by the input
-- layer before it could wrap.
pub mod Bounds
pub mod Packet
mod Tests
use myos_gui_desktop.Base.{
  ℕ, zero, suc, ◌+◌, ◌-◌, ◌/◌, ◌%◌, ◌^◌, bit_and, bit_or, Bool, true, false, not, ◌&&◌, ◌||◌,
  Option, none, some, List, [], ◌∷◌,
}
use myos_gui_desktop.Base.Tests.{ltb, leb, ◌==◌, if◌then◌else◌}
use myos_gui_desktop.Base.Lists.{get_or, set}
use myos_gui_desktop.Base.Int.{ℤ, pos, negsuc, sub_ℕ, ◌+ℤ◌, ◌-ℤ◌, ltb_ℤ, leb_ℤ, eq_ℤ}

pub record Mouse : Type 0 where
  pub cursor_x : ℤ
  pub cursor_y : ℤ
  pub bound_width : ℤ
  pub bound_height : ℤ
  pub left_down_flag : Bool
  pub right_down_flag : Bool
  pub middle_down_flag : Bool
  pub click_pending : Bool
  pub click_x : ℤ
  pub click_y : ℤ
  pub wheel_delta : ℤ
  pub movement_generation : ℕ
  pub packet : List ℕ
  pub packet_index : ℕ
  pub packet_size : ℕ

-- The static variables as the program starts.
abbrev pub static_state : Mouse
static_state = record {
  cursor_x = pos 160;
  cursor_y = pos 100;
  bound_width = pos 320;
  bound_height = pos 200;
  left_down_flag = false;
  right_down_flag = false;
  middle_down_flag = false;
  click_pending = false;
  click_x = pos 0;
  click_y = pos 0;
  wheel_delta = pos 0;
  movement_generation = 0;
  packet = 0 ∷ 0 ∷ 0 ∷ 0 ∷ [];
  packet_index = 0;
  packet_size = 3;
}

-- `(int8_t) byte`.
abbrev pub signed8 : ℕ → ℤ
signed8 byte = if ltb byte 128 then pos byte else negsuc (255 - byte)

-- `value / 2`, towards 0.
abbrev pub half : ℤ → ℤ
half (pos n) = pos (n / 2)
half (negsuc n) = sub_ℕ 0 (suc n / 2)

abbrev pub next_generation : ℕ → ℕ
next_generation g = (g + 1) % 2 ^ 32

-- What the start-up leaves in the state, by the identity that the mouse reports.
pub mouse_initialize : (id : ℕ) → Mouse → Mouse
mouse_initialize id m = if (id == 3) || (id == 4) then record m { packet_size = 4 } else m

pub mouse_set_bounds : (width height : ℤ) → Mouse → Mouse
mouse_set_bounds width height m =
    if leb_ℤ width (pos 0) || leb_ℤ height (pos 0) then m else record m {
      bound_width = width;
      bound_height = height;
      cursor_x = half width;
      cursor_y = half height;
      movement_generation = next_generation m.movement_generation;
    }

-- `if (v < 0) v = 0; if (v >= bound) v = bound - 1;`
pub clamp : (value bound : ℤ) → ℤ
clamp value bound =
    let low = if ltb_ℤ value (pos 0) then pos 0 else value in
    if leb_ℤ bound low then bound -ℤ pos 1 else low

abbrev pub byte_at : Mouse → ℕ → ℕ
byte_at m i = get_or m.packet i 0

abbrev pub is_set : (byte mask : ℕ) → Bool
is_set byte mask = not (bit_and byte mask == 0)

-- The wheel's four bits, extended by their sign.
pub wheel_of : ℕ → ℤ
wheel_of byte =
    let wheel = bit_and byte 0x0f in
    signed8 (if is_set wheel 0x08 then bit_or wheel 0xf0 else wheel)

-- The parts of the handler behind a full packet, in the order of the code.
pub move : Mouse → Mouse
move m = record m {
  left_down_flag = is_set (byte_at m 0) 0x01;
  right_down_flag = is_set (byte_at m 0) 0x02;
  middle_down_flag = is_set (byte_at m 0) 0x04;
  cursor_x = clamp (m.cursor_x +ℤ signed8 (byte_at m 1)) m.bound_width;
  cursor_y = clamp (m.cursor_y -ℤ signed8 (byte_at m 2)) m.bound_height;
  movement_generation = next_generation m.movement_generation;
}

pub scroll : Mouse → Mouse
scroll m =
    let wheel = wheel_of (byte_at m 3) in
    if (m.packet_size == 4) && not (eq_ℤ wheel (pos 0))
    then record m {
      wheel_delta = m.wheel_delta +ℤ wheel;
      movement_generation = next_generation m.movement_generation;
    }
    else m

pub click : (was_left : Bool) → Mouse → Mouse
click was_left m =
    if was_left && not m.left_down_flag
    then record m {
      click_pending = true;
      click_x = m.cursor_x;
      click_y = m.cursor_y;
      movement_generation = next_generation m.movement_generation;
    }
    else m

pub handle_packet : Mouse → Mouse
handle_packet m = click m.left_down_flag (scroll (move m))

pub mouse_handle_interrupt : ℕ → Mouse → Mouse
mouse_handle_interrupt byte m =
    if (m.packet_index == 0) && (bit_and byte 0x08 == 0)
    then m
    else (let stored = record m {
      packet = set m.packet m.packet_index byte;
      packet_index = (m.packet_index + 1) % 2 ^ 8;
    } in
        if ltb stored.packet_index stored.packet_size
        then stored
        else handle_packet (record stored { packet_index = 0 }))

unfoldable pub mouse_consume_wheel_delta : Mouse → ℤ × Mouse
mouse_consume_wheel_delta m = (m.wheel_delta, record m { wheel_delta = pos 0 })

-- The position of the click, if one is pending.
unfoldable pub mouse_consume_click : Mouse → Option (ℤ × ℤ) × Mouse
mouse_consume_click m =
    if not m.click_pending
    then (none, m)
    else (some (m.click_x, m.click_y), record m { click_pending = false })
