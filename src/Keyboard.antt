-- ===== src/Keyboard.antt =====
-- The keyboard driver, kernel/drivers/input/keyboard.c: scancodes become characters and events in
-- two ring buffers. A scancode is the byte that the interrupt reads from port 0x60; `cli` and `sti`
-- make each read of a buffer one step, so the functions around them are those on the rings.
pub mod Buffer
pub mod Events
pub mod Chars
mod Tests
use myos_gui_desktop.Base.{
  ℕ, zero, suc, ◌+◌, ◌-◌, ◌%◌, ◌^◌, bit_and, bit_or, Bool, true, false, not, ◌&&◌, ◌||◌, Option,
  none, some, List, [], ◌∷◌,
}
use myos_gui_desktop.Base.Tests.{leb, ◌==◌, if◌then◌else◌}
use myos_gui_desktop.Base.Lists.{get_or}
use mathlib.Core.Bool.{xor}
use Buffer
use Buffer.{Ring}

-- `enum gui_key` of include/myos/gui_event.h.
abbrev pub f1_key : ℕ
f1_key = 16

abbrev pub f2_key : ℕ
f2_key = 17

abbrev pub f3_key : ℕ
f3_key = 18

abbrev pub f4_key : ℕ
f4_key = 19

abbrev pub f5_key : ℕ
f5_key = 20

abbrev pub ctrl_s_key : ℕ
ctrl_s_key = 21

abbrev pub page_up_key : ℕ
page_up_key = 22

abbrev pub page_down_key : ℕ
page_down_key = 23

abbrev pub arrow_up_key : ℕ
arrow_up_key = 24

abbrev pub arrow_down_key : ℕ
arrow_down_key = 25

-- `KEYBOARD_MOD_SHIFT`, `KEYBOARD_MOD_CTRL`, `KEYBOARD_MOD_ALT` and `KEYBOARD_MOD_CAPS`.
abbrev pub mod_shift : ℕ
mod_shift = 0x01

abbrev pub mod_ctrl : ℕ
mod_ctrl = 0x02

abbrev pub mod_alt : ℕ
mod_alt = 0x04

abbrev pub mod_caps : ℕ
mod_caps = 0x08

-- The tables up to their last entry that is not 0; a read behind it gives 0.
abbrev pub scancode_ascii : List ℕ
scancode_ascii =
    0 ∷ 27 ∷ 49 ∷ 50 ∷ 51 ∷ 52 ∷ 53 ∷ 54 ∷ 55 ∷ 56 ∷ 57 ∷ 48 ∷ 45 ∷ 61 ∷ 8 ∷ 9 ∷ 113 ∷ 119 ∷ 101
    ∷ 114 ∷ 116 ∷ 121 ∷ 117 ∷ 105 ∷ 111 ∷ 112 ∷ 91 ∷ 93 ∷ 10 ∷ 0 ∷ 97 ∷ 115 ∷ 100 ∷ 102 ∷ 103 ∷ 104
    ∷ 106 ∷ 107 ∷ 108 ∷ 59 ∷ 39 ∷ 96 ∷ 0 ∷ 92 ∷ 122 ∷ 120 ∷ 99 ∷ 118 ∷ 98 ∷ 110 ∷ 109 ∷ 44 ∷ 46 ∷ 47
    ∷ 0 ∷ 42 ∷ 0 ∷ 32 ∷ 0 ∷ 0 ∷ []

abbrev pub scancode_ascii_shift : List ℕ
scancode_ascii_shift =
    0 ∷ 27 ∷ 33 ∷ 64 ∷ 35 ∷ 36 ∷ 37 ∷ 94 ∷ 38 ∷ 42 ∷ 40 ∷ 41 ∷ 95 ∷ 43 ∷ 8 ∷ 9 ∷ 81 ∷ 87 ∷ 69 ∷ 82
    ∷ 84 ∷ 89 ∷ 85 ∷ 73 ∷ 79 ∷ 80 ∷ 123 ∷ 125 ∷ 10 ∷ 0 ∷ 65 ∷ 83 ∷ 68 ∷ 70 ∷ 71 ∷ 72 ∷ 74 ∷ 75 ∷ 76
    ∷ 58 ∷ 34 ∷ 126 ∷ 0 ∷ 124 ∷ 90 ∷ 88 ∷ 67 ∷ 86 ∷ 66 ∷ 78 ∷ 77 ∷ 60 ∷ 62 ∷ 63 ∷ 0 ∷ 42 ∷ 0 ∷ 32
    ∷ 0 ∷ 0 ∷ []

pub record KeyboardEvent : Type 0 where
  pub keycode : ℕ
  pub ascii : ℕ
  pub pressed : Bool
  pub modifiers : ℕ

abbrev pub no_event : KeyboardEvent
no_event = record { keycode = 0; ascii = 0; pressed = false; modifiers = 0 }

pub record Keyboard : Type 0 where
  pub keys : Ring ℕ
  pub events : Ring KeyboardEvent
  pub shift_down : Bool
  pub ctrl_down : Bool
  pub alt_down : Bool
  pub caps_lock : Bool
  pub extended_scancode : Bool

abbrev pub is_letter : ℕ → Bool
is_letter c = leb b'a' c && leb c b'z'

pub keyboard_buffer_push : ℕ → Keyboard → Keyboard
keyboard_buffer_push c k = record k { keys = Buffer.push c k.keys }

pub current_modifiers : Keyboard → ℕ
current_modifiers k =
    let shift = if k.shift_down then bit_or 0 mod_shift else 0 in
    let ctrl = if k.ctrl_down then bit_or shift mod_ctrl else shift in
    let alt = if k.alt_down then bit_or ctrl mod_alt else ctrl in
    if k.caps_lock then bit_or alt mod_caps else alt

pub keyboard_event_push : ℕ → ℕ → Bool → Keyboard → Keyboard
keyboard_event_push keycode ascii pressed k = record k {
  events =
      Buffer.push
        (record {
          keycode = keycode;
          ascii = ascii;
          pressed = pressed;
          modifiers = current_modifiers k;
        })
        k.events;
}

unfoldable pub keyboard_event_pop : Keyboard → Option KeyboardEvent × Keyboard
keyboard_event_pop k = let (e, r) = Buffer.pop no_event k.events in (e, record k { events = r })

pub keyboard_buffer_pop : Keyboard → Option ℕ × Keyboard
keyboard_buffer_pop k = let (c, r) = Buffer.pop 0 k.keys in (c, record k { keys = r })

-- A null `out` is no read.
unfoldable pub keyboard_try_read_event : Bool → Keyboard → Option KeyboardEvent × Keyboard
keyboard_try_read_event out_is_null k = if out_is_null then (none, k) else keyboard_event_pop k

pub keyboard_try_read_char : Keyboard → Option ℕ × Keyboard
keyboard_try_read_char = keyboard_buffer_pop

-- The two pushes that stand together all over the handler.
pub emit : (keycode c : ℕ) → Keyboard → Keyboard
emit keycode c k = keyboard_event_push keycode c true (keyboard_buffer_push c k)

-- The keys that give a code of `enum gui_key` whatever the modifiers are.
pub gui_key : ℕ → Option ℕ
gui_key code =
    if code == 0x49
    then some page_up_key
    else if code == 0x51
    then some page_down_key
    else if code == 0x48
    then some arrow_up_key
    else if code == 0x50
    then some arrow_down_key
    else if code == 0x3b
    then some f1_key
    else if code == 0x3c
    then some f2_key
    else if code == 0x3d
    then some f3_key
    else if code == 0x3e
    then some f4_key
    else if code == 0x3f
    then some f5_key
    else none

-- The character of any other key, 0 for none.
pub typed_char : (shift caps : Bool) → ℕ → ℕ
unfolding xor
typed_char shift caps code =
    let plain = get_or scancode_ascii code 0 in
    let c = if shift then get_or scancode_ascii_shift code 0 else plain in
    if c == 0 then 0 else if is_letter plain && xor caps shift then plain - b'a' + b'A' else c

pub press_char : (keycode code : ℕ) → Keyboard → Keyboard
press_char keycode code k =
    let c = typed_char k.shift_down k.caps_lock code in
    if c == 0 then keyboard_event_push keycode 0 true k else emit keycode c k

-- The handler for a key that goes down and is no modifier.
pub press : (keycode code : ℕ) → Keyboard → Keyboard
press keycode code k =
    if code == 0x3a
    then (let toggled = record k { caps_lock = not k.caps_lock } in
        keyboard_event_push keycode 0 true toggled)
    else elim (gui_key code) [
      | some key ↦ emit keycode key k
      | none ↦
          if k.ctrl_down && (code == 0x1f)
          then emit keycode ctrl_s_key k
          else press_char keycode code k
    ]

-- The handler behind the prefix byte.
pub handle_code : (release : Bool) → (keycode code : ℕ) → Keyboard → Keyboard
handle_code release keycode code k =
    if (code == 0x2a) || (code == 0x36)
    then keyboard_event_push keycode 0 (not release) (record k { shift_down = not release })
    else if code == 0x1d
    then keyboard_event_push keycode 0 (not release) (record k { ctrl_down = not release })
    else if code == 0x38
    then keyboard_event_push keycode 0 (not release) (record k { alt_down = not release })
    else if release
    then keyboard_event_push keycode 0 false k
    else press keycode code k

pub keyboard_handle_interrupt : ℕ → Keyboard → Keyboard
keyboard_handle_interrupt scancode k =
    if scancode == 0xe0
    then record k { extended_scancode = true }
    else (let release = not (bit_and scancode 0x80 == 0) in
        let code = bit_and scancode 0x7f in
        let keycode = if k.extended_scancode then bit_or 0xe000 code else code in
        handle_code release keycode code (record k { extended_scancode = false }))
