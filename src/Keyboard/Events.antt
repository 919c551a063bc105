-- ===== src/Keyboard/Events.antt =====
-- What one interrupt of the keyboard adds to the two buffers.

use myos_gui_desktop.Base.{
  ℕ, ◌+◌, ◌/◌, ◌%◌, ◌<◌, ◌≡◌, ◌≢◌, refl, ◌⊎◌, inl, inr, bit_and, bit_or, Bool, true, false, not,
  ◌&&◌, ◌||◌, Option, none, some, List, arith,
}
use myos_gui_desktop.Base.Tests.{leb, ◌==◌, if◌then◌else◌, Bool-cases, ne→==}
use myos_gui_desktop.Base.Masks.{bit_and_high, bit_and_low, bit_or_low}
use myos_gui_desktop.Keyboard.Buffer.{IsValid, contents, offer, contents-push, push-IsValid}
use myos_gui_desktop.Keyboard.{
  KeyboardEvent, no_event, Keyboard, current_modifiers, keyboard_buffer_push, keyboard_event_push,
  emit, gui_key, typed_char, press_char, press, handle_code, keyboard_handle_interrupt, ctrl_s_key,
}

-- Both buffers are valid rings.
pub record IsReady (k : Keyboard) : Type 0 where
  pub keys : IsValid k.keys
  pub events : IsValid k.events

abbrev pub chars_of : Keyboard → List ℕ
chars_of k = contents 0 k.keys

abbrev pub events_of : Keyboard → List KeyboardEvent
events_of k = contents no_event k.events

-- From `k` to `t` one event is offered, with the modifiers after it, and its character if it has one.
pub record Reported (k : Keyboard) (keycode : ℕ) (pressed : Bool) (t : Keyboard) : Type 0 where
  pub ascii : ℕ
  pub ready : IsReady t
  pub event :
      events_of t
      ≡ offer
          (record {
            keycode = keycode;
            ascii = ascii;
            pressed = pressed;
            modifiers = current_modifiers t;
          })
          (events_of k)
  pub char : chars_of t ≡ (if ascii == 0 then chars_of k else offer ascii (chars_of k))

event_only :
    (keycode : ℕ) (pressed : Bool) {k : Keyboard}
    → IsReady k
    → Reported k keycode pressed (keyboard_event_push keycode 0 pressed k)
unfolding keyboard_event_push current_modifiers
event_only keycode pressed v = record {
  ascii = 0;
  ready = record { keys = v.keys; events = push-IsValid _ v.events };
  event = contents-push no_event _ v.events;
  char = refl;
}

with_char :
    (keycode c : ℕ) {k : Keyboard}
    → (c == 0) ≡ false
    → IsReady k
    → Reported k keycode true (emit keycode c k)
unfolding emit keyboard_event_push keyboard_buffer_push current_modifiers
with_char keycode c nonzero v = record {
  ascii = c;
  ready = record { keys = push-IsValid c v.keys; events = push-IsValid _ v.events };
  event = contents-push no_event _ v.events;
  char = rw nonzero (contents-push 0 c v.keys);
}

-- Other flags of the same buffers.
same_buffers :
    {k k' t : Keyboard} {keycode : ℕ} {pressed : Bool}
    → k'.keys ≡ k.keys
    → k'.events ≡ k.events
    → Reported k' keycode pressed t
    → Reported k keycode pressed t
same_buffers a b r = record {
  ascii = r.ascii;
  ready = r.ready;
  event = rw (← b) r.event;
  char = rw (← a) r.char;
}

gui_key-ne-zero : (code key : ℕ) → gui_key code ≡ some key → (key == 0) ≡ false
unfolding gui_key
gui_key-ne-zero code key e = ground arith

press_char-Reported :
    (keycode code : ℕ) {k : Keyboard}
    → IsReady k
    → Reported k keycode true (press_char keycode code k)
unfolding press_char
press_char-Reported keycode code {k} v =
    elim (Bool-cases (typed_char k.shift_down k.caps_lock code == 0)) [
      | inl zero_char ↦ rw zero_char (event_only keycode true v)
      | inr typed ↦ rw typed (with_char keycode (typed_char k.shift_down k.caps_lock code) typed v)
    ]

key-cases : (o : Option ℕ) → (o ≡ none) ⊎ ((key : ℕ) × (o ≡ some key))
key-cases none = inl refl
key-cases (some key) = inr (key, refl)

press-Reported :
    (keycode code : ℕ) {k : Keyboard} → IsReady k → Reported k keycode true (press keycode code k)
unfolding press
press-Reported keycode code {k} v = elim (Bool-cases (code == 0x3a)) [
  | inl caps ↦ rw caps (
      same_buffers refl refl
        (event_only keycode true (record { keys = v.keys; events = v.events })))
  | inr other ↦ rw other (elim (key-cases (gui_key code)) [
    | inr (key, e) ↦ rw e (with_char keycode key (gui_key-ne-zero code key e) v)
    | inl e ↦ rw e (elim (Bool-cases (k.ctrl_down && (code == 0x1f))) [
      | inl save ↦ rw save (with_char keycode ctrl_s_key refl v)
      | inr typed ↦ rw typed (press_char-Reported keycode code v)
    ])
  ])
]

handle_code-Reported :
    (release : Bool) (keycode code : ℕ) {k : Keyboard}
    → IsReady k
    → Reported k keycode (not release) (handle_code release keycode code k)
unfolding handle_code
handle_code-Reported release keycode code {k} v =
    elim (Bool-cases ((code == 0x2a) || (code == 0x36))) [
      | inl shift ↦ rw shift (
          same_buffers refl refl
            (event_only keycode (not release) (record { keys = v.keys; events = v.events })))
      | inr a ↦ rw a (elim (Bool-cases (code == 0x1d)) [
        | inl ctrl ↦ rw ctrl (
            same_buffers refl refl
              (event_only keycode (not release) (record { keys = v.keys; events = v.events })))
        | inr b ↦ rw b (elim (Bool-cases (code == 0x38)) [
          | inl alt ↦ rw alt (
              same_buffers refl refl
                (event_only keycode (not release) (record { keys = v.keys; events = v.events })))
          | inr c ↦ rw c (elim (Bool-cases release) [
            | inl up ↦ rw up (event_only keycode false v)
            | inr down ↦ rw down (press-Reported keycode code v)
          ])
        ])
      ])
    ]

extended-press :
    (keycode code : ℕ) (k : Keyboard)
    → (press keycode code k).extended_scancode ≡ k.extended_scancode
unfolding press press_char emit keyboard_event_push keyboard_buffer_push
extended-press keycode code k = ground arith

extended-handle_code :
    (release : Bool) (keycode code : ℕ) (k : Keyboard)
    → (handle_code release keycode code k).extended_scancode ≡ k.extended_scancode
unfolding handle_code keyboard_event_push
extended-handle_code release keycode code k = ground (arith, extended-press keycode code k)

-- The parts of a scancode byte, by arithmetic.
abbrev pub key_code : ℕ → ℕ
key_code scancode = scancode % 128

abbrev pub is_release : ℕ → Bool
is_release scancode = leb 128 scancode

abbrev pub wide_code : Bool → ℕ → ℕ
wide_code extended scancode = (if extended then 0xe000 else 0) + key_code scancode

release_bit : (s : ℕ) → s < 256 → not (bit_and s 0x80 == 0) ≡ is_release s
release_bit s h = ground (arith, bit_and_high 7 1 s, bit_and_low 1 (s / 128))

extended_code : (s : ℕ) → bit_or 0xe000 (s % 128) ≡ 0xe000 + s % 128
extended_code s = bit_or_low 7 0x1c0 (s % 128) (omega arith)

-- An interrupt with any byte but the prefix offers exactly one event to the event buffer, with the
-- key's code, behind a prefix with 0xE000 added, with the top bit of the byte as release, and with
-- the modifiers after it. The character buffer is offered the event's character, if it has one. The
-- prefix is used up. A full buffer drops what it is offered.
pub keyboard_handle_interrupt-Reported :
    (scancode : ℕ) {k : Keyboard}
    → IsReady k
    → scancode < 256
    → scancode ≢ 0xe0
    → Reported k
        (wide_code k.extended_scancode scancode)
        (not (is_release scancode))
        (keyboard_handle_interrupt scancode k)
      × ((keyboard_handle_interrupt scancode k).extended_scancode ≡ false)
unfolding keyboard_handle_interrupt
keyboard_handle_interrupt-Reported scancode {k} v byte no_prefix =
    rw (ne→== scancode 0xe0 no_prefix, release_bit scancode byte, bit_and_low 7 scancode, code)
      (
        same_buffers {k' = plain} refl refl
            (handle_code-Reported released keycode (scancode % 128) ready),
        extended-handle_code released keycode (scancode % 128) plain,
      )
  where
    plain : Keyboard
    plain = record k { extended_scancode = false }

    ready : IsReady plain
    ready = record { keys = v.keys; events = v.events }

    released : Bool
    released = is_release scancode

    keycode : ℕ
    keycode = wide_code k.extended_scancode scancode

    code :
        (if k.extended_scancode then bit_or 0xe000 (scancode % 128) else scancode % 128) ≡ keycode
    code = ground (arith, extended_code scancode)
