-- ===== src/Mouse/Bounds.antt =====
-- The cursor stays inside the bounds, and packets inside their buffer.
use myos_gui_desktop.Base.{
  ℕ, ◌+◌, ◌%◌, ◌^◌, ◌<◌, ◌≡◌, refl, ◌⊎◌, inl, inr, bit_and, Bool, ◌&&◌, ◌||◌, arith,
}
use myos_gui_desktop.Base.Tests.{ltb, ◌==◌, Bool-cases}
use myos_gui_desktop.Base.Lists.{length, set, length-set}
use myos_gui_desktop.Base.Int.{ℤ, pos, negsuc, ◌-ℤ◌, ◌≤ℤ◌, ◌<ℤ◌, leb_ℤ}
use myos_gui_desktop.Mouse.{
  Mouse, static_state, clamp, move, scroll, click, handle_packet, mouse_handle_interrupt,
  mouse_initialize, mouse_set_bounds, mouse_consume_wheel_delta, mouse_consume_click, half,
}

abbrev pub Inside : (value bound : ℤ) → Type 0
Inside value bound = (pos 0 ≤ℤ value) × (value <ℤ bound)

pub record IsValid (m : Mouse) : Type 0 where
  pub x_in : Inside m.cursor_x m.bound_width
  pub y_in : Inside m.cursor_y m.bound_height
  pub width_pos : pos 0 <ℤ m.bound_width
  pub height_pos : pos 0 <ℤ m.bound_height
  pub buffer : length m.packet ≡ 4
  pub size : (m.packet_size ≡ 3) ⊎ (m.packet_size ≡ 4)
  pub index : m.packet_index < m.packet_size

-- The clamped value is inside the bounds.
pub clamp-Inside : (v b : ℤ) → pos 0 <ℤ b → Inside (clamp v b) b
unfolding clamp ◌-ℤ◌
clamp-Inside v b h = ground arith

half-Inside : (b : ℤ) → pos 0 <ℤ b → Inside (half b) b
half-Inside (pos n) h = omega arith
half-Inside (negsuc n) h = absurd (omega arith)

move-IsValid : {m : Mouse} → IsValid m → IsValid (move m)
unfolding move
move-IsValid v = record {
  x_in = clamp-Inside _ _ v.width_pos;
  y_in = clamp-Inside _ _ v.height_pos;
  width_pos = v.width_pos;
  height_pos = v.height_pos;
  buffer = v.buffer;
  size = v.size;
  index = v.index;
}

-- What the invariant says depends on these fields alone.
record SameShape (m t : Mouse) : Type 0 where
  x : t.cursor_x ≡ m.cursor_x
  y : t.cursor_y ≡ m.cursor_y
  width : t.bound_width ≡ m.bound_width
  height : t.bound_height ≡ m.bound_height
  packet : t.packet ≡ m.packet
  size : t.packet_size ≡ m.packet_size
  index : t.packet_index ≡ m.packet_index

same_shape : {m t : Mouse} → IsValid m → SameShape m t → IsValid t
same_shape v s = record {
  x_in = rw (s.x, s.width) v.x_in;
  y_in = rw (s.y, s.height) v.y_in;
  width_pos = rw s.width v.width_pos;
  height_pos = rw s.height v.height_pos;
  buffer = rw s.packet v.buffer;
  size = rw s.size v.size;
  index = rw (s.index, s.size) v.index;
}

scroll-SameShape : (m : Mouse) → SameShape m (scroll m)
unfolding scroll
scroll-SameShape m = ground arith

click-SameShape : (was : Bool) (m : Mouse) → SameShape m (click was m)
unfolding click
click-SameShape was m = ground arith

pub handle_packet-IsValid : {m : Mouse} → IsValid m → IsValid (handle_packet m)
unfolding handle_packet
handle_packet-IsValid {m} v =
    same_shape (same_shape (move-IsValid v) (scroll-SameShape (move m)))
      (click-SameShape m.left_down_flag (scroll (move m)))

pub mouse_handle_interrupt-IsValid :
    (byte : ℕ) {m : Mouse} → IsValid m → IsValid (mouse_handle_interrupt byte m)
unfolding mouse_handle_interrupt
mouse_handle_interrupt-IsValid byte {m} v =
    elim (Bool-cases ((m.packet_index == 0) && (bit_and byte 0x08 == 0))) [
      | inl skipped ↦ rw skipped v
      | inr taken ↦ rw taken (elim (Bool-cases (ltb ((m.packet_index + 1) % 2 ^ 8) m.packet_size)) [
        | inl more ↦ rw more (stored ((m.packet_index + 1) % 2 ^ 8) (ground arith))
        | inr full ↦ rw full (handle_packet-IsValid (stored 0 (omega (arith, v.size))))
      ])
    ]
  where
    stored :
        (i : ℕ)
        → i < m.packet_size
        → IsValid (record m { packet = set m.packet m.packet_index byte; packet_index = i })
    stored i l = record {
      x_in = v.x_in;
      y_in = v.y_in;
      width_pos = v.width_pos;
      height_pos = v.height_pos;
      buffer = omega (arith, v.buffer, length-set m.packet m.packet_index byte);
      size = v.size;
      index = l;
    }

mouse_set_bounds-IsValid :
    (width height : ℤ) {m : Mouse} → IsValid m → IsValid (mouse_set_bounds width height m)
unfolding mouse_set_bounds
mouse_set_bounds-IsValid width height {m} v =
    elim (Bool-cases (leb_ℤ width (pos 0) || leb_ℤ height (pos 0))) [
      | inl refused ↦ rw refused v
      | inr set_new ↦ rw set_new record {
        x_in = half-Inside width (ground (arith, set_new));
        y_in = half-Inside height (ground (arith, set_new));
        width_pos = ground (arith, set_new);
        height_pos = ground (arith, set_new);
        buffer = v.buffer;
        size = v.size;
        index = v.index;
      }
    ]

-- What happens to the mouse: a byte, new bounds, and reads by the input layer.
pub data Step (m : Mouse) : Mouse → Type 0 where
  byte : (b : ℕ) → Step m (mouse_handle_interrupt b m)
  bounds : (width height : ℤ) → Step m (mouse_set_bounds width height m)
  wheel : Step m (mouse_consume_wheel_delta m).1
  read_click : Step m (mouse_consume_click m).1

pub data Reach (m : Mouse) : Mouse → Type 0 where
  here : Reach m m
  next : {t u : Mouse} → Reach m t → Step t u → Reach m u

consume_click-SameShape : (m : Mouse) → SameShape m (mouse_consume_click m).1
unfolding mouse_consume_click
consume_click-SameShape m = ground arith

Step-IsValid : {m t : Mouse} → Step m t → IsValid m → IsValid t
unfolding mouse_consume_wheel_delta
Step-IsValid (byte b) v = mouse_handle_interrupt-IsValid b v
Step-IsValid (bounds width height) v = mouse_set_bounds-IsValid width height v
Step-IsValid {m} wheel v = same_shape v (record {
  x = refl;
  y = refl;
  width = refl;
  height = refl;
  packet = refl;
  size = refl;
  index = refl;
})
Step-IsValid {m} read_click v = same_shape v (consume_click-SameShape m)

mouse_initialize-IsValid : (id : ℕ) → IsValid (mouse_initialize id static_state)
unfolding mouse_initialize
mouse_initialize-IsValid id = elim (Bool-cases ((id == 3) || (id == 4))) [
  | inl wheel_mouse ↦ rw wheel_mouse (start 4 (inr refl) (omega arith))
  | inr plain ↦ rw plain (start 3 (inl refl) (omega arith))
]
  where
    start : (n : ℕ) → (n ≡ 3) ⊎ (n ≡ 4) → 0 < n → IsValid (record static_state { packet_size = n })
    start n size positive = record {
      x_in = omega arith;
      y_in = omega arith;
      width_pos = omega arith;
      height_pos = omega arith;
      buffer = refl;
      size = size;
      index = positive;
    }

Reach-valid : {m t : Mouse} → IsValid m → Reach m t → IsValid t
Reach-valid v here = v
Reach-valid v (next r s) = Step-IsValid s (Reach-valid v r)

-- Whatever the mouse is, and whatever bytes, bounds and reads come in whatever order, the cursor is
-- inside the bounds, and a byte of a packet is stored inside the packet's buffer.
pub Reach-IsValid : (id : ℕ) {t : Mouse} → Reach (mouse_initialize id static_state) t → IsValid t
Reach-IsValid id r = Reach-valid (mouse_initialize-IsValid id) r
