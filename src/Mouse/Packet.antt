-- ===== src/Mouse/Packet.antt =====
-- How bytes become packets, and what a packet does.
use myos_gui_desktop.Base.{
  ℕ, ◌-◌, ◌%◌, ◌<◌, ◌≡◌, refl, inl, inr, bit_and, true, false, not, ◌&&◌, ◌||◌, List, [], ◌∷◌, ap,
  ◌∙◌, subst, arith,
}
use myos_gui_desktop.Base.Tests.{ltb, ◌==◌, if◌then◌else◌, Bool-cases}
use myos_gui_desktop.Base.Runs.{all_under, all_under-at}
use myos_gui_desktop.Base.Masks.{bit_and_low}
use myos_gui_desktop.Base.Int.{ℤ, pos, negsuc, ◌+ℤ◌, ◌-ℤ◌, ◌≤ℤ◌, ◌<ℤ◌, eq_ℤ, eq_ℤ-eq}
use myos_gui_desktop.Mouse.{
  Mouse, signed8, is_set, clamp, wheel_of, move, scroll, click, handle_packet,
  mouse_handle_interrupt, next_generation,
}

-- A mouse between packets of `size` bytes.
abbrev pub between : (size : ℕ) → Mouse → List ℕ → Mouse
between size m bytes = record m { packet = bytes; packet_index = 0; packet_size = size }

-- The bytes of a packet, one interrupt after the other.
abbrev pub interrupts : List ℕ → Mouse → Mouse
interrupts [] m = m
interrupts (byte ∷ bytes) m = interrupts bytes (mouse_handle_interrupt byte m)

three_bytes :
    (a b c x y z : ℕ) (rest : List ℕ) (m : Mouse)
    → is_set a 0x08 ≡ true
    → interrupts (a ∷ b ∷ c ∷ []) (between 3 m (x ∷ y ∷ z ∷ rest))
      ≡ handle_packet (between 3 m (a ∷ b ∷ c ∷ rest))
unfolding mouse_handle_interrupt
three_bytes a b c x y z rest m first =
    let starts : (bit_and a 0x08 == 0) ≡ false = ground (arith, first) in rw starts

four_bytes :
    (a b c d x y z v : ℕ) (rest : List ℕ) (m : Mouse)
    → is_set a 0x08 ≡ true
    → interrupts (a ∷ b ∷ c ∷ d ∷ []) (between 4 m (x ∷ y ∷ z ∷ v ∷ rest))
      ≡ handle_packet (between 4 m (a ∷ b ∷ c ∷ d ∷ rest))
unfolding mouse_handle_interrupt
four_bytes a b c d x y z v rest m first =
    let starts : (bit_and a 0x08 == 0) ≡ false = ground (arith, first) in rw starts

-- The number nearest to `v` from 0 to `b - 1`.
abbrev pub Nearest : (v b r : ℤ) → Type 0
Nearest v b r = (v <ℤ pos 0 → r ≡ pos 0) × (pos 0 ≤ℤ v → v <ℤ b → r ≡ v) × (b ≤ℤ v → r ≡ b -ℤ pos 1)

clamp-Nearest : (v b : ℤ) → pos 0 <ℤ b → Nearest v b (clamp v b)
unfolding clamp
clamp-Nearest v b h = (λ l. ground arith, λ l k. ground arith, λ l. ground arith)

-- Every byte of the wheel.
wheel_table :
    all_under 256
      (λ b. eq_ℤ (wheel_of b) (if ltb (b % 16) 8 then pos (b % 16) else negsuc (15 - b % 16)))
    ≡ true
unfolding all_under wheel_of
wheel_table = refl

-- For a byte of the wheel, the low four bits are read as a number from -8 to 7 in two's complement.
pub wheel_of_lem :
    (b : ℕ) → b < 256 → wheel_of b ≡ (if ltb (b % 16) 8 then pos (b % 16) else negsuc (15 - b % 16))
wheel_of_lem b l = eq_ℤ-eq _ _ (all_under-at 256 _ b l wheel_table)

-- The low four bits as a number from -8 to 7 in two's complement.
abbrev pub turned : ℕ → ℤ
turned d = if ltb (d % 16) 8 then pos (d % 16) else negsuc (15 - d % 16)

-- What a packet with the bytes `a`, `b` and `c` makes of the mouse `m`, with the wheel at `wheel` after it.
pub record Packet (m : Mouse) (a b c : ℕ) (wheel : ℤ) (t : Mouse) : Type 0 where
  pub x : Nearest (m.cursor_x +ℤ signed8 b) m.bound_width t.cursor_x
  pub y : Nearest (m.cursor_y -ℤ signed8 c) m.bound_height t.cursor_y
  pub left : t.left_down_flag ≡ (a % 2 == 1)
  pub click : t.click_pending ≡ (m.click_pending || (m.left_down_flag && not t.left_down_flag))
  pub click_at :
      m.left_down_flag ≡ true
      → t.left_down_flag ≡ false
      → (t.click_x ≡ t.cursor_x) × (t.click_y ≡ t.cursor_y)
  pub scrolled : t.wheel_delta ≡ wheel
  pub start : t.packet_index ≡ 0

is_set-one : (a : ℕ) → is_set a 0x01 ≡ (a % 2 == 1)
is_set-one a = ground (arith, bit_and_low 1 a)

-- The last steps of a packet, with the wheel and the generation that `scroll` leaves.
click-Packet :
    (m : Mouse) (a b c size generation : ℕ) (wheel : ℤ) (rest : List ℕ)
    → pos 0 <ℤ m.bound_width
    → pos 0 <ℤ m.bound_height
    → Packet m a b c wheel (
        click m.left_down_flag (record (move (between size m (a ∷ b ∷ c ∷ rest))) {
          wheel_delta = wheel;
          movement_generation = generation;
        }))
unfolding move click
click-Packet m a b c size generation wheel rest w h =
    elim (Bool-cases (m.left_down_flag && not (is_set a 0x01))) [
      | inl released ↦ rw released record {
        x = clamp-Nearest _ _ w;
        y = clamp-Nearest _ _ h;
        left = is_set-one a;
        click = ground (arith, released);
        click_at = λ p q. (refl, refl);
        scrolled = refl;
        start = refl;
      }
      | inr kept ↦ rw kept record {
        x = clamp-Nearest _ _ w;
        y = clamp-Nearest _ _ h;
        left = is_set-one a;
        click = ground (arith, kept);
        click_at = λ p q. (ground (arith, kept), ground (arith, kept));
        scrolled = refl;
        start = refl;
      }
    ]

plus_zero : (v : ℤ) → v +ℤ pos 0 ≡ v
unfolding ◌+ℤ◌
plus_zero (pos n) = ground arith
plus_zero (negsuc n) = ground arith

four_lem :
    (m : Mouse) (a b c d : ℕ) (rest : List ℕ)
    → d < 256
    → pos 0 <ℤ m.bound_width
    → pos 0 <ℤ m.bound_height
    → Packet m a b c
        (m.wheel_delta +ℤ turned d)
        (handle_packet (between 4 m (a ∷ b ∷ c ∷ d ∷ rest)))
unfolding handle_packet scroll move
four_lem m a b c d rest byte w h =
    let p : Mouse = between 4 m (a ∷ b ∷ c ∷ d ∷ rest) in
    let g : ℕ = next_generation m.movement_generation in
    subst (λ t. Packet m a b c (m.wheel_delta +ℤ t) (handle_packet p)) (wheel_of_lem d byte)
      (elim (Bool-cases (eq_ℤ (wheel_of d) (pos 0))) [
        | inl still ↦
            let none_turned : m.wheel_delta +ℤ wheel_of d ≡ m.wheel_delta =
              ap (λ t. m.wheel_delta +ℤ t) (eq_ℤ-eq _ _ still) ∙ plus_zero m.wheel_delta in
            rw (none_turned, handle_packet, scroll, still)
              (click-Packet m a b c 4 g m.wheel_delta (d ∷ rest) w h)
        | inr turns ↦
            rw (handle_packet, scroll, turns)
              (click-Packet m a b c 4 (next_generation g) (m.wheel_delta +ℤ wheel_of d) (d ∷ rest) w
                h)
      ])

-- Between packets, the bytes of a whole packet, of which the first has the bit that every first byte
-- has, and bounds that are not empty: three bytes if packets have three, four if they have four. The
-- cursor goes to the nearest point inside the bounds, the left button is the lowest bit, a click is
-- pending where the button went up, at the new cursor, or where one was pending before, and the mouse
-- waits for the next packet. Three bytes leave the wheel, and the fourth one adds its low four bits, a
-- number from -8 to 7 in two's complement.
pub mouse_handle_interrupt-Packet :
    (a b c d x y z v : ℕ) (rest : List ℕ) (m : Mouse)
    → is_set a 0x08 ≡ true
    → d < 256
    → pos 0 <ℤ m.bound_width
    → pos 0 <ℤ m.bound_height
    → Packet m a b c m.wheel_delta
        (interrupts (a ∷ b ∷ c ∷ []) (between 3 m (x ∷ y ∷ z ∷ v ∷ rest)))
      × Packet m a b c
          (m.wheel_delta +ℤ turned d)
          (interrupts (a ∷ b ∷ c ∷ d ∷ []) (between 4 m (x ∷ y ∷ z ∷ v ∷ rest)))
unfolding handle_packet scroll move
mouse_handle_interrupt-Packet a b c d x y z v rest m first byte w h = (
  rw (three_bytes a b c x y z (v ∷ rest) m first)
      (click-Packet m a b c 3 (next_generation m.movement_generation) m.wheel_delta (v ∷ rest) w h),
  rw (four_bytes a b c d x y z v rest m first) (four_lem m a b c d rest byte w h),
)
