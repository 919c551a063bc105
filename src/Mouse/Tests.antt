-- ===== src/Mouse/Tests.antt =====
-- The mouse after start-up, and the theorems there.
use myos_gui_desktop.Base.{◌≡◌, refl, [], ◌∷◌, arith}
use myos_gui_desktop.Base.Int.{pos, ◌+ℤ◌, ◌-ℤ◌}
use myos_gui_desktop.Mouse.{
  Mouse, static_state, mouse_initialize, clamp, wheel_of, move, scroll, click, handle_packet,
  mouse_handle_interrupt,
}
use myos_gui_desktop.Mouse.Bounds.{IsValid, here, next, byte, Reach-IsValid}
use myos_gui_desktop.Mouse.Packet.{
  between, interrupts, turned, Packet, mouse_handle_interrupt-Packet,
}

-- Far to the left, and up by 56.
moved : Mouse
unfolding mouse_handle_interrupt handle_packet move scroll click clamp wheel_of ◌+ℤ◌ ◌-ℤ◌
moved = mouse_handle_interrupt 56 (
    mouse_handle_interrupt 0x80
      (mouse_handle_interrupt 0x18 (record static_state { cursor_x = pos 100 })))

moved_to : (moved.cursor_x ≡ pos 0) × (moved.cursor_y ≡ pos 44)
unfolding moved
moved_to = (refl, refl)

Reach-IsValid_example :
    IsValid
      (mouse_handle_interrupt 0xff (mouse_handle_interrupt 0x08 (mouse_initialize 3 static_state)))
Reach-IsValid_example = Reach-IsValid 3 (next (next here (byte 0x08)) (byte 0xff))

mouse_handle_interrupt-Packet_example :
    Packet static_state 0x09 0x10 0xf0
      (pos 0)
      (interrupts (0x09 ∷ 0x10 ∷ 0xf0 ∷ []) (between 3 static_state (0 ∷ 0 ∷ 0 ∷ 0 ∷ [])))
    × Packet static_state 0x09 0x10 0xf0
        (pos 0 +ℤ turned 0x0f)
        (interrupts (0x09 ∷ 0x10 ∷ 0xf0 ∷ 0x0f ∷ []) (between 4 static_state (0 ∷ 0 ∷ 0 ∷ 0 ∷ [])))
mouse_handle_interrupt-Packet_example =
    mouse_handle_interrupt-Packet 0x09 0x10 0xf0 0x0f 0 0 0 0 [] static_state refl (omega arith)
      (omega arith) (omega arith)
