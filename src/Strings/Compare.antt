-- ===== src/Strings/Compare.antt =====
-- What the comparison of lib/libk/runtime.c compares.
use myos_gui_desktop.Base.{ℕ, ◌≡◌, ◌↔◌, true, List, [], ◌∷◌, arith}
use myos_gui_desktop.Base.Tests.{◌==◌, if◌then◌else◌}
use myos_gui_desktop.Base.Int.{pos, ◌-ℤ◌, eq_ℤ}
use myos_gui_desktop.Strings.{kstrcmp}

-- The text in memory: the bytes in front of the first 0.
unfoldable pub text_of : List ℕ → List ℕ
text_of [] = []
text_of (c ∷ memory) = if c == 0 then [] else c ∷ text_of memory

eq_ℤ-sub : (a b : ℕ) → (eq_ℤ (pos a -ℤ pos b) (pos 0) ≡ true) ↔ (a ≡ b)
unfolding ◌-ℤ◌
eq_ℤ-sub a b = ground arith

-- kstrcmp gives 0 for two texts if and only if they are the same.
pub kstrcmp-text_of :
    (left right : List ℕ)
    → (eq_ℤ (kstrcmp left right) (pos 0) ≡ true) ↔ (text_of left ≡ text_of right)
unfolding kstrcmp text_of
kstrcmp-text_of [] [] = ground (arith, eq_ℤ-sub 0 0)
kstrcmp-text_of [] (d ∷ right) = ground (arith, eq_ℤ-sub 0 d)
kstrcmp-text_of (c ∷ left) [] = ground (arith, eq_ℤ-sub c 0)
kstrcmp-text_of (c ∷ left) (d ∷ right) = ground (arith, eq_ℤ-sub c d, kstrcmp-text_of left right)
