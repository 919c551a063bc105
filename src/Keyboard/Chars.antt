-- ===== src/Keyboard/Chars.antt =====
-- The character that a key types, by Shift and Caps Lock.
use myos_gui_desktop.Base.{ℕ, ◌-◌, ◌<◌, ◌≡◌, refl, Bool, true, false, ◌||◌}
use myos_gui_desktop.Base.Tests.{◌==◌, if◌then◌else◌, ==_iff}
use myos_gui_desktop.Base.Lists.{get_or}
use myos_gui_desktop.Base.Runs.{all_under, all_under-at}
use myos_gui_desktop.Keyboard.{scancode_ascii, is_letter, typed_char}

-- The character with neither key.
abbrev pub plain_char : ℕ → ℕ
plain_char code = get_or scancode_ascii code 0

-- What a letter key should type in the code's reading: a capital under either key.
capital : (shift caps : Bool) → ℕ → ℕ
capital shift caps c = if shift || caps then c - 32 else c

agrees : (shift caps : Bool) → ℕ → Bool
agrees shift caps code =
    if is_letter (plain_char code)
    then typed_char shift caps code == capital shift caps (plain_char code)
    else typed_char shift caps code == typed_char shift false code

table : (shift caps : Bool) → all_under 128 (agrees shift caps) ≡ true
unfolding all_under agrees capital typed_char
table true true = refl
table true false = refl
table false true = refl
table false false = refl

-- A letter key types the capital letter if Shift is down or Caps Lock is on, both together too, and
-- else the small one.
pub typed_char_letter :
    (shift caps : Bool) (code : ℕ)
    → code < 128
    → is_letter (plain_char code) ≡ true
    → typed_char shift caps code ≡ (if shift || caps then plain_char code - 32 else plain_char code)
unfolding agrees capital
typed_char_letter shift caps code l letter =
    let ok : agrees shift caps code ≡ true =
      all_under-at 128 (agrees shift caps) code l (table shift caps) in
    (==_iff _ _).0 (rw letter at ok)

-- Caps Lock changes no other key.
pub typed_char_other :
    (shift caps : Bool) (code : ℕ)
    → code < 128
    → is_letter (plain_char code) ≡ false
    → typed_char shift caps code ≡ typed_char shift false code
unfolding agrees
typed_char_other shift caps code l other =
    let ok : agrees shift caps code ≡ true =
      all_under-at 128 (agrees shift caps) code l (table shift caps) in
    (==_iff _ _).0 (rw other at ok)
