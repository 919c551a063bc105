-- ===== src/Strings.antt =====
-- The functions on memory and text of lib/libk/runtime.c; user/libc/string.c has the same code under
-- the names of C. Memory from a pointer on is a list, and a read behind it gives 0.
pub mod Compare
pub mod Bytes
use Prim.Native.Char.{code}
use Prim.Native.String.{String}
use myos_gui_desktop.Base.{
  ◌-◌, ◌*◌, ◌/◌, ℕ, zero, suc, ◌+◌, ◌%◌, ◌^◌, not, ◌||◌, List, [], ◌∷◌, ◌++◌,
}
use myos_gui_desktop.Base.Tests.{ltb, ◌==◌, if◌then◌else◌}
use myos_gui_desktop.Base.Lists.{length, take, get_or, drop, replicate}
use myos_gui_desktop.Base.Int.{ℤ, pos, ◌-ℤ◌}

pub kstrlen : List ℕ → ℕ
kstrlen [] = 0
kstrlen (c ∷ value) = if c == 0 then 0 else kstrlen value + 1

unfoldable pub kstrcmp : List ℕ → List ℕ → ℤ
kstrcmp [] right = pos 0 -ℤ pos (get_or right 0 0)
kstrcmp (c ∷ left) [] = pos c -ℤ pos 0
kstrcmp (c ∷ left) (d ∷ right) =
    if (c == 0) || (d == 0) || not (c == d) then pos c -ℤ pos d else kstrcmp left right

-- The first `size` bytes of what a pointer points to.
unfoldable pub bytes_of : ℕ → List ℕ → List ℕ
bytes_of zero memory = []
bytes_of (suc size) memory = get_or memory 0 0 ∷ bytes_of size (drop 1 memory)

-- What `dst` holds after `size` bytes of `src` were copied there.
pub kmemcpy : List ℕ → List ℕ → ℕ → List ℕ
kmemcpy dst src size = bytes_of size src ++ drop size dst

pub kmemset : List ℕ → ℕ → ℕ → List ℕ
kmemset dst value size = replicate size (value % 2 ^ 8) ++ drop size dst

-- The bytes of a literal.
abbrev pub codes : String → List ℕ
codes String.[] = []
codes (String.◌∷◌ c s) = code c ∷ codes s

-- The loop of `u32_to_hex`, `n` digits from the one with number `i` on.
pub hex_digits : (n i value : ℕ) → List ℕ
hex_digits zero i value = []
hex_digits (suc n) i value =
    let nibble = value / 2 ^ ((7 - i) * 4) % 16 in
    get_or (codes "0123456789ABCDEF") nibble 0 ∷ hex_digits n (i + 1) value

-- What `out` holds afterwards.
pub u32_to_hex : (value : ℕ) → List ℕ
u32_to_hex value = codes "0x" ++ hex_digits 8 0 value ++ (0 ∷ [])

-- The first loop of `u32_to_dec`, with `room` places of `temp` left: the digits, the lowest one first.
-- Ten places are enough for 32 bits, and `temp` has 21.
pub low_digits : (room value : ℕ) → List ℕ
low_digits zero value = []
low_digits (suc room) value =
    if value == 0 then [] else (b'0' + value % 10) ∷ low_digits room (value / 10)

-- The second loop, with the digits written before: the last digit of `temp` comes first.
pub high_digits : List ℕ → List ℕ → List ℕ
high_digits [] written = written
high_digits (digit ∷ temp) written = high_digits temp (digit ∷ written)

-- What `out` holds afterwards.
pub u32_to_dec : (value : ℕ) (out : List ℕ) (out_size : ℕ) → List ℕ
u32_to_dec value out out_size =
    let text = take (out_size - 1) (high_digits (low_digits 21 value) []) in
    if out_size == 0
    then out
    else if value == 0
    then (if ltb 1 out_size then b'0' ∷ 0 ∷ drop 2 out else b'0' ∷ drop 1 out)
    else text ++ (0 ∷ drop (length text + 1) out)
