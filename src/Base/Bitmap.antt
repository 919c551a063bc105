-- ===== src/Base/Bitmap.antt =====
-- A bitmap as an array of words of `w` digits: `words[i / w]` holds bit `i` at digit `i % w`.
use Prim.Native.Nat.{ℕ, zero, suc, ◌-◌, ◌*◌, ◌/◌, ◌%◌, ◌^◌, ◌<◌, bit_and, bit_or}
use mathlib.Core.Path.{◌≡◌, refl, ap}
use mathlib.Core.Logic.{inl, inr}
use mathlib.Core.Bool.{Bool, true, false}
use mathlib.Core.List.{List}
use native.Mathlib.Omega.{arith}
use native.Mathlib.Nat.{div-lt_iff_lt-mul, div-add-mod, mod-lt}
use myos_gui_desktop.Base.Tests.{◌==◌, if◌then◌else◌, Bool-cases, ==_iff}
use myos_gui_desktop.Base.Lists.{
  length, get_or, set, replicate, get_or-set, length-set, get_or-replicate_same,
}
use myos_gui_desktop.Base.Bits
use myos_gui_desktop.Base.Bits.{test-set, test-clear}

abbrev pub Words : Type 0
Words = List ℕ

module _ (w : ℕ) where
  unfoldable pub test_bit : Words → ℕ → Bool
  test_bit words i = Bits.test (get_or words (i / w) 0) (i % w)

  unfoldable pub set_bit : Words → ℕ → Words
  set_bit words i = set words (i / w) (bit_or (get_or words (i / w) 0) (2 ^ (i % w)))

  unfoldable pub clear_bit : Words → ℕ → Words
  clear_bit words i = set words (i / w) (bit_and (get_or words (i / w) 0) (2 ^ w - 1 - 2 ^ (i % w)))

  pub length-set_bit : (words : Words) (i : ℕ) → length (set_bit words i) ≡ length words
  unfolding set_bit
  length-set_bit words i = length-set words (i / w) _

  pub length-clear_bit : (words : Words) (i : ℕ) → length (clear_bit words i) ≡ length words
  unfolding clear_bit
  length-clear_bit words i = length-set words (i / w) _

module _ (w : ℕ) (pos : 0 < w) where
  same_bit : (i j : ℕ) → i / w ≡ j / w → i % w ≡ j % w → i ≡ j
  same_bit i j d m = omega (arith, div-add-mod i w, div-add-mod j w, ap (λ t. w * t) d)

  -- Two indices are equal when their words and their digits are.
  split_index : (i j : ℕ) → (i == j) ≡ (if i / w == j / w then i % w == j % w else false)
  split_index i j = ground (arith, same_bit i j)

  pub test_bit-set_bit :
      (words : Words) (i j : ℕ)
      → i < length words * w
      → test_bit w (set_bit w words i) j ≡ (if i == j then true else test_bit w words j)
  unfolding test_bit set_bit
  test_bit-set_bit words i j h =
      let inside : i / w < length words = (div-lt_iff_lt-mul pos).1 h in
      let new : ℕ = bit_or (get_or words (i / w) 0) (2 ^ (i % w)) in
      rw (get_or-set words (i / w) (j / w) new 0 inside, split_index i j)
        (elim (Bool-cases (i / w == j / w)) [
          | inl same ↦ let e : i / w ≡ j / w = (==_iff _ _).0 same in rw same (rw (test-set, e))
          | inr other ↦ rw other
        ])

  pub test_bit-clear_bit :
      (words : Words) (i j : ℕ)
      → i < length words * w
      → test_bit w (clear_bit w words i) j ≡ (if i == j then false else test_bit w words j)
  unfolding test_bit clear_bit
  test_bit-clear_bit words i j h =
      let inside : i / w < length words = (div-lt_iff_lt-mul pos).1 h in
      let new : ℕ = bit_and (get_or words (i / w) 0) (2 ^ w - 1 - 2 ^ (i % w)) in
      rw (get_or-set words (i / w) (j / w) new 0 inside, split_index i j)
        (elim (Bool-cases (i / w == j / w)) [
          | inl same ↦
              let e : i / w ≡ j / w = (==_iff _ _).0 same in
              rw same (
                rw (
                  test-clear w (get_or words (i / w) 0) (i % w) (j % w) (mod-lt i pos)
                      (mod-lt j pos),
                  e,
                ))
          | inr other ↦ rw other
        ])

-- A bitmap of zeros.
bit-zero : (k : ℕ) → Bits.bit 0 k ≡ 0
bit-zero zero = refl
bit-zero (suc k) = bit-zero k

pub test_bit-zeros : (w n j : ℕ) → test_bit w (replicate n 0) j ≡ false
unfolding test_bit
test_bit-zeros w n j =
    rw (get_or-replicate_same {A = ℕ} n (j / w) 0, Bits.test-bit 0 (j % w), bit-zero (j % w)) refl
