-- ===== src/Base/Bits.antt =====
-- The binary digits of a word, and how the masks of the source read and write them.
use Prim.Native.Nat.{
  ℕ, zero, suc, ◌+◌, ◌-◌, ◌*◌, ◌/◌, ◌%◌, ◌^◌, ◌≤◌, ◌<◌, min, max, bit_and, bit_or, digits,
  bit_and-bitwise, bit_or-bitwise, bitwise,
}
use mathlib.Core.Path.{◌≡◌, refl, ap, sym, ◌∙◌}
use mathlib.Core.Bool.{Bool, true, false, not}
use native.Mathlib.Omega.{arith}
use native.Mathlib.Nat.{pow-suc}
use myos_gui_desktop.Base.Tests.{◌==◌, if◌then◌else◌}

-- Digit `k` of `w`.
abbrev pub bit : ℕ → ℕ → ℕ
bit w zero = w % 2
bit w (suc k) = bit (w / 2) k

mul_cases : (b p : ℕ) → b ≤ 1 → 0 < p → (b * p == 0) ≡ (b == 0)
mul_cases zero p h pos = ground arith
mul_cases (suc zero) p h pos = ground arith
mul_cases (suc (suc b)) p h pos = absurd (omega arith)

pub bit-le : (w k : ℕ) → bit w k ≤ 1
bit-le w zero = omega arith
bit-le w (suc k) = bit-le (w / 2) k

-- What the native operations stand for, one digit at a time: `f` is the rest when the left word
-- has run out, and `g` joins two digits.
module _ (f : ℕ → ℕ) (g : ℕ → ℕ → ℕ) where
  no_digits : (rounds y : ℕ) → digits f g rounds 0 y ≡ f y
  no_digits zero y = refl
  no_digits (suc rounds) y = refl

  -- More rounds than the left word has digits change nothing.
  settled : (x y r t : ℕ) → x ≤ r → x ≤ t → digits f g r x y ≡ digits f g t x y
  settled zero y r t _ _ = no_digits r y ∙ sym (no_digits t y)
  settled (suc x) y zero t h _ = absurd (omega arith)
  settled (suc x) y (suc r) zero _ h = absurd (omega arith)
  settled (suc x) y (suc r) (suc t) h k =
      ap (λ rest. rest * 2 + g (suc x % 2) (y % 2))
        (settled (suc x / 2) (y / 2) r t (omega arith) (omega arith))

  halves :
      (x y : ℕ)
      → bitwise f g (suc x) y ≡ bitwise f g (suc x / 2) (y / 2) * 2 + g (suc x % 2) (y % 2)
  halves x y =
      ap (λ rest. rest * 2 + g (suc x % 2) (y % 2))
        (settled (suc x / 2) (y / 2) x (suc x / 2) (omega arith) (omega arith))

no_low : (y : ℕ) → bit_and 0 y ≡ 0
no_low y = bit_and-bitwise 0 y

low_only : (y : ℕ) → bit_or 0 y ≡ y
low_only y = bit_or-bitwise 0 y

-- One digit of `&` and of `|`.
pub bit_and_step : (x y : ℕ) → bit_and x y ≡ bit_and (x / 2) (y / 2) * 2 + min (x % 2) (y % 2)
bit_and_step zero y = omega (arith, no_low y, no_low (y / 2))
bit_and_step (suc x) y =
    rw (bit_and-bitwise (suc x) y, bit_and-bitwise (suc x / 2) (y / 2)) (halves (λ _. 0) min x y)

pub bit_or_step : (x y : ℕ) → bit_or x y ≡ bit_or (x / 2) (y / 2) * 2 + max (x % 2) (y % 2)
bit_or_step zero y = omega (arith, low_only y, low_only (y / 2))
bit_or_step (suc x) y =
    rw (bit_or-bitwise (suc x) y, bit_or-bitwise (suc x / 2) (y / 2))
      (halves (λ rest. rest) max x y)

pub pow_pos : (k : ℕ) → 0 < 2 ^ k
pow_pos zero = omega arith
pow_pos (suc k) = omega (arith, pow-suc 2 k, pow_pos k)

pow_lt : (k w : ℕ) → k < w → 2 ^ k < 2 ^ w
pow_lt k zero h = absurd (omega arith)
pow_lt zero (suc w) h = omega (arith, pow-suc 2 w, pow_pos w)
pow_lt (suc k) (suc w) h = omega (arith, pow-suc 2 w, pow-suc 2 k, pow_lt k w)

no_common_digit : (rounds x : ℕ) → digits (λ _. 0) min rounds x 0 ≡ 0
no_common_digit zero x = refl
no_common_digit (suc rounds) zero = refl
no_common_digit (suc rounds) (suc x) = omega (arith, no_common_digit rounds (suc x / 2))

pub bit_and_zero : (x : ℕ) → bit_and x 0 ≡ 0
bit_and_zero x = bit_and-bitwise x 0 ∙ no_common_digit x x

no_right_digit : (rounds x : ℕ) → x ≤ rounds → digits (λ rest. rest) max rounds x 0 ≡ x
no_right_digit zero zero h = refl
no_right_digit zero (suc x) h = absurd (omega arith)
no_right_digit (suc rounds) zero h = refl
no_right_digit (suc rounds) (suc x) h =
    omega (arith, no_right_digit rounds (suc x / 2) (omega arith))

pub bit_or_zero : (x : ℕ) → bit_or x 0 ≡ x
bit_or_zero x = bit_or-bitwise x 0 ∙ no_right_digit x x (omega arith)

-- Digits of a conjunction and a disjunction.
bit-bit_and : (a b k : ℕ) → bit (bit_and a b) k ≡ min (bit a k) (bit b k)
bit-bit_and a b zero = omega (arith, bit_and_step a b)
bit-bit_and a b (suc k) =
    let e : bit_and a b / 2 ≡ bit_and (a / 2) (b / 2) = omega (arith, bit_and_step a b) in
    rw e (bit-bit_and (a / 2) (b / 2) k)

bit-bit_or : (a b k : ℕ) → bit (bit_or a b) k ≡ max (bit a k) (bit b k)
bit-bit_or a b zero = omega (arith, bit_or_step a b)
bit-bit_or a b (suc k) =
    let e : bit_or a b / 2 ≡ bit_or (a / 2) (b / 2) = omega (arith, bit_or_step a b) in
    rw e (bit-bit_or (a / 2) (b / 2) k)

double_half : (x : ℕ) → x * 2 / 2 ≡ x
double_half x = omega arith

bit-zero : (k : ℕ) → bit 0 k ≡ 0
bit-zero zero = refl
bit-zero (suc k) = bit-zero k

-- The digits of `1 << k`.
bit-pow : (k j : ℕ) → bit (2 ^ k) j ≡ (if k == j then 1 else 0)
bit-pow zero zero = refl
bit-pow zero (suc j) = ground (arith, bit-zero j)
bit-pow (suc k) zero = rw pow-suc (ground arith)
bit-pow (suc k) (suc j) = rw (pow-suc, double_half) (ground (arith, bit-pow k j))

-- The digits of `~(1 << k)` in a word of `w` bits.
pub bit-ones : (w j : ℕ) → j < w → bit (2 ^ w - 1) j ≡ 1
bit-ones zero j h = absurd (omega arith)
bit-ones (suc w) zero h = omega (arith, pow-suc 2 w, pow_pos w)
bit-ones (suc w) (suc j) h =
    let e : (2 ^ suc w - 1) / 2 ≡ 2 ^ w - 1 = omega (arith, pow-suc 2 w, pow_pos w) in
    rw e (bit-ones w j (omega arith))

bit-complement : (w k j : ℕ) → k < w → j < w → bit (2 ^ w - 1 - 2 ^ k) j ≡ (if k == j then 0 else 1)
bit-complement zero k j hk hj = absurd (omega arith)
bit-complement (suc w) zero zero hk hj = omega (arith, pow-suc 2 w, pow_pos w)
bit-complement (suc w) zero (suc j) hk hj =
    let e : (2 ^ suc w - 1 - 2 ^ 0) / 2 ≡ 2 ^ w - 1 = omega (arith, pow-suc 2 w, pow_pos w) in
    rw e (ground (arith, bit-ones w j))
bit-complement (suc w) (suc k) zero hk hj =
    ground (arith, pow-suc 2 w, pow-suc 2 k, pow_pos w, pow_pos k, pow_lt k w)
bit-complement (suc w) (suc k) (suc j) hk hj =
    let e : (2 ^ suc w - 1 - 2 ^ suc k) / 2 ≡ 2 ^ w - 1 - 2 ^ k =
      omega (arith, pow-suc 2 w, pow-suc 2 k, pow_pos w, pow_pos k, pow_lt k w) in
    rw e (ground (arith, bit-complement w k j))

-- The mask of one digit: `w & (1 << k)`.
bit_and-pow : (w k : ℕ) → bit_and w (2 ^ k) ≡ bit w k * 2 ^ k
bit_and-pow w zero = omega (arith, bit_and_step w 1, bit_and_zero (w / 2))
bit_and-pow w (suc k) =
    let half : 2 ^ suc k / 2 ≡ 2 ^ k = omega (arith, pow-suc 2 k) in
    let even : 2 ^ suc k % 2 ≡ 0 = omega (arith, pow-suc 2 k) in
    omega (
      arith,
      bit_and_step w (2 ^ suc k),
      ap (λ t. bit_and (w / 2) t) half,
      even,
      ap (λ t. bit (w / 2) k * t) (pow-suc 2 k),
      bit_and-pow (w / 2) k,
    )

-- `(w & (1 << k)) != 0`.
abbrev pub test : ℕ → ℕ → Bool
test w k = not (bit_and w (2 ^ k) == 0)

pub test-bit : (w k : ℕ) → test w k ≡ (bit w k == 1)
test-bit w k = ground (arith, bit_and-pow w k, bit-le w k, pow_pos k, mul_cases (bit w k) (2 ^ k))

-- `w | (1 << k)` sets digit `k` and no other.
pub test-set : (w k j : ℕ) → test (bit_or w (2 ^ k)) j ≡ (if k == j then true else test w j)
test-set w k j =
    rw (test-bit (bit_or w (2 ^ k)) j, test-bit w j, bit-bit_or, bit-pow)
      (ground (arith, bit-le w j))

-- `w & ~(1 << k)` clears digit `k` and no other, in a word of `n` digits.
pub test-clear :
    (n w k j : ℕ)
    → k < n
    → j < n
    → test (bit_and w (2 ^ n - 1 - 2 ^ k)) j ≡ (if k == j then false else test w j)
test-clear n w k j hk hj =
    rw
      (
        test-bit (bit_and w (2 ^ n - 1 - 2 ^ k)) j,
        test-bit w j,
        bit-bit_and,
        bit-complement n k j hk hj,
      )
      (ground (arith, bit-le w j))
