-- ===== src/Base/Masks.antt =====
-- Masks of low and of high digits, as remainders and multiples.
use Prim.Native.Nat.{ℕ, zero, suc, ◌+◌, ◌-◌, ◌*◌, ◌/◌, ◌%◌, ◌^◌, ◌<◌, bit_and, bit_or}
use mathlib.Core.Path.{◌≡◌, ap, ◌∙◌}
use native.Mathlib.Omega.{arith}
use native.Mathlib.Nat.{
  pow-suc, mul-add-mod_self_left, mod-eq_of_lt, div-add-mod, mod-lt, div-div-eq-div-mul, mod-one,
  div-one,
}
use myos_gui_desktop.Base.Bits.{pow_pos, bit_and_step, bit_and_zero, bit_or_step, bit_or_zero}

-- `x % 2ⁿ⁺¹` from the lowest digit and the rest.
mod-pow_suc : (n x : ℕ) → x % 2 ^ suc n ≡ x / 2 % 2 ^ n * 2 + x % 2
mod-pow_suc n x =
    let p : ℕ = 2 ^ n in
    let q : ℕ = x / 2 / p in
    let r : ℕ = x / 2 % p in
    let small : r < p = mod-lt (x / 2) (pow_pos n) in
    let parts : x ≡ p * 2 * q + (r * 2 + x % 2) = omega (arith, div-add-mod (x / 2) p) in
    let low : r * 2 + x % 2 < p * 2 = omega (arith, small) in
    ap (λ m. x % m) (pow-suc 2 n)
    ∙ ap (λ t. t % (p * 2)) parts
    ∙ mul-add-mod_self_left (p * 2) q (r * 2 + x % 2)
    ∙ mod-eq_of_lt low

-- `x & (2ⁿ - 1)`.
pub bit_and_low : (n x : ℕ) → bit_and x (2 ^ n - 1) ≡ x % 2 ^ n
bit_and_low zero x = bit_and_zero x ∙ omega (arith, mod-one x)
bit_and_low (suc n) x =
    let half : (2 ^ suc n - 1) / 2 ≡ 2 ^ n - 1 = omega (arith, pow-suc 2 n, pow_pos n) in
    let odd : (2 ^ suc n - 1) % 2 ≡ 1 = omega (arith, pow-suc 2 n, pow_pos n) in
    omega (
      arith,
      bit_and_step x (2 ^ suc n - 1),
      ap (λ t. bit_and (x / 2) t) half,
      odd,
      bit_and_low n (x / 2),
      mod-pow_suc n x,
    )

-- `x & (m << k)`.
pub bit_and_high : (k m x : ℕ) → bit_and x (m * 2 ^ k) ≡ bit_and (x / 2 ^ k) m * 2 ^ k
bit_and_high zero m x =
    let one : m * 2 ^ 0 ≡ m = omega arith in
    omega (arith, ap (λ t. bit_and x t) one, ap (λ t. bit_and t m) (div-one x))
bit_and_high (suc k) m x =
    let half : m * 2 ^ suc k / 2 ≡ m * 2 ^ k = omega (arith, ap (λ t. m * t) (pow-suc 2 k)) in
    let even : m * 2 ^ suc k % 2 ≡ 0 = omega (arith, ap (λ t. m * t) (pow-suc 2 k)) in
    let quot : x / 2 / 2 ^ k ≡ x / 2 ^ suc k =
      div-div-eq-div-mul x 2 (2 ^ k) ∙ ap (λ t. x / t) (omega (arith, pow-suc 2 k)) in
    omega (
      arith,
      bit_and_step x (m * 2 ^ suc k),
      ap (λ t. bit_and (x / 2) t) half,
      even,
      bit_and_high k m (x / 2),
      ap (λ t. bit_and t m * 2 ^ k) quot,
      ap (λ t. bit_and (x / 2 ^ suc k) m * t) (pow-suc 2 k),
    )

-- `x & ~(page - 1)` on a 32-bit word rounds down to a page of 4096 bytes.
pub round_down : (x : ℕ) → x < 2 ^ 32 → bit_and x (2 ^ 32 - 4096) ≡ x / 4096 * 4096
round_down x h =
    bit_and_high 12 (2 ^ 20 - 1) x
    ∙ ap (λ t. t * 4096) (bit_and_low 20 (x / 4096))
    ∙ ap (λ t. t * 4096) (mod-eq_of_lt (omega arith))

-- `x & (page - 1)` is the offset in the page.
pub page_offset : (x : ℕ) → bit_and x 4095 ≡ x % 4096
page_offset x = bit_and_low 12 x

-- `(m << k) | x` joins digits that do not meet.
pub bit_or_low : (k m x : ℕ) → x < 2 ^ k → bit_or (m * 2 ^ k) x ≡ m * 2 ^ k + x
bit_or_low zero m x h =
    let none_left : x ≡ 0 = omega arith in
    let one : m * 2 ^ 0 ≡ m = omega arith in
    omega (arith, ap (λ t. bit_or (m * 2 ^ 0) t) none_left, ap (λ t. bit_or t 0) one, bit_or_zero m)
bit_or_low (suc k) m x h =
    let double : m * 2 ^ suc k ≡ m * 2 ^ k * 2 = omega (arith, ap (λ t. m * t) (pow-suc 2 k)) in
    let half : m * 2 ^ suc k / 2 ≡ m * 2 ^ k = omega (arith, double) in
    omega (
      arith,
      double,
      bit_or_step (m * 2 ^ suc k) x,
      ap (λ t. bit_or t (x / 2)) half,
      bit_or_low k m (x / 2) (omega (arith, pow-suc 2 k)),
    )
