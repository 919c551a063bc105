-- ===== src/Paging/Words.antt =====
-- Addresses of pages and flags in one word.
use Prim.Native.Nat.{max}
use myos_gui_desktop.Base.{
  ℕ, zero, suc, ◌*◌, ◌/◌, ◌%◌, ◌^◌, ◌<◌, ◌≡◌, bit_and, bit_or, refl, sym, ap, ap₂, ◌∙◌, arith,
}
use native.Mathlib.Nat.{pow-suc, div-div-eq-div-mul, div-one}
use myos_gui_desktop.Base.Bits.{bit_or_step, bit_or_zero}
use myos_gui_desktop.Base.Masks.{bit_and_high, bit_and_low, round_down}
use myos_gui_desktop.Paging.{table_entry, page_mask, page_user, directory_index, table_index}

-- `(x | y) >> k`.
bit_or-shift : (k x y : ℕ) → bit_or x y / 2 ^ k ≡ bit_or (x / 2 ^ k) (y / 2 ^ k)
bit_or-shift zero x y = div-one (bit_or x y) ∙ sym (ap₂ bit_or (div-one x) (div-one y))
bit_or-shift (suc k) x y =
    let half : bit_or x y / 2 ≡ bit_or (x / 2) (y / 2) = omega (arith, bit_or_step x y) in
    let quot : (z : ℕ) → z / 2 ^ suc k ≡ z / 2 / 2 ^ k =
      λ z. ap (λ t. z / t) (omega (arith, pow-suc 2 k)) ∙ sym (div-div-eq-div-mul z 2 (2 ^ k)) in
    quot (bit_or x y)
    ∙ ap (λ t. t / 2 ^ k) half
    ∙ bit_or-shift k (x / 2) (y / 2)
    ∙ sym (ap₂ bit_or (quot x) (quot y))

-- Flags leave the page of an entry.
pub bit_or-page : (e f : ℕ) → f < 4096 → bit_or e f / 4096 ≡ e / 4096
bit_or-page e f l =
    let none : f / 4096 ≡ 0 = omega arith in
    bit_or-shift 12 e f ∙ ap (bit_or (e / 4096)) none ∙ bit_or_zero (e / 4096)

-- The mark of an entry that is present.
pub bit_and-present : (e : ℕ) → bit_and e 1 ≡ e % 2
bit_and-present e = bit_and_low 1 e

pub bit_or-present : (e f : ℕ) → bit_or e f % 2 ≡ max (e % 2) (f % 2)
bit_or-present e f = omega (arith, bit_or_step e f)

pub bit_or-lt : (e f : ℕ) → e < 2 ^ 32 → f < 4096 → bit_or e f < 2 ^ 32
bit_or-lt e f l h = omega (arith, bit_or-page e f h)

-- What a mask of at most three flags leaves.
pub bit_and-flags : (f : ℕ) → bit_and f page_user < 8
bit_and-flags f = omega (arith, bit_and_high 2 1 f, bit_and_low 1 (f / 4))

-- `(page | 1) | flags` for a page and its flags, read back.
pub bit_and-mask : (e : ℕ) → e < 2 ^ 32 → bit_and e page_mask ≡ e / 4096 * 4096
bit_and-mask e l = round_down e l

pub table_index-eq : (v : ℕ) → table_index v ≡ v / 4096 % 1024
unfolding table_index
table_index-eq v = bit_and_low 10 (v / 4096)

pub directory_index-eq : (v : ℕ) → directory_index v ≡ v / 2 ^ 22
unfolding directory_index
directory_index-eq v = refl

-- The entry of a table in a directory.
pub table_entry-parts :
    (table flags : ℕ)
    → table < 2 ^ 32
    → (table_entry table flags / 4096 ≡ table / 4096)
      × (table_entry table flags % 2 ≡ 1)
      × (table_entry table flags < 2 ^ 32)
unfolding table_entry
table_entry-parts table flags l =
    let a = bit_or table 1 in
    let b = bit_or a 2 in
    let small = bit_and-flags flags in
    (
      bit_or-page b (bit_and flags 4) (omega (arith, small))
          ∙ bit_or-page a 2 (omega arith)
          ∙ bit_or-page table 1 (omega arith),
      omega (arith, bit_or-present b (bit_and flags 4), bit_or-present a 2, bit_or-present table 1),
      bit_or-lt b (bit_and flags 4)
          (bit_or-lt a 2 (bit_or-lt table 1 l (omega arith)) (omega arith)) (omega (arith, small)),
    )
