-- ===== src/Base/Runs.antt =====
-- Runs of bits in a bitmap, and how many bits of it are clear.
use Prim.Native.Nat.{ℕ, zero, suc, ◌+◌, ◌*◌, ◌≤◌, ◌<◌}
use mathlib.Core.Path.{◌≡◌, refl, ap}
use mathlib.Core.Logic.{inl, inr}
use mathlib.Core.Bool.{Bool, true, false, ◌&&◌}
use native.Mathlib.Omega.{arith}
use myos_gui_desktop.Base.Tests.{◌==◌, ltb, leb, if◌then◌else◌, Bool-cases, ==_iff}
use myos_gui_desktop.Base.Lists.{length}
use myos_gui_desktop.Base.Bitmap.{
  Words, test_bit, set_bit, clear_bit, length-set_bit, length-clear_bit, test_bit-set_bit,
  test_bit-clear_bit,
}

-- `i ≤ j < i + n`.
abbrev pub within : ℕ → ℕ → ℕ → Bool
within i n j = leb i j && ltb j (i + n)

module _ (w : ℕ) where
  -- `for (k = 0; k < n; k++) bitmap_set(i + k);`
  unfoldable pub set_bits : ℕ → ℕ → Words → Words
  set_bits zero i words = words
  set_bits (suc n) i words = set_bits n (i + 1) (set_bit w words i)

  unfoldable pub clear_bits : ℕ → ℕ → Words → Words
  clear_bits zero i words = words
  clear_bits (suc n) i words = clear_bits n (i + 1) (clear_bit w words i)

  pub length-set_bits : (n i : ℕ) (words : Words) → length (set_bits n i words) ≡ length words
  unfolding set_bits
  length-set_bits zero i words = refl
  length-set_bits (suc n) i words =
      omega (arith, length-set_bits n (i + 1) (set_bit w words i), length-set_bit w words i)

  pub length-clear_bits : (n i : ℕ) (words : Words) → length (clear_bits n i words) ≡ length words
  unfolding clear_bits
  length-clear_bits zero i words = refl
  length-clear_bits (suc n) i words =
      omega (arith, length-clear_bits n (i + 1) (clear_bit w words i), length-clear_bit w words i)

module _ (w : ℕ) (pos : 0 < w) where
  pub test_bit-set_bits :
      (n i j : ℕ) (words : Words)
      → i + n ≤ length words * w
      → test_bit w (set_bits w n i words) j ≡ (if within i n j then true else test_bit w words j)
  unfolding set_bits
  test_bit-set_bits zero i j words h = ground arith
  test_bit-set_bits (suc n) i j words h =
      let inside : i < length words * w = omega arith in
      let rest : i + 1 + n ≤ length (set_bit w words i) * w =
        omega (arith, ap (λ t. t * w) (length-set_bit w words i)) in
      ground (
        arith,
        test_bit-set_bits n (i + 1) j (set_bit w words i) rest,
        test_bit-set_bit w pos words i j inside,
      )

  pub test_bit-clear_bits :
      (n i j : ℕ) (words : Words)
      → i + n ≤ length words * w
      → test_bit w (clear_bits w n i words) j ≡ (if within i n j then false else test_bit w words j)
  unfolding clear_bits
  test_bit-clear_bits zero i j words h = ground arith
  test_bit-clear_bits (suc n) i j words h =
      let inside : i < length words * w = omega arith in
      let rest : i + 1 + n ≤ length (clear_bit w words i) * w =
        omega (arith, ap (λ t. t * w) (length-clear_bit w words i)) in
      ground (
        arith,
        test_bit-clear_bits n (i + 1) j (clear_bit w words i) rest,
        test_bit-clear_bit w pos words i j inside,
      )

-- How many of `f 0 … f (n - 1)` are `false`.
unfoldable pub clear_count : (ℕ → Bool) → ℕ → ℕ
clear_count f zero = 0
clear_count f (suc n) = clear_count f n + (if f n then 0 else 1)

pub clear_count-le : (f : ℕ → Bool) (n : ℕ) → clear_count f n ≤ n
unfolding clear_count
clear_count-le f zero = omega arith
clear_count-le f (suc n) = ground (arith, clear_count-le f n)

pub clear_count_same :
    (f g : ℕ → Bool) (n : ℕ) → ((j : ℕ) → j < n → f j ≡ g j) → clear_count f n ≡ clear_count g n
unfolding clear_count
clear_count_same f g zero h = refl
clear_count_same f g (suc n) h =
    ground (arith, clear_count_same f g n (λ j l. h j (omega arith)), h n (omega arith))

-- One clear bit that is set is one clear bit less.
pub clear_count_set :
    (f g : ℕ → Bool) (i n : ℕ)
    → ((j : ℕ) → g j ≡ (if i == j then true else f j))
    → f i ≡ false
    → i < n
    → clear_count f n ≡ clear_count g n + 1
unfolding clear_count
clear_count_set f g i zero h e l = absurd (omega arith)
clear_count_set f g i (suc n) h e l = elim (Bool-cases (i == n)) [
  | inl last ↦
      let same : clear_count f n ≡ clear_count g n =
        clear_count_same f g n (λ j b. ground (arith, h j)) in
      ground (arith, h n)
  | inr other ↦ ground (arith, clear_count_set f g i n h e, h n)
]

-- A run of `k` clear bits that are set.
pub clear_count_run :
    (f g : ℕ → Bool) (i k n : ℕ)
    → ((j : ℕ) → g j ≡ (if within i k j then true else f j))
    → ((j : ℕ) → j < k → f (i + j) ≡ false)
    → i + k ≤ n
    → clear_count f n ≡ clear_count g n + k
unfolding clear_count
clear_count_run f g i zero n h clear l =
    omega (arith, clear_count_same f g n (λ j b. ground (arith, h j)))
clear_count_run f g i (suc k) n h clear l =
    let mid : ℕ → Bool = λ j. if within i k j then true else f j in
    let front : clear_count f n ≡ clear_count mid n + k =
      clear_count_run f mid i k n (λ j. refl) (λ j b. clear j (omega arith)) (omega arith) in
    let last : clear_count mid n ≡ clear_count g n + 1 =
      clear_count_set mid g (i + k) n (λ j. ground (arith, h j))
        (ground (arith, clear k (omega arith))) (omega arith) in
    omega arith

pub clear_count_zero : (f : ℕ → Bool) (n : ℕ) → ((j : ℕ) → j < n → f j ≡ true) → clear_count f n ≡ 0
unfolding clear_count
clear_count_zero f zero h = refl
clear_count_zero f (suc n) h =
    ground (arith, clear_count_zero f n (λ j l. h j (omega arith)), h n (omega arith))

-- A test of every value below `n`.
unfoldable pub all_under : ℕ → (ℕ → Bool) → Bool
all_under zero f = true
all_under (suc n) f = f n && all_under n f

pub all_under-at : (n : ℕ) (f : ℕ → Bool) (i : ℕ) → i < n → all_under n f ≡ true → f i ≡ true
unfolding all_under
all_under-at zero f i l h = absurd (omega arith)
all_under-at (suc n) f i l h = elim (Bool-cases (i == n)) [
  | inl last ↦ rw ((==_iff i n).0 last) (ground arith)
  | inr other ↦ all_under-at n f i (ground arith) (ground arith)
]
