-- ===== src/Program/Copy.antt =====
-- What the loops over `load_image` leave at each index.
use myos_gui_desktop.Base.{
  ℕ, zero, suc, ◌+◌, ◌-◌, ◌%◌, ◌^◌, ◌<◌, ◌≡◌, refl, ap, ◌∙◌, inl, inr, Bool, true, false, ◌&&◌,
  arith,
}
use myos_gui_desktop.Base.Tests.{ltb, leb, ◌==◌, if◌then◌else◌, Bool-cases, ==_iff}
use myos_gui_desktop.Program.{Bytes, store, clear_image, copy_segment, read16, read32}

-- An index of the `n` from `start` on.
abbrev pub among : (start n a : ℕ) → Bool
among start n a = leb start a && ltb a (start + n)

pub clear_image-at :
    (n i : ℕ) (image : ℕ → ℕ) (a : ℕ)
    → clear_image n i image a ≡ (if among i n a then 0 else image a)
unfolding clear_image
clear_image-at zero i image a = let outside : among i 0 a ≡ false = ground arith in rw outside refl
clear_image-at (suc n) i image a =
    clear_image-at n (i + 1) (store i 0 image) a ∙ elim (Bool-cases (a == i)) [
      | inl here ↦
          let first : among i (suc n) a ≡ true = ground (arith, here) in
          let later : among (i + 1) n a ≡ false = ground (arith, here) in
          rw (first, later, here) refl
      | inr away ↦
          let same : among (i + 1) n a ≡ among i (suc n) a = ground (arith, away) in
          rw (same, away) refl
    ]

pub copy_segment-at :
    (m : Bytes) (n j destination source : ℕ) (image : ℕ → ℕ) (a : ℕ)
    → copy_segment m n j destination source image a
      ≡ (if among (destination + j) n a then m ((source + (a - destination)) % 2 ^ 32) else image a)
unfolding copy_segment
copy_segment-at m zero j destination source image a =
    let outside : among (destination + j) 0 a ≡ false = ground arith in rw outside refl
copy_segment-at m (suc n) j destination source image a =
    copy_segment-at m n (j + 1) destination source
      (store (destination + j) (m ((source + j) % 2 ^ 32)) image) a
    ∙ elim (Bool-cases (a == destination + j)) [
      | inl here ↦
          let first : among (destination + j) (suc n) a ≡ true = ground (arith, here) in
          let later : among (destination + (j + 1)) n a ≡ false = ground (arith, here) in
          rw (first, later, here)
            (ap (λ x. m ((source + x) % 2 ^ 32))
              (omega (arith, (==_iff a (destination + j)).0 here)))
      | inr away ↦
          let same : among (destination + (j + 1)) n a ≡ among (destination + j) (suc n) a =
            ground (arith, away) in
          rw (same, away) refl
    ]

pub read32-lt : (m : Bytes) (a : ℕ) → ((b : ℕ) → m b < 256) → read32 m a < 2 ^ 32
unfolding read32 read16
read32-lt m a bytes = omega (
  arith,
  bytes (a % 2 ^ 32),
  bytes ((a + 1) % 2 ^ 32),
  bytes ((a + 2) % 2 ^ 32),
  bytes ((a + 2 + 1) % 2 ^ 32),
)
