-- ===== src/Fsck/Loops.antt =====
-- The loops of the check over one extent and over the bitmap.
use mathlib.Core.Bool.{beq}
use myos_gui_desktop.Base.{
  ℕ, zero, suc, ◌+◌, ◌*◌, ◌%◌, ◌^◌, ◌≤◌, ◌<◌, ◌≡◌, refl, ap, ◌∙◌, inl, inr, Bool, true, false, not,
  ◌||◌, arith,
}
use myos_gui_desktop.Base.Tests.{◌==◌, if◌then◌else◌, Bool-cases, ==_iff}
use myos_gui_desktop.Base.Lists.{length}
use myos_gui_desktop.Base.Bitmap.{Words, test_bit, set_bit, test_bit-set_bit, length-set_bit}
use myos_gui_desktop.Base.Runs.{within}
use myos_gui_desktop.Volume.{bitmap_get}
use myos_gui_desktop.Fsck.{Check, see_extent, compare_from, complain, overlapping}

-- One round.
see_one : ℕ → Check → Check
see_one sector c =
    let noted = if test_bit 8 c.seen sector then complain overlapping c else c in
    record noted { seen = set_bit 8 noted.seen sector }

see_one-seen : (sector : ℕ) (c : Check) → (see_one sector c).seen ≡ set_bit 8 c.seen sector
unfolding see_one
see_one-seen sector c = elim (Bool-cases (test_bit 8 c.seen sector)) [
  | inl hit ↦ rw hit refl
  | inr miss ↦ rw miss refl
]

see_one-errors :
    (sector : ℕ) (c : Check)
    → (see_one sector c).errors ≡ (if test_bit 8 c.seen sector then c.errors + 1 else c.errors)
unfolding see_one
see_one-errors sector c = elim (Bool-cases (test_bit 8 c.seen sector)) [
  | inl hit ↦ rw hit refl
  | inr miss ↦ rw miss refl
]

-- What the loop over an extent leaves.
pub record SeenExtent (n sector : ℕ) (c d : Check) : Type 0 where
  pub words : length d.seen ≡ length c.seen
  pub seen : (j : ℕ) → test_bit 8 d.seen j ≡ (within sector n j || test_bit 8 c.seen j)
  pub more : c.errors ≤ d.errors
  pub apart : d.errors ≡ c.errors → (j : ℕ) → within sector n j ≡ true → test_bit 8 c.seen j ≡ false
  pub silent :
      ((j : ℕ) → within sector n j ≡ true → test_bit 8 c.seen j ≡ false) → d.errors ≡ c.errors

-- The count of errors never falls.
pub see_extent-errors_grow : (n sector : ℕ) (c : Check) → c.errors ≤ (see_extent n sector c).errors
unfolding see_extent see_one
see_extent-errors_grow zero sector c = omega arith
see_extent-errors_grow (suc n) sector c = ground (
  arith,
  see_extent-errors_grow n ((sector + 1) % 2 ^ 32) (see_one sector c),
  see_one-errors sector c,
)

see_one-SeenExtent :
    (n sector : ℕ) (c d : Check)
    → sector < length c.seen * 8
    → SeenExtent n (sector + 1) (see_one sector c) d
    → SeenExtent (suc n) sector c d
see_one-SeenExtent n sector c d l rest =
    let size = ap length (see_one-seen sector c) ∙ length-set_bit 8 c.seen sector in
    let bit : (j : ℕ)
        → test_bit 8 (see_one sector c).seen j
          ≡ (if sector == j then true else test_bit 8 c.seen j) =
      λ j.
        ap (λ u. test_bit 8 u j) (see_one-seen sector c)
        ∙ test_bit-set_bit 8 (omega arith) c.seen sector j l in
    let errors = see_one-errors sector c in
    record {
      words = rest.words ∙ size;
      seen = λ j. rest.seen j ∙ ground (arith, bit j);
      more = ground (arith, rest.more, errors);
      apart = λ e j h. elim (Bool-cases (test_bit 8 c.seen sector)) [
        | inl hit ↦ absurd (ground (arith, rest.more, errors, hit, e))
        | inr miss ↦
            let same : d.errors ≡ (see_one sector c).errors = ground (arith, errors, miss, e) in
            elim (Bool-cases (sector == j)) [
              | inl first ↦ ground (arith, miss, first)
              | inr later ↦
                  ground (arith, rest.apart same j (ground (arith, h, later)), bit j, later)
            ]
      ];
      silent = λ h.
          let miss : test_bit 8 c.seen sector ≡ false = h sector (ground arith) in
          let same : (see_one sector c).errors ≡ c.errors = ground (arith, errors, miss) in
          rest.silent (λ j b. bit j ∙ ground (arith, b, h j)) ∙ same;
    }

pub see_extent-SeenExtent :
    (n sector : ℕ) (c : Check)
    → sector + n ≤ length c.seen * 8
    → sector + n < 2 ^ 32
    → SeenExtent n sector c (see_extent n sector c)
unfolding see_extent see_one
see_extent-SeenExtent zero sector c l w = record {
  words = refl;
  seen = λ j. ground arith;
  more = omega arith;
  apart = λ e j h. ground (arith, h);
  silent = λ h. refl;
}
see_extent-SeenExtent (suc n) sector c l w =
    let step : (sector + 1) % 2 ^ 32 ≡ sector + 1 = omega arith in
    let size = ap length (see_one-seen sector c) ∙ length-set_bit 8 c.seen sector in
    rw step (
      see_one-SeenExtent n sector c _ (omega arith) (
        see_extent-SeenExtent n (sector + 1) (see_one sector c) (omega (arith, size))
          (omega arith)))

beq-eq : (x y : Bool) → not (beq x y) ≡ false → x ≡ y
beq-eq true true h = refl
beq-eq true false h = ground (arith, h)
beq-eq false true h = ground (arith, h)
beq-eq false false h = refl

beq_ne : (x y : Bool) → not (beq x y) ≡ true → ¬ (x ≡ y)
beq_ne true true h = ground (arith, h)
beq_ne true false h = λ e. ground (arith, e)
beq_ne false true h = λ e. ground (arith, e)
beq_ne false false h = ground (arith, h)

-- Where the two agree from `sector` on.
abbrev pub Matches : (n sector : ℕ) → Words → Check → Type 0
Matches n sector words c =
    (j : ℕ) → sector ≤ j → j < sector + n → bitmap_get words j ≡ test_bit 8 c.seen j

-- The comparison complains exactly if there is a difference.
pub compare_from-errors :
    (n sector : ℕ) (words : Words) (c : Check)
    → ((compare_from n sector words c).errors ≡ c.errors → Matches n sector words c)
      × (Matches n sector words c → (compare_from n sector words c).errors ≡ c.errors)
      × (c.errors ≤ (compare_from n sector words c).errors)
unfolding compare_from
compare_from-errors zero sector words c = (λ e j a b. absurd (omega arith), λ h. refl, omega arith)
compare_from-errors (suc n) sector words c =
    elim (Bool-cases (not (beq (bitmap_get words sector) (test_bit 8 c.seen sector)))) [
      | inl differ ↦ rw differ (
        λ e. absurd (omega (arith, e)),
        λ h. absurd (beq_ne _ _ differ (h sector (omega arith) (omega arith))),
        omega arith,
      )
      | inr same ↦
          let (sound, complete, more) = compare_from-errors n (sector + 1) words c in
          rw same (
            λ e j a b. elim (Bool-cases (sector == j)) [
              | inl first ↦ (rw ((==_iff sector j).0 first) at (beq-eq _ _ same))
              | inr later ↦ sound e j (ground (arith, later)) (omega arith)
            ],
            λ h. complete (λ j a b. h j (omega arith) (omega arith)),
            more,
          )
    ]
