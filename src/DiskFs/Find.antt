-- ===== src/DiskFs/Find.antt =====
-- The search of the cache for a sector.
use myos_gui_desktop.Base.{
  ℕ, zero, suc, ◌+◌, ◌≤◌, ◌<◌, ◌≡◌, inl, inr, true, false, ◌&&◌, Option, none, some, List, arith,
}
use myos_gui_desktop.Base.Tests.{◌==◌, Bool-cases}
use myos_gui_desktop.Base.Lists.{get_or}
use myos_gui_desktop.DiskFs.{CacheEntry, no_entry, find_slot}

abbrev pub Holds : List CacheEntry → (j s : ℕ) → Type 0
Holds cache j s = ((get_or cache j no_entry).valid ≡ true) × ((get_or cache j no_entry).sector ≡ s)

-- What the search for a sector finds.
abbrev pub Found : (n i : ℕ) → List CacheEntry → ℕ → Option ℕ → Type 0
Found n i cache s r = elim r [
  | some j ↦ (i ≤ j) × (j < i + n) × Holds cache j s
  | none ↦ (j : ℕ) → i ≤ j → j < i + n → ¬ Holds cache j s
]

wider-Found :
    (n i : ℕ) (cache : List CacheEntry) (s : ℕ) (r : Option ℕ)
    → ((get_or cache i no_entry).valid && ((get_or cache i no_entry).sector == s)) ≡ false
    → Found n (i + 1) cache s r
    → Found (suc n) i cache s r
wider-Found n i cache s (some j) away (a, b, h) = (omega arith, omega arith, h)
wider-Found n i cache s none away h = λ j a b holds. elim (Bool-cases (j == i)) [
  | inl here ↦ ground (arith, away, holds, here)
  | inr there ↦ h j (ground (arith, there)) (omega arith) holds
]

pub find_slot-Found :
    (n i : ℕ) (cache : List CacheEntry) (s : ℕ) → Found n i cache s (find_slot n i cache s)
unfolding find_slot
find_slot-Found zero i cache s = λ j a b. absurd (omega arith)
find_slot-Found (suc n) i cache s =
    elim (Bool-cases ((get_or cache i no_entry).valid && ((get_or cache i no_entry).sector == s))) [
      | inl here ↦ rw here (omega arith, omega arith, (ground (arith, here), ground (arith, here)))
      | inr away ↦ rw away (
          wider-Found n i cache s (find_slot n (i + 1) cache s) away
            (find_slot-Found n (i + 1) cache s))
    ]
