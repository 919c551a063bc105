-- ===== src/Volume/Alloc.antt =====
-- The search of `alloc_contiguous`, and what it takes.
use native.Mathlib.Decide.{dec_le}
use myos_gui_desktop.Base.{
  ℕ, zero, suc, ◌+◌, ◌-◌, ◌*◌, ◌≤◌, ◌<◌, ◌≡◌, refl, ◌⊎◌, inl, inr, true, false, Option, none, some,
  arith,
}
use myos_gui_desktop.Base.Tests.{◌==◌, if◌then◌else◌, Bool-cases}
use myos_gui_desktop.Base.Lists.{length}
use myos_gui_desktop.Base.Bitmap.{Words}
use myos_gui_desktop.Base.Runs.{within, set_bits, length-set_bits, test_bit-set_bits}
use myos_gui_desktop.Volume.{Space, bitmap_get, find_run, alloc_contiguous}

-- Some sector of the run of `sectors` sectors from `t` on is taken.
abbrev pub Blocked : Words → (sectors t : ℕ) → Type 0
Blocked words sectors t = (j : ℕ) × (t ≤ j) × (j < t + sectors) × (bitmap_get words j ≡ true)

-- The run from `s` on is free, and no run from `from` on comes before it.
pub record FirstRun (words : Words) (sectors from limit s : ℕ) : Type 0 where
  pub low : from ≤ s
  pub high : s + sectors ≤ limit
  pub clear : (j : ℕ) → s ≤ j → j < s + sectors → bitmap_get words j ≡ false
  pub first : (t : ℕ) → from ≤ t → t < s → Blocked words sectors t

abbrev pub Searched : Words → (sectors from limit : ℕ) → Option ℕ → Type 0
Searched words sectors from limit r = elim r [
  | some s ↦ FirstRun words sectors from limit s
  | none ↦ (t : ℕ) → from ≤ t → t + sectors ≤ limit → Blocked words sectors t
]

-- The state of the search: the current run starts at `base`, and every start before it is blocked.
record Searching (words : Words) (sectors from sector run_start run_len base : ℕ) : Type 0 where
  here : base + run_len ≡ sector
  start : (run_len ≡ 0) ⊎ (run_start ≡ base)
  short : run_len < sectors
  low : from ≤ base
  clear : (j : ℕ) → base ≤ j → j < sector → bitmap_get words j ≡ false
  before : (t : ℕ) → from ≤ t → t < base → Blocked words sectors t

module _ {words : Words} {sectors from : ℕ} where
  -- A free sector makes the run longer.
  Searching-longer :
      {sector run_start run_len base : ℕ}
      → Searching words sectors from sector run_start run_len base
      → bitmap_get words sector ≡ false
      → run_len + 1 < sectors
      → Searching words sectors from
          (sector + 1)
          (if run_len == 0 then sector else run_start)
          (run_len + 1)
          base
  Searching-longer s free l = record {
    here = omega (arith, s.here);
    start = ground (arith, s.here, s.start);
    short = l;
    low = s.low;
    clear = λ j a b. ground (arith, s.clear j, free);
    before = s.before;
  }

  -- A taken one starts a new run behind it.
  Searching-again :
      {sector run_start run_len base : ℕ}
      → Searching words sectors from sector run_start run_len base
      → bitmap_get words sector ≡ true
      → Searching words sectors from (sector + 1) run_start 0 (sector + 1)
  Searching-again {sector} {base = base} s taken = record {
    here = omega arith;
    start = inl refl;
    short = omega (arith, s.short);
    low = omega (arith, s.low, s.here);
    clear = λ j a b. absurd (omega arith);
    before = λ t a b. elim (dec_le base t) [
      | yes inside ↦ (sector, omega arith, omega (arith, s.here, s.short), taken)
      | no below ↦ s.before t a (omega arith)
    ];
  }

  find_run-Searched :
      (n limit : ℕ) {sector run_start run_len base : ℕ}
      → sector + n ≡ limit
      → Searching words sectors from sector run_start run_len base
      → Searched words sectors from limit (find_run n sectors words sector run_start run_len)
  unfolding find_run
  find_run-Searched zero limit e s = λ t a b. s.before t a (omega (arith, s.here, s.short))
  find_run-Searched (suc n) limit {sector} {run_start} {run_len} {base} e s =
      elim (Bool-cases (bitmap_get words sector)) [
        | inl taken ↦ rw taken (find_run-Searched n limit (omega arith) (Searching-again s taken))
        | inr free ↦ elim (Bool-cases (run_len + 1 == sectors)) [
          | inl long ↦
              let starts : (if run_len == 0 then sector else run_start) ≡ base =
                ground (arith, s.start, s.here) in
              rw (free, long, starts)
                (record {
                  low = s.low;
                  high = ground (arith, s.here, long);
                  clear = λ j a b. ground (arith, s.clear j, s.here, long, free);
                  first = s.before;
                })
          | inr short ↦
              rw (free, short)
                (find_run-Searched n limit (omega arith)
                  (Searching-longer s free (ground (arith, s.short, short))))
        ]
      ]

-- What a request for `sectors` sectors gives: the first free run of the data area, which is taken
-- then, or nothing, where every run has a taken sector.
pub data Allocated (sectors : ℕ) (s : Space) : Option ℕ × Space → Type 0 where
  found :
      (first : ℕ)
      → FirstRun s.bitmap sectors s.superblock.data_start s.superblock.total first
      → (t : Space)
      → (t.superblock ≡ s.superblock) × (t.inodes ≡ s.inodes) × (length t.bitmap ≡ length s.bitmap)
      → ((j : ℕ)
          → bitmap_get t.bitmap j
            ≡ (if within first sectors j then true else bitmap_get s.bitmap j))
      → Allocated sectors s (some first, t)
  full :
      ((t : ℕ)
        → s.superblock.data_start ≤ t
        → t + sectors ≤ s.superblock.total
        → Blocked s.bitmap sectors t)
      → Allocated sectors s (none, s)

-- With a bitmap that covers the volume, alloc_contiguous takes the first run of free sectors of the
-- data area that is long enough, sets its bits and no other, and fails, changing nothing, exactly
-- where every run of that length has a taken sector.
pub alloc_contiguous-Allocated :
    (sectors : ℕ) (s : Space)
    → 0 < sectors
    → s.superblock.total ≤ length s.bitmap * 8
    → Allocated sectors s (alloc_contiguous sectors s)
unfolding alloc_contiguous bitmap_get
alloc_contiguous-Allocated sectors s pos covers =
    go (find_run (s.superblock.total - start) sectors s.bitmap start start 0) searched
  where
    start : ℕ
    start = s.superblock.data_start

    begin : Searching s.bitmap sectors start start start 0 start
    begin = record {
      here = omega arith;
      start = inl refl;
      short = pos;
      low = omega arith;
      clear = λ j a b. absurd (omega arith);
      before = λ t a b. absurd (omega arith);
    }

    searched :
        Searched s.bitmap sectors start
          (start + (s.superblock.total - start))
          (find_run (s.superblock.total - start) sectors s.bitmap start start 0)
    searched = find_run-Searched (s.superblock.total - start) _ refl begin

    go :
        (r : Option ℕ)
        → Searched s.bitmap sectors start (start + (s.superblock.total - start)) r
        → Allocated sectors s (elim r as (λ x. Option ℕ × Space) [
          | some first ↦ (some first, record s { bitmap = set_bits 8 sectors first s.bitmap })
          | none ↦ (none, s)
        ])
    go (some first) h =
        found first
          (record {
            low = h.low;
            high = omega (arith, h.high, h.low);
            clear = h.clear;
            first = h.first;
          })
          _ (refl, refl, length-set_bits 8 sectors first s.bitmap)
          (λ j.
            test_bit-set_bits 8 (omega arith) sectors first j s.bitmap
              (omega (arith, h.high, h.low)))
    go none h = full (λ t a b. h t a (omega arith))
