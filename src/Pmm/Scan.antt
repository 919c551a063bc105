-- ===== src/Pmm/Scan.antt =====
-- The two loops of `pmm_alloc_pages`: what they find, and that their rounds are enough.
use native.Mathlib.Decide.{dec_le}
use myos_gui_desktop.Base.{
  ℕ, zero, suc, ◌+◌, ◌-◌, ◌*◌, ◌≤◌, ◌<◌, ◌≡◌, ◌≢◌, refl, ◌⊎◌, inl, inr, Bool, true, false, not,
  ◌&&◌, arith,
}
use myos_gui_desktop.Base.Tests.{◌==◌, ltb, Bool-cases}
use myos_gui_desktop.Base.Bitmap.{Words}
use myos_gui_desktop.Pmm.{Pmm, page_size, bitmap_test, free_run, take_run, alloc_from}

-- Where the inner loop stops, started at `run`.
pub record Stopped (words : Words) (last count page run r : ℕ) : Type 0 where
  pub from : run ≤ r
  pub upto : r ≤ count
  pub fits : r ≡ run ⊎ page + r ≤ last
  pub clear : (j : ℕ) → run ≤ j → j < r → bitmap_test words (page + j) ≡ false
  pub reason : (r ≡ count) ⊎ (last ≤ page + r) ⊎ (bitmap_test words (page + r) ≡ true)

module _ (words : Words) (last count : ℕ) where
  pub free_run-Stopped :
      (fuel page run : ℕ)
      → run ≤ count
      → count < run + fuel
      → Stopped words last count page run (free_run fuel words last count page run)
  unfolding free_run
  free_run-Stopped zero page run le enough = absurd (omega arith)
  free_run-Stopped (suc fuel) page run le enough = elim (Bool-cases go) [
    | inl more ↦
        let within : run < count = ground arith in
        let h : Stopped words last count page (run + 1)
            (free_run fuel words last count page (run + 1)) =
          free_run-Stopped fuel page (run + 1) (omega arith) (omega arith) in
        rw more record {
          from = omega (arith, h.from);
          upto = h.upto;
          fits = ground (arith, h.fits);
          clear = λ j a b. ground (arith, h.clear j);
          reason = h.reason;
        }
    | inr stop ↦ rw stop record {
      from = omega arith;
      upto = le;
      fits = inl refl;
      clear = λ j a b. absurd (omega arith);
      reason = ground arith;
    }
  ]
    where
      go : Bool
      go = ltb (page + run) last && not (bitmap_test words (page + run)) && ltb run count

-- Some page of the run of `count` pages from `s` on is taken.
abbrev pub Blocked : Words → (count s : ℕ) → Type 0
Blocked words count s = (j : ℕ) × (j < count) × (bitmap_test words (s + j) ≡ true)

-- The run of `count` pages from `s` on is free, and no run from `page` on comes before it.
pub record FirstFit (words : Words) (last count page s : ℕ) : Type 0 where
  pub from : page ≤ s
  pub fits : s + count ≤ last
  pub clear : (j : ℕ) → j < count → bitmap_test words (s + j) ≡ false
  pub first : (t : ℕ) → page ≤ t → t < s → Blocked words count t

-- What the outer loop returns: the first fit, or null where no run fits.
pub data Scanned (last count page : ℕ) (p : Pmm) : ℕ × Pmm → Type 0 where
  found :
      (s : ℕ)
      → FirstFit p.page_bitmap last count page s
      → Scanned last count page p (s * page_size, take_run count s p)
  full :
      ((t : ℕ) → page ≤ t → t + count ≤ last → Blocked p.page_bitmap count t)
      → Scanned last count page p (0, p)

module _ {words : Words} {last count page r : ℕ} (h : Stopped words last count page 0 r) where
  found_here : 0 < count → r ≡ count → FirstFit words last count page page
  found_here pos e = record {
    from = omega arith;
    fits = ground (arith, h.fits);
    clear = λ j b. h.clear j (omega arith) (omega arith);
    first = λ t a b. absurd (omega arith);
  }

  -- A run that is too short blocks every start up to its end.
  short-Blocked :
      r ≢ count → (t : ℕ) → page ≤ t → t ≤ page + r → t + count ≤ last → Blocked words count t
  short-Blocked short t a b c = elim h.reason [
    | inl e ↦ absurd (short e)
    | inr (inl e) ↦ absurd (omega (arith, h.upto))
    | inr (inr e) ↦ (
      page + r - t,
      omega (arith, h.upto),
      let same : t + (page + r - t) ≡ page + r = omega arith in rw same e,
    )
  ]

module _ (last count : ℕ) (pos : 0 < count) (p : Pmm) where
  pub alloc_from-Scanned :
      (fuel page : ℕ)
      → last < page + fuel
      → Scanned last count page p (alloc_from fuel last count page p)
  unfolding alloc_from
  alloc_from-Scanned zero page enough = full (λ t a b. absurd (omega arith))
  alloc_from-Scanned (suc fuel) page enough = elim (Bool-cases (ltb page last)) [
    | inr out ↦ rw out (full (λ t a b. absurd (ground arith)))
    | inl inside ↦ rw inside (elim (Bool-cases (run == count)) [
      | inl hit ↦ rw hit (found page (found_here stopped pos (ground arith)))
      | inr miss ↦
          rw miss (later (ground arith) (alloc_from-Scanned fuel (page + run + 1) (omega arith)))
    ])
  ]
    where
      run : ℕ
      run = free_run (count + 1) p.page_bitmap last count page 0

      stopped : Stopped p.page_bitmap last count page 0 run
      stopped =
          free_run-Stopped p.page_bitmap last count (count + 1) page 0 (omega arith) (omega arith)

      skip :
          run ≢ count
          → (limit : ℕ)
          → ((t : ℕ)
              → page + run + 1 ≤ t
              → t + count ≤ last
              → t < limit
              → Blocked p.page_bitmap count t)
          → (t : ℕ) → page ≤ t
          → t + count ≤ last
          → t < limit
          → Blocked p.page_bitmap count t
      skip short limit rest t a c l = elim (dec_le t (page + run)) [
        | yes b ↦ short-Blocked stopped short t a b c
        | no b ↦ rest t (omega arith) c l
      ]

      later :
          run ≢ count
          → {out : ℕ × Pmm} → Scanned last count (page + run + 1) p out
          → Scanned last count page p out
      later short (found s fit) = found s (record {
        from = omega (arith, fit.from);
        fits = fit.fits;
        clear = fit.clear;
        first = λ t a b. skip short s (λ u x y z. fit.first u x z) t a (omega (arith, fit.fits)) b;
      })
      later short (full none) =
          full (λ t a b. skip short (t + 1) (λ u x y z. none u x y) t a b (omega arith))
