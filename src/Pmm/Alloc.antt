-- ===== src/Pmm/Alloc.antt =====
-- `pmm_alloc_pages`: the run that it hands out, when it returns null, and the invariant.
use native.Mathlib.Decide.{ℕ_discrete}
use myos_gui_desktop.Base.{
  ℕ, zero, suc, ◌+◌, ◌-◌, ◌*◌, ◌/◌, ◌%◌, ◌^◌, ◌≤◌, ◌<◌, ◌≡◌, ◌≢◌, refl, ◌⊎◌, inl, inr, true, false,
  ◌||◌, arith,
}
use myos_gui_desktop.Base.Tests.{◌==◌, ltb, if◌then◌else◌, Bool-cases, ltb→lt}
use myos_gui_desktop.Base.Bitmap.{Words}
use myos_gui_desktop.Base.Runs.{
  set_bits, within, clear_count-le, test_bit-set_bits, length-set_bits, clear_count_run,
}
use myos_gui_desktop.Pmm.{Pmm, page_size, max_pages, bitmap_test, take_run, pmm_alloc_pages}
use myos_gui_desktop.Pmm.Valid.{IsValid, InManaged, free_count}
use myos_gui_desktop.Pmm.Scan.{FirstFit, Blocked, Scanned, found, full, alloc_from-Scanned}

abbrev pub first_page : Pmm → ℕ
first_page p = p.managed_start / page_size

abbrev pub last_page : Pmm → ℕ
last_page p = p.managed_end / page_size

-- A free run of `count` pages at `s` below the end of the managed memory.
pub record IsRun (p : Pmm) (count s : ℕ) : Type 0 where
  pub low : first_page p ≤ s
  pub fits : s + count ≤ last_page p
  pub clear : (j : ℕ) → j < count → bitmap_test p.page_bitmap (s + j) ≡ false

module _ {p : Pmm} (v : IsValid p) {count s : ℕ} (r : IsRun p count s) where
  below : s + count ≤ max_pages
  below = omega (arith, r.fits, v.limit)

  pub bits_taken :
      (j : ℕ)
      → bitmap_test (set_bits 32 count s p.page_bitmap) j
        ≡ (if within s count j then true else bitmap_test p.page_bitmap j)
  unfolding bitmap_test
  bits_taken j =
      test_bit-set_bits 32 (omega arith) count s j p.page_bitmap (omega (arith, v.words, below))

  pub free_count-take_run : free_count p ≡ free_count (take_run count s p) + count
  free_count-take_run =
      clear_count_run (bitmap_test p.page_bitmap) (bitmap_test (set_bits 32 count s p.page_bitmap))
        s count max_pages bits_taken r.clear below

  managed_after :
      (i : ℕ)
      → i < max_pages
      → bitmap_test (set_bits 32 count s p.page_bitmap) i ≡ false
      → InManaged p i
  managed_after i l e = v.managed i l (ground (arith, bits_taken i))

  pub take_run-IsValid : IsValid (take_run count s p)
  take_run-IsValid = record {
    words = omega (arith, v.words, length-set_bits 32 count s p.page_bitmap);
    start_pos = v.start_pos;
    start_aligned = v.start_aligned;
    end_aligned = v.end_aligned;
    ordered = v.ordered;
    limit = v.limit;
    used_word = omega arith;
    total_le = v.total_le;
    counted = omega (arith, v.counted, free_count-take_run);
    managed = managed_after;
  }

pub FirstFit-IsRun :
    {p : Pmm} {count s : ℕ}
    → FirstFit p.page_bitmap (last_page p) count (first_page p) s
    → IsRun p count s
FirstFit-IsRun fit = record { low = fit.from; fits = fit.fits; clear = fit.clear }

-- What the caller of `pmm_alloc_pages` gets, by the result.
pub data Allocation (p : Pmm) (count : ℕ) : ℕ × Pmm → Type 0 where
  run :
      (s : ℕ)
      → FirstFit p.page_bitmap (last_page p) count (first_page p) s
      → Allocation p count (s * page_size, take_run count s p)
  null : Allocation p count (0, p)

Scanned-Allocation :
    {p : Pmm} {count : ℕ} {out : ℕ × Pmm}
    → Scanned (last_page p) count (first_page p) p out
    → Allocation p count out
Scanned-Allocation (found s fit) = run s fit
Scanned-Allocation (full none) = null

pub pmm_alloc_pages-Allocation :
    (count : ℕ) (p : Pmm) → Allocation p count (pmm_alloc_pages count p)
unfolding pmm_alloc_pages
pmm_alloc_pages-Allocation count p =
    elim (Bool-cases ((count == 0) || ltb p.total_pages_count count)) [
      | inl refused ↦ rw refused null
      | inr go ↦ rw go (
          Scanned-Allocation (
            alloc_from-Scanned (last_page p) count (ground arith) p (last_page p - first_page p + 1)
              (first_page p) (omega arith)))
    ]

Allocation-IsValid :
    {p : Pmm} {count : ℕ} {out : ℕ × Pmm} → IsValid p → Allocation p count out → IsValid out.1
Allocation-IsValid v (run s fit) = take_run-IsValid v (FirstFit-IsRun fit)
Allocation-IsValid v null = v

-- `pmm_alloc_pages` keeps the invariant, whatever the request.
pub pmm_alloc_pages-IsValid :
    (count : ℕ) {p : Pmm} → IsValid p → IsValid (pmm_alloc_pages count p).1
pmm_alloc_pages-IsValid count {p} v = Allocation-IsValid v (pmm_alloc_pages-Allocation count p)

-- A free run is no longer than the number of free pages.
run-le-free_count : {p : Pmm} {count s : ℕ} → IsValid p → IsRun p count s → count ≤ free_count p
run-le-free_count v r = omega (arith, free_count-take_run v r)

run-cases :
    (words : Words) (n t : ℕ)
    → ((j : ℕ) → j < n → bitmap_test words (t + j) ≡ false) ⊎ Blocked words n t
run-cases words zero t = inl (λ j l. absurd (omega arith))
run-cases words (suc n) t = elim (Bool-cases (bitmap_test words (t + n))) [
  | inl taken ↦ inr (n, omega arith, taken)
  | inr free ↦ extend free (run-cases words n t)
]
  where
    extend :
        bitmap_test words (t + n) ≡ false
        → ((j : ℕ) → j < n → bitmap_test words (t + j) ≡ false) ⊎ Blocked words n t
        → ((j : ℕ) → j < suc n → bitmap_test words (t + j) ≡ false) ⊎ Blocked words (suc n) t
    extend free (inl clear) =
        inl (λ j l. elim (ℕ_discrete j n) [ yes e ↦ rw e free | no ne ↦ clear j (omega arith) ])
    extend free (inr (j, l, taken)) = inr (j, omega arith, taken)

too_long :
    {p : Pmm} {count : ℕ}
    → IsValid p
    → p.used_pages_count ≤ p.total_pages_count
    → p.total_pages_count < count
    → (t : ℕ) → first_page p ≤ t
    → t + count ≤ last_page p
    → Blocked p.page_bitmap count t
too_long {p} {count} v used long t low fits = elim (run-cases p.page_bitmap count t) [
  | inr blocked ↦ blocked
  | inl clear ↦
      let r : IsRun p count t = record { low = low; fits = fits; clear = clear } in
      absurd (
        omega (
          arith,
          run-le-free_count v r,
          v.counted,
          v.total_le,
          clear_count-le (bitmap_test p.page_bitmap) max_pages,
        ))
]

-- With the counters in order, `pmm_alloc_pages` takes the first run of `count` free pages in the
-- managed memory, and returns null and changes nothing exactly where no such run is there: every
-- run has a page that is taken.
pub pmm_alloc_pages-Scanned :
    (count : ℕ) {p : Pmm}
    → IsValid p
    → p.used_pages_count ≤ p.total_pages_count
    → 0 < count
    → Scanned (last_page p) count (first_page p) p (pmm_alloc_pages count p)
unfolding pmm_alloc_pages
pmm_alloc_pages-Scanned count {p} v used pos = elim (Bool-cases (ltb p.total_pages_count count)) [
  | inl long ↦
      let refused : ((count == 0) || ltb p.total_pages_count count) ≡ true = ground (arith, long) in
      rw refused (full (too_long v used (ltb→lt _ _ long)))
  | inr short ↦
      let go : ((count == 0) || ltb p.total_pages_count count) ≡ false = ground (arith, short) in
      rw go (
        alloc_from-Scanned (last_page p) count pos p (last_page p - first_page p + 1) (first_page p)
          (omega arith))
]

-- What a caller holds who got the address `a` for `count` pages, and the state `q` behind it.
pub record Handed (p : Pmm) (count a : ℕ) (q : Pmm) : Type 0 where
  pub aligned : a % page_size ≡ 0
  pub low : p.managed_start ≤ a
  pub high : a + count * page_size ≤ p.managed_end
  pub was_free : (j : ℕ) → j < count → bitmap_test p.page_bitmap (a / page_size + j) ≡ false
  pub taken :
      (i : ℕ)
      → bitmap_test q.page_bitmap i
        ≡ (if within (a / page_size) count i then true else bitmap_test p.page_bitmap i)
  pub fewer : free_count p ≡ free_count q + count
  pub same_start : q.managed_start ≡ p.managed_start
  pub same_end : q.managed_end ≡ p.managed_end
  pub same_total : q.total_pages_count ≡ p.total_pages_count
  pub used : q.used_pages_count ≡ (p.used_pages_count + count) % 2 ^ 32

Allocation-Handed :
    {p : Pmm} {count : ℕ} {out : ℕ × Pmm}
    → IsValid p
    → Allocation p count out
    → out.0 ≢ 0
    → Handed p count out.0 out.1
Allocation-Handed v null nonzero = absurd (nonzero refl)
Allocation-Handed {p} {count} v (run s fit) nonzero =
    let r : IsRun p count s = FirstFit-IsRun fit in
    let page : s * page_size / page_size ≡ s = omega arith in
    record {
      aligned = omega arith;
      low = omega (arith, r.low, v.start_aligned);
      high = omega (arith, r.fits);
      was_free = rw page r.clear;
      taken = rw page (bits_taken v r);
      fewer = free_count-take_run v r;
      same_start = refl;
      same_end = refl;
      same_total = refl;
      used = refl;
    }

-- A result of `pmm_alloc_pages` that is not null is the aligned address of `count` pages inside the
-- managed memory which were free. They are taken afterwards, no other page changes, and there are
-- `count` free pages less.
pub pmm_alloc_pages-Handed :
    (count : ℕ) {p : Pmm}
    → IsValid p
    → (pmm_alloc_pages count p).0 ≢ 0
    → Handed p count (pmm_alloc_pages count p).0 (pmm_alloc_pages count p).1
pmm_alloc_pages-Handed count {p} v nonzero =
    Allocation-Handed v (pmm_alloc_pages-Allocation count p) nonzero
