-- ===== src/Pmm/Init.antt =====
-- `pmm_initialize`: the invariant holds after it, and every free page is usable memory.
use native.Mathlib.Nat.{mod-le}
use myos_gui_desktop.Base.{
  ℕ, zero, suc, ap, ◌∙◌, Bool, ◌+◌, ◌*◌, ◌/◌, ◌%◌, ◌^◌, ◌≤◌, ◌<◌, ◌≡◌, refl, ◌⊎◌, inl, inr, true,
  false, not, ◌||◌, List, [], ◌∷◌, arith,
}
use myos_gui_desktop.Base.Tests.{==_iff, ◌==◌, ltb, leb, if◌then◌else◌, Bool-cases}
use myos_gui_desktop.Base.Lists.{take, replicate, length-replicate, get_or-replicate}
use myos_gui_desktop.Base.Bits.{test-bit, bit-ones}
use myos_gui_desktop.Base.Bitmap.{test_bit}
use myos_gui_desktop.Base.Runs.{clear_count, clear_count_zero}
use myos_gui_desktop.Pmm.{
  Pmm, E820Entry, page_size, max_pages, managed_limit, bitmap_words, bitmap_test, align_up,
  e820_memory_usable, e820_max_entries, mark_usable_region, mark_entry, mark_entries, reset,
  pmm_initialize,
}
use myos_gui_desktop.Pmm.Valid.{IsValid, free_count}
use myos_gui_desktop.Pmm.Mark.{IsFresh, align_up_page}
use myos_gui_desktop.Pmm.Region.{Grown, mark_usable_region-Grown}

-- The page `i` lies whole in the usable memory that the entry names.
abbrev pub Covers : E820Entry → ℕ → Type 0
Covers entry i =
    (entry.kind ≡ e820_memory_usable)
    × (entry.base ≤ i * page_size)
    × (i * page_size + page_size ≤ entry.base + entry.size)

abbrev pub Covered : List E820Entry → ℕ → Type 0
Covered [] i = ⊥
Covered (entry ∷ rest) i = Covers entry i ⊎ Covered rest i

-- `q` is fresh, and what is free in it was free in `p` or is one of the pages `P`.
record Gained (P : ℕ → Type 0) (p q : Pmm) : Type 0 where
  fresh : IsFresh q
  same_start : q.managed_start ≡ p.managed_start
  from :
      (i : ℕ)
      → i < max_pages
      → bitmap_test q.page_bitmap i ≡ false
      → (bitmap_test p.page_bitmap i ≡ false) ⊎ P i

Gained-refl : {P : ℕ → Type 0} {p : Pmm} → IsFresh p → Gained P p p
Gained-refl f = record { fresh = f; same_start = refl; from = λ i l e. inl e }

entry_end : (e n : ℕ) → (if ltb managed_limit e then managed_limit else e % 2 ^ 32) ≤ managed_limit
entry_end e n = ground arith

mark_entry-Gained :
    (entry : E820Entry) {p : Pmm} → IsFresh p → Gained (Covers entry) p (mark_entry entry p)
unfolding mark_entry
mark_entry-Gained entry {p} f =
    elim (Bool-cases (not (entry.kind == e820_memory_usable) || (entry.size == 0))) [
      | inl skipped ↦ rw skipped (Gained-refl f)
      | inr usable ↦ rw usable (elim (Bool-cases (leb managed_limit entry.base)) [
        | inl above ↦ rw above (Gained-refl f)
        | inr below ↦ rw below (region (ground (arith, usable)) (ground (arith, below)))
      ])
    ]
  where
    end64 : ℕ
    end64 = (entry.base + entry.size) % 2 ^ 64

    end : ℕ
    end = if ltb managed_limit end64 then managed_limit else end64 % 2 ^ 32

    region :
        entry.kind ≡ e820_memory_usable
        → entry.base < managed_limit
        → Gained (Covers entry) p (mark_usable_region (entry.base % 2 ^ 32) end p)
    region k b =
        let g : Grown (entry.base % 2 ^ 32) end p (mark_usable_region (entry.base % 2 ^ 32) end p) =
          mark_usable_region-Grown (entry.base % 2 ^ 32) end f
            (omega (arith, f.valid.ordered, f.valid.limit)) (omega arith) (ground arith) in
        let short : end ≤ entry.base + entry.size =
          ground (arith, mod-le (entry.base + entry.size) (2 ^ 64)) in
        record {
          fresh = g.fresh;
          same_start = g.same_start;
          from = λ i l e. elim (g.from i l e) [
            | inl old ↦ inl old
            | inr new ↦ inr (k, omega (arith, new.0), omega (arith, new.1, short))
          ];
        }

mark_entries-Gained :
    (entries : List E820Entry) {p : Pmm}
    → IsFresh p
    → Gained (Covered entries) p (mark_entries entries p)
unfolding mark_entries
mark_entries-Gained [] f = Gained-refl f
mark_entries-Gained (entry ∷ rest) {p} f =
    let one : Gained (Covers entry) p (mark_entry entry p) = mark_entry-Gained entry f in
    let more : Gained (Covered rest) (mark_entry entry p) (mark_entries rest (mark_entry entry p)) =
      mark_entries-Gained rest one.fresh in
    record {
      fresh = more.fresh;
      same_start = omega (arith, one.same_start, more.same_start);
      from = λ i l e. elim (more.from i l e) [
        | inr new ↦ inr (inr new)
        | inl old ↦ elim (one.from i l old) [ inl older ↦ inl older | inr new ↦ inr (inl new) ]
      ];
    }

-- The bitmap before the memory map is read: every page is taken.
taken_at_first : (i : ℕ) → i < max_pages → bitmap_test (replicate bitmap_words 0xffff_ffff) i ≡ true
unfolding bitmap_test test_bit
taken_at_first i l =
    rw (get_or-replicate {A = ℕ} bitmap_words 0xffff_ffff 0 (i / 32) (omega arith))
      (ground (arith, test-bit 0xffff_ffff (i % 32), bit-ones 32 (i % 32) (omega arith)))

reset-IsFresh :
    (start n : ℕ)
    → 0 < start
    → start ≤ managed_limit
    → start % page_size ≡ 0
    → IsFresh (reset start n)
unfolding reset
reset-IsFresh start n pos limit aligned = record {
  valid = record {
    words = length-replicate {A = ℕ} bitmap_words 0xffff_ffff;
    start_pos = pos;
    start_aligned = aligned;
    end_aligned = aligned;
    ordered = omega arith;
    limit = limit;
    used_word = omega arith;
    total_le = omega arith;
    counted = omega (arith, none_free);
    managed = λ i l e. ground (arith, taken_at_first i l);
  };
  unused = refl;
  all_counted = omega (arith, none_free);
}
  where
    none_free : clear_count (bitmap_test (replicate bitmap_words 0xffff_ffff)) max_pages ≡ 0
    none_free =
        clear_count_zero (bitmap_test (replicate bitmap_words 0xffff_ffff)) max_pages taken_at_first

abbrev pub LowMemory : ℕ → Type 0
LowMemory i = i * page_size + page_size ≤ 0x0040_0000

-- Every page that is free is one of the pages `P`.
abbrev pub EachFree : Pmm → (ℕ → Type 0) → Type 0
EachFree p P = (i : ℕ) → i < max_pages → bitmap_test p.page_bitmap i ≡ false → P i

-- The entries that the loop reads, and the state behind it.
abbrev pub entries_read : List E820Entry → ℕ → List E820Entry
entries_read entries entry_count = take e820_max_entries (take entry_count entries)

abbrev pub map_read : (kernel_end : ℕ) → List E820Entry → ℕ → Pmm
map_read kernel_end entries entry_count =
    mark_entries (entries_read entries entry_count)
      (reset (align_up kernel_end page_size) entry_count)

all_taken : (f : ℕ → Bool) (n i : ℕ) → clear_count f n ≡ 0 → i < n → f i ≡ true
unfolding clear_count
all_taken f zero i h l = absurd (omega arith)
all_taken f (suc n) i h l = elim (Bool-cases (i == n)) [
  | inl last ↦ ap f ((==_iff i n).0 last) ∙ ground (arith, h)
  | inr before ↦ all_taken f n i (omega (arith, h)) (ground (arith, l, before))
]

-- The last step of `pmm_initialize`, where the map gave the pages `P` and none was free before it.
record Last (P : ℕ → Type 0) (q t : Pmm) : Type 0 where
  fresh : IsFresh t
  source : EachFree t P ⊎ ((q.total_pages_count ≡ 0) × EachFree t LowMemory)

fallback-Last :
    {P : ℕ → Type 0} {p q : Pmm}
    → ((i : ℕ) → i < max_pages → bitmap_test p.page_bitmap i ≡ true)
    → Gained P p q
    → Last P q
        (if q.total_pages_count == 0 then mark_usable_region q.managed_start 0x0040_0000 q else q)
fallback-Last {P} {p} {q} none_free g = elim (Bool-cases (q.total_pages_count == 0)) [
  | inr some_pages ↦ rw some_pages record {
    fresh = g.fresh;
    source = inl (λ i l e. elim (g.from i l e) [
      | inl old ↦ absurd (ground (arith, old, none_free i l))
      | inr new ↦ new
    ]);
  }
  | inl no_page ↦
      let below : q.managed_start ≤ managed_limit =
        omega (arith, g.fresh.valid.ordered, g.fresh.valid.limit) in
      let low : Grown q.managed_start 0x0040_0000 q
          (mark_usable_region q.managed_start 0x0040_0000 q) =
        mark_usable_region-Grown q.managed_start 0x0040_0000 g.fresh below below (omega arith) in
      let empty : q.total_pages_count ≡ 0 = (==_iff q.total_pages_count 0).0 no_page in
      let count : clear_count (bitmap_test q.page_bitmap) max_pages ≡ 0 =
        omega (arith, empty, g.fresh.all_counted) in
      rw no_page record {
        fresh = low.fresh;
        source = inr (
          empty,
          λ i l e. elim (low.from i l e) [
            | inr new ↦ new.1
            | inl old ↦
                absurd
                  (ground (arith, old, all_taken (bitmap_test q.page_bitmap) max_pages i count l))
          ],
        );
      }
]

module _ (kernel_end : ℕ) (entries : List E820Entry) (entry_count : ℕ) (pos : 0 < kernel_end)
    (fits : kernel_end ≤ managed_limit) where
  start_bounds :
      let start = align_up kernel_end page_size in
      (0 < start) × (start ≤ managed_limit) × (start % page_size ≡ 0)
  start_bounds = rw (align_up_page kernel_end fits) (omega arith, omega arith, omega arith)

  reset-taken :
      (i : ℕ)
      → i < max_pages
      → bitmap_test (reset (align_up kernel_end page_size) entry_count).page_bitmap i ≡ true
  unfolding reset
  reset-taken i l = taken_at_first i l

  initialized :
      Last
        (Covered (entries_read entries entry_count))
        (map_read kernel_end entries entry_count)
        (pmm_initialize kernel_end entries entry_count)
  unfolding pmm_initialize
  initialized = fallback-Last reset-taken (
      mark_entries-Gained (entries_read entries entry_count) (
        reset-IsFresh (align_up kernel_end page_size) entry_count start_bounds.0 start_bounds.1
          start_bounds.2))

  -- For a kernel that ends inside the managed memory, `pmm_initialize` leaves a valid state with no
  -- page in use. Either every page that is free in it lies whole in a usable entry among the first 32
  -- of the memory map, or the map gave no page at all and every free page lies below 4 MiB.
  pub pmm_initialize_lem :
      let p = pmm_initialize kernel_end entries entry_count in
      IsValid p
      × (p.used_pages_count ≡ 0)
      × (p.total_pages_count ≡ free_count p)
      × (EachFree p (Covered (entries_read entries entry_count))
          ⊎ (((map_read kernel_end entries entry_count).total_pages_count ≡ 0)
              × EachFree p LowMemory))
  pmm_initialize_lem = (
    initialized.fresh.valid, initialized.fresh.unused, initialized.fresh.all_counted,
    initialized.source,
  )
