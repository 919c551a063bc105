-- ===== src/Paging/Ensure.antt =====
-- What `ensure_table` does: the entry of the directory gets a table that the space may write.
use myos_gui_desktop.Base.{
  ℕ, ◌+◌, ◌*◌, ◌/◌, ◌%◌, ◌^◌, ◌<◌, ◌≤◌, ◌≡◌, ◌≢◌, ◌&&◌, not, refl, sym, ap, ◌∙◌, inl, inr, false,
  bit_and, bit_or, arith,
}
use myos_gui_desktop.Base.Tests.{◌==◌, if◌then◌else◌, Bool-cases, ==_iff}
use myos_gui_desktop.Base.Masks.{bit_and_high, bit_and_low}
use myos_gui_desktop.Pmm.{Pmm, bitmap_test, pmm_alloc_page}
use myos_gui_desktop.Pmm.Valid.{IsValid}
use myos_gui_desktop.Pmm.Alloc.{pmm_alloc_pages-Handed}
use myos_gui_desktop.Paging.{
  Statics, Memory, Paging, put, with_memory, owned_table_of, table_entry, zero_page_table,
  copy_page_table, new_table, private_table, ensure_table,
}
use myos_gui_desktop.Paging.Words.{
  bit_and-mask, bit_and-present, bit_or-page, bit_or-present, bit_or-lt, table_entry-parts,
}
use myos_gui_desktop.Paging.Tables.{
  put_same, put_other, Outside, zero_page_table_away, zero_page_table-IsWords,
  copy_page_table-IsWords, zero_page_table-inside, copy_page_table_away, copy_page_table-inside,
}
use myos_gui_desktop.Paging.Space.{entry_in, table_in, page_entry, IsTaken, IsApart, Ensured}

-- A page that the allocator gives is none of the pages taken before.
record Fresh (p : Paging) (table : ℕ) : Type 0 where
  low : table + 4096 ≤ 2 ^ 32
  aligned : table % 4096 ≡ 0
  free : bitmap_test p.pmm.page_bitmap (table / 4096) ≡ false

pmm_alloc_page-Fresh :
    (p : Paging) → IsValid p.pmm → (pmm_alloc_page p.pmm).0 ≢ 0 → Fresh p (pmm_alloc_page p.pmm).0
unfolding pmm_alloc_page
pmm_alloc_page-Fresh p valid some =
    let h = pmm_alloc_pages-Handed 1 valid some in
    record {
      low = omega (arith, h.high, h.same_end, valid.limit);
      aligned = h.aligned;
      free = ap (bitmap_test p.pmm.page_bitmap) (omega arith) ∙ h.was_free 0 (omega arith);
    }

Fresh-apart :
    {p : Paging} {table : ℕ} (a : ℕ) → Fresh p table → IsTaken p a → a / 4096 ≢ table / 4096
Fresh-apart {p} {table} a fresh taken same =
    ground (arith, ap (bitmap_test p.pmm.page_bitmap) same, fresh.free, taken)

-- Words of other pages lie outside a table.
page-Outside : (table a : ℕ) → table % 4096 ≡ 0 → a / 4096 ≢ table / 4096 → Outside table 1024 a
page-Outside table a l h j b same = h (omega arith)

module _ {p : Paging} {space index : ℕ} (apart : IsApart p space index) where
  -- A fresh page with the old translations becomes the table of the entry.
  Fresh-Ensured :
      (table flags : ℕ) (filled : Memory)
      → Fresh p table
      → ((a : ℕ) → a / 4096 ≢ table / 4096 → filled a ≡ p.memory a)
      → ((x : ℕ) → x < 1024 → filled (table + 4 * x) ≡ page_entry p.memory (p.memory space) index x)
      → ((a : ℕ) → filled a < 2 ^ 32)
      → Ensured p.memory space index table (
          put
            (p.memory space + 4 * index)
            (table_entry table flags)
            (put (owned_table_of space index) table filled))
  Fresh-Ensured table flags filled fresh outside same words =
      let m : Memory = p.memory in
      let directory : ℕ = m space in
      let at : ℕ = directory + 4 * index in
      let own : ℕ = owned_table_of space index in
      let e : ℕ = table_entry table flags in
      let (names, present, small) = table_entry-parts table flags (omega (arith, fresh.low)) in
      let inner : Memory = put own table filled in
      let there : (a : ℕ) → a ≢ at → a ≢ own → put at e inner a ≡ filled a =
        λ a n o. put_other at a e inner n ∙ put_other own a table filled o in
      let far_directory = Fresh-apart directory fresh apart.directory_taken in
      let far_own = Fresh-apart own fresh apart.slot_taken in
      let far_space = Fresh-apart space fresh apart.taken in
      record {
        words = λ a. elim (Bool-cases (a == at)) [
          | inl here ↦ rw here small
          | inr away ↦ rw away (elim (Bool-cases (a == own)) [
            | inl slot ↦ rw slot (omega (arith, fresh.low))
            | inr off ↦ rw off (words a)
          ])
        ];
        low = omega (arith, fresh.low);
        aligned = fresh.aligned;
        directory =
            there space (λ h. apart.apart (omega (arith, h, apart.aligned, apart.inside)))
              (λ h. omega (arith, h))
            ∙ outside space far_space;
        present = ap (λ x. x % 2) (put_same at at e inner refl) ∙ present;
        names = ap (λ x. x / 4096) (put_same at at e inner refl) ∙ names;
        others = λ j n l.
            there (directory + 4 * j) (λ h. n (omega (arith, h)))
              (λ h. apart.slot_apart (omega (arith, h, apart.aligned)))
            ∙ outside (directory + 4 * j) (λ h. far_directory (omega (arith, h, apart.aligned)));
        same = λ x l.
            there (table + 4 * x)
              (λ h. far_directory (omega (arith, h, apart.aligned, apart.inside, fresh.aligned)))
              (λ h. far_own (omega (arith, h, fresh.aligned)))
            ∙ same x l;
        other_tables = λ j x n l b pr.
            let (taken, off_directory, off_space, off_own) = apart.tables j l pr in
            let far = Fresh-apart (entry_in m directory j) fresh taken in
            there (table_in m directory j + 4 * x)
              (λ h. off_directory (omega (arith, h, apart.aligned, apart.inside)))
              (λ h. off_own (omega (arith, h)))
            ∙ outside (table_in m directory j + 4 * x) (λ h. far (omega (arith, h)));
        alone = λ j n l pr. Fresh-apart (entry_in m directory j) fresh (apart.tables j l pr).0;
        apart = (λ h. far_space (sym h), λ h. far_directory (sym h));
      }

  new_table-Ensured :
      (flags : ℕ)
      → entry_in p.memory (p.memory space) index % 2 ≡ 0
      → (new_table space index flags p).0 ≢ 0
      → Ensured p.memory space index
          (new_table space index flags p).0
          (new_table space index flags p).1.memory
  unfolding new_table
  new_table-Ensured flags absent = go (pmm_alloc_page p.pmm) (pmm_alloc_page-Fresh p apart.valid)
    where
      after : ℕ × Pmm → ℕ × Paging
      after got = if got.0 == 0 then (0, record p { pmm = got.1 }) else (
        got.0,
        with_memory (record p { pmm = got.1 })
            (put (p.memory space + 4 * index) (table_entry got.0 flags)
              (put (owned_table_of space index) got.0 (zero_page_table got.0 p.memory))),
      )

      go :
          (got : ℕ × Pmm)
          → (got.0 ≢ 0 → Fresh p got.0)
          → (after got).0 ≢ 0
          → Ensured p.memory space index (after got).0 (after got).1.memory
      go (table, q) fresh = elim (Bool-cases (table == 0)) [
        | inl null ↦ rw null (λ h. absurd (h refl))
        | inr found ↦ rw found (λ h.
            let f = fresh h in
            let zeroed : Memory = zero_page_table table p.memory in
            let outside : (a : ℕ) → a / 4096 ≢ table / 4096 → zeroed a ≡ p.memory a =
              λ a n. zero_page_table_away table p.memory a (page-Outside table a f.aligned n) in
            Fresh-Ensured table flags zeroed f outside
              (λ x l. zero_page_table-inside table p.memory x l ∙ (rw absent refl))
              (zero_page_table-IsWords table p.memory apart.words))
      ]

  private_table-Ensured :
      (flags : ℕ)
      → entry_in p.memory (p.memory space) index % 2 ≡ 1
      → (private_table space index flags (table_in p.memory (p.memory space) index) p).0 ≢ 0
      → Ensured p.memory space index
          (private_table space index flags (table_in p.memory (p.memory space) index) p).0
          (private_table space index flags (table_in p.memory (p.memory space) index) p).1.memory
  unfolding private_table
  private_table-Ensured flags present =
      go (pmm_alloc_page p.pmm) (pmm_alloc_page-Fresh p apart.valid)
    where
      src : ℕ
      src = table_in p.memory (p.memory space) index

      after : ℕ × Pmm → ℕ × Paging
      after got = if got.0 == 0 then (0, record p { pmm = got.1 }) else (
        got.0,
        with_memory (record p { pmm = got.1 })
            (put (p.memory space + 4 * index) (table_entry got.0 flags)
              (put (owned_table_of space index) got.0 (copy_page_table got.0 src p.memory))),
      )

      go :
          (got : ℕ × Pmm)
          → (got.0 ≢ 0 → Fresh p got.0)
          → (after got).0 ≢ 0
          → Ensured p.memory space index (after got).0 (after got).1.memory
      go (table, q) fresh = elim (Bool-cases (table == 0)) [
        | inl null ↦ rw null (λ h. absurd (h refl))
        | inr found ↦ rw found (λ h.
            let f = fresh h in
            let (taken, a, b, c) = apart.tables index apart.inside present in
            let far = Fresh-apart (entry_in p.memory (p.memory space) index) f taken in
            let there : (entry_in p.memory (p.memory space) index % 2 == 0) ≡ false =
              ground (arith, present) in
            Fresh-Ensured table flags (copy_page_table table src p.memory) f
              (λ x n. copy_page_table_away table src p.memory x (page-Outside table x f.aligned n))
              (λ x l.
                copy_page_table-inside table src p.memory x
                  (λ y z k l h. far (omega (arith, h, f.aligned))) l
                ∙ (rw there refl))
              (copy_page_table-IsWords table src p.memory apart.words))
      ]

  -- A table that the space has already: only flags of its entry may change.
  kept-Ensured :
      (flags : ℕ)
      → entry_in p.memory (p.memory space) index % 2 ≡ 1
      → Ensured p.memory space index (table_in p.memory (p.memory space) index) (
          put
            (p.memory space + 4 * index)
            (bit_or (entry_in p.memory (p.memory space) index) (bit_and flags 6))
            p.memory)
  kept-Ensured flags present =
      let m : Memory = p.memory in
      let directory : ℕ = m space in
      let at : ℕ = directory + 4 * index in
      let e : ℕ = m at in
      let table : ℕ = table_in m directory index in
      let new : ℕ = bit_or e (bit_and flags 6) in
      let few : bit_and flags 6 < 4096 =
        omega (arith, bit_and_high 1 3 flags, bit_and_low 2 (flags / 2)) in
      let there : (a : ℕ) → a ≢ at → put at new m a ≡ m a = λ a n. put_other at a new m n in
      let (taken, off_directory, off_space, off_own) = apart.tables index apart.inside present in
      let is_there : (e % 2 == 0) ≡ false = ground (arith, present) in
      record {
        words = λ a. elim (Bool-cases (a == at)) [
          | inl here ↦ rw here (bit_or-lt e (bit_and flags 6) (apart.words at) few)
          | inr away ↦ rw away (apart.words a)
        ];
        low = omega (arith, apart.words at);
        aligned = omega arith;
        directory = there space (λ h. apart.apart (omega (arith, h, apart.aligned, apart.inside)));
        present =
            ap (λ x. x % 2) (put_same at at new m refl)
            ∙ omega (arith, bit_or-present e (bit_and flags 6), present);
        names =
            ap (λ x. x / 4096) (put_same at at new m refl)
            ∙ bit_or-page e (bit_and flags 6) few
            ∙ omega arith;
        others = λ j n l. there (directory + 4 * j) (λ h. n (omega (arith, h)));
        same = λ x l.
            there (table + 4 * x)
              (λ h. off_directory (omega (arith, h, apart.aligned, apart.inside)))
            ∙ (rw is_there refl);
        other_tables = λ j x n l b pr.
            there (table_in m directory j + 4 * x)
              (λ h. (apart.tables j l pr).1 (omega (arith, h, apart.aligned, apart.inside)));
        alone = λ j n l pr h. apart.distinct j l n pr present (omega (arith, h));
        apart = (λ h. off_space (omega (arith, h)), λ h. off_directory (omega (arith, h)));
      }

  pub ensure_table-Ensured :
      (k : Statics) (flags : ℕ)
      → (ensure_table k space index flags p).0 ≢ 0
      → Ensured p.memory space index
          (ensure_table k space index flags p).0
          (ensure_table k space index flags p).1.memory
  unfolding ensure_table
  ensure_table-Ensured k flags =
      let e : ℕ = entry_in p.memory (p.memory space) index in
      elim (Bool-cases (e % 2 == 0)) [
        | inl absent ↦
            rw (bit_and-present e, absent) (new_table-Ensured flags ((==_iff _ _).0 absent))
        | inr present ↦
            let odd : e % 2 ≡ 1 = ground (arith, present) in
            elim (Bool-cases
              (not (space == k.kernel_space) && (p.memory (owned_table_of space index) == 0))) [
                | inl shared ↦
                    rw (bit_and-present e, present, shared, bit_and-mask e (apart.words _))
                      (private_table-Ensured flags odd)
                | inr own ↦
                    rw (bit_and-present e, present, own, bit_and-mask e (apart.words _))
                      (λ h. kept-Ensured flags odd)
              ]
      ]
