-- ===== src/DiskFs/Slots.antt =====
-- The operations on one slot of the cache.
use myos_gui_desktop.Base.{ℕ, ◌+◌, ◌<◌, ◌≡◌, ◌≢◌, refl, sym, ap, ◌∙◌, inl, inr, ◌⊎◌, true, arith}
use myos_gui_desktop.Base.Tests.{◌==◌, if◌then◌else◌, Bool-cases, ==_iff}
use myos_gui_desktop.Base.Lists.{length, get_or-set, length-set}
use myos_gui_desktop.DiskFs.{
  Sector, DiskFs, CacheEntry, no_entry, entry_at, put_entry, total_sectors, cache_slots,
}
use myos_gui_desktop.DiskFs.View.{HoldsDirty, Shows}

-- What is needed of an entry that replaces the one in slot `i`, for the cache to show `n` then.
pub record Fits {Disk : Type 0} (sector_at : Disk → ℕ → Sector) (m n : ℕ → Sector) (f : DiskFs Disk)
    (i : ℕ) (e : CacheEntry) : Type 0 where
  pub range : e.valid ≡ true → e.sector < total_sectors
  pub apart :
      (j : ℕ)
      → j < cache_slots
      → i ≢ j
      → (entry_at f j).valid ≡ true
      → e.valid ≡ true
      → (entry_at f j).sector ≢ e.sector
  pub bytes : e.valid ≡ true → e.bytes ≡ n e.sector
  pub others :
      (j : ℕ)
      → j < cache_slots
      → i ≢ j
      → (entry_at f j).valid ≡ true
      → m (entry_at f j).sector ≡ n (entry_at f j).sector
  pub backed :
      (s : ℕ)
      → s < total_sectors
      → ((j : ℕ) → j < cache_slots → i ≢ j → ¬ HoldsDirty f j s)
      → ¬ ((e.valid ≡ true) × (e.dirty ≡ true) × (e.sector ≡ s))
      → sector_at f.disk (f.fs_start_lba + s) ≡ n s

-- A slot after another entry was put in slot `i`.
pub slot-cases :
    {Disk : Type 0} (f : DiskFs Disk) (i j : ℕ) (e : CacheEntry)
    → i < length f.cache
    → ((i ≡ j) × (entry_at (put_entry i e f) j ≡ e))
      ⊎ ((i ≢ j) × (entry_at (put_entry i e f) j ≡ entry_at f j))
slot-cases f i j e l = elim (Bool-cases (i == j)) [
  | inl same ↦ inl (
    (==_iff i j).0 same,
    get_or-set f.cache i j e no_entry l ∙ ap (λ b. if b then e else entry_at f j) same,
  )
  | inr other ↦ inr (
    ground arith,
    get_or-set f.cache i j e no_entry l ∙ ap (λ b. if b then e else entry_at f j) other,
  )
]

module _ {Disk : Type 0} {sector_at : Disk → ℕ → Sector} {m n : ℕ → Sector} {f : DiskFs Disk}
    {i : ℕ} {e : CacheEntry} where
  pub put_entry-Shows :
      Shows sector_at m f
      → i < cache_slots
      → Fits sector_at m n f i e
      → Shows sector_at n (put_entry i e f)
  put_entry-Shows s l fits =
      let cases : (j : ℕ)
          → ((i ≡ j) × (entry_at (put_entry i e f) j ≡ e))
            ⊎ ((i ≢ j) × (entry_at (put_entry i e f) j ≡ entry_at f j)) =
        λ j. slot-cases f i j e (omega (arith, s.size)) in
      record {
        size = length-set f.cache i e ∙ s.size;
        lba = s.lba;
        range = λ j b. elim (cases j) [
          | inl (same, is) ↦ rw is fits.range
          | inr (other, is) ↦ rw is (s.range j b)
        ];
        apart = λ j k b c. elim (cases j) [
          | inl (same, is) ↦ elim (cases k) [
            | inl (same', is') ↦ λ v w h. omega arith
            | inr (other', is') ↦ rw (is, is') (λ v w h. absurd (fits.apart k c other' w v (sym h)))
          ]
          | inr (other, is) ↦ elim (cases k) [
            | inl (same', is') ↦ rw (is, is') (λ v w h. absurd (fits.apart j b other v w h))
            | inr (other', is') ↦ rw (is, is') (s.apart j k b c)
          ]
        ];
        cached = λ j b. elim (cases j) [
          | inl (same, is) ↦ rw is fits.bytes
          | inr (other, is) ↦ rw is (λ v. s.cached j b v ∙ fits.others j b other v)
        ];
        backed = λ t b clean.
            fits.backed t b
              (λ j c other holds. elim (cases j) [
                | inl (same, is) ↦ absurd (other same)
                | inr (other', is) ↦ clean j c (rw is holds)
              ])
              (λ holds. elim (cases i) [
                | inl (same, is) ↦ clean i l (rw is holds)
                | inr (other, is) ↦ absurd (other refl)
              ]);
      }
