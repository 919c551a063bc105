-- ===== src/DiskFs/Writeback.antt =====
-- The write-back of a slot, and the flush of all of them.
use myos_gui_desktop.Base.{
  ℕ, zero, suc, ◌+◌, ◌%◌, ◌^◌, ◌≤◌, ◌<◌, ◌≡◌, ◌≢◌, refl, sym, subst, ◌∙◌, ◌⊎◌, inl, inr, Bool, true,
  false, not, ◌||◌, arith,
}
use myos_gui_desktop.Base.Tests.{leb, ◌==◌, Bool-cases, ==_iff}
use myos_gui_desktop.DiskFs.{
  Sector, Ata, DiskFs, CacheEntry, entry_at, put_entry, total_sectors, cache_slots,
  raw_write_sector, cache_writeback, flush_slots, diskfs_flush,
}
use myos_gui_desktop.DiskFs.View.{IsDisk, Shows}
use myos_gui_desktop.DiskFs.Slots.{Fits, put_entry-Shows, slot-cases}

-- The state behind the write of a dirty slot, and what becomes of the slot.
abbrev after_write : {Disk : Type 0} → Ata Disk → DiskFs Disk → ℕ → DiskFs Disk
after_write ata f i = record f {
  disk =
      (ata.ata_write_sector f.disk (f.fs_start_lba + (entry_at f i).sector) (entry_at f i).bytes).1;
}

abbrev clean_entry : {Disk : Type 0} → DiskFs Disk → ℕ → CacheEntry
clean_entry f i = record (entry_at f i) { dirty = false }

-- What a write-back leaves in the slots: only the mark of slot `i` may go.
pub record Written {Disk : Type 0} (sector_at : Disk → ℕ → Sector) (m : ℕ → Sector)
    (f : DiskFs Disk) (i : ℕ) (p : Bool × DiskFs Disk) : Type 0 where
  pub shows : Shows sector_at m p.1
  pub clean : p.0 ≡ true → (entry_at p.1 i).valid ≡ true → (entry_at p.1 i).dirty ≡ false
  pub valid : (j : ℕ) → (entry_at p.1 j).valid ≡ (entry_at f j).valid
  pub sector : (j : ℕ) → (entry_at p.1 j).sector ≡ (entry_at f j).sector
  pub dirty : (j : ℕ) → (entry_at f j).dirty ≡ false → (entry_at p.1 j).dirty ≡ false

module _ {Disk : Type 0} {ata : Ata Disk} {sector_at : Disk → ℕ → Sector}
    (law : IsDisk ata sector_at) {m : ℕ → Sector} (f : DiskFs Disk) (i : ℕ) where
  after_write-Shows :
      Shows sector_at m f
      → i < cache_slots
      → (entry_at f i).valid ≡ true
      → (entry_at f i).dirty ≡ true
      → Shows sector_at m (after_write ata f i)
  after_write-Shows s l v d = record {
    size = s.size;
    lba = s.lba;
    range = s.range;
    apart = s.apart;
    cached = s.cached;
    backed = λ t b clean.
        let differs : f.fs_start_lba + (entry_at f i).sector ≢ f.fs_start_lba + t =
          λ e. clean i l (v, d, omega arith) in
        law.others f.disk (f.fs_start_lba + (entry_at f i).sector) (f.fs_start_lba + t)
          (entry_at f i).bytes differs
        ∙ s.backed t b clean;
  }

  clean_entry-Fits :
      Shows sector_at m f
      → i < cache_slots
      → (entry_at f i).valid ≡ true
      → (entry_at f i).dirty ≡ true
      → (ata.ata_write_sector f.disk
          (f.fs_start_lba + (entry_at f i).sector)
          (entry_at f i).bytes).0
        ≡ true
      → Fits sector_at m m (after_write ata f i) i (clean_entry f i)
  clean_entry-Fits s l v d ok = record {
    range = s.range i l;
    apart = λ j b other v w h. other (s.apart i j l b w v (sym h));
    bytes = s.cached i l;
    others = λ j b other v. refl;
    backed = λ t b clean holds. elim (Bool-cases ((entry_at f i).sector == t)) [
      | inl same ↦
          let e : (entry_at f i).sector ≡ t = (==_iff _ _).0 same in
          subst
            (λ u.
              sector_at
                (ata.ata_write_sector f.disk (f.fs_start_lba + (entry_at f i).sector)
                  (entry_at f i).bytes).1
                (f.fs_start_lba + u)
              ≡ m u)
            e
            (law.write f.disk (f.fs_start_lba + (entry_at f i).sector) (entry_at f i).bytes ok
              ∙ s.cached i l v)
      | inr other ↦
          let differs : f.fs_start_lba + (entry_at f i).sector ≢ f.fs_start_lba + t =
            λ e. ground (arith, other) in
          law.others f.disk (f.fs_start_lba + (entry_at f i).sector) (f.fs_start_lba + t)
            (entry_at f i).bytes differs
          ∙ s.backed t b (λ j c holds'. elim (Bool-cases (i == j)) [
            | inl at ↦ ground (arith, holds', at, other)
            | inr away ↦ clean j c (λ h. ground (arith, h, away)) holds'
          ])
    ];
  }

  -- A sector of a valid slot is in range, so its write is the device's.
  raw_write_sector_at :
      Shows sector_at m f
      → i < cache_slots
      → (entry_at f i).valid ≡ true
      → raw_write_sector ata (entry_at f i).sector (entry_at f i).bytes f ≡ (
        (ata.ata_write_sector f.disk
            (f.fs_start_lba + (entry_at f i).sector)
            (entry_at f i).bytes).0,
        after_write ata f i,
      )
  unfolding raw_write_sector
  raw_write_sector_at s l v =
      let inside : leb total_sectors (entry_at f i).sector ≡ false =
        ground (arith, s.range i l v) in
      let place : (f.fs_start_lba + (entry_at f i).sector) % 2 ^ 32
          ≡ f.fs_start_lba + (entry_at f i).sector =
        omega (arith, s.lba, s.range i l v) in
      rw (inside, place)

  cleaned-Written :
      Shows sector_at m f
      → i < cache_slots
      → (entry_at f i).valid ≡ true
      → (entry_at f i).dirty ≡ true
      → (ata.ata_write_sector f.disk
          (f.fs_start_lba + (entry_at f i).sector)
          (entry_at f i).bytes).0
        ≡ true
      → Written sector_at m f i (true, put_entry i (clean_entry f i) (after_write ata f i))
  cleaned-Written s l v d ok =
      let cases : (j : ℕ)
          → ((i ≡ j)
              × (entry_at (put_entry i (clean_entry f i) (after_write ata f i)) j
                  ≡ clean_entry f i))
            ⊎ ((i ≢ j)
                × (entry_at (put_entry i (clean_entry f i) (after_write ata f i)) j
                    ≡ entry_at f j)) =
        λ j. slot-cases (after_write ata f i) i j (clean_entry f i) (omega (arith, s.size)) in
      record {
        shows = put_entry-Shows (after_write-Shows s l v d) l (clean_entry-Fits s l v d ok);
        clean = λ a b. elim (cases i) [
          | inl (same, is) ↦ rw is refl
          | inr (other, is) ↦ absurd (other refl)
        ];
        valid = λ j. elim (cases j) [
          | inl (same, is) ↦ rw is (rw same refl)
          | inr (other, is) ↦ rw is refl
        ];
        sector = λ j. elim (cases j) [
          | inl (same, is) ↦ rw is (rw same refl)
          | inr (other, is) ↦ rw is refl
        ];
        dirty = λ j h. elim (cases j) [ inl (same, is) ↦ rw is refl | inr (other, is) ↦ rw is h ];
      }

  pub cache_writeback-Written :
      Shows sector_at m f → i < cache_slots → Written sector_at m f i (cache_writeback ata i f)
  unfolding cache_writeback
  cache_writeback-Written s l =
      elim (Bool-cases (not (entry_at f i).valid || not (entry_at f i).dirty)) [
        | inl idle ↦ rw idle (record {
          shows = s;
          clean = λ a b. ground (arith, idle, b);
          valid = λ j. refl;
          sector = λ j. refl;
          dirty = λ j h. h;
        })
        | inr due ↦
            let v : (entry_at f i).valid ≡ true = ground (arith, due) in
            let d : (entry_at f i).dirty ≡ true = ground (arith, due) in
            rw (due, raw_write_sector_at s l v)
              (elim (Bool-cases (
                (ata.ata_write_sector f.disk (f.fs_start_lba + (entry_at f i).sector)
                  (entry_at f i).bytes).0)) [
                    | inl ok ↦ rw ok (cleaned-Written s l v d ok)
                    | inr failed ↦ rw failed (record {
                      shows = after_write-Shows s l v d;
                      clean = λ a b. ground (arith, a);
                      valid = λ j. refl;
                      sector = λ j. refl;
                      dirty = λ j h. h;
                    })
                  ])
      ]

-- None of the first `k` slots holds bytes that the disk may not have.
abbrev pub IsClean : {Disk : Type 0} → (k : ℕ) → DiskFs Disk → Type 0
IsClean k f = (j : ℕ) → j < k → (entry_at f j).valid ≡ true → (entry_at f j).dirty ≡ false

module _ {Disk : Type 0} {ata : Ata Disk} {sector_at : Disk → ℕ → Sector}
    (law : IsDisk ata sector_at) {m : ℕ → Sector} where
  Written-IsClean :
      {f : DiskFs Disk} {i : ℕ} {p : Bool × DiskFs Disk}
      → Written sector_at m f i p
      → p.0 ≡ true
      → IsClean i f
      → IsClean (i + 1) p.1
  Written-IsClean {f} {i} {p} w ok c j b v = elim (Bool-cases (j == i)) [
    | inl last ↦ ground (arith, w.clean, ok, v, last)
    | inr other ↦ w.dirty j (c j (ground (arith, other)) (sym (w.valid j) ∙ v))
  ]

  flush_slots-Shows :
      (n i : ℕ) (f : DiskFs Disk)
      → i + n ≤ cache_slots
      → Shows sector_at m f
      → Shows sector_at m (flush_slots ata n i f).1
        × ((flush_slots ata n i f).0 ≡ true
            → IsClean i f
            → IsClean (i + n) (flush_slots ata n i f).1)
  unfolding flush_slots
  flush_slots-Shows zero i f l s = (s, λ h c j a. c j (omega arith))
  flush_slots-Shows (suc n) i f l s =
      let w = cache_writeback-Written law f i s (omega arith) in
      let (shows, clean) =
        flush_slots-Shows n (i + 1) (cache_writeback ata i f).1 (omega arith) w.shows in
      (
        shows,
        λ h c j a.
            clean (ground (arith, h)) (Written-IsClean w (ground (arith, h)) c) j (omega arith),
      )

  -- A flush keeps what the cache shows, and if it succeeds every sector of the disk holds it.
  pub diskfs_flush-Shows :
      (f : DiskFs Disk)
      → Shows sector_at m f
      → Shows sector_at m (diskfs_flush ata f).1
        × ((diskfs_flush ata f).0 ≡ true
            → (s : ℕ) → s < total_sectors
            → sector_at (diskfs_flush ata f).1.disk ((diskfs_flush ata f).1.fs_start_lba + s) ≡ m s)
  unfolding diskfs_flush
  diskfs_flush-Shows f s =
      let (shows, clean) = flush_slots-Shows cache_slots 0 f (omega arith) s in
      (
        shows,
        λ h t b. shows.backed t b (λ j c holds.
            ground (arith, clean h (λ k e v. absurd (omega arith)) j c holds.0, holds)),
      )
