-- ===== src/DiskFs/Fill.antt =====
-- How the cache finds a slot for a sector.
use myos_gui_desktop.Base.{
  ℕ, ◌+◌, ◌%◌, ◌^◌, ◌≤◌, ◌<◌, ◌≡◌, refl, sym, ap, ◌∙◌, inl, inr, Bool, true, false, Option, none,
  some, arith,
}
use myos_gui_desktop.Base.Tests.{leb, ◌==◌, Bool-cases, ==_iff}
use myos_gui_desktop.DiskFs.{
  Sector, Ata, DiskFs, CacheEntry, entry_at, put_entry, total_sectors, cache_slots, find_slot,
  raw_read_sector, cache_writeback, fill_slot, take_slot, use_slot, cache_get,
}
use myos_gui_desktop.DiskFs.View.{IsDisk, Shows}
use myos_gui_desktop.DiskFs.Slots.{Fits, put_entry-Shows, slot-cases}
use myos_gui_desktop.DiskFs.Writeback.{cache_writeback-Written}
use myos_gui_desktop.DiskFs.Find.{Holds, Found, find_slot-Found}

-- A slot that holds the sector; without one the cache still shows the same.
abbrev pub Got :
    {Disk : Type 0}
    → (Disk → ℕ → Sector)
    → (ℕ → Sector)
    → ℕ
    → Bool
    → Option ℕ × DiskFs Disk
    → Type 0
Got sector_at m s for_write p = elim (p.0) [
  | some i ↦
      Shows sector_at m p.1
      × (i < cache_slots)
      × ((entry_at p.1 i).valid ≡ true)
      × ((entry_at p.1 i).sector ≡ s)
      × (for_write ≡ true → (entry_at p.1 i).dirty ≡ true)
  | none ↦ Shows sector_at m p.1
]

module _ {Disk : Type 0} {ata : Ata Disk} {sector_at : Disk → ℕ → Sector}
    (law : IsDisk ata sector_at) where
  -- A read that succeeds is of a sector of the file system, and gives what the disk holds.
  raw_read_sector-bytes :
      (g : DiskFs Disk) (s : ℕ) (b : Sector)
      → g.fs_start_lba + total_sectors ≤ 2 ^ 32
      → (raw_read_sector ata s b g).0 ≡ true
      → (s < total_sectors)
        × ((raw_read_sector ata s b g).1 ≡ sector_at g.disk (g.fs_start_lba + s))
  unfolding raw_read_sector
  raw_read_sector-bytes g s b h ok = elim (Bool-cases (leb total_sectors s)) [
    | inl high ↦ ground (arith, ok, high)
    | inr low ↦
        let inside : s < total_sectors = ground (arith, low) in
        let place : (g.fs_start_lba + s) % 2 ^ 32 ≡ g.fs_start_lba + s = omega arith in
        let same : raw_read_sector ata s b g ≡ ata.ata_read_sector g.disk (g.fs_start_lba + s) b =
          rw (low, place) in
        let read : (ata.ata_read_sector g.disk (g.fs_start_lba + s) b).0 ≡ true =
          ap (λ r. r.0) (sym same) ∙ ok in
        (inside, rw (low, place) (law.read g.disk (g.fs_start_lba + s) b read))
  ]

module _ {Disk : Type 0} {ata : Ata Disk} {sector_at : Disk → ℕ → Sector}
    (law : IsDisk ata sector_at) {m : ℕ → Sector} where
  filled-Fits :
      (g : DiskFs Disk) (i s : ℕ) (for_write : Bool)
      → s < total_sectors
      → Shows sector_at m g
      → ((entry_at g i).valid ≡ true → (entry_at g i).dirty ≡ false)
      → ((j : ℕ) → j < cache_slots → ¬ Holds g.cache j s)
      → Fits sector_at m m g i (record {
        valid = true;
        dirty = for_write;
        sector = s;
        bytes = sector_at g.disk (g.fs_start_lba + s);
      })
  filled-Fits g i s for_write b shows clean away = record {
    range = λ h. b;
    apart = λ j c other v w h. away j c (v, h);
    bytes = λ h. shows.backed s b (λ j c holds. away j c (holds.0, holds.2));
    others = λ j c other v. refl;
    backed = λ t c none_dirty holds. shows.backed t c (λ j d dirty. elim (Bool-cases (i == j)) [
      | inl same ↦ ground (arith, clean, dirty, same)
      | inr other ↦ none_dirty j d (λ h. ground (arith, h, other)) dirty
    ]);
  }

  spoiled-Fits :
      (g : DiskFs Disk) (i : ℕ) (b : Sector)
      → Shows sector_at m g
      → ((entry_at g i).valid ≡ true → (entry_at g i).dirty ≡ false)
      → Fits sector_at m m g i (record (entry_at g i) { valid = false; bytes = b })
  spoiled-Fits g i b shows clean = record {
    range = λ h. ground (arith, h);
    apart = λ j c other v w. ground (arith, w);
    bytes = λ h. ground (arith, h);
    others = λ j c other v. refl;
    backed = λ t c none_dirty holds. shows.backed t c (λ j d dirty. elim (Bool-cases (i == j)) [
      | inl same ↦ ground (arith, clean, dirty, same)
      | inr other ↦ none_dirty j d (λ h. ground (arith, h, other)) dirty
    ]);
  }

  put-Got :
      (g : DiskFs Disk) (i s : ℕ) (for_write : Bool) (e : CacheEntry)
      → i < cache_slots
      → Shows sector_at m g
      → Fits sector_at m m g i e
      → e.valid ≡ true
      → e.sector ≡ s
      → (for_write ≡ true → e.dirty ≡ true)
      → Got sector_at m s for_write (some i, put_entry i e g)
  put-Got g i s for_write e l shows fits v h d =
      elim (slot-cases g i i e (omega (arith, shows.size))) [
        | inl (same, is) ↦ (
          put_entry-Shows shows l fits,
          l,
          ap (λ u. u.valid) is ∙ v,
          ap (λ u. u.sector) is ∙ h,
          λ w. ap (λ u. u.dirty) is ∙ d w,
        )
        | inr (other, is) ↦ absurd (other refl)
      ]

  fill_slot-Got :
      (g : DiskFs Disk) (i s : ℕ) (for_write : Bool)
      → i < cache_slots
      → Shows sector_at m g
      → ((entry_at g i).valid ≡ true → (entry_at g i).dirty ≡ false)
      → ((j : ℕ) → j < cache_slots → ¬ Holds g.cache j s)
      → Got sector_at m s for_write (fill_slot ata i s for_write g)
  unfolding fill_slot
  fill_slot-Got g i s for_write l shows clean away =
      elim (Bool-cases (raw_read_sector ata s (entry_at g i).bytes g).0) [
        | inl ok ↦
            let (inside, bytes) = raw_read_sector-bytes law g s (entry_at g i).bytes shows.lba ok in
            rw (ok, bytes)
              (put-Got g i s for_write _ l shows
                (filled-Fits g i s for_write inside shows clean away) refl refl (λ h. h))
        | inr failed ↦ rw failed (put_entry-Shows shows l (spoiled-Fits g i _ shows clean))
      ]

  use_slot-Got :
      (g : DiskFs Disk) (i s : ℕ) (for_write : Bool)
      → i < cache_slots
      → Shows sector_at m g
      → Holds g.cache i s
      → Got sector_at m s for_write (some i, use_slot i for_write g)
  unfolding use_slot
  use_slot-Got g i s false l shows holds = (shows, l, holds.0, holds.1, λ h. ground (arith, h))
  use_slot-Got g i s true l shows holds =
      put-Got g i s true (record (entry_at g i) { dirty = true }) l shows
        (record {
          range = shows.range i l;
          apart = λ j b other v w h. other (shows.apart i j l b w v (sym h));
          bytes = shows.cached i l;
          others = λ j b other v. refl;
          backed = λ t c none_dirty spared. shows.backed t c (λ j d dirty.
              elim (Bool-cases (i == j)) [
                | inl same ↦
                    let e = (==_iff i j).0 same in
                    spared (holds.0, refl, ap (λ u. (entry_at g u).sector) e ∙ dirty.2)
                | inr other ↦ none_dirty j d (λ h. ground (arith, h, other)) dirty
              ]);
        })
        holds.0 holds.1 (λ h. refl)

  take_slot-Got :
      (g : DiskFs Disk) (i s : ℕ) (for_write : Bool)
      → i < cache_slots
      → Shows sector_at m g
      → ((j : ℕ) → j < cache_slots → ¬ Holds g.cache j s)
      → Got sector_at m s for_write (take_slot ata i s for_write g)
  unfolding take_slot
  take_slot-Got g i s for_write l shows away =
      let w = cache_writeback-Written law g i shows l in
      elim (Bool-cases (cache_writeback ata i g).0) [
        | inl ok ↦ rw ok (
            fill_slot-Got (cache_writeback ata i g).1 i s for_write l w.shows (w.clean ok)
              (λ j b holds. away j b (sym (w.valid j) ∙ holds.0, sym (w.sector j) ∙ holds.1)))
        | inr failed ↦ rw failed w.shows
      ]

  pub ticked-Shows :
      (f : DiskFs Disk)
      → Shows sector_at m f
      → Shows sector_at m (record f { cache_clock = (f.cache_clock + 1) % 2 ^ 32 })
  ticked-Shows f s = record {
    size = s.size;
    lba = s.lba;
    range = s.range;
    apart = s.apart;
    cached = s.cached;
    backed = s.backed;
  }

  pub cache_get-Got :
      (f : DiskFs Disk) (s : ℕ) (for_write : Bool)
      → Shows sector_at m f
      → Got sector_at m s for_write (cache_get ata s for_write f)
  unfolding cache_get
  cache_get-Got f s for_write shows =
      go (find_slot cache_slots 0 f.cache s) (find_slot-Found cache_slots 0 f.cache s)
    where
      go :
          (r : Option ℕ)
          → Found cache_slots 0 f.cache s r
          → Got sector_at m s for_write (elim r [
            | some i ↦ (
              some i,
              use_slot i for_write (record f { cache_clock = (f.cache_clock + 1) % 2 ^ 32 }),
            )
            | none ↦
                take_slot ata
                  (f.cache_clock % cache_slots)
                  s
                  for_write
                  (record f { cache_clock = (f.cache_clock + 1) % 2 ^ 32 })
          ])
      go (some i) (a, b, holds) =
          use_slot-Got (record f { cache_clock = (f.cache_clock + 1) % 2 ^ 32 }) i s for_write b
            (ticked-Shows f shows) holds
      go none away =
          take_slot-Got (record f { cache_clock = (f.cache_clock + 1) % 2 ^ 32 })
            (f.cache_clock % cache_slots) s for_write (omega arith) (ticked-Shows f shows)
            (λ j b. away j (omega arith) b)
