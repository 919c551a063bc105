-- ===== src/DiskFs/Working.antt =====
-- The cache over a disk whose reads and writes succeed.
use myos_gui_desktop.Base.{
  zero, suc, ◌≤◌, ℕ, ◌+◌, ◌%◌, ◌^◌, ◌<◌, ◌≡◌, refl, ap, ◌∙◌, inl, inr, Bool, true, false, not, ◌||◌,
  Option, none, some, arith,
}
use myos_gui_desktop.Base.Tests.{leb, Bool-cases}
use myos_gui_desktop.DiskFs.{
  Sector, Ata, DiskFs, entry_at, total_sectors, cache_slots, find_slot, raw_read_sector,
  cache_writeback, fill_slot, take_slot, use_slot, cache_get, read_sector, write_sector,
  flush_slots, diskfs_flush,
}
use myos_gui_desktop.DiskFs.Writeback.{cache_writeback-Written}
use myos_gui_desktop.DiskFs.View.{IsDisk, Shows}
use myos_gui_desktop.DiskFs.{raw_write_sector}
use myos_gui_desktop.DiskFs.Fill.{ticked-Shows}
use myos_gui_desktop.DiskFs.Get.{
  fetch, store, read_sector-Shows, write_sector-Shows, with_sector_same,
}

-- Every read and every write of the device succeeds.
pub record IsWorking {Disk : Type 0} (ata : Ata Disk) : Type 0 where
  pub reads : (d : Disk) (s : ℕ) (b : Sector) → (ata.ata_read_sector d s b).0 ≡ true
  pub writes : (d : Disk) (s : ℕ) (b : Sector) → (ata.ata_write_sector d s b).0 ≡ true

abbrev is_some : {A : Type 0} → Option A → Bool
is_some (some x) = true
is_some none = false

module _ {Disk : Type 0} {ata : Ata Disk} (works : IsWorking ata) where
  raw_write_sector-works :
      (f : DiskFs Disk) (s : ℕ) (b : Sector)
      → s < total_sectors
      → (raw_write_sector ata s b f).0 ≡ true
  unfolding raw_write_sector
  raw_write_sector-works f s b l =
      let inside : leb total_sectors s ≡ false = ground arith in
      rw inside (works.writes f.disk ((f.fs_start_lba + s) % 2 ^ 32) b)

  raw_read_sector-works :
      (f : DiskFs Disk) (s : ℕ) (b : Sector)
      → s < total_sectors
      → (raw_read_sector ata s b f).0 ≡ true
  unfolding raw_read_sector
  raw_read_sector-works f s b l =
      let inside : leb total_sectors s ≡ false = ground arith in
      rw inside (works.reads f.disk ((f.fs_start_lba + s) % 2 ^ 32) b)

module _ {Disk : Type 0} {ata : Ata Disk} {sector_at : Disk → ℕ → Sector}
    (law : IsDisk ata sector_at) (works : IsWorking ata) {m : ℕ → Sector} where
  cache_writeback-works :
      (f : DiskFs Disk) (i : ℕ)
      → i < cache_slots
      → Shows sector_at m f
      → (cache_writeback ata i f).0 ≡ true
  unfolding cache_writeback
  cache_writeback-works f i l s =
      elim (Bool-cases (not (entry_at f i).valid || not (entry_at f i).dirty)) [
        | inl idle ↦ rw idle refl
        | inr due ↦
            rw
              (
                due,
                raw_write_sector-works works f (entry_at f i).sector (entry_at f i).bytes
                    (s.range i l (ground (arith, due))),
              )
              refl
      ]

  take_slot-works :
      (f : DiskFs Disk) (i s : ℕ) (for_write : Bool)
      → i < cache_slots
      → s < total_sectors
      → Shows sector_at m f
      → is_some (take_slot ata i s for_write f).0 ≡ true
  unfolding take_slot fill_slot
  take_slot-works f i s for_write l b shows =
      let g : DiskFs Disk = (cache_writeback ata i f).1 in
      rw (cache_writeback-works f i l shows, raw_read_sector-works works g s (entry_at g i).bytes b)
        refl

  cache_get-works :
      (f : DiskFs Disk) (s : ℕ) (for_write : Bool)
      → s < total_sectors
      → Shows sector_at m f
      → is_some (cache_get ata s for_write f).0 ≡ true
  unfolding cache_get
  cache_get-works f s for_write b shows =
      elim (find_slot cache_slots 0 f.cache s)
        as (λ r.
          is_some
            (elim r as (λ x. Option ℕ × DiskFs Disk) [
              | some i ↦ (
                some i,
                use_slot i for_write (record f { cache_clock = (f.cache_clock + 1) % 2 ^ 32 }),
              )
              | none ↦
                  take_slot ata (f.cache_clock % cache_slots) s for_write
                    (record f { cache_clock = (f.cache_clock + 1) % 2 ^ 32 })
            ]).0
          ≡ true) [
            | some i ↦ refl
            | none ↦
                take_slot-works (record f { cache_clock = (f.cache_clock + 1) % 2 ^ 32 })
                  (f.cache_clock % cache_slots) s for_write (omega arith) b
                  (ticked-Shows law f shows)
          ]

  pub write_sector-works :
      (f : DiskFs Disk) (s : ℕ) (b : Sector)
      → s < total_sectors
      → Shows sector_at m f
      → (write_sector ata s b f).0 ≡ true
  unfolding write_sector
  write_sector-works f s b l shows = go (cache_get ata s true f) (cache_get-works f s true l shows)
    where
      go : (got : Option ℕ × DiskFs Disk) → is_some got.0 ≡ true → (store b got).0 ≡ true
      go (some i, g) h = refl
      go (none, g) h = h

  pub read_sector-works :
      (f : DiskFs Disk) (s : ℕ)
      → s < total_sectors
      → Shows sector_at m f
      → (read_sector ata s f).0 ≡ some (m s)
  unfolding read_sector
  read_sector-works f s l shows =
      go (cache_get ata s false f) (cache_get-works f s false l shows)
        (read_sector-Shows law f s shows).1
    where
      go :
          (got : Option ℕ × DiskFs Disk)
          → is_some got.0 ≡ true
          → ((b : Sector) → (fetch got).0 ≡ some b → b ≡ m s)
          → (fetch got).0 ≡ some (m s)
      go (some i, g) h k = ap some (k (entry_at g i).bytes refl)
      go (none, g) h k = ground (arith, h)

module _ {Disk : Type 0} {ata : Ata Disk} {sector_at : Disk → ℕ → Sector}
    (law : IsDisk ata sector_at) (works : IsWorking ata) {m : ℕ → Sector} where
  -- On a disk on which no access ever fails, for a sector of the volume and a valid cache: a write
  -- succeeds, and the read of the sector behind it succeeds and gives the bytes written.
  pub read_sector-write_sector :
      (f : DiskFs Disk) (s : ℕ) (b : Sector)
      → s < total_sectors
      → Shows sector_at m f
      → ((write_sector ata s b f).0 ≡ true)
        × ((read_sector ata s (write_sector ata s b f).1).0 ≡ some b)
  read_sector-write_sector f s b l shows =
      let ok = write_sector-works law works f s b l shows in
      (
        ok,
        read_sector-works law works (write_sector ata s b f).1 s l
              ((write_sector-Shows law f s b shows).0 ok)
            ∙ ap some (with_sector_same m s s b refl),
      )

  flush_slots-works :
      (n i : ℕ) (f : DiskFs Disk)
      → i + n ≤ cache_slots
      → Shows sector_at m f
      → (flush_slots ata n i f).0 ≡ true
  unfolding flush_slots
  flush_slots-works zero i f l shows = refl
  flush_slots-works (suc n) i f l shows =
      let first = cache_writeback-works law works f i (omega arith) shows in
      let w = cache_writeback-Written law f i shows (omega arith) in
      let rest = flush_slots-works n (i + 1) (cache_writeback ata i f).1 (omega arith) w.shows in
      rw (first, rest) refl

  pub diskfs_flush-works : (f : DiskFs Disk) → Shows sector_at m f → (diskfs_flush ata f).0 ≡ true
  unfolding diskfs_flush
  diskfs_flush-works f shows = flush_slots-works cache_slots 0 f (omega arith) shows
