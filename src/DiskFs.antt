-- ===== src/DiskFs.antt =====
-- The sector cache of the file system, kernel/fs/diskfs/diskfs.c: eight slots, written back when
-- they are taken for another sector. The disk is behind port I/O: `Ata` has the two functions that
-- the code calls. A buffer is what it holds, and a slot is its index.
pub mod View
pub mod Slots
pub mod Writeback
pub mod Find
pub mod Fill
pub mod Get
pub mod Working
mod Tests
use myos_gui_desktop.Base.{
  ℕ, zero, suc, ◌+◌, ◌%◌, ◌^◌, Bool, true, false, not, ◌&&◌, ◌||◌, Option, none, some, List, [],
  ◌∷◌,
}
use myos_gui_desktop.Base.Tests.{leb, ◌==◌, if◌then◌else◌}
use myos_gui_desktop.Base.Lists.{get_or, set}

-- `DISKFS_TOTAL_SECTORS` and `DISKFS_CACHE_SLOTS`.
abbrev pub total_sectors : ℕ
total_sectors = 4096

abbrev pub cache_slots : ℕ
cache_slots = 8

-- The bytes of a sector.
abbrev pub Sector : Type 0
Sector = List ℕ

-- What the code calls: a read of a sector into a buffer, with what the buffer holds afterwards, and
-- a write, with the disk afterwards.
pub record Ata (Disk : Type 0) : Type 0 where
  pub ata_read_sector : Disk → ℕ → Sector → Bool × Sector
  pub ata_write_sector : Disk → ℕ → Sector → Bool × Disk

pub record CacheEntry : Type 0 where
  pub valid : Bool
  pub dirty : Bool
  pub sector : ℕ
  pub bytes : Sector

abbrev pub no_entry : CacheEntry
no_entry = record { valid = false; dirty = false; sector = 0; bytes = [] }

pub record DiskFs (Disk : Type 0) : Type 0 where
  pub disk : Disk
  pub fs_start_lba : ℕ
  pub cache : List CacheEntry
  pub cache_clock : ℕ

-- `cache[i]`.
abbrev pub entry_at : {Disk : Type 0} → DiskFs Disk → ℕ → CacheEntry
entry_at f i = get_or f.cache i no_entry

abbrev pub put_entry : {Disk : Type 0} → ℕ → CacheEntry → DiskFs Disk → DiskFs Disk
put_entry i e f = record f { cache = set f.cache i e }

-- The loop of `cache_get`: the first of the `n` slots from `i` on that holds the sector.
unfoldable pub find_slot : ℕ → ℕ → List CacheEntry → ℕ → Option ℕ
find_slot zero i cache sector = none
find_slot (suc n) i cache sector =
    let e = get_or cache i no_entry in
    let rest = find_slot n (i + 1) cache sector in
    if e.valid && (e.sector == sector) then some i else rest

-- A hit.
unfoldable pub use_slot : {Disk : Type 0} → (i : ℕ) → Bool → DiskFs Disk → DiskFs Disk
use_slot i for_write f =
    if for_write then put_entry i (record (entry_at f i) { dirty = true }) f else f

module _ {Disk : Type 0} (ata : Ata Disk) where
  unfoldable pub raw_read_sector : ℕ → Sector → DiskFs Disk → Bool × Sector
  raw_read_sector relative_sector buffer f =
      if leb total_sectors relative_sector
      then (false, buffer)
      else ata.ata_read_sector f.disk ((f.fs_start_lba + relative_sector) % 2 ^ 32) buffer

  unfoldable pub raw_write_sector : ℕ → Sector → DiskFs Disk → Bool × DiskFs Disk
  raw_write_sector relative_sector buffer f =
      if leb total_sectors relative_sector
      then (false, f)
      else (let w =
            ata.ata_write_sector f.disk ((f.fs_start_lba + relative_sector) % 2 ^ 32) buffer in
          (w.0, record f { disk = w.1 }))

  unfoldable pub cache_writeback : ℕ → DiskFs Disk → Bool × DiskFs Disk
  cache_writeback i f =
      let e = entry_at f i in
      let w = raw_write_sector e.sector e.bytes f in
      if not e.valid || not e.dirty
      then (true, f)
      else if not w.0
      then (false, w.1)
      else (true, put_entry i (record e { dirty = false }) w.1)

  -- The part of `cache_get` behind the write-back: the slot is filled from the disk.
  unfoldable pub fill_slot : (victim sector : ℕ) → Bool → DiskFs Disk → Option ℕ × DiskFs Disk
  fill_slot victim sector for_write f =
      let e = entry_at f victim in
      let r = raw_read_sector sector e.bytes f in
      if not r.0 then (none, put_entry victim (record e { valid = false; bytes = r.1 }) f) else (
        some victim,
        put_entry victim (record { valid = true; dirty = for_write; sector = sector; bytes = r.1 })
            f,
      )

  -- A miss: the slot whose turn it is is written back and filled.
  unfoldable pub take_slot : (victim sector : ℕ) → Bool → DiskFs Disk → Option ℕ × DiskFs Disk
  take_slot victim sector for_write f =
      let w = cache_writeback victim f in
      if not w.0 then (none, w.1) else fill_slot victim sector for_write w.1

  unfoldable pub cache_get : (sector : ℕ) → Bool → DiskFs Disk → Option ℕ × DiskFs Disk
  cache_get sector for_write f =
      let victim = f.cache_clock % cache_slots in
      let f' = record f { cache_clock = (f.cache_clock + 1) % 2 ^ 32 } in
      elim (find_slot cache_slots 0 f.cache sector) [
        | some i ↦ (some i, use_slot i for_write f')
        | none ↦ take_slot victim sector for_write f'
      ]

  -- The bytes read, if the read succeeds.
  unfoldable pub read_sector : ℕ → DiskFs Disk → Option Sector × DiskFs Disk
  read_sector relative_sector f =
      let got = cache_get relative_sector false f in
      elim (got.0) [ some i ↦ (some (entry_at got.1 i).bytes, got.1) | none ↦ (none, got.1) ]

  unfoldable pub write_sector : ℕ → Sector → DiskFs Disk → Bool × DiskFs Disk
  write_sector relative_sector buffer f =
      let got = cache_get relative_sector true f in
      elim (got.0) [
        | some i ↦ (true, put_entry i (record (entry_at got.1 i) { bytes = buffer }) got.1)
        | none ↦ (false, got.1)
      ]

  -- The loop of `diskfs_flush` over the `n` slots from `i` on.
  unfoldable pub flush_slots : ℕ → ℕ → DiskFs Disk → Bool × DiskFs Disk
  flush_slots zero i f = (true, f)
  flush_slots (suc n) i f =
      let w = cache_writeback i f in let rest = flush_slots n (i + 1) w.1 in (w.0 && rest.0, rest.1)

  unfoldable pub diskfs_flush : DiskFs Disk → Bool × DiskFs Disk
  diskfs_flush = flush_slots cache_slots 0
