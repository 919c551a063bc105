-- ===== src/DiskFs/View.antt =====
-- What the cache and the disk stand for together: a map from sectors to their bytes.
use myos_gui_desktop.Base.{ℕ, ◌+◌, ◌^◌, ◌≤◌, ◌<◌, ◌≡◌, ◌≢◌, true}
use myos_gui_desktop.Base.Tests.{◌==◌, if◌then◌else◌}
use myos_gui_desktop.Base.Lists.{length}
use myos_gui_desktop.DiskFs.{Sector, Ata, DiskFs, entry_at, total_sectors, cache_slots}

-- What a disk does, where `sector_at` is what it holds: a read that succeeds gives the bytes of the
-- sector, a write that succeeds changes this sector, and one that fails no other. The driver
-- keeps 28 bits of a sector's number, so this is what it does with numbers below 2^28.
pub record IsDisk {Disk : Type 0} (ata : Ata Disk) (sector_at : Disk → ℕ → Sector) : Type 0 where
  pub read :
      (d : Disk) (s : ℕ) (b : Sector)
      → (ata.ata_read_sector d s b).0 ≡ true
      → (ata.ata_read_sector d s b).1 ≡ sector_at d s
  pub write :
      (d : Disk) (s : ℕ) (b : Sector)
      → (ata.ata_write_sector d s b).0 ≡ true
      → sector_at (ata.ata_write_sector d s b).1 s ≡ b
  pub others :
      (d : Disk) (s t : ℕ) (b : Sector)
      → s ≢ t
      → sector_at (ata.ata_write_sector d s b).1 t ≡ sector_at d t

-- A slot holds bytes of a sector that the disk may not have.
abbrev pub HoldsDirty : {Disk : Type 0} → DiskFs Disk → (i s : ℕ) → Type 0
HoldsDirty f i s =
    ((entry_at f i).valid ≡ true) × ((entry_at f i).dirty ≡ true) × ((entry_at f i).sector ≡ s)

-- The cache over the disk shows `m`.
pub record Shows {Disk : Type 0} (sector_at : Disk → ℕ → Sector) (m : ℕ → Sector) (f : DiskFs Disk)
    : Type 0 where
  pub size : length f.cache ≡ cache_slots
  pub lba : f.fs_start_lba + total_sectors ≤ 2 ^ 32
  pub range :
      (i : ℕ)
      → i < cache_slots
      → (entry_at f i).valid ≡ true
      → (entry_at f i).sector < total_sectors
  pub apart :
      (i j : ℕ)
      → i < cache_slots
      → j < cache_slots
      → (entry_at f i).valid ≡ true
      → (entry_at f j).valid ≡ true
      → (entry_at f i).sector ≡ (entry_at f j).sector
      → i ≡ j
  pub cached :
      (i : ℕ)
      → i < cache_slots
      → (entry_at f i).valid ≡ true
      → (entry_at f i).bytes ≡ m (entry_at f i).sector
  pub backed :
      (s : ℕ)
      → s < total_sectors
      → ((i : ℕ) → i < cache_slots → ¬ HoldsDirty f i s)
      → sector_at f.disk (f.fs_start_lba + s) ≡ m s

-- `m` with other bytes for one sector.
abbrev pub with_sector : (ℕ → Sector) → ℕ → Sector → ℕ → Sector
with_sector m s b t = if s == t then b else m t
