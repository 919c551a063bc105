-- ===== src/DiskFs/Tests.antt =====
-- The cache over a small disk, and the theorems there.
use myos_gui_desktop.Base.{ℕ, ◌+◌, ◌<◌, ◌≡◌, refl, true, false, some, [], ◌∷◌, arith}
use myos_gui_desktop.Base.Tests.{◌==◌, if◌then◌else◌}
use myos_gui_desktop.Base.Lists.{replicate, length-replicate, get_or-replicate}
use myos_gui_desktop.DiskFs.{
  Sector, Ata, DiskFs, no_entry, total_sectors, read_sector, write_sector, diskfs_flush, cache_get,
  find_slot, take_slot, cache_writeback, fill_slot, raw_read_sector, raw_write_sector, flush_slots,
}
use myos_gui_desktop.DiskFs.View.{IsDisk, Shows, with_sector}
use myos_gui_desktop.DiskFs.Get.{write_sector-Shows}
use myos_gui_desktop.DiskFs.Writeback.{diskfs_flush-Shows}
use myos_gui_desktop.DiskFs.Working.{IsWorking, read_sector-write_sector}

-- A disk as the map that it holds.
abbrev Disk : Type 0
Disk = ℕ → Sector

ata : Ata Disk
ata = record {
  ata_read_sector = λ d s b. (true, d s);
  ata_write_sector = λ d s b. (true, λ t. if s == t then b else d t);
}

abbrev sector_at : Disk → ℕ → Sector
sector_at d s = d s

ata-IsDisk : IsDisk ata sector_at
unfolding ata
ata-IsDisk = record {
  read = λ d s b h. refl;
  write = λ d s b h. (let yes : (s == s) ≡ true = ground arith in rw yes);
  others = λ d s t b h. (let no : (s == t) ≡ false = ground arith in rw no);
}

ata-IsWorking : IsWorking ata
unfolding ata
ata-IsWorking = record { reads = λ d s b. refl; writes = λ d s b. refl }

-- The start: an empty cache, over sectors that hold their own number.
start : DiskFs Disk
start = record {
  disk = λ s. s ∷ [];
  fs_start_lba = 2048;
  cache = replicate 8 no_entry;
  cache_clock = 0;
}

abbrev shown : ℕ → Sector
shown s = (2048 + s) ∷ []

start-Shows : Shows sector_at shown start
unfolding start
start-Shows = record {
  size = length-replicate 8 no_entry;
  lba = omega arith;
  range = λ i l. rw (get_or-replicate 8 no_entry no_entry i l) (λ v. ground (arith, v));
  apart = λ i j l k. rw (get_or-replicate 8 no_entry no_entry i l) (λ v. ground (arith, v));
  cached = λ i l. rw (get_or-replicate 8 no_entry no_entry i l) (λ v. ground (arith, v));
  backed = λ s l clean. refl;
}

-- A sector that is written stays in the cache, and is not yet on the disk.
dirty : DiskFs Disk
dirty = (write_sector ata 3 (7 ∷ []) start).1

dirty-Shows : Shows sector_at (with_sector shown 3 (7 ∷ [])) dirty
unfolding dirty
dirty-Shows =
    (write_sector-Shows ata-IsDisk start 3 (7 ∷ []) start-Shows).0
      (read_sector-write_sector ata-IsDisk ata-IsWorking start 3 (7 ∷ []) (omega arith)
        start-Shows).0

-- The disk has the old bytes until the flush.
unflushed : dirty.disk 2051 ≡ 2051 ∷ []
unfolding dirty start ata replicate write_sector cache_get find_slot take_slot cache_writeback
    fill_slot raw_read_sector
unflushed = refl

flushed : (diskfs_flush ata dirty).1.disk 2051 ≡ 7 ∷ []
unfolding dirty start ata replicate write_sector cache_get find_slot take_slot cache_writeback
    fill_slot raw_read_sector raw_write_sector diskfs_flush flush_slots
flushed = refl

write_sector-Shows_example :
    ((write_sector ata 3 (9 ∷ []) dirty).0 ≡ true
      → Shows sector_at
          (with_sector (with_sector shown 3 (7 ∷ [])) 3 (9 ∷ []))
          (write_sector ata 3 (9 ∷ []) dirty).1)
    × ((write_sector ata 3 (9 ∷ []) dirty).0 ≡ false
        → Shows sector_at (with_sector shown 3 (7 ∷ [])) (write_sector ata 3 (9 ∷ []) dirty).1)
write_sector-Shows_example = write_sector-Shows ata-IsDisk dirty 3 (9 ∷ []) dirty-Shows

diskfs_flush-Shows_example :
    Shows sector_at (with_sector shown 3 (7 ∷ [])) (diskfs_flush ata dirty).1
    × ((diskfs_flush ata dirty).0 ≡ true
        → (s : ℕ) → s < total_sectors
        → sector_at (diskfs_flush ata dirty).1.disk ((diskfs_flush ata dirty).1.fs_start_lba + s)
          ≡ with_sector shown 3 (7 ∷ []) s)
diskfs_flush-Shows_example = diskfs_flush-Shows ata-IsDisk dirty dirty-Shows

read_sector-write_sector_example :
    ((write_sector ata 8 (1 ∷ []) dirty).0 ≡ true)
    × ((read_sector ata 8 (write_sector ata 8 (1 ∷ []) dirty).1).0 ≡ some (1 ∷ []))
read_sector-write_sector_example =
    read_sector-write_sector ata-IsDisk ata-IsWorking dirty 8 (1 ∷ []) (omega arith) dirty-Shows
