-- ===== src/Mount.antt =====
-- How a volume is mounted and checked, kernel/fs/diskfs/diskfs.c: `diskfs_initialize` and
-- `diskfs_validate`.
use myos_gui_desktop.Base.{
  ℕ, zero, suc, ◌+◌, ◌*◌, ◌/◌, ◌%◌, ◌^◌, Bool, true, false, not, ◌&&◌, ◌||◌, List, [],
}
use myos_gui_desktop.Base.Tests.{ltb, leb, ◌==◌, if◌then◌else◌}
use myos_gui_desktop.Base.Lists.{get_or, replicate, take, drop}
use myos_gui_desktop.DiskFs.{
  Ata, DiskFs, Sector, no_entry, raw_read_sector, total_sectors, cache_slots,
}
use myos_gui_desktop.Volume.{
  Superblock, Inode, Space, Volume, zero_inode, inode_at, put_inode, sector_size, inode_size,
  bitmap_bytes, root_inode, max_inodes, type_file, type_dir, sectors_for_size,
}
use myos_gui_desktop.Paths.{inode_name_valid}
use myos_gui_desktop.Files.{write_journal, rebuild_file_list}

abbrev pub diskfs_magic : ℕ
diskfs_magic = 0x3246594d

-- The number in `width` bytes, lowest first.
abbrev pub of_le : (width : ℕ) → List ℕ → ℕ
of_le zero bytes = 0
of_le (suc width) bytes = get_or bytes 0 0 + 256 * of_le width (drop 1 bytes)

-- The packed structures, read from memory.
pub superblock_of : List ℕ → Superblock
superblock_of bytes = record {
  magic = of_le 4 bytes;
  total = of_le 4 (drop 4 bytes);
  inode_limit = of_le 4 (drop 8 bytes);
  inode_count = of_le 4 (drop 12 bytes);
  bitmap_start = of_le 4 (drop 16 bytes);
  bitmap_sectors = of_le 4 (drop 20 bytes);
  inode_start = of_le 4 (drop 24 bytes);
  inode_sectors = of_le 4 (drop 28 bytes);
  data_start = of_le 4 (drop 32 bytes);
  journal_state = of_le 4 (drop 36 bytes);
}

pub inode_of : List ℕ → Inode
inode_of bytes = record {
  kind = of_le 1 bytes;
  reserved0 = of_le 1 (drop 1 bytes);
  flags = of_le 2 (drop 2 bytes);
  size = of_le 4 (drop 4 bytes);
  first_sector = of_le 4 (drop 8 bytes);
  sector_count = of_le 4 (drop 12 bytes);
  parent = of_le 4 (drop 16 bytes);
  name = take 32 (drop 20 bytes);
  reserved = take 12 (drop 52 bytes);
}

-- One round of the loop of `diskfs_validate`: the inode `i` passes.
pub inode_valid : Space → ℕ → Bool
inode_valid s i =
    let e = inode_at s i in
    let b = s.superblock in
    if e.kind == 0
    then true
    else if not (i == root_inode) && not (inode_name_valid e.name)
    then false
    else if not (i == root_inode) && leb b.inode_count e.parent
    then false
    else if e.kind == type_file
    then not (ltb e.first_sector b.data_start)
      && not (ltb b.total ((e.first_sector + e.sector_count) % 2 ^ 32))
      && (e.sector_count == sectors_for_size e.size)
    else true

-- The loop, `n` inodes from `i` on.
pub all_valid : (n i : ℕ) → Space → Bool
all_valid zero i s = true
all_valid (suc n) i s = if not (inode_valid s i) then false else all_valid n (i + 1) s

-- The result of `diskfs_validate` when the volume is available.
pub tables_valid : Space → Bool
tables_valid s =
    let b = s.superblock in
    if not (b.magic == diskfs_magic)
      || not (b.total == total_sectors)
      || ltb max_inodes b.inode_count
      || not ((inode_at s root_inode).kind == type_dir)
    then false
    else all_valid b.inode_count 0 s

pub diskfs_validate : {Disk : Type 0} → Volume Disk → Bool
diskfs_validate v = if not v.available then false else tables_valid v.space

-- The inner loop over the inodes of a sector, `n` of them from `i` on.
pub copy_inodes : (n i base : ℕ) → Sector → Space → Space
copy_inodes zero i base sector s = s
copy_inodes (suc n) i base sector s =
    if ltb ((base + i) % 2 ^ 32) max_inodes
    then copy_inodes n (i + 1) base sector
        (put_inode ((base + i) % 2 ^ 32) (inode_of (drop (i * inode_size) sector)) s)
    else s

abbrev pub zero_superblock : Superblock
zero_superblock = superblock_of []

-- The tables before anything is read.
abbrev pub zero_space : Space
zero_space = record {
  superblock = zero_superblock;
  inodes = replicate max_inodes zero_inode;
  bitmap = replicate bitmap_bytes 0;
}

module _ {Disk : Type 0} (ata : Ata Disk) where
  -- The loop over the sectors of inodes, `n` of them from `s` on. `sector` is the buffer before.
  pub read_inodes : (n s : ℕ) → Sector → DiskFs Disk → Space → Bool × Space
  read_inodes zero s sector f space = (true, space)
  read_inodes (suc n) s sector f space =
      let got = raw_read_sector ata ((space.superblock.inode_start + s) % 2 ^ 32) sector f in
      let base = s * (sector_size / inode_size) % 2 ^ 32 in
      if not got.0
      then (false, space)
      else read_inodes n (s + 1) got.1 f (copy_inodes (sector_size / inode_size) 0 base got.1 space)

  -- What is read from the disk, and whether all of it could be read. `sector` is the buffer before.
  pub read_tables : Sector → DiskFs Disk → Bool × Space
  read_tables sector f =
      let first = raw_read_sector ata 0 sector f in
      let b = superblock_of first.1 in
      let with_superblock = record zero_space { superblock = b } in
      let words = raw_read_sector ata b.bitmap_start with_superblock.bitmap f in
      if not first.0
      then (false, zero_space)
      else if not (b.magic == diskfs_magic)
          || ltb max_inodes b.inode_limit
          || not (b.bitmap_sectors == 1)
          || not (b.total == total_sectors)
      then (false, with_superblock)
      else if not words.0
      then (false, record with_superblock { bitmap = words.1 })
      else read_inodes b.inode_sectors 0 first.1 f (record with_superblock { bitmap = words.1 })

  -- `stack` is what the buffer on the stack happens to hold.
  pub diskfs_initialize : (stack : Sector) (start_lba : ℕ) → Volume Disk → Volume Disk
  diskfs_initialize stack start_lba v =
      let f = record v.sectors {
        fs_start_lba = start_lba;
        cache = replicate cache_slots no_entry;
      } in
      let got = read_tables stack f in
      let read = record v { sectors = f; available = got.0; space = got.1; files = [] } in
      let clean = (write_journal ata 0 read).1 in
      if not got.0
      then read
      else if not (diskfs_validate read)
      then record read { available = false }
      else if not (got.1.superblock.journal_state == 0)
      then rebuild_file_list clean
      else rebuild_file_list read
