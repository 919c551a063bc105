-- ===== src/Files.antt =====
-- Files of the file system, kernel/fs/diskfs/diskfs.c: reading and writing them, their names, and
-- what goes to the disk with that. A function takes the volume and gives its result with the volume
-- behind it; a read or write of the caller's memory is a list.
pub mod Quiet
pub mod Reading
pub mod Settled
pub mod Writing
pub mod RoundTrip
pub mod Settles
use myos_gui_desktop.Base.{
  ℕ, zero, suc, ◌+◌, ◌-◌, ◌*◌, ◌/◌, ◌%◌, ◌^◌, Bool, true, false, not, ◌&&◌, ◌||◌, Option, none,
  some, List, [], ◌∷◌, ◌++◌,
}
use myos_gui_desktop.Base.Tests.{ltb, leb, ◌==◌, if◌then◌else◌}
use myos_gui_desktop.Base.Lists.{length, get_or, set, replicate, take, drop}
use myos_gui_desktop.Strings.{bytes_of}
use myos_gui_desktop.DiskFs.{Ata, DiskFs, Sector, read_sector, write_sector, diskfs_flush}
use myos_gui_desktop.Volume.{
  Superblock, Inode, Space, Volume, zero_inode, inode_at, put_inode, sector_size, inode_size,
  root_inode, max_inodes, type_file, type_dir, sectors_for_size, alloc_inode, alloc_contiguous,
  free_extent,
}
use myos_gui_desktop.Paths.{
  inode_name_valid, path_max, find_child, ensure_parent_dir, diskfs_find_file,
}

-- `DISKFS_MAX_FILE_SIZE`, `DISKFS_READ_BUFFER_SIZE` and `DISKFS_JOURNAL_MAGIC`.
abbrev pub max_file_size : ℕ
max_file_size = 1048576

abbrev pub read_buffer_size : ℕ
read_buffer_size = 16384

abbrev pub journal_magic : ℕ
journal_magic = 0x324e524a

-- The bytes of an unsigned number, lowest first.
abbrev pub le : (width value : ℕ) → List ℕ
le zero value = []
le (suc width) value = value % 256 ∷ le width (value / 256)

-- The packed structures in memory.
unfoldable pub superblock_bytes : Superblock → List ℕ
superblock_bytes b =
    le 4 b.magic
    ++ le 4 b.total
    ++ le 4 b.inode_limit
    ++ le 4 b.inode_count
    ++ le 4 b.bitmap_start
    ++ le 4 b.bitmap_sectors
    ++ le 4 b.inode_start
    ++ le 4 b.inode_sectors
    ++ le 4 b.data_start
    ++ le 4 b.journal_state

unfoldable pub inode_bytes : Inode → List ℕ
inode_bytes e =
    le 1 e.kind
    ++ le 1 e.reserved0
    ++ le 2 e.flags
    ++ le 4 e.size
    ++ le 4 e.first_sector
    ++ le 4 e.sector_count
    ++ le 4 e.parent
    ++ e.name
    ++ e.reserved

-- One round of the loop of `write_file_data`: the sector of the bytes from `offset` on, with zeros
-- behind the last byte.
unfoldable pub data_sector : (size offset : ℕ) → List ℕ → Sector
data_sector size offset input =
    let chunk = if ltb offset size then size - offset else 0 in
    let cut = if ltb sector_size chunk then sector_size else chunk in
    bytes_of cut (drop offset input) ++ replicate (sector_size - cut) 0

-- One round of the loop of `rebuild_file_list`: the name as the loops write it, cut to the buffer.
unfoldable pub listed_name : Space → Inode → List ℕ
listed_name s e =
    let dir = inode_at s e.parent in
    let start = b'/' ∷ [] in
    let with_dir = copy_text start dir.name in
    let slashed =
      if ltb (length with_dir + 1) path_max then with_dir ++ (b'/' ∷ []) else with_dir in
    copy_text (if not (e.parent == root_inode) && (dir.kind == type_dir) then slashed else start)
      e.name
  where
    copy_text : List ℕ → List ℕ → List ℕ
    copy_text out [] = out
    copy_text out (c ∷ text) =
        if not (c == 0) && ltb (length out + 1) path_max
        then copy_text (out ++ (c ∷ [])) text
        else out

-- The loop of `rebuild_file_list`, `n` inodes from `i` on.
unfoldable pub listed : (n i : ℕ) → Space → List (ℕ × List ℕ)
listed zero i s = []
listed (suc n) i s =
    let rest = listed n (i + 1) s in
    if not (ltb i s.superblock.inode_count)
    then []
    else if (inode_at s i).kind == type_file
    then (i, listed_name s (inode_at s i)) ∷ rest
    else rest

module _ {Disk : Type 0} where
  unfoldable pub rebuild_file_list : Volume Disk → Volume Disk
  rebuild_file_list v = record v { files = listed max_inodes 0 v.space }

  -- What the shell asks about the files. A name is the bytes in front of its end.
  pub diskfs_is_available : Volume Disk → Bool
  diskfs_is_available v = v.available

  pub diskfs_file_count : Volume Disk → ℕ
  diskfs_file_count v = length v.files

  pub diskfs_file_name : ℕ → Volume Disk → List ℕ
  diskfs_file_name index v =
      if ltb index (diskfs_file_count v) then (get_or v.files index (0, [])).1 else []

  pub diskfs_file_size : ℕ → Volume Disk → ℕ
  diskfs_file_size index v =
      if leb (diskfs_file_count v) index
      then 0
      else (inode_at v.space (get_or v.files index (0, [])).0).size

  pub diskfs_index_size : ℕ → Volume Disk → ℕ
  diskfs_index_size index v =
      if leb v.space.superblock.inode_count index
        || not ((inode_at v.space index).kind == type_file)
      then 0
      else (inode_at v.space index).size

  -- `a && b` of two calls.
  infixr 30 ◌&>◌
  abbrev pub ◌&>◌ :
      (Volume Disk → Bool × Volume Disk)
      → (Volume Disk → Bool × Volume Disk)
      → Volume Disk
      → Bool × Volume Disk
  (a &> b) v = let done = a v in if done.0 then b done.1 else done

  -- A call of the cache.
  abbrev pub on_sectors :
      {A : Type 0} → (DiskFs Disk → A × DiskFs Disk) → Volume Disk → A × Volume Disk
  on_sectors call v = let done = call v.sectors in (done.0, record v { sectors = done.1 })

module _ {Disk : Type 0} (ata : Ata Disk) where
  unfoldable pub flush : Volume Disk → Bool × Volume Disk
  flush = on_sectors (diskfs_flush ata)

  unfoldable pub write_bitmap : Volume Disk → Bool × Volume Disk
  write_bitmap v =
      (on_sectors (write_sector ata v.space.superblock.bitmap_start v.space.bitmap) &> flush) v

  unfoldable pub write_inode : ℕ → Volume Disk → Bool × Volume Disk
  write_inode index v =
      let per_sector = sector_size / inode_size in
      let sector_index = v.space.superblock.inode_start + index / per_sector in
      let offset = index % per_sector * inode_size in
      let got = on_sectors (read_sector ata sector_index) v in
      elim (got.0) [
        | none ↦ (false, got.1)
        | some sector ↦
            let bytes =
              take offset sector
              ++ inode_bytes (inode_at v.space index)
              ++ drop (offset + inode_size) sector in
            (on_sectors (write_sector ata sector_index bytes) &> flush) got.1
      ]

  unfoldable pub write_superblock : Volume Disk → Bool × Volume Disk
  write_superblock v =
      let bytes = superblock_bytes v.space.superblock ++ replicate (sector_size - 40) 0 in
      (on_sectors (write_sector ata 0 bytes) &> flush) v

  unfoldable pub write_journal : ℕ → Volume Disk → Bool × Volume Disk
  write_journal state v =
      let bytes = le 4 journal_magic ++ le 4 state ++ replicate (sector_size - 8) 0 in
      let marked = record v.space {
        superblock = record v.space.superblock { journal_state = state };
      } in
      (on_sectors (write_sector ata 1 bytes) &> write_superblock) (record v { space = marked })

  unfoldable pub begin_transaction : Volume Disk → Bool × Volume Disk
  begin_transaction = write_journal 1

  unfoldable pub commit_transaction : Volume Disk → Bool × Volume Disk
  commit_transaction = write_journal 0

  -- The loop of `write_file_data`, `n` sectors from `s` on.
  unfoldable pub write_sectors :
      (n s first_sector : ℕ) → List ℕ → (size : ℕ) → Volume Disk → Bool × Volume Disk
  write_sectors zero s first_sector buffer size v = (true, v)
  write_sectors (suc n) s first_sector buffer size v =
      (on_sectors (
            write_sector ata ((first_sector + s) % 2 ^ 32)
              (data_sector size (s * sector_size) buffer))
          &> write_sectors n (s + 1) first_sector buffer size)
        v

  unfoldable pub write_file_data : ℕ → List ℕ → ℕ → Volume Disk → Bool × Volume Disk
  write_file_data first_sector buffer size =
      write_sectors (sectors_for_size size) 0 first_sector buffer size &> flush

  -- The loop of `diskfs_read_index`, with the bytes read before. Every round reads a byte at least,
  -- so one round for each byte is enough; `Files.Reading` shows it.
  unfoldable pub read_bytes :
      (fuel : ℕ) → Inode → (offset size : ℕ) → List ℕ → DiskFs Disk → (Bool × List ℕ) × DiskFs Disk
  read_bytes zero e offset size out f = ((true, out), f)
  read_bytes (suc fuel) e offset size out f =
      let absolute = (offset + length out) % 2 ^ 32 in
      let sector_offset = absolute % sector_size in
      let chunk = sector_size - sector_offset in
      let cut = if ltb (size - length out) chunk then size - length out else chunk in
      let got = read_sector ata ((e.first_sector + absolute / sector_size) % 2 ^ 32) f in
      if leb size (length out) then ((true, out), f) else elim (got.0) [
        | none ↦ ((false, out), got.1)
        | some sector ↦
            read_bytes fuel e offset size (out ++ bytes_of cut (drop sector_offset sector)) got.1
      ]

  -- The result, and the bytes that the buffer gets. `bytes_read` is their number if the result is
  -- true, and 0 otherwise. For a buffer that is no null pointer.
  unfoldable pub diskfs_read_index :
      (index offset size : ℕ) → Volume Disk → (Bool × List ℕ) × Volume Disk
  diskfs_read_index index offset size v =
      let e = inode_at v.space index in
      let remaining = e.size - offset in
      let cut = if ltb remaining size then remaining else size in
      if not v.available || leb v.space.superblock.inode_count index || not (e.kind == type_file)
      then ((false, []), v)
      else if leb e.size offset || (size == 0)
      then ((true, []), v)
      else on_sectors (read_bytes cut e offset cut []) v
