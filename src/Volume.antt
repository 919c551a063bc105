-- ===== src/Volume.antt =====
-- The tables of the file system, kernel/fs/diskfs/diskfs.c: the superblock, the inodes and the
-- bitmap of sectors, with the operations that change them. `Volume` is the static variables of the
-- file, with the sector cache `DiskFs` among them.
pub mod Alloc
pub mod Layout
pub mod Change
mod Tests
use myos_gui_desktop.Base.{
  ℕ, zero, suc, ◌+◌, ◌-◌, ◌/◌, ◌%◌, ◌^◌, Bool, true, false, not, ◌&&◌, ◌||◌, Option, none, some,
  List, [], ◌∷◌,
}
use myos_gui_desktop.Base.Tests.{ltb, leb, ◌==◌, if◌then◌else◌}
use myos_gui_desktop.Base.Lists.{get_or, set, replicate}
use myos_gui_desktop.Base.Bitmap.{Words, test_bit, set_bit, clear_bit}
use myos_gui_desktop.Base.Runs.{set_bits}
use myos_gui_desktop.DiskFs.{DiskFs}

abbrev pub sector_size : ℕ
sector_size = 512

abbrev pub max_inodes : ℕ
max_inodes = 64

abbrev pub inode_size : ℕ
inode_size = 64

abbrev pub bitmap_bytes : ℕ
bitmap_bytes = 512

abbrev pub root_inode : ℕ
root_inode = 0

-- `DISKFS_TYPE_FILE` and `DISKFS_TYPE_DIR`; 0 is a free inode.
abbrev pub type_file : ℕ
type_file = 1

abbrev pub type_dir : ℕ
type_dir = 2

-- The fields `total_sectors` and `max_inodes` are `total` and `inode_limit` here.
pub record Superblock : Type 0 where
  pub magic : ℕ
  pub total : ℕ
  pub inode_limit : ℕ
  pub inode_count : ℕ
  pub bitmap_start : ℕ
  pub bitmap_sectors : ℕ
  pub inode_start : ℕ
  pub inode_sectors : ℕ
  pub data_start : ℕ
  pub journal_state : ℕ

-- `name` and `reserved` are the bytes of the arrays.
pub record Inode : Type 0 where
  pub kind : ℕ
  pub reserved0 : ℕ
  pub flags : ℕ
  pub size : ℕ
  pub first_sector : ℕ
  pub sector_count : ℕ
  pub parent : ℕ
  pub name : List ℕ
  pub reserved : List ℕ

-- What `mem_zero` makes of an inode.
abbrev pub zero_inode : Inode
zero_inode = record {
  kind = 0;
  reserved0 = 0;
  flags = 0;
  size = 0;
  first_sector = 0;
  sector_count = 0;
  parent = 0;
  name = replicate 32 0;
  reserved = replicate 12 0;
}

-- The tables in memory: what says which sector belongs to which file.
pub record Space : Type 0 where
  pub superblock : Superblock
  pub inodes : List Inode
  pub bitmap : Words

-- `files` is `file_indices` and `file_names` up to `visible_file_count`, and a name is the bytes in
-- front of its end.
pub record Volume (Disk : Type 0) : Type 0 where
  pub sectors : DiskFs Disk
  pub available : Bool
  pub space : Space
  pub files : List (ℕ × List ℕ)
  pub file_buffer : List ℕ

-- `inodes[i]`.
abbrev pub inode_at : Space → ℕ → Inode
inode_at s i = get_or s.inodes i zero_inode

abbrev pub put_inode : ℕ → Inode → Space → Space
put_inode i e s = record s { inodes = set s.inodes i e }

unfoldable pub bitmap_get : Words → ℕ → Bool
bitmap_get = test_bit 8

unfoldable pub bitmap_set : Words → ℕ → Bool → Words
bitmap_set words sector used = if used then set_bit 8 words sector else clear_bit 8 words sector

unfoldable pub sectors_for_size : ℕ → ℕ
sectors_for_size size =
    let sectors = (size + sector_size - 1) % 2 ^ 32 / sector_size in
    if sectors == 0 then 1 else sectors

-- The loop of `alloc_inode`, `n` inodes from `i` on.
unfoldable pub alloc_inode_from : ℕ → ℕ → Space → Option ℕ × Space
alloc_inode_from zero i s = (none, s)
alloc_inode_from (suc n) i s =
    let rest = alloc_inode_from n (i + 1) s in
    if leb s.superblock.inode_count i
    then (some i, record s { superblock = record s.superblock { inode_count = i + 1 } })
    else if (inode_at s i).kind == 0
    then (some i, s)
    else rest

unfoldable pub alloc_inode : Space → Option ℕ × Space
alloc_inode = alloc_inode_from (max_inodes - 1) 1

-- The search of `alloc_contiguous`, `n` sectors from `sector` on.
unfoldable pub find_run : (n sectors : ℕ) → Words → (sector run_start run_len : ℕ) → Option ℕ
find_run zero sectors words sector run_start run_len = none
find_run (suc n) sectors words sector run_start run_len =
    let start = if run_len == 0 then sector else run_start in
    let longer = find_run n sectors words (sector + 1) start (run_len + 1) in
    let again = find_run n sectors words (sector + 1) run_start 0 in
    if not (bitmap_get words sector)
    then (if run_len + 1 == sectors then some start else longer)
    else again

unfoldable pub alloc_contiguous : ℕ → Space → Option ℕ × Space
alloc_contiguous sectors s =
    let start = s.superblock.data_start in
    elim (find_run (s.superblock.total - start) sectors s.bitmap start start 0) [
      | some first ↦ (some first, record s { bitmap = set_bits 8 sectors first s.bitmap })
      | none ↦ (none, s)
    ]

-- The loop of `free_extent`, from its round `i` on.
pub free_from : (n i first total : ℕ) → Words → Words
free_from zero i first total words = words
free_from (suc n) i first total words =
    if ltb ((first + i) % 2 ^ 32) total
    then free_from n (i + 1) first total (bitmap_set words ((first + i) % 2 ^ 32) false)
    else words

unfoldable pub free_extent : (first sectors : ℕ) → Space → Space
free_extent first sectors s = record s {
  bitmap = free_from sectors 0 first s.superblock.total s.bitmap;
}
