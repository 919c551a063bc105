-- ===== src/FileOps.antt =====
-- The operations on files of kernel/fs/diskfs/diskfs.c that the shell and the system calls use:
-- write, delete, rename, truncate and read. No pointer that they get is null.
pub mod Tables
pub mod Made
pub mod Writes
pub mod Moves
pub mod Steps
pub mod Changes
pub mod Lookup
pub mod WriteRead
pub mod WriteFile
use myos_gui_desktop.Base.{
  ℕ, zero, suc, ◌+◌, ◌-◌, ◌%◌, ◌^◌, Bool, true, false, not, ◌&&◌, ◌||◌, Option, none, some, List,
  [], ◌∷◌, ◌++◌,
}
use myos_gui_desktop.Base.Tests.{ltb, leb, ◌==◌, if◌then◌else◌}
use myos_gui_desktop.Base.Lists.{length, replicate, take, drop}
use myos_gui_desktop.Strings.{kmemset}
use myos_gui_desktop.DiskFs.{Ata}
use myos_gui_desktop.Volume.{
  Inode, Space, Volume, zero_inode, inode_at, put_inode, type_file, sectors_for_size, alloc_inode,
  alloc_contiguous, free_extent,
}
use myos_gui_desktop.Paths.{
  name_max, inode_name_valid, find_child, ensure_parent_dir, diskfs_find_file,
}
use myos_gui_desktop.Files.{
  max_file_size, read_buffer_size, rebuild_file_list, ◌&>◌, write_bitmap, write_inode,
  write_superblock, begin_transaction, commit_transaction, write_file_data, diskfs_read_index,
}

-- The name in an inode, with zeros behind it.
unfoldable pub stored_name : List ℕ → List ℕ
stored_name leaf = take name_max leaf ++ replicate (32 - length (take name_max leaf)) 0

-- The part of `diskfs_write_file` that gives an existing file its new extent and size. `none` is no
-- room for it.
pub resize_extent : (index sectors size : ℕ) → Space → Option Space
resize_extent index sectors size s =
    let e = inode_at s index in
    let room = alloc_contiguous sectors s in
    if ltb e.sector_count sectors
    then elim (room.0) [
      | none ↦ none
      | some first ↦ some (
          put_inode index (record e { first_sector = first; sector_count = sectors; size = size })
            (free_extent e.first_sector e.sector_count room.1))
    ]
    else if ltb sectors e.sector_count
    then some (
        put_inode index (record e { sector_count = sectors; size = size })
          (free_extent ((e.first_sector + sectors) % 2 ^ 32) (e.sector_count - sectors) s))
    else some (put_inode index (record e { size = size }) s)

-- The part that makes a new file: its index, and the tables behind it.
unfoldable pub create_inode :
    (parent : ℕ) (leaf : List ℕ) (sectors size : ℕ) → Space → Option ℕ × Space
create_inode parent leaf sectors size s =
    let index = alloc_inode s in
    let room = alloc_contiguous sectors index.1 in
    elim (index.0) [
      | none ↦ (none, index.1)
      | some i ↦ elim (room.0) [
        | none ↦ (none, room.1)
        | some first ↦ (
          some i,
          put_inode i
              (record zero_inode {
                kind = type_file;
                parent = parent;
                size = size;
                first_sector = first;
                sector_count = sectors;
                name = stored_name leaf;
              })
              room.1,
        )
      ]
    ]

module _ {Disk : Type 0} where
  -- The end of every change: `rebuild_file_list(); return commit_transaction();`
  abbrev pub finish : Ata Disk → Volume Disk → Bool × Volume Disk
  finish ata v = commit_transaction ata (rebuild_file_list v)

  -- `(void) commit_transaction(); return false;`
  abbrev pub give_up : Ata Disk → Volume Disk → Bool × Volume Disk
  give_up ata v = (false, (commit_transaction ata v).1)

  abbrev pub with_space : Volume Disk → Space → Volume Disk
  with_space v s = record v { space = s }

module _ {Disk : Type 0} (ata : Ata Disk) where
  unfoldable pub overwrite_file :
      (index : ℕ) (buffer : List ℕ) (size : ℕ) → Volume Disk → Bool × Volume Disk
  overwrite_file index buffer size v =
      elim (resize_extent index (sectors_for_size size) size v.space) [
        | none ↦ give_up ata v
        | some s ↦
            (write_file_data ata (inode_at s index).first_sector buffer size
                &> write_inode ata index
                &> write_bitmap ata
                &> finish ata)
              (with_space v s)
      ]

  unfoldable pub create_file :
      (parent : ℕ) (leaf buffer : List ℕ) (size : ℕ) → Volume Disk → Bool × Volume Disk
  create_file parent leaf buffer size v =
      let made = create_inode parent leaf (sectors_for_size size) size v.space in
      elim (made.0) [
        | none ↦ give_up ata (with_space v made.1)
        | some index ↦
            (write_file_data ata (inode_at made.1 index).first_sector buffer size
                &> write_inode ata index
                &> write_superblock ata
                &> write_bitmap ata
                &> finish ata)
              (with_space v made.1)
      ]

  unfoldable pub diskfs_write_file :
      (path buffer : List ℕ) (size : ℕ) → Volume Disk → Bool × Volume Disk
  diskfs_write_file path buffer size v =
      if not v.available || ltb max_file_size size
      then (false, v)
      else elim (ensure_parent_dir path v.space) [
        | none ↦ (false, v)
        | some (parent, leaf) ↦
            if not (inode_name_valid leaf)
            then (false, v)
            else (begin_transaction ata &> elim (find_child parent leaf type_file v.space) [
              | some index ↦ overwrite_file index buffer size
              | none ↦ create_file parent leaf buffer size
            ])
                v
      ]

  -- The part of `diskfs_delete_file` behind the start of the transaction.
  unfoldable pub remove_file : ℕ → Volume Disk → Bool × Volume Disk
  remove_file index v =
      let e = inode_at v.space index in
      let s = put_inode index zero_inode (free_extent e.first_sector e.sector_count v.space) in
      (write_inode ata index &> write_bitmap ata &> finish ata) (with_space v s)

  unfoldable pub diskfs_delete_file : List ℕ → Volume Disk → Bool × Volume Disk
  diskfs_delete_file path v = elim (diskfs_find_file path v.space) [
    | none ↦ (false, v)
    | some index ↦ (begin_transaction ata &> remove_file index) v
  ]

  -- The part of `diskfs_rename_file` behind the start of the transaction.
  unfoldable pub move_file : (index parent : ℕ) (leaf : List ℕ) → Volume Disk → Bool × Volume Disk
  move_file index parent leaf v =
      let e = record (inode_at v.space index) { parent = parent; name = stored_name leaf } in
      (write_inode ata index &> finish ata) (with_space v (put_inode index e v.space))

  unfoldable pub diskfs_rename_file :
      (old_path new_path : List ℕ) → Volume Disk → Bool × Volume Disk
  diskfs_rename_file old_path new_path v = elim (diskfs_find_file old_path v.space) [
    | none ↦ (false, v)
    | some index ↦ elim (ensure_parent_dir new_path v.space) [
      | none ↦ (false, v)
      | some (parent, leaf) ↦
          if not (inode_name_valid leaf)
          then (false, v)
          else elim (find_child parent leaf 0 v.space) [
            | some other ↦ (false, v)
            | none ↦ (begin_transaction ata &> move_file index parent leaf) v
          ]
    ]
  ]

  -- A read of a whole file into `file_buffer`.
  unfoldable pub fill_buffer : ℕ → Volume Disk → (Bool × List ℕ) × Volume Disk
  fill_buffer index v =
      let got = diskfs_read_index ata index 0 (inode_at v.space index).size v in
      let bytes = got.0.1 in
      (got.0, record got.1 { file_buffer = bytes ++ drop (length bytes) v.file_buffer })

  unfoldable pub diskfs_truncate_file : List ℕ → ℕ → Volume Disk → Bool × Volume Disk
  diskfs_truncate_file path size v =
      let empty = diskfs_write_file path (0 ∷ []) 0 v in
      if ltb max_file_size size then (false, v) else elim (diskfs_find_file path v.space) [
        | none ↦ if size == 0 then empty else (false, v)
        | some index ↦
            let e = inode_at v.space index in
            let filled =
              (fill_buffer index (record v { file_buffer = kmemset v.file_buffer 0 size })).1 in
            let written = diskfs_write_file path filled.file_buffer size filled in
            if size == e.size
            then (true, v)
            else if size == 0
            then empty
            else if ltb read_buffer_size e.size || ltb read_buffer_size size
            then (false, v)
            else written
      ]

  -- The size of the file, whose bytes `file_buffer` holds then.
  unfoldable pub diskfs_read_file : List ℕ → Volume Disk → Option ℕ × Volume Disk
  diskfs_read_file name v = elim (diskfs_find_file name v.space) [
    | none ↦ (none, v)
    | some index ↦
        let got = fill_buffer index v in
        let size = length got.0.1 in
        let ended = take size got.1.file_buffer ++ (0 ∷ drop (size + 1) got.1.file_buffer) in
        if ltb read_buffer_size (inode_at v.space index).size
        then (none, v)
        else if not got.0.0
        then (none, got.1)
        else if ltb size read_buffer_size
        then (some size, record got.1 { file_buffer = ended })
        else (some size, got.1)
  ]
