-- ===== src/FileOps/Steps.antt =====
-- Every operation on files keeps the tables in agreement, whatever the disk does.

use myos_gui_desktop.Base.{
  ℕ, ◌+◌, inl, inr, Bool, true, false, not, ◌||◌, Option, none, some, List, [], ◌∷◌, ◌++◌,
}
use myos_gui_desktop.Base.Tests.{if◌then◌else◌, ltb, ◌==◌, Bool-cases}
use myos_gui_desktop.Base.Lists.{length, take, drop}
use myos_gui_desktop.Strings.{kmemset}
use myos_gui_desktop.DiskFs.{Ata}
use myos_gui_desktop.Volume.{Volume, inode_at}
use myos_gui_desktop.Volume.Layout.{Agrees}
use myos_gui_desktop.Paths.{diskfs_find_file}
use myos_gui_desktop.Files.{diskfs_read_index}
use myos_gui_desktop.Files.Quiet.{diskfs_read_index-IsQuiet}
use myos_gui_desktop.FileOps.{
  diskfs_write_file, diskfs_delete_file, diskfs_rename_file, fill_buffer, diskfs_truncate_file,
  diskfs_read_file,
}
use myos_gui_desktop.FileOps.Writes.{diskfs_write_file-Agrees}
use myos_gui_desktop.FileOps.Moves.{diskfs_delete_file-Agrees, diskfs_rename_file-Agrees}

module _ {Disk : Type 0} (ata : Ata Disk) where
  fill_buffer-Agrees :
      (index : ℕ) (v : Volume Disk) → Agrees v.space → Agrees (fill_buffer ata index v).1.space
  unfolding fill_buffer
  fill_buffer-Agrees index v a =
      ((diskfs_read_index-IsQuiet ata index 0 (inode_at v.space index).size).same v).agrees a

  diskfs_truncate_file-Agrees :
      (path : List ℕ) (size : ℕ) (v : Volume Disk)
      → Agrees v.space
      → Agrees (diskfs_truncate_file ata path size v).1.space
  unfolding diskfs_truncate_file
  diskfs_truncate_file-Agrees path size v a = elim (Bool-cases (ltb 1048576 size)) [
    | inl large ↦ rw large a
    | inr small ↦ rw small (go (diskfs_find_file path v.space))
  ]
    where
      kept :
          (i : ℕ)
          → Agrees
              (fill_buffer ata i (record v { file_buffer = kmemset v.file_buffer 0 size })).1.space
      kept i = fill_buffer-Agrees i (record v { file_buffer = kmemset v.file_buffer 0 size }) a

      go :
          (r : Option ℕ)
          → Agrees
              (elim r as (λ x. Bool × Volume Disk) [
                | none ↦ if size == 0 then diskfs_write_file ata path (0 ∷ []) 0 v else (false, v)
                | some index ↦
                    if size == (inode_at v.space index).size
                    then (true, v)
                    else if size == 0
                    then diskfs_write_file ata path (0 ∷ []) 0 v
                    else if ltb 16384 (inode_at v.space index).size || ltb 16384 size
                    then (false, v)
                    else diskfs_write_file ata path
                        (fill_buffer ata index
                          (record v { file_buffer = kmemset v.file_buffer 0 size })).1.file_buffer
                        size
                        (fill_buffer ata index
                          (record v { file_buffer = kmemset v.file_buffer 0 size })).1
              ]).1.space
      go none = elim (Bool-cases (size == 0)) [
        | inl empty ↦ rw empty (diskfs_write_file-Agrees ata path (0 ∷ []) 0 v a)
        | inr some_bytes ↦ rw some_bytes a
      ]
      go (some i) = elim (Bool-cases (size == (inode_at v.space i).size)) [
        | inl same ↦ rw same a
        | inr other ↦ elim (Bool-cases (size == 0)) [
          | inl empty ↦ rw (other, empty) (diskfs_write_file-Agrees ata path (0 ∷ []) 0 v a)
          | inr some_bytes ↦
              elim (Bool-cases (ltb 16384 (inode_at v.space i).size || ltb 16384 size)) [
                | inl large ↦ rw (other, some_bytes, large) a
                | inr fits ↦
                    rw (other, some_bytes, fits)
                      (diskfs_write_file-Agrees ata path _ size _ (kept i))
              ]
        ]
      ]

  diskfs_read_file-Agrees :
      (path : List ℕ) (v : Volume Disk)
      → Agrees v.space
      → Agrees (diskfs_read_file ata path v).1.space
  unfolding diskfs_read_file
  diskfs_read_file-Agrees path v a = go (diskfs_find_file path v.space)
    where
      ended : ℕ → Volume Disk → Volume Disk
      ended size w = record w {
        file_buffer = take size w.file_buffer ++ (0 ∷ drop (size + 1) w.file_buffer);
      }

      go :
          (r : Option ℕ)
          → Agrees
              (elim r as (λ x. Option ℕ × Volume Disk) [
                | none ↦ (none, v)
                | some index ↦
                    if ltb 16384 (inode_at v.space index).size
                    then (none, v)
                    else if not (fill_buffer ata index v).0.0
                    then (none, (fill_buffer ata index v).1)
                    else if ltb (length (fill_buffer ata index v).0.1) 16384
                    then (
                      some (length (fill_buffer ata index v).0.1),
                      ended (length (fill_buffer ata index v).0.1) (fill_buffer ata index v).1,
                    )
                    else (some (length (fill_buffer ata index v).0.1), (fill_buffer ata index v).1)
              ]).1.space
      go none = a
      go (some i) = elim (Bool-cases (ltb 16384 (inode_at v.space i).size)) [
        | inl large ↦ rw large a
        | inr fits ↦ elim (Bool-cases (not (fill_buffer ata i v).0.0)) [
          | inl failed ↦ rw (fits, failed) (fill_buffer-Agrees i v a)
          | inr filled ↦ elim (Bool-cases (ltb (length (fill_buffer ata i v).0.1) 16384)) [
            | inl short ↦ rw (fits, filled, short) (fill_buffer-Agrees i v a)
            | inr full ↦ rw (fits, filled, full) (fill_buffer-Agrees i v a)
          ]
        ]
      ]

-- An operation on files, from one volume to the next.
pub data Step {Disk : Type 0} (ata : Ata Disk) (v : Volume Disk) : Volume Disk → Type 0 where
  write :
      (path buffer : List ℕ) (size : ℕ) → Step ata v (diskfs_write_file ata path buffer size v).1
  delete : (path : List ℕ) → Step ata v (diskfs_delete_file ata path v).1
  rename : (old_path new_path : List ℕ) → Step ata v (diskfs_rename_file ata old_path new_path v).1
  truncate : (path : List ℕ) (size : ℕ) → Step ata v (diskfs_truncate_file ata path size v).1
  read : (path : List ℕ) → Step ata v (diskfs_read_file ata path v).1
  read_index : (index offset size : ℕ) → Step ata v (diskfs_read_index ata index offset size v).1

pub data Steps {Disk : Type 0} (ata : Ata Disk) (v : Volume Disk) : Volume Disk → Type 0 where
  here : Steps ata v v
  next : {t u : Volume Disk} → Steps ata v t → Step ata t u → Steps ata v u

module _ {Disk : Type 0} (ata : Ata Disk) where
  Step-Agrees : {v w : Volume Disk} → Step ata v w → Agrees v.space → Agrees w.space
  Step-Agrees {v} (write path buffer size) a = diskfs_write_file-Agrees ata path buffer size v a
  Step-Agrees {v} (delete path) a = diskfs_delete_file-Agrees ata path v a
  Step-Agrees {v} (rename old_path new_path) a = diskfs_rename_file-Agrees ata old_path new_path v a
  Step-Agrees {v} (truncate path size) a = diskfs_truncate_file-Agrees ata path size v a
  Step-Agrees {v} (read path) a = diskfs_read_file-Agrees ata path v a
  Step-Agrees {v} (read_index index offset size) a =
      ((diskfs_read_index-IsQuiet ata index offset size).same v).agrees a

  -- Tables that agree still do after any sequence of writes, deletions, renamings, truncations and
  -- reads, whatever their paths and sizes are and whichever accesses to the disk fail.
  pub Steps-Agrees : {v w : Volume Disk} → Steps ata v w → Agrees v.space → Agrees w.space
  Steps-Agrees here a = a
  Steps-Agrees (next before step) a = Step-Agrees step (Steps-Agrees before a)
