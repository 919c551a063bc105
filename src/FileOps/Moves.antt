-- ===== src/FileOps/Moves.antt =====
-- Deleting and renaming a file keep the tables in agreement, whatever the disk does.

use myos_gui_desktop.Base.{ℕ, ◌≡◌, refl, inl, inr, Bool, false, not, Option, none, some, List}
use myos_gui_desktop.Base.Tests.{if◌then◌else◌, Bool-cases}
use myos_gui_desktop.DiskFs.{Ata}
use myos_gui_desktop.Volume.{Volume, zero_inode, inode_at, put_inode, type_file, free_extent}
use myos_gui_desktop.Volume.Layout.{Agrees}
use myos_gui_desktop.Paths.{inode_name_valid, find_child, ensure_parent_dir, diskfs_find_file}
use myos_gui_desktop.Paths.Kinds.{diskfs_find_file-kind}
use myos_gui_desktop.Files.{◌&>◌, begin_transaction}
use myos_gui_desktop.Files.Quiet.{&>-IsQuiet, write_bitmap-IsQuiet, write_inode-IsQuiet}
use myos_gui_desktop.FileOps.{
  with_space, stored_name, remove_file, diskfs_delete_file, move_file, diskfs_rename_file,
}
use myos_gui_desktop.FileOps.Made.{remove-Agrees, rename-Agrees}
use myos_gui_desktop.FileOps.Writes.{same_kind, finish-IsQuiet, begun-Agrees}

module _ {Disk : Type 0} (ata : Ata Disk) where
  remove_file-Agrees :
      (index : ℕ) (v : Volume Disk)
      → (inode_at v.space index).kind ≡ type_file
      → Agrees v.space
      → Agrees (remove_file ata index v).1.space
  unfolding remove_file
  remove_file-Agrees index v f a =
      ((&>-IsQuiet (write_inode-IsQuiet ata index)
            (&>-IsQuiet (write_bitmap-IsQuiet ata) (finish-IsQuiet ata))).same
          (with_space v (
            put_inode index zero_inode (
              free_extent (inode_at v.space index).first_sector
                (inode_at v.space index).sector_count v.space)))).agrees
        (remove-Agrees index a f)

  move_file-Agrees :
      (index parent : ℕ) (leaf : List ℕ) (v : Volume Disk)
      → (inode_at v.space index).kind ≡ type_file
      → Agrees v.space
      → Agrees (move_file ata index parent leaf v).1.space
  unfolding move_file
  move_file-Agrees index parent leaf v f a =
      ((&>-IsQuiet (write_inode-IsQuiet ata index) (finish-IsQuiet ata)).same (
          with_space v (
            put_inode index
              (record (inode_at v.space index) { parent = parent; name = stored_name leaf })
              v.space))).agrees
        (rename-Agrees index parent (stored_name leaf) a f)

  pub diskfs_delete_file-Agrees :
      (path : List ℕ) (v : Volume Disk)
      → Agrees v.space
      → Agrees (diskfs_delete_file ata path v).1.space
  unfolding diskfs_delete_file
  diskfs_delete_file-Agrees path v a = go (diskfs_find_file path v.space) refl
    where
      go :
          (r : Option ℕ)
          → diskfs_find_file path v.space ≡ r
          → Agrees
              (elim r as (λ x. Bool × Volume Disk) [
                | none ↦ (false, v)
                | some index ↦ (begin_transaction ata &> remove_file ata index) v
              ]).1.space
      go none h = a
      go (some i) h = begun-Agrees ata (remove_file ata i) v a (λ w e b.
          remove_file-Agrees i w (same_kind i e (diskfs_find_file-kind path v.space i h)) b)

  pub diskfs_rename_file-Agrees :
      (old_path new_path : List ℕ) (v : Volume Disk)
      → Agrees v.space
      → Agrees (diskfs_rename_file ata old_path new_path v).1.space
  unfolding diskfs_rename_file
  diskfs_rename_file-Agrees old_path new_path v a = go (diskfs_find_file old_path v.space) refl
    where
      placed :
          (i parent : ℕ) (leaf : List ℕ) (r : Option ℕ)
          → (inode_at v.space i).kind ≡ type_file
          → Agrees
              (elim r as (λ x. Bool × Volume Disk) [
                | some other ↦ (false, v)
                | none ↦ (begin_transaction ata &> move_file ata i parent leaf) v
              ]).1.space
      placed i parent leaf (some other) f = a
      placed i parent leaf none f =
          begun-Agrees ata (move_file ata i parent leaf) v a
            (λ w e b. move_file-Agrees i parent leaf w (same_kind i e f) b)

      parented :
          (i : ℕ) (r : Option (ℕ × List ℕ))
          → (inode_at v.space i).kind ≡ type_file
          → Agrees
              (elim r as (λ x. Bool × Volume Disk) [
                | none ↦ (false, v)
                | some (parent, leaf) ↦
                    if not (inode_name_valid leaf)
                    then (false, v)
                    else elim (find_child parent leaf 0 v.space) as (λ x. Bool × Volume Disk) [
                      | some other ↦ (false, v)
                      | none ↦ (begin_transaction ata &> move_file ata i parent leaf) v
                    ]
              ]).1.space
      parented i none f = a
      parented i (some (parent, leaf)) f = elim (Bool-cases (not (inode_name_valid leaf))) [
        | inl bad ↦ rw bad a
        | inr good ↦ rw good (placed i parent leaf (find_child parent leaf 0 v.space) f)
      ]

      go :
          (r : Option ℕ)
          → diskfs_find_file old_path v.space ≡ r
          → Agrees
              (elim r as (λ x. Bool × Volume Disk) [
                | none ↦ (false, v)
                | some index ↦
                    elim (ensure_parent_dir new_path v.space) as (λ x. Bool × Volume Disk) [
                      | none ↦ (false, v)
                      | some (parent, leaf) ↦
                          if not (inode_name_valid leaf)
                          then (false, v)
                          else elim (find_child parent leaf 0 v.space)
                              as (λ x. Bool × Volume Disk) [
                                | some other ↦ (false, v)
                                | none ↦
                                    (begin_transaction ata &> move_file ata index parent leaf) v
                              ]
                    ]
              ]).1.space
      go none h = a
      go (some i) h =
          parented i (ensure_parent_dir new_path v.space)
            (diskfs_find_file-kind old_path v.space i h)
