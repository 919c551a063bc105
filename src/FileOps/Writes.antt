-- ===== src/FileOps/Writes.antt =====
-- Writing a file keeps the tables in agreement, whatever the disk does.

use myos_gui_desktop.Base.{
  ℕ, ◌≡◌, refl, ap, ◌∙◌, inl, inr, Bool, false, not, ◌||◌, Option, none, some, List,
}
use myos_gui_desktop.Base.Tests.{if◌then◌else◌, ltb, Bool-cases}
use myos_gui_desktop.Base.Lists.{get_or}
use myos_gui_desktop.DiskFs.{Ata}
use myos_gui_desktop.Volume.{
  Space, Volume, Inode, zero_inode, inode_at, type_file, sectors_for_size,
}
use myos_gui_desktop.Volume.Layout.{Agrees}
use myos_gui_desktop.Paths.{inode_name_valid, find_child, ensure_parent_dir}
use myos_gui_desktop.Paths.Kinds.{find_child-kind}
use myos_gui_desktop.Files.{
  ◌&>◌, rebuild_file_list, write_bitmap, write_inode, write_superblock, begin_transaction,
  write_file_data,
}
use myos_gui_desktop.Files.Quiet.{
  IsQuiet, Same-trans, &>-IsQuiet, rebuild_file_list-Same, write_bitmap-IsQuiet,
  write_inode-IsQuiet, write_superblock-IsQuiet, begin_transaction-IsQuiet,
  commit_transaction-IsQuiet, write_file_data-IsQuiet,
}
use myos_gui_desktop.FileOps.{
  finish, give_up, with_space, resize_extent, create_inode, overwrite_file, create_file,
  diskfs_write_file,
}
use myos_gui_desktop.FileOps.Made.{create_inode-Agrees}
use myos_gui_desktop.FileOps.Tables.{resize_extent-Agrees, sectors_for_size-pos}

-- An inode of the same table.
pub same_kind :
    {u w : List Inode} (i : ℕ)
    → w ≡ u
    → (get_or u i zero_inode).kind ≡ type_file
    → (get_or w i zero_inode).kind ≡ type_file
same_kind i e h = ap (λ x. (get_or x i zero_inode).kind) e ∙ h

module _ {Disk : Type 0} (ata : Ata Disk) where
  pub finish-IsQuiet : IsQuiet (finish ata)
  finish-IsQuiet = record {
    same = λ v.
        Same-trans (rebuild_file_list-Same v)
          ((commit_transaction-IsQuiet ata).same (rebuild_file_list v));
  }

  overwrite_file-Agrees :
      (index : ℕ) (buffer : List ℕ) (size : ℕ) (v : Volume Disk)
      → (inode_at v.space index).kind ≡ type_file
      → Agrees v.space
      → Agrees (overwrite_file ata index buffer size v).1.space
  unfolding overwrite_file
  overwrite_file-Agrees index buffer size v f a =
      go (resize_extent index (sectors_for_size size) size v.space) refl
    where
      go :
          (r : Option Space)
          → resize_extent index (sectors_for_size size) size v.space ≡ r
          → Agrees
              (elim r as (λ x. Bool × Volume Disk) [
                | none ↦ give_up ata v
                | some s ↦
                    (write_file_data ata (inode_at s index).first_sector buffer size
                        &> write_inode ata index
                        &> write_bitmap ata
                        &> finish ata)
                      (with_space v s)
              ]).1.space
      go none h = ((commit_transaction-IsQuiet ata).same v).agrees a
      go (some s) h =
          ((&>-IsQuiet (write_file_data-IsQuiet ata (inode_at s index).first_sector buffer size) (
                &>-IsQuiet (write_inode-IsQuiet ata index)
                  (&>-IsQuiet (write_bitmap-IsQuiet ata) finish-IsQuiet))).same
              (with_space v s)).agrees
            (resize_extent-Agrees a index f (sectors_for_size size) size (sectors_for_size-pos size)
              s h)

  create_file-Agrees :
      (parent : ℕ) (leaf buffer : List ℕ) (size : ℕ) (v : Volume Disk)
      → Agrees v.space
      → Agrees (create_file ata parent leaf buffer size v).1.space
  unfolding create_file
  create_file-Agrees parent leaf buffer size v a =
      go (create_inode parent leaf (sectors_for_size size) size v.space)
        (create_inode-Agrees parent leaf (sectors_for_size size) size a (sectors_for_size-pos size))
    where
      go :
          (made : Option ℕ × Space)
          → Agrees made.1
          → Agrees
              (elim (made.0) as (λ x. Bool × Volume Disk) [
                | none ↦ give_up ata (with_space v made.1)
                | some index ↦
                    (write_file_data ata (inode_at made.1 index).first_sector buffer size
                        &> write_inode ata index
                        &> write_superblock ata
                        &> write_bitmap ata
                        &> finish ata)
                      (with_space v made.1)
              ]).1.space
      go (none, s) b = ((commit_transaction-IsQuiet ata).same (with_space v s)).agrees b
      go (some index, s) b =
          ((&>-IsQuiet (write_file_data-IsQuiet ata (inode_at s index).first_sector buffer size) (
                &>-IsQuiet (write_inode-IsQuiet ata index) (
                  &>-IsQuiet (write_superblock-IsQuiet ata)
                    (&>-IsQuiet (write_bitmap-IsQuiet ata) finish-IsQuiet)))).same
              (with_space v s)).agrees
            b

  -- A transaction that starts with tables in agreement.
  pub begun-Agrees :
      (b : Volume Disk → Bool × Volume Disk) (v : Volume Disk)
      → Agrees v.space
      → ((w : Volume Disk)
          → w.space.inodes ≡ v.space.inodes
          → Agrees w.space
          → Agrees (b w).1.space)
      → Agrees ((begin_transaction ata &> b) v).1.space
  begun-Agrees b v a k =
      let q = (begin_transaction-IsQuiet ata).same v in
      elim (Bool-cases (begin_transaction ata v).0) [
        | inl done ↦ rw done (k (begin_transaction ata v).1 q.inodes (q.agrees a))
        | inr failed ↦ rw failed (q.agrees a)
      ]

  pub diskfs_write_file-Agrees :
      (path buffer : List ℕ) (size : ℕ) (v : Volume Disk)
      → Agrees v.space
      → Agrees (diskfs_write_file ata path buffer size v).1.space
  unfolding diskfs_write_file
  diskfs_write_file-Agrees path buffer size v a =
      elim (Bool-cases (not v.available || ltb 1048576 size)) [
        | inl refused ↦ rw refused a
        | inr accepted ↦ rw accepted (parented (ensure_parent_dir path v.space))
      ]
    where
      chosen :
          (parent : ℕ) (leaf : List ℕ) (r : Option ℕ)
          → find_child parent leaf type_file v.space ≡ r
          → Agrees
              ((begin_transaction ata &> elim r as (λ x. Volume Disk → Bool × Volume Disk) [
                | some index ↦ overwrite_file ata index buffer size
                | none ↦ create_file ata parent leaf buffer size
              ])
                v).1.space
      chosen parent leaf (some i) h = begun-Agrees (overwrite_file ata i buffer size) v a (λ w e b.
          overwrite_file-Agrees i buffer size w
            (same_kind i e (find_child-kind parent leaf v.space i h)) b)
      chosen parent leaf none h =
          begun-Agrees (create_file ata parent leaf buffer size) v a
            (λ w e b. create_file-Agrees parent leaf buffer size w b)

      parented :
          (r : Option (ℕ × List ℕ))
          → Agrees
              (elim r as (λ x. Bool × Volume Disk) [
                | none ↦ (false, v)
                | some (parent, leaf) ↦
                    if not (inode_name_valid leaf)
                    then (false, v)
                    else (begin_transaction ata
                          &> elim (find_child parent leaf type_file v.space)
                              as (λ x. Volume Disk → Bool × Volume Disk) [
                                | some index ↦ overwrite_file ata index buffer size
                                | none ↦ create_file ata parent leaf buffer size
                              ])
                        v
              ]).1.space
      parented none = a
      parented (some (parent, leaf)) = elim (Bool-cases (not (inode_name_valid leaf))) [
        | inl bad ↦ rw bad a
        | inr good ↦ rw good (chosen parent leaf (find_child parent leaf type_file v.space) refl)
      ]
