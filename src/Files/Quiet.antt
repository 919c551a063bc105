-- ===== src/Files/Quiet.antt =====
-- What goes to the disk leaves the tables as they are, but for the mark of the journal.
use myos_gui_desktop.Base.{
  ℕ, zero, suc, ◌+◌, ◌*◌, ◌/◌, ◌%◌, ◌^◌, ◌≡◌, refl, sym, ap, ◌∙◌, inl, inr, Bool, false, Option,
  none, some, List, ◌++◌, subst, arith,
}
use myos_gui_desktop.Base.Tests.{Bool-cases}
use myos_gui_desktop.Base.Lists.{replicate, take, drop}
use myos_gui_desktop.DiskFs.{Ata, DiskFs, Sector, read_sector, write_sector, diskfs_flush}
use myos_gui_desktop.Volume.{Volume, inode_at, sector_size, inode_size, sectors_for_size}
use myos_gui_desktop.Volume.Layout.{Agrees}
use myos_gui_desktop.Files.{
  ◌&>◌, on_sectors, flush, write_bitmap, write_inode, write_superblock, write_journal,
  begin_transaction, commit_transaction, write_sectors, write_file_data, rebuild_file_list,
  superblock_bytes, inode_bytes, le, journal_magic, data_sector, diskfs_read_index,
}

-- The inodes and the agreement stay.
pub record Same {Disk : Type 0} (v w : Volume Disk) : Type 0 where
  pub inodes : w.space.inodes ≡ v.space.inodes
  pub agrees : Agrees v.space → Agrees w.space

pub record IsQuiet {Disk A : Type 0} (call : Volume Disk → A × Volume Disk) : Type 0 where
  pub same : (v : Volume Disk) → Same v (call v).1

pub Same-trans : {Disk : Type 0} {u v w : Volume Disk} → Same u v → Same v w → Same u w
Same-trans a b = record { inodes = b.inodes ∙ a.inodes; agrees = λ h. b.agrees (a.agrees h) }

module _ {Disk : Type 0} where
  -- The same tables.
  pub unmoved : {v w : Volume Disk} → w.space ≡ v.space → Same v w
  unmoved h = record { inodes = ap (λ u. u.inodes) h; agrees = subst Agrees (sym h) }

  pub &>-IsQuiet :
      {a b : Volume Disk → Bool × Volume Disk} → IsQuiet a → IsQuiet b → IsQuiet (a &> b)
  &>-IsQuiet {a} {b} p q = record {
    same = λ v. elim (Bool-cases (a v).0) [
      | inl done ↦ rw done (Same-trans (p.same v) (q.same (a v).1))
      | inr failed ↦ rw failed (p.same v)
    ];
  }

  on_sectors-IsQuiet :
      {A : Type 0} (call : DiskFs Disk → A × DiskFs Disk) → IsQuiet (on_sectors call)
  on_sectors-IsQuiet call = record { same = λ v. unmoved refl }

  pub rebuild_file_list-Same : (v : Volume Disk) → Same v (rebuild_file_list v)
  unfolding rebuild_file_list
  rebuild_file_list-Same v = unmoved refl

module _ {Disk : Type 0} (ata : Ata Disk) where
  flush-IsQuiet : IsQuiet (flush ata)
  unfolding flush
  flush-IsQuiet = on_sectors-IsQuiet (diskfs_flush ata)

  pub write_bitmap-IsQuiet : IsQuiet (write_bitmap ata)
  unfolding write_bitmap
  write_bitmap-IsQuiet = record {
    same = λ v.
        (&>-IsQuiet
            (on_sectors-IsQuiet (write_sector ata v.space.superblock.bitmap_start v.space.bitmap))
            flush-IsQuiet).same
          v;
  }

  stored-IsQuiet :
      (sector : ℕ) (bytes : Sector)
      → IsQuiet (on_sectors (write_sector ata sector bytes) &> flush ata)
  stored-IsQuiet sector bytes =
      &>-IsQuiet (on_sectors-IsQuiet (write_sector ata sector bytes)) flush-IsQuiet

  pub write_superblock-IsQuiet : IsQuiet (write_superblock ata)
  unfolding write_superblock
  write_superblock-IsQuiet = record {
    same = λ v. (stored-IsQuiet 0 (superblock_bytes v.space.superblock ++ replicate 472 0)).same v;
  }

  pub write_inode-IsQuiet : (index : ℕ) → IsQuiet (write_inode ata index)
  unfolding write_inode
  write_inode-IsQuiet index = record {
    same = λ v.
        go v
          (on_sectors
            (read_sector ata (v.space.superblock.inode_start + index / (sector_size / inode_size)))
            v)
          (unmoved refl);
  }
    where
      go :
          (v : Volume Disk) (got : Option Sector × Volume Disk)
          → Same v got.1
          → Same v
              (elim (got.0) as (λ x. Bool × Volume Disk) [
                | none ↦ (false, got.1)
                | some sector ↦
                    (on_sectors (
                          write_sector ata
                            (v.space.superblock.inode_start + index / (sector_size / inode_size))
                            (take (index % (sector_size / inode_size) * inode_size) sector
                              ++ inode_bytes (inode_at v.space index)
                              ++ drop
                                  (index % (sector_size / inode_size) * inode_size + inode_size)
                                  sector))
                        &> flush ata)
                      got.1
              ]).1
      go v (none, w) h = h
      go v (some sector, w) h = Same-trans h (
          (stored-IsQuiet (v.space.superblock.inode_start + index / (sector_size / inode_size)) (
              take (index % (sector_size / inode_size) * inode_size) sector
              ++ inode_bytes (inode_at v.space index)
              ++ drop (index % (sector_size / inode_size) * inode_size + inode_size) sector)).same
            w)

  -- The mark of the journal is nothing that the tables must agree on.
  marked-Same :
      (v : Volume Disk) (state : ℕ)
      → Same v (record v {
        space = record v.space { superblock = record v.space.superblock { journal_state = state } };
      })
  marked-Same v state = record {
    inodes = refl;
    agrees = λ a. record {
      size = a.size;
      words = a.words;
      total = a.total;
      start = a.start;
      count = a.count;
      unused = a.unused;
      in_range = a.in_range;
      reserved = a.reserved;
      owned = a.owned;
      owner = a.owner;
      apart = a.apart;
    };
  }

  write_journal-IsQuiet : (state : ℕ) → IsQuiet (write_journal ata state)
  unfolding write_journal
  write_journal-IsQuiet state = record {
    same = λ v. Same-trans (marked-Same v state) (
        (&>-IsQuiet
            (on_sectors-IsQuiet
              (write_sector ata 1 (le 4 journal_magic ++ le 4 state ++ replicate 504 0)))
            write_superblock-IsQuiet).same
          (record v {
            space = record v.space {
              superblock = record v.space.superblock { journal_state = state };
            };
          }));
  }

  pub begin_transaction-IsQuiet : IsQuiet (begin_transaction ata)
  unfolding begin_transaction
  begin_transaction-IsQuiet = write_journal-IsQuiet 1

  pub commit_transaction-IsQuiet : IsQuiet (commit_transaction ata)
  unfolding commit_transaction
  commit_transaction-IsQuiet = write_journal-IsQuiet 0

  write_sectors-IsQuiet :
      (n s first : ℕ) (buffer : List ℕ) (size : ℕ)
      → IsQuiet (write_sectors ata n s first buffer size)
  unfolding write_sectors
  write_sectors-IsQuiet zero s first buffer size = record { same = λ v. unmoved refl }
  write_sectors-IsQuiet (suc n) s first buffer size = record {
    same = λ v.
        (&>-IsQuiet
            (on_sectors-IsQuiet
              (write_sector ata ((first + s) % 2 ^ 32) (data_sector size (s * sector_size) buffer)))
            (write_sectors-IsQuiet n (s + 1) first buffer size)).same
          v;
  }

  pub write_file_data-IsQuiet :
      (first : ℕ) (buffer : List ℕ) (size : ℕ) → IsQuiet (write_file_data ata first buffer size)
  unfolding write_file_data
  write_file_data-IsQuiet first buffer size =
      &>-IsQuiet (write_sectors-IsQuiet (sectors_for_size size) 0 first buffer size) flush-IsQuiet

  pub diskfs_read_index-IsQuiet :
      (index offset size : ℕ) → IsQuiet (diskfs_read_index ata index offset size)
  unfolding diskfs_read_index
  diskfs_read_index-IsQuiet index offset size = record { same = λ v. unmoved (ground arith) }
