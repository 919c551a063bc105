-- ===== src/Files/Settles.antt =====
-- Calls that leave the data area alone, one after the other.
use myos_gui_desktop.Base.{ℕ, ◌<◌, ◌≡◌, sym, Bool, subst}
use myos_gui_desktop.DiskFs.{Ata, Sector}
use myos_gui_desktop.DiskFs.View.{IsDisk, Shows}
use myos_gui_desktop.DiskFs.Working.{IsWorking}
use myos_gui_desktop.Volume.{Volume, Space}
use myos_gui_desktop.Files.{
  ◌&>◌, write_bitmap, write_inode, write_superblock, begin_transaction, commit_transaction,
}
use myos_gui_desktop.Files.Settled.{
  Settled, HasLayout, marked, Settled-compose, write_bitmap-Settled, write_superblock-Settled,
  write_inode-Settled, write_journal-Settled,
}

-- The data area starts at `lo`.
pub record HasFront (lo : ℕ) (s : Space) : Type 0 where
  pub is : s.superblock.data_start ≡ lo
  pub layout : HasLayout s

pub marked-HasFront :
    {lo : ℕ} {s : Space} (state : ℕ) → HasFront lo s → HasFront lo (marked state s)
marked-HasFront state h = record {
  is = h.is;
  layout = record {
    front = h.layout.front;
    back = h.layout.back;
    bitmap = h.layout.bitmap;
    inodes = h.layout.inodes;
  };
}

module _ {Disk : Type 0} (sector_at : Disk → ℕ → Sector) (lo : ℕ) where
  abbrev pub Settles : (Volume Disk → Bool × Volume Disk) → Type 0
  Settles call =
      (m : ℕ → Sector) (v : Volume Disk)
      → HasFront lo v.space
      → Shows sector_at m v.sectors
      → Settled sector_at lo m v (call v)

  pub Settles-compose :
      (a b : Volume Disk → Bool × Volume Disk) → Settles a → Settles b → Settles (a &> b)
  Settles-compose a b first second m v front shows =
      let done = first m v front shows in
      Settled-compose sector_at v a b done (
        second done.map (a v).1
          (subst (HasFront lo) (sym done.space) (marked-HasFront done.state front)) done.shows)

module _ {Disk : Type 0} {ata : Ata Disk} {sector_at : Disk → ℕ → Sector}
    (law : IsDisk ata sector_at) (works : IsWorking ata) (lo : ℕ) where
  pub write_bitmap-Settles : Settles sector_at lo (write_bitmap ata)
  write_bitmap-Settles m v front shows =
      subst (λ l. Settled sector_at l m v (write_bitmap ata v)) front.is
        (write_bitmap-Settled law works v front.layout shows)

  pub write_superblock-Settles : Settles sector_at lo (write_superblock ata)
  write_superblock-Settles m v front shows =
      subst (λ l. Settled sector_at l m v (write_superblock ata v)) front.is
        (write_superblock-Settled law works v front.layout shows)

  pub write_inode-Settles : (index : ℕ) → index < 64 → Settles sector_at lo (write_inode ata index)
  write_inode-Settles index l m v front shows =
      subst (λ l. Settled sector_at l m v (write_inode ata index v)) front.is
        (write_inode-Settled law works v front.layout shows index l)

  pub begin_transaction-Settles : Settles sector_at lo (begin_transaction ata)
  unfolding begin_transaction
  begin_transaction-Settles m v front shows =
      subst (λ l. Settled sector_at l m v (begin_transaction ata v)) front.is
        (write_journal-Settled law works v front.layout shows 1)

  pub commit_transaction-Settles : Settles sector_at lo (commit_transaction ata)
  unfolding commit_transaction
  commit_transaction-Settles m v front shows =
      subst (λ l. Settled sector_at l m v (commit_transaction ata v)) front.is
        (write_journal-Settled law works v front.layout shows 0)
