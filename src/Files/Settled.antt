-- ===== src/Files/Settled.antt =====
-- What the writes do to the disk when it does not fail.
use myos_gui_desktop.Base.{
  ℕ, ◌+◌, ◌-◌, ◌*◌, ◌/◌, ◌%◌, ◌≤◌, ◌<◌, ◌≡◌, refl, sym, ap, ◌∙◌, Bool, true, false, Option, none,
  some, ◌++◌, subst, arith,
}
use myos_gui_desktop.Base.Lists.{replicate, take, drop}
use myos_gui_desktop.DiskFs.{Ata, Sector, read_sector, write_sector, total_sectors}
use myos_gui_desktop.DiskFs.View.{IsDisk, Shows, with_sector}
use myos_gui_desktop.DiskFs.Get.{read_sector-Shows, write_sector-Shows, with_sector_other}
use myos_gui_desktop.DiskFs.Writeback.{diskfs_flush-Shows}
use myos_gui_desktop.DiskFs.Working.{
  IsWorking, read_sector-works, write_sector-works, diskfs_flush-works,
}
use myos_gui_desktop.Volume.{Volume, Space, inode_at, sector_size}
use myos_gui_desktop.Files.{
  ◌&>◌, on_sectors, flush, write_bitmap, write_inode, write_superblock, write_journal, inode_bytes,
  le, journal_magic,
}

-- The tables with another mark of the journal.
abbrev pub marked : ℕ → Space → Space
marked state s = record s { superblock = record s.superblock { journal_state = state } }

-- The tables lie in front of the data area, and that on the disk.
pub record HasLayout (s : Space) : Type 0 where
  pub front : 2 ≤ s.superblock.data_start
  pub back : s.superblock.data_start ≤ total_sectors
  pub bitmap : s.superblock.bitmap_start < s.superblock.data_start
  pub inodes : s.superblock.inode_start + 8 ≤ s.superblock.data_start

module _ {Disk : Type 0} (sector_at : Disk → ℕ → Sector) where
  -- A call that succeeds. It leaves the tables as they are but for the mark, and the sectors from
  -- `lo` on.
  pub record Settled (lo : ℕ) (m : ℕ → Sector) (v : Volume Disk) (r : Bool × Volume Disk)
      : Type 0 where
    pub ok : r.0 ≡ true
    pub state : ℕ
    pub space : r.1.space ≡ marked state v.space
    pub up : r.1.available ≡ v.available
    pub map : ℕ → Sector
    pub shows : Shows sector_at map r.1.sectors
    pub kept : (t : ℕ) → lo ≤ t → map t ≡ m t

  pub Settled-compose :
      {lo : ℕ} {m : ℕ → Sector} (v : Volume Disk) (a b : Volume Disk → Bool × Volume Disk)
      → (first : Settled lo m v (a v)) → Settled lo first.map (a v).1 (b (a v).1)
      → Settled lo m v ((a &> b) v)
  Settled-compose v a b first second = rw (first.ok) (record {
    ok = second.ok;
    state = second.state;
    space = second.space ∙ ap (marked second.state) first.space;
    up = second.up ∙ first.up;
    map = second.map;
    shows = second.shows;
    kept = λ t l. second.kept t l ∙ first.kept t l;
  })

module _ {Disk : Type 0} {ata : Ata Disk} {sector_at : Disk → ℕ → Sector}
    (law : IsDisk ata sector_at) (works : IsWorking ata) where
  write-Settled :
      {lo : ℕ} {m : ℕ → Sector} (v : Volume Disk) (s : ℕ) (b : Sector)
      → s < lo
      → lo ≤ total_sectors
      → Shows sector_at m v.sectors
      → Settled sector_at lo m v (on_sectors (write_sector ata s b) v)
  write-Settled {lo} {m} v s b l h shows =
      let ok = write_sector-works law works v.sectors s b (omega arith) shows in
      record {
        ok = ok;
        state = v.space.superblock.journal_state;
        space = refl;
        up = refl;
        map = with_sector m s b;
        shows = (write_sector-Shows law v.sectors s b shows).0 ok;
        kept = λ t k. with_sector_other m s t b (ground arith);
      }

  pub flush-Settled :
      {lo : ℕ} {m : ℕ → Sector} (v : Volume Disk)
      → Shows sector_at m v.sectors
      → Settled sector_at lo m v (flush ata v)
  unfolding flush
  flush-Settled {lo} {m} v shows = record {
    ok = diskfs_flush-works law works v.sectors shows;
    state = v.space.superblock.journal_state;
    space = refl;
    up = refl;
    map = m;
    shows = (diskfs_flush-Shows law v.sectors shows).0;
    kept = λ t k. refl;
  }

  -- A write to a sector in front, and a flush.
  flushed-Settled :
      {lo : ℕ} {m : ℕ → Sector} (v : Volume Disk) (s : ℕ) (b : Sector)
      → s < lo
      → lo ≤ total_sectors
      → Shows sector_at m v.sectors
      → Settled sector_at lo m v ((on_sectors (write_sector ata s b) &> flush ata) v)
  flushed-Settled v s b l h shows =
      let first = write-Settled v s b l h shows in
      Settled-compose sector_at v (on_sectors (write_sector ata s b)) (flush ata) first
        (flush-Settled (on_sectors (write_sector ata s b) v).1 first.shows)

  module _ {m : ℕ → Sector} (v : Volume Disk) (room : HasLayout v.space)
      (shows : Shows sector_at m v.sectors) where
    abbrev front : ℕ
    front = v.space.superblock.data_start

    pub write_bitmap-Settled : Settled sector_at front m v (write_bitmap ata v)
    unfolding write_bitmap
    write_bitmap-Settled =
        flushed-Settled v v.space.superblock.bitmap_start v.space.bitmap room.bitmap room.back shows

    pub write_superblock-Settled : Settled sector_at front m v (write_superblock ata v)
    unfolding write_superblock
    write_superblock-Settled = flushed-Settled v 0 _ (omega (arith, room.front)) room.back shows

    -- The part of `write_inode` behind the read.
    abbrev store_inode : ℕ → Option Sector → Volume Disk → Bool × Volume Disk
    store_inode index r w = elim r [
      | none ↦ (false, w)
      | some sector ↦
          let at = index % 8 * 64 in
          let bytes =
            take at sector ++ inode_bytes (inode_at v.space index) ++ drop (at + 64) sector in
          (on_sectors (write_sector ata (v.space.superblock.inode_start + index / 8) bytes)
              &> flush ata)
            w
    ]

    pub write_inode-Settled :
        (index : ℕ) → index < 64 → Settled sector_at front m v (write_inode ata index v)
    unfolding write_inode
    write_inode-Settled index l =
        let s : ℕ = v.space.superblock.inode_start + index / 8 in
        let place : s < front = omega (arith, room.inodes) in
        let got = read_sector-works law works v.sectors s (omega (arith, room.back)) shows in
        let after : Volume Disk = (on_sectors (read_sector ata s) v).1 in
        let at : ℕ = index % 8 * 64 in
        let bytes : Sector =
          take at (m s) ++ inode_bytes (inode_at v.space index) ++ drop (at + 64) (m s) in
        let done =
          flushed-Settled after s bytes place room.back
            (read_sector-Shows law v.sectors s shows).0 in
        subst (λ r. Settled sector_at front m v (store_inode index r after)) (sym got)
          (record {
            ok = done.ok;
            state = done.state;
            space = done.space;
            up = done.up;
            map = done.map;
            shows = done.shows;
            kept = done.kept;
          })

  module _ {m : ℕ → Sector} (v : Volume Disk) (room : HasLayout v.space)
      (shows : Shows sector_at m v.sectors) where
    pub write_journal-Settled :
        (state : ℕ)
        → Settled sector_at v.space.superblock.data_start m v (write_journal ata state v)
    unfolding write_journal
    write_journal-Settled state =
        let w : Volume Disk = record v { space = marked state v.space } in
        let bytes : Sector = le 4 journal_magic ++ le 4 state ++ replicate (sector_size - 8) 0 in
        let first = write-Settled w 1 bytes (omega (arith, room.front)) room.back shows in
        let next : Volume Disk = (on_sectors (write_sector ata 1 bytes) w).1 in
        let room' : HasLayout next.space = record {
          front = room.front;
          back = room.back;
          bitmap = room.bitmap;
          inodes = room.inodes;
        } in
        let done =
          Settled-compose sector_at w (on_sectors (write_sector ata 1 bytes)) (write_superblock ata)
            first (write_superblock-Settled next room' first.shows) in
        record {
          ok = done.ok;
          state = done.state;
          space = done.space;
          up = done.up;
          map = done.map;
          shows = done.shows;
          kept = done.kept;
        }
