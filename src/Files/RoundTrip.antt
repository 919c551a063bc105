-- ===== src/Files/RoundTrip.antt =====
-- What is written to a file is read back.
use Prim.Native.Nat.{min}
use myos_gui_desktop.Base.{
  ℕ, ◌+◌, ◌-◌, ◌^◌, ◌%◌, ◌/◌, ◌≤◌, ◌<◌, ◌≡◌, sym, ap, ◌∙◌, Bool, true, List, subst, arith,
}
use myos_gui_desktop.Base.Lists.{get_or, drop}
use myos_gui_desktop.Strings.{bytes_of}
use myos_gui_desktop.DiskFs.{Ata, Sector, total_sectors}
use myos_gui_desktop.DiskFs.View.{IsDisk, Shows}
use myos_gui_desktop.DiskFs.Working.{IsWorking}
use myos_gui_desktop.Volume.{Volume, Space, inode_at, type_file, sectors_for_size}
use myos_gui_desktop.Files.{◌&>◌, write_file_data, diskfs_read_index}
use myos_gui_desktop.Files.Reading.{Holds, diskfs_read_index-Holds}
use myos_gui_desktop.Files.Settled.{Settled, marked}
use myos_gui_desktop.Files.Writing.{Stored, write_file_data-Holds}

-- A file of the tables, with room for its bytes.
pub record IsFile (s : Space) (i : ℕ) : Type 0 where
  pub counted : i < s.superblock.inode_count
  pub file : (inode_at s i).kind ≡ type_file
  pub small : (inode_at s i).size ≤ 2 ^ 20
  pub room : (inode_at s i).first_sector + sectors_for_size (inode_at s i).size ≤ total_sectors

-- Every read of the file gives these bytes.
abbrev pub Reads : {Disk : Type 0} → Ata Disk → Volume Disk → (index size : ℕ) → List ℕ → Type 0
Reads ata v index size buffer =
    (offset n : ℕ)
    → (diskfs_read_index ata index offset n v).0
      ≡ (true, bytes_of (min n (size - offset)) (drop offset buffer))

-- The file of the tables has its bytes on the disk.
record OnDisk (m : ℕ → Sector) (buffer : List ℕ) (i : ℕ) (s : Space) : Type 0 where
  counted : i < s.superblock.inode_count
  file : (inode_at s i).kind ≡ type_file
  small : (inode_at s i).size ≤ 2 ^ 20
  holds : Holds m (inode_at s i).first_sector buffer (inode_at s i).size

module _ {Disk : Type 0} {ata : Ata Disk} {sector_at : Disk → ℕ → Sector}
    (law : IsDisk ata sector_at) (works : IsWorking ata) where
  OnDisk-Reads :
      {m : ℕ → Sector} (w : Volume Disk) (i : ℕ) (buffer : List ℕ) (s : Space)
      → w.space ≡ s
      → w.available ≡ true
      → Shows sector_at m w.sectors
      → OnDisk m buffer i s
      → Reads ata w i (inode_at s i).size buffer
  OnDisk-Reads {m} w i buffer s same ready shows on offset n =
      let here : OnDisk m buffer i w.space = subst (OnDisk m buffer i) (sym same) on in
      diskfs_read_index-Holds law works w i offset n buffer shows ready here.counted here.file
        (omega (arith, here.small)) here.holds
      ∙ ap (λ u. (true, bytes_of (min n ((inode_at u i).size - offset)) (drop offset buffer))) same

  module _ {m : ℕ → Sector} (v : Volume Disk) (i : ℕ) (buffer : List ℕ) (is : IsFile v.space i)
      (ready : v.available ≡ true) (shows : Shows sector_at m v.sectors) where
    abbrev pub written : Volume Disk
    written =
        (write_file_data ata (inode_at v.space i).first_sector buffer (inode_at v.space i).size v).1

    stored :
        (r : Stored sector_at
          (inode_at v.space i).first_sector
          0
          (sectors_for_size (inode_at v.space i).size)
          (inode_at v.space i).size
          buffer
          m
          v
          (write_file_data ata
            (inode_at v.space i).first_sector
            buffer
            (inode_at v.space i).size
            v))
        × Holds r.map (inode_at v.space i).first_sector buffer (inode_at v.space i).size
    stored =
        write_file_data-Holds law works (inode_at v.space i).first_sector buffer
          (inode_at v.space i).size v is.room is.small shows

    -- On a disk that does not fail, and for a file of an available volume that has at most 1 MiB and room for
    -- its sectors: write_file_data succeeds, and afterwards every read of the file succeeds and gives
    -- the bytes written, from its offset on and up to the end of the file.
    pub diskfs_read_index-write_file_data :
        ((write_file_data ata
            (inode_at v.space i).first_sector
            buffer
            (inode_at v.space i).size
            v).0
          ≡ true)
        × Reads ata
            (write_file_data ata
              (inode_at v.space i).first_sector
              buffer
              (inode_at v.space i).size
              v).1
            i
            (inode_at v.space i).size
            buffer
    diskfs_read_index-write_file_data = (
      stored.0.ok,
      OnDisk-Reads written i buffer v.space stored.0.space (stored.0.up ∙ ready) stored.0.shows
          (record { counted = is.counted; file = is.file; small = is.small; holds = stored.1 }),
    )

    -- The same, with more writes behind that leave the data area alone.
    pub Reads-write_file_data :
        (rest : Volume Disk → Bool × Volume Disk)
        → v.space.superblock.data_start ≤ (inode_at v.space i).first_sector
        → ((k : ℕ → Sector)
            → Shows sector_at k written.sectors
            → written.space ≡ v.space
            → Settled sector_at v.space.superblock.data_start k written (rest written))
        → (state : ℕ) × (((write_file_data ata
                  (inode_at v.space i).first_sector
                  buffer
                  (inode_at v.space i).size
                &> rest)
              v).0
            ≡ true)
          × (((write_file_data ata
                    (inode_at v.space i).first_sector
                    buffer
                    (inode_at v.space i).size
                  &> rest)
                v).1.space
              ≡ marked state v.space)
          × Reads ata
              ((write_file_data ata
                    (inode_at v.space i).first_sector
                    buffer
                    (inode_at v.space i).size
                  &> rest)
                v).1
              i
              (inode_at v.space i).size
              buffer
    Reads-write_file_data rest low settles =
        let (data_on, holds) = stored in
        let done = settles data_on.map data_on.shows data_on.space in
        rw (data_on.ok) (
          done.state,
          done.ok,
          done.space ∙ ap (marked done.state) data_on.space,
          OnDisk-Reads (rest written).1 i buffer (marked done.state v.space)
              (done.space ∙ ap (marked done.state) data_on.space) (done.up ∙ data_on.up ∙ ready)
              done.shows
              (record {
                counted = is.counted;
                file = is.file;
                small = is.small;
                holds = record {
                  room = holds.room;
                  bytes = λ p h.
                      ap (λ b. get_or b (p % 512) 0)
                        (done.kept ((inode_at v.space i).first_sector + p / 512) (omega arith))
                      ∙ holds.bytes p h;
                };
              }),
        )
