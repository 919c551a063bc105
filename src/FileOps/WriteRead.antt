-- ===== src/FileOps/WriteRead.antt =====
-- What diskfs_write_file wrote is found and read.
use myos_gui_desktop.Base.{
  ℕ, ◌^◌, ◌≤◌, ◌≡◌, refl, sym, ap, ◌∙◌, Bool, true, Option, none, some, List, subst, arith,
}
use myos_gui_desktop.Base.Lists.{length}
use myos_gui_desktop.DiskFs.{Ata, Sector}
use myos_gui_desktop.DiskFs.View.{IsDisk, Shows}
use myos_gui_desktop.DiskFs.Working.{IsWorking}
use myos_gui_desktop.Volume.{Volume, Space, Inode, inode_at, type_file, sectors_for_size}
use myos_gui_desktop.Volume.Layout.{Agrees}
use myos_gui_desktop.Paths.{find_child}
use myos_gui_desktop.Paths.Kinds.{find_child-kind}
use myos_gui_desktop.Paths.Alike.{find_child-Alike}
use myos_gui_desktop.Files.{
  ◌&>◌, write_file_data, write_inode, write_bitmap, write_superblock, rebuild_file_list,
}
use myos_gui_desktop.Files.Settled.{HasLayout, marked}
use myos_gui_desktop.Files.Settles.{
  HasFront, Settles, Settles-compose, write_bitmap-Settles, write_inode-Settles,
  write_superblock-Settles, commit_transaction-Settles,
}
use myos_gui_desktop.Files.RoundTrip.{IsFile, Reads, written, Reads-write_file_data}
use myos_gui_desktop.FileOps.{
  finish, give_up, with_space, resize_extent, create_inode, overwrite_file, create_file,
}
use myos_gui_desktop.FileOps.Tables.{counted, resize_extent-Agrees, sectors_for_size-pos}
use myos_gui_desktop.FileOps.Made.{create_inode-Agrees}
use myos_gui_desktop.FileOps.Changes.{
  Resizing, resized, no_room, resize_extent-Resizing, Creating, created, refused,
  create_inode-Creating,
}
use myos_gui_desktop.FileOps.Lookup.{find_child-create_inode}

-- The directory has a file of this name with this size, and every read of it gives these bytes.
pub record HasFile {Disk : Type 0} (ata : Ata Disk) (parent : ℕ) (leaf : List ℕ) (size : ℕ)
    (buffer : List ℕ) (w : Volume Disk) : Type 0 where
  pub index : ℕ
  pub found : find_child parent leaf type_file w.space ≡ some index
  pub size_is : (inode_at w.space index).size ≡ size
  pub reads : Reads ata w index size buffer

-- A file of tables that agree has room for its bytes.
Agrees-IsFile :
    {s : Space} (i : ℕ)
    → Agrees s
    → (inode_at s i).kind ≡ type_file
    → (inode_at s i).size ≤ 2 ^ 20
    → (inode_at s i).sector_count ≡ sectors_for_size (inode_at s i).size
    → IsFile s i
Agrees-IsFile i a f small c = record {
  counted = counted a i f;
  file = f;
  small = small;
  room = omega (arith, a.in_range i f, a.total);
}

changed-HasFront :
    {lo : ℕ} {s t : Space} (count : ℕ)
    → t.superblock ≡ record s.superblock { inode_count = count }
    → HasFront lo s
    → HasFront lo t
changed-HasFront count h front = record {
  is = ap (λ b. b.data_start) h ∙ front.is;
  layout = record {
    front = omega (arith, ap (λ b. b.data_start) h, front.layout.front);
    back = omega (arith, ap (λ b. b.data_start) h, front.layout.back);
    bitmap =
        omega (arith, ap (λ b. b.data_start) h, ap (λ b. b.bitmap_start) h, front.layout.bitmap);
    inodes =
        omega (arith, ap (λ b. b.data_start) h, ap (λ b. b.inode_start) h, front.layout.inodes);
  };
}

pub marked-found :
    (parent : ℕ) (leaf : List ℕ) (state : ℕ) (s : Space)
    → find_child parent leaf type_file (marked state s) ≡ find_child parent leaf type_file s
marked-found parent leaf state s =
    find_child-Alike parent leaf type_file s (marked state s) refl
      (λ k. record { kind = refl; parent = refl; name = refl })

module _ {Disk : Type 0} {ata : Ata Disk} {sector_at : Disk → ℕ → Sector}
    (law : IsDisk ata sector_at) (works : IsWorking ata) where
  finish-Settles : (lo : ℕ) → Settles sector_at lo (finish ata)
  unfolding rebuild_file_list
  finish-Settles lo m v front shows =
      let done = commit_transaction-Settles law works lo m (rebuild_file_list v) front shows in
      record {
        ok = done.ok;
        state = done.state;
        space = done.space;
        up = done.up;
        map = done.map;
        shows = done.shows;
        kept = done.kept;
      }

  -- The writes of an operation, once its tables are made.
  write_out :
      {m : ℕ → Sector} (w : Volume Disk) (i size : ℕ) (parent : ℕ) (leaf buffer : List ℕ)
      (rest : Volume Disk → Bool × Volume Disk)
      → Agrees w.space
      → HasFront w.space.superblock.data_start w.space
      → w.available ≡ true
      → Shows sector_at m w.sectors
      → (inode_at w.space i).kind ≡ type_file
      → (inode_at w.space i).size ≡ size
      → size ≤ 2 ^ 20
      → (inode_at w.space i).sector_count ≡ sectors_for_size size
      → find_child parent leaf type_file w.space ≡ some i
      → Settles sector_at w.space.superblock.data_start rest
      → HasFile ata parent leaf size buffer
          ((write_file_data ata (inode_at w.space i).first_sector buffer size &> rest) w).1
  write_out w i size parent leaf buffer rest a front ready shows f z small c found settles =
      let e : Inode = inode_at w.space i in
      let is = Agrees-IsFile i a f (omega (arith, z)) (c ∙ ap sectors_for_size (sym z)) in
      let (state, ok, space, reads) =
        Reads-write_file_data law works w i buffer is ready shows rest (a.in_range i f).0
          (λ k shown same.
            settles k (written law works w i buffer is ready shows)
              (subst (HasFront w.space.superblock.data_start) (sym same) front) shown) in
      subst
        (λ n.
          HasFile ata parent leaf n buffer
            ((write_file_data ata e.first_sector buffer n &> rest) w).1)
        z
        (record {
          index = i;
          found =
              ap (find_child parent leaf type_file) space
              ∙ marked-found parent leaf state w.space
              ∙ found;
          size_is = ap (λ t. (inode_at t i).size) space;
          reads = reads;
        })

  module _ {m : ℕ → Sector} (v : Volume Disk) (parent : ℕ) (leaf buffer : List ℕ) (size : ℕ)
      (a : Agrees v.space) (layout : HasLayout v.space) (ready : v.available ≡ true)
      (shows : Shows sector_at m v.sectors) (small : size ≤ 2 ^ 20) where
    front : ℕ
    front = v.space.superblock.data_start

    at_front :
        {t : Space} (count : ℕ)
        → t.superblock ≡ record v.space.superblock { inode_count = count }
        → HasFront t.superblock.data_start t
    at_front count h =
        let given : HasFront v.space.superblock.data_start v.space = record {
          is = refl;
          layout = layout;
        } in
        let there = changed-HasFront count h given in record { is = refl; layout = there.layout }

    pub overwrite_file-HasFile :
        (index : ℕ)
        → find_child parent leaf type_file v.space ≡ some index
        → (overwrite_file ata index buffer size v).0 ≡ true
        → HasFile ata parent leaf size buffer (overwrite_file ata index buffer size v).1
    unfolding overwrite_file
    overwrite_file-HasFile index found =
        go (resize_extent index n size v.space)
          (resize_extent-Resizing index n size v.space
            (omega (arith, counted a index file, a.size, a.count)))
          (resize_extent-Agrees a index file n size (sectors_for_size-pos size))
      where
        n : ℕ
        n = sectors_for_size size

        file : (inode_at v.space index).kind ≡ type_file
        file = find_child-kind parent leaf v.space index found

        rest : Volume Disk → Bool × Volume Disk
        rest = write_inode ata index &> write_bitmap ata &> finish ata

        after : Option Space → Bool × Volume Disk
        after r = elim r [
          | none ↦ give_up ata v
          | some s ↦
              (write_file_data ata (inode_at s index).first_sector buffer size &> rest)
                (with_space v s)
        ]

        go :
            (r : Option Space)
            → Resizing index n size v.space r
            → ((t : Space) → r ≡ some t → Agrees t)
            → (after r).0 ≡ true
            → HasFile ata parent leaf size buffer (after r).1
        go r no_room agrees ok = absurd (ground (arith, ok))
        go r (resized t c) agrees ok =
            let settles =
              Settles-compose sector_at t.superblock.data_start (write_inode ata index)
                (write_bitmap ata &> finish ata)
                (write_inode-Settles law works t.superblock.data_start index
                  (omega (arith, counted a index file, a.count)))
                (Settles-compose sector_at t.superblock.data_start (write_bitmap ata) (finish ata)
                  (write_bitmap-Settles law works t.superblock.data_start)
                  (finish-Settles t.superblock.data_start)) in
            write_out (with_space v t) index size parent leaf buffer rest (agrees t refl)
              (at_front v.space.superblock.inode_count (c.superblock)) ready shows
              ((c.alike index).kind ∙ file) c.size_is small c.sectors_are
              (find_child-Alike parent leaf type_file v.space t
                  (ap (λ b. b.inode_count) (c.superblock)) c.alike
                ∙ found)
              settles

    pub create_file-HasFile :
        length leaf ≤ 31
        → find_child parent leaf type_file v.space ≡ none
        → (create_file ata parent leaf buffer size v).0 ≡ true
        → HasFile ata parent leaf size buffer (create_file ata parent leaf buffer size v).1
    unfolding create_file
    create_file-HasFile short new =
        go (create_inode parent leaf n size v.space)
          (create_inode-Creating parent leaf n size v.space a)
          (create_inode-Agrees parent leaf n size a (sectors_for_size-pos size))
      where
        n : ℕ
        n = sectors_for_size size

        after : Option ℕ × Space → Bool × Volume Disk
        after made = elim (made.0) [
          | none ↦ give_up ata (with_space v made.1)
          | some index ↦
              (write_file_data ata (inode_at made.1 index).first_sector buffer size
                  &> write_inode ata index
                  &> write_superblock ata
                  &> write_bitmap ata
                  &> finish ata)
                (with_space v made.1)
        ]

        go :
            (r : Option ℕ × Space)
            → Creating parent leaf n size v.space r
            → Agrees r.1
            → (after r).0 ≡ true
            → HasFile ata parent leaf size buffer (after r).1
        go r (refused t) agrees ok = absurd (ground (arith, ok))
        go r (created index t c) agrees ok =
            let lo : ℕ = t.superblock.data_start in
            let last =
              Settles-compose sector_at lo (write_bitmap ata) (finish ata)
                (write_bitmap-Settles law works lo) (finish-Settles lo) in
            let middle =
              Settles-compose sector_at lo (write_superblock ata) (write_bitmap ata &> finish ata)
                (write_superblock-Settles law works lo) last in
            let settles =
              Settles-compose sector_at lo (write_inode ata index)
                (write_superblock ata &> write_bitmap ata &> finish ata)
                (write_inode-Settles law works lo index (omega (arith, c.counted, c.limit)))
                middle in
            write_out (with_space v t) index size parent leaf buffer
              (write_inode ata index &> write_superblock ata &> write_bitmap ata &> finish ata)
              agrees (at_front t.superblock.inode_count (c.superblock)) ready shows
              (ap (λ e. e.kind) (c.here)) (ap (λ e. e.size) (c.here)) small
              (ap (λ e. e.sector_count) (c.here)) (find_child-create_inode a short new c) settles
