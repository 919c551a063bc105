-- ===== src/Files/Reading.antt =====
-- What a read of a file gives, where the sectors of the file hold its bytes.
use Prim.Native.Nat.{min}
use myos_gui_desktop.Base.{
  ℕ, zero, suc, ◌+◌, ◌-◌, ◌/◌, ◌%◌, ◌^◌, ◌≤◌, ◌<◌, ◌≡◌, refl, sym, ap, ◌∙◌, inl, inr, Bool, true,
  false, ◌||◌, none, some, List, [], ◌++◌, arith,
}
use myos_gui_desktop.Base.Tests.{ltb, leb, ◌==◌, if◌then◌else◌, Bool-cases}
use myos_gui_desktop.Base.Lists.{length, length-append, get_or, drop}
use myos_gui_desktop.Strings.{bytes_of}
use myos_gui_desktop.Strings.Bytes.{
  bytes_of_none, length-bytes_of, get_or-drop, bytes_of-same, bytes_of-append,
}
use myos_gui_desktop.DiskFs.{Ata, DiskFs, Sector, read_sector, total_sectors}
use myos_gui_desktop.DiskFs.View.{IsDisk, Shows}
use myos_gui_desktop.DiskFs.Get.{read_sector-Shows}
use myos_gui_desktop.DiskFs.Working.{IsWorking, read_sector-works}
use myos_gui_desktop.Volume.{Inode, Volume, inode_at, sector_size, type_file}
use myos_gui_desktop.Files.{read_bytes, diskfs_read_index}

-- The sectors from `first` on hold the first `len` bytes of the input.
pub record Holds (m : ℕ → Sector) (first : ℕ) (input : List ℕ) (len : ℕ) : Type 0 where
  pub room : (p : ℕ) → p < len → first + p / 512 < total_sectors
  pub bytes : (p : ℕ) → p < len → get_or (m (first + p / 512)) (p % 512) 0 ≡ get_or input p 0

-- One round reads the bytes of one sector.
chunk_lem :
    (m : ℕ → Sector) (first len at n : ℕ) (input : List ℕ)
    → Holds m first input len
    → at + n ≤ len
    → at % 512 + n ≤ 512
    → bytes_of n (drop (at % 512) (m (first + at / 512))) ≡ bytes_of n (drop at input)
chunk_lem m first len at n input h l k =
    bytes_of-same n (drop (at % 512) (m (first + at / 512))) (drop at input) (λ i b.
      let page : (at + i) / 512 ≡ at / 512 = omega arith in
      let place : (at + i) % 512 ≡ at % 512 + i = omega arith in
      get_or-drop (at % 512) i (m (first + at / 512))
      ∙ (rw (page, place) at (h.bytes (at + i) (omega arith)))
      ∙ sym (get_or-drop at i input))

drop_twice : (n a b : ℕ) (l : List ℕ) → bytes_of n (drop (a + b) l) ≡ bytes_of n (drop b (drop a l))
drop_twice n a b l = bytes_of-same n (drop (a + b) l) (drop b (drop a l)) (λ i h.
    let place : a + b + i ≡ a + (b + i) = omega arith in
    get_or-drop (a + b) i l
    ∙ ap (λ k. get_or l k 0) place
    ∙ sym (get_or-drop a (b + i) l)
    ∙ sym (get_or-drop b i (drop a l)))

-- What one round copies.
abbrev chunk_of : (size out at : ℕ) → ℕ
chunk_of size out at =
    let chunk = sector_size - at % sector_size in
    if ltb (size - out) chunk then size - out else chunk

module _ {Disk : Type 0} (ata : Ata Disk) (fuel : ℕ) (e : Inode) (offset size : ℕ) (out : List ℕ)
    (f : DiskFs Disk) where
  -- One round, at a place of the file and a sector of the disk.
  abbrev round_at : (at s : ℕ) → (Bool × List ℕ) × DiskFs Disk
  round_at at s =
      let got = read_sector ata s f in
      if leb size (length out) then ((true, out), f) else elim (got.0) [
        | none ↦ ((false, out), got.1)
        | some sector ↦
            read_bytes ata fuel e offset size
              (out ++ bytes_of (chunk_of size (length out) at) (drop (at % sector_size) sector))
              got.1
      ]

  read_bytes-round :
      (at s : ℕ) (sector : Sector)
      → (offset + length out) % 2 ^ 32 ≡ at
      → (e.first_sector + at / 512) % 2 ^ 32 ≡ s
      → leb size (length out) ≡ false
      → (read_sector ata s f).0 ≡ some sector
      → read_bytes ata (suc fuel) e offset size out f
        ≡ read_bytes ata fuel e offset size
            (out ++ bytes_of (chunk_of size (length out) at) (drop (at % 512) sector))
            (read_sector ata s f).1
  unfolding read_bytes
  read_bytes-round at s sector wrapped flat more got =
      ap (λ a. round_at a ((e.first_sector + a / 512) % 2 ^ 32)) wrapped
      ∙ ap (round_at at) flat
      ∙ (rw (more, got) refl)

module _ {Disk : Type 0} {ata : Ata Disk} {sector_at : Disk → ℕ → Sector}
    (law : IsDisk ata sector_at) (works : IsWorking ata) {m : ℕ → Sector} where
  -- The loop reads the rest of the bytes, if it has a round for each of them.
  read_bytes-Holds :
      (fuel : ℕ) (e : Inode) (input : List ℕ) (len offset size : ℕ) (out : List ℕ) (f : DiskFs Disk)
      → Shows sector_at m f
      → Holds m e.first_sector input len
      → offset + size ≤ len
      → len ≤ 2 ^ 21
      → length out ≤ size
      → size - length out ≤ fuel
      → out ≡ bytes_of (length out) (drop offset input)
      → ((read_bytes ata fuel e offset size out f).0 ≡ (true, bytes_of size (drop offset input)))
        × Shows sector_at m (read_bytes ata fuel e offset size out f).1
  unfolding read_bytes
  read_bytes-Holds zero e input len offset size out f shows h l big o enough is =
      let all : length out ≡ size = omega arith in
      (ap (λ b. (true, b)) (is ∙ ap (λ n. bytes_of n (drop offset input)) all), shows)
  read_bytes-Holds (suc fuel) e input len offset size out f shows h l big o enough is =
      let at : ℕ = offset + length out in
      let s : ℕ = e.first_sector + at / 512 in
      let cut : ℕ = chunk_of size (length out) at in
      let wrapped : (offset + length out) % 2 ^ 32 ≡ at = omega arith in
      elim (Bool-cases (leb size (length out))) [
        | inl done ↦
            let all : length out ≡ size = ground (arith, done) in
            rw done (ap (λ b. (true, b)) (is ∙ ap (λ n. bytes_of n (drop offset input)) all), shows)
        | inr more ↦
            let left : length out < size = ground (arith, more) in
            let place : s < total_sectors = h.room at (omega arith) in
            let flat : (e.first_sector + at / 512) % 2 ^ 32 ≡ s = omega arith in
            let got = read_sector-works law works f s place shows in
            let fits : at % 512 + cut ≤ 512 = ground arith in
            let some_byte : 0 < cut = ground arith in
            let within : cut ≤ size - length out = ground arith in
            let bytes : List ℕ = bytes_of cut (drop (at % 512) (m s)) in
            let next : bytes ≡ bytes_of cut (drop (length out) (drop offset input)) =
              chunk_lem m e.first_sector len at cut input h (omega arith) fits
              ∙ drop_twice cut offset (length out) input in
            let longer : length (out ++ bytes) ≡ length out + cut =
              omega (arith, length-append out bytes, length-bytes_of cut (drop (at % 512) (m s))) in
            rw (read_bytes-round ata fuel e offset size out f at s (m s) wrapped flat more got) (
              read_bytes-Holds fuel e input len offset size (out ++ bytes) (read_sector ata s f).1
                (read_sector-Shows law f s shows).0 h l big (omega arith) (omega arith)
                (ap (λ l. l ++ bytes) is
                  ∙ ap (λ b. bytes_of (length out) (drop offset input) ++ b) next
                  ∙ bytes_of-append (length out) cut (drop offset input)
                  ∙ ap (λ n. bytes_of n (drop offset input)) (sym longer)))
      ]

  -- On a disk that does not fail and an available volume, a read of a file of at most 2 MiB whose
  -- sectors hold its bytes ends with success, and gives the bytes from the offset on, up to the end of
  -- the file or as many as asked for.
  pub diskfs_read_index-Holds :
      (v : Volume Disk) (index offset size : ℕ) (input : List ℕ)
      → Shows sector_at m v.sectors
      → v.available ≡ true
      → index < v.space.superblock.inode_count
      → (inode_at v.space index).kind ≡ type_file
      → (inode_at v.space index).size ≤ 2 ^ 21
      → Holds m (inode_at v.space index).first_sector input (inode_at v.space index).size
      → (diskfs_read_index ata index offset size v).0
        ≡ (true, bytes_of (min size ((inode_at v.space index).size - offset)) (drop offset input))
  unfolding diskfs_read_index
  diskfs_read_index-Holds v index offset size input shows ready counted file small h =
      let e : Inode = inode_at v.space index in
      let inside : leb v.space.superblock.inode_count index ≡ false = ground arith in
      let is : (e.kind == type_file) ≡ true = ground (arith, file) in
      let amount : min size (e.size - offset)
          ≡ (if ltb (e.size - offset) size then e.size - offset else size) =
        ground arith in
      elim (Bool-cases (leb e.size offset || (size == 0))) [
        | inl nothing ↦
            let none_left : min size (e.size - offset) ≡ 0 = ground (arith, nothing) in
            rw (ready, inside, is, nothing, none_left, bytes_of_none (drop offset input)) refl
        | inr something ↦
            let cut : ℕ = if ltb (e.size - offset) size then e.size - offset else size in
            let fits : offset + cut ≤ e.size = ground (arith, something) in
            rw (ready, inside, is, something, amount)
              (read_bytes-Holds cut e input e.size offset cut [] v.sectors shows h fits small
                (omega arith) (omega arith) (sym (bytes_of_none (drop offset input)))).0
      ]

  -- Such a read leaves the tables alone, and the volume shows the same sectors after it.
  pub diskfs_read_index-Shows :
      (v : Volume Disk) (index offset size : ℕ) (input : List ℕ)
      → Shows sector_at m v.sectors
      → v.available ≡ true
      → index < v.space.superblock.inode_count
      → (inode_at v.space index).kind ≡ type_file
      → (inode_at v.space index).size ≤ 2 ^ 21
      → Holds m (inode_at v.space index).first_sector input (inode_at v.space index).size
      → Shows sector_at m (diskfs_read_index ata index offset size v).1.sectors
        × ((diskfs_read_index ata index offset size v).1.space ≡ v.space)
        × ((diskfs_read_index ata index offset size v).1.available ≡ true)
  unfolding diskfs_read_index
  diskfs_read_index-Shows v index offset size input shows ready counted file small h =
      let e : Inode = inode_at v.space index in
      let inside : leb v.space.superblock.inode_count index ≡ false = ground arith in
      let is : (e.kind == type_file) ≡ true = ground (arith, file) in
      elim (Bool-cases (leb e.size offset || (size == 0))) [
        | inl nothing ↦ rw (ready, inside, is, nothing) (shows, refl, refl)
        | inr something ↦
            let cut : ℕ = if ltb (e.size - offset) size then e.size - offset else size in
            let fits : offset + cut ≤ e.size = ground (arith, something) in
            rw (ready, inside, is, something)
              (
                (read_bytes-Holds cut e input e.size offset cut [] v.sectors shows h fits small
                    (omega arith) (omega arith) (sym (bytes_of_none (drop offset input)))).1,
                refl,
                refl,
              )
      ]
