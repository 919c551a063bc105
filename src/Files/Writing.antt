-- ===== src/Files/Writing.antt =====
-- What the write of a file's bytes leaves on the disk when it does not fail.
use myos_gui_desktop.Base.{
  ℕ, zero, suc, ◌+◌, ◌-◌, ◌*◌, ◌/◌, ◌%◌, ◌^◌, ◌≤◌, ◌<◌, ◌≡◌, ◌⊎◌, refl, ap, ◌∙◌, inl, inr, Bool,
  true, List, arith,
}
use myos_gui_desktop.Base.Tests.{ltb, ◌==◌, if◌then◌else◌, Bool-cases, ==_iff}
use myos_gui_desktop.Base.Lists.{get_or, replicate, drop}
use myos_gui_desktop.Strings.{bytes_of}
use myos_gui_desktop.Strings.Bytes.{
  length-bytes_of, get_or-bytes_of, get_or-append_left, get_or-drop,
}
use myos_gui_desktop.DiskFs.{Ata, Sector, write_sector, total_sectors}
use myos_gui_desktop.DiskFs.View.{IsDisk, Shows}
use myos_gui_desktop.DiskFs.Get.{write_sector-Shows, with_sector_same, with_sector_other}
use myos_gui_desktop.DiskFs.Working.{IsWorking, write_sector-works}
use myos_gui_desktop.Volume.{Volume, sector_size, sectors_for_size}
use myos_gui_desktop.Files.{on_sectors, flush, data_sector, write_sectors, write_file_data}
use myos_gui_desktop.Files.Reading.{Holds}
use myos_gui_desktop.Files.Settled.{flush-Settled}

-- A byte of the file in its sector.
get_or-data_sector :
    (size p : ℕ) (input : List ℕ)
    → p < size
    → get_or (data_sector size (p / 512 * 512) input) (p % 512) 0 ≡ get_or input p 0
unfolding data_sector
get_or-data_sector size p input l =
    let offset : ℕ = p / 512 * 512 in
    let i : ℕ = p % 512 in
    let chunk : ℕ = if ltb offset size then size - offset else 0 in
    let cut : ℕ = if ltb sector_size chunk then sector_size else chunk in
    let inside : i < cut = ground arith in
    let place : offset + i ≡ p = omega arith in
    get_or-append_left (bytes_of cut (drop offset input)) (replicate (sector_size - cut) 0) i
      (omega (arith, length-bytes_of cut (drop offset input)))
    ∙ get_or-bytes_of cut i (drop offset input) inside
    ∙ get_or-drop offset i input
    ∙ ap (λ k. get_or input k 0) place

sectors_for_size-room : (size p : ℕ) → size ≤ 2 ^ 20 → p < size → p / 512 < sectors_for_size size
unfolding sectors_for_size
sectors_for_size-room size p big l = ground arith

module _ {Disk : Type 0} (sector_at : Disk → ℕ → Sector) where
  -- The sectors `s` up to `s + n` of the file are written, and no other.
  pub record Stored (first s n size : ℕ) (buffer : List ℕ) (m : ℕ → Sector) (v : Volume Disk)
      (r : Bool × Volume Disk) : Type 0 where
    pub ok : r.0 ≡ true
    pub space : r.1.space ≡ v.space
    pub up : r.1.available ≡ v.available
    pub map : ℕ → Sector
    pub shows : Shows sector_at map r.1.sectors
    pub bytes :
        (k : ℕ) → s ≤ k → k < s + n → map (first + k) ≡ data_sector size (k * sector_size) buffer
    pub others : (t : ℕ) → (t < first + s) ⊎ (first + s + n ≤ t) → map t ≡ m t

module _ {Disk : Type 0} {ata : Ata Disk} {sector_at : Disk → ℕ → Sector}
    (law : IsDisk ata sector_at) (works : IsWorking ata) where
  write_sectors-Stored :
      (n : ℕ) {m : ℕ → Sector} (s first : ℕ) (buffer : List ℕ) (size : ℕ) (v : Volume Disk)
      → first + s + n ≤ total_sectors
      → Shows sector_at m v.sectors
      → Stored sector_at first s n size buffer m v (write_sectors ata n s first buffer size v)
  unfolding write_sectors
  write_sectors-Stored zero {m} s first buffer size v l shows = record {
    ok = refl;
    space = refl;
    up = refl;
    map = m;
    shows = shows;
    bytes = λ k a b. absurd (omega arith);
    others = λ t h. refl;
  }
  write_sectors-Stored (suc n) {m} s first buffer size v l shows =
      let b : Sector = data_sector size (s * sector_size) buffer in
      let place : (first + s) % 2 ^ 32 ≡ first + s = omega arith in
      let ok = write_sector-works law works v.sectors (first + s) b (omega arith) shows in
      let shown = (write_sector-Shows law v.sectors (first + s) b shows).0 ok in
      let rest =
        write_sectors-Stored n (s + 1) first buffer size
          (on_sectors (write_sector ata (first + s) b) v).1 (omega arith) shown in
      rw (place, ok)
        (record {
          ok = rest.ok;
          space = rest.space;
          up = rest.up;
          map = rest.map;
          shows = rest.shows;
          bytes = λ k low high. elim (Bool-cases (s == k)) [
            | inl same ↦
                let here = (==_iff s k).0 same in
                rest.others (first + k) (inl (omega arith))
                ∙ with_sector_same m (first + s) (first + k) b (omega arith)
                ∙ ap (λ j. data_sector size (j * sector_size) buffer) here
            | inr later ↦ rest.bytes k (ground (arith, later)) (omega arith)
          ];
          others = λ t h.
              rest.others t (ground (arith, h))
              ∙ with_sector_other m (first + s) t b (ground (arith, h));
        })

  -- The bytes are in the sectors from the first one on, and no other sector is changed.
  pub write_file_data-Holds :
      {m : ℕ → Sector} (first : ℕ) (buffer : List ℕ) (size : ℕ) (v : Volume Disk)
      → first + sectors_for_size size ≤ total_sectors
      → size ≤ 2 ^ 20
      → Shows sector_at m v.sectors
      → (r : Stored sector_at first 0
          (sectors_for_size size)
          size
          buffer
          m
          v
          (write_file_data ata first buffer size v))
        × Holds r.map first buffer size
  unfolding write_file_data flush
  write_file_data-Holds first buffer size v l big shows =
      let n : ℕ = sectors_for_size size in
      let written = write_sectors-Stored n 0 first buffer size v (omega arith) shows in
      let w : Volume Disk = (write_sectors ata n 0 first buffer size v).1 in
      let done = flush-Settled law works {lo = 0} w written.shows in
      let kept : (t : ℕ) → done.map t ≡ written.map t = λ t. done.kept t (omega arith) in
      rw (written.ok) (
        record {
          ok = done.ok;
          space = written.space;
          up = written.up;
          map = done.map;
          shows = done.shows;
          bytes = λ k a b. kept (first + k) ∙ written.bytes k a b;
          others = λ t h. kept t ∙ written.others t h;
        },
        record {
          room = λ p h. omega (arith, sectors_for_size-room size p big h);
          bytes = λ p h.
              ap (λ b. get_or b (p % 512) 0)
                (kept (first + p / 512)
                  ∙ written.bytes (p / 512) (omega arith)
                      (omega (arith, sectors_for_size-room size p big h)))
              ∙ get_or-data_sector size p buffer h;
        },
      )
