-- ===== src/Fsck.antt =====
-- The check of a volume, `diskfs_fsck` of kernel/fs/diskfs/diskfs.c. Its report is a list of lines, and
-- `report_text` is the text that the caller's buffer gets of them.
use myos_gui_desktop.Base.{
  ℕ, zero, suc, ◌+◌, ◌-◌, ◌%◌, ◌^◌, Bool, true, false, not, ◌&&◌, ◌||◌, List, [], ◌∷◌, ◌++◌,
}
pub mod Loops
pub mod Covered
pub mod Sound
mod Tests
use mathlib.Core.Bool.{beq}
use myos_gui_desktop.Base.Tests.{ltb, leb, ◌==◌, if◌then◌else◌}
use myos_gui_desktop.Base.Lists.{replicate}
use myos_gui_desktop.Base.Bitmap.{Words, test_bit, set_bit}
use myos_gui_desktop.Base.Runs.{set_bits}
use myos_gui_desktop.Base.Lists.{length}
use myos_gui_desktop.Strings.{codes}
use myos_gui_desktop.Volume.{Space, Inode, Volume, inode_at, bitmap_bytes, type_file, bitmap_get}

pub data FsckLine : Type 0 where
  unavailable out_of_bounds overlapping mismatch clean : FsckLine

-- The state of the loops.
pub record Check : Type 0 where
  pub seen : Words
  pub errors : ℕ
  pub report : List FsckLine

abbrev pub complain : FsckLine → Check → Check
complain line c = record c { errors = c.errors + 1; report = c.report ++ (line ∷ []) }

-- The loop over the `n` sectors of an extent from `sector` on.
pub see_extent : (n sector : ℕ) → Check → Check
see_extent zero sector c = c
see_extent (suc n) sector c =
    let noted = if test_bit 8 c.seen sector then complain overlapping c else c in
    see_extent n ((sector + 1) % 2 ^ 32) (record noted { seen = set_bit 8 noted.seen sector })

-- One round of the loop over the inodes.
pub see_inode : Space → Inode → Check → Check
see_inode s e c =
    if not (e.kind == type_file)
    then c
    else if ltb e.first_sector s.superblock.data_start
        || ltb s.superblock.total ((e.first_sector + e.sector_count) % 2 ^ 32)
    then complain out_of_bounds c
    else see_extent e.sector_count e.first_sector c

pub see_inodes : (n i : ℕ) → Space → Check → Check
see_inodes zero i s c = c
see_inodes (suc n) i s c = see_inodes n (i + 1) s (see_inode s (inode_at s i) c)

-- The last loop, `n` sectors from `sector` on: it ends at the first mismatch.
pub compare_from : (n sector : ℕ) → Words → Check → Check
compare_from zero sector words c = c
compare_from (suc n) sector words c =
    if not (beq (bitmap_get words sector) (test_bit 8 c.seen sector))
    then complain mismatch c
    else compare_from n (sector + 1) words c

pub check_space : Space → Check
check_space s =
    let start : Check = record {
      seen = set_bits 8 s.superblock.data_start 0 (replicate bitmap_bytes 0);
      errors = 0;
      report = [];
    } in
    compare_from s.superblock.total 0 s.bitmap (see_inodes s.superblock.inode_count 0 s start)

-- The number of errors and the report.
pub diskfs_fsck : {Disk : Type 0} → Volume Disk → ℕ × List FsckLine
diskfs_fsck v =
    let c = check_space v.space in
    if not v.available
    then (1, unavailable ∷ [])
    else (c.errors, if c.errors == 0 then c.report ++ (clean ∷ []) else c.report)

-- The lines as the code prints them.
pub line_text : FsckLine → List ℕ
line_text unavailable = codes "diskfs unavailable\n"
line_text out_of_bounds = codes "file extent out of bounds\n"
line_text overlapping = codes "overlapping extent\n"
line_text mismatch = codes "bitmap mismatch\n"
line_text clean = codes "diskfs fsck: clean\n"

-- For a buffer of `report_size` bytes, whose text is the report. A buffer of no bytes is left alone.
pub append_report : (report_size : ℕ) (report text : List ℕ) → List ℕ
append_report report_size report [] = report
append_report report_size report (c ∷ text) =
    if ltb (length report + 1) report_size
    then append_report report_size (report ++ (c ∷ [])) text
    else report

pub report_text : (report_size : ℕ) (report : List ℕ) → List FsckLine → List ℕ
report_text report_size report [] = report
report_text report_size report (line ∷ lines) =
    report_text report_size (append_report report_size report (line_text line)) lines
