-- ===== src/Fsck/Tests.antt =====
-- A fresh volume, what the operations on files do to it, and the theorems there.
use myos_gui_desktop.Base.{some, false, ℕ, zero, suc, ◌≡◌, ◌↔◌, refl, ap, ◌∙◌, [], ◌∷◌, true, arith}
use myos_gui_desktop.Base.Tests.{ltb, ◌==◌, if◌then◌else◌}
use myos_gui_desktop.Base.Lists.{
  get_or-replicate, length, replicate, length-replicate, get_or-replicate_same,
}
use myos_gui_desktop.Base.Bitmap.{test_bit-zeros}
use myos_gui_desktop.Base.Runs.{set_bits, length-set_bits, test_bit-set_bits}
use myos_gui_desktop.DiskFs.{Ata, Sector, no_entry}
use myos_gui_desktop.Volume.{Space, Inode, Volume, zero_inode, type_dir, inode_at, bitmap_get}
use myos_gui_desktop.Volume.Layout.{Agrees, used_by}
use myos_gui_desktop.Mount.{diskfs_magic}
use myos_gui_desktop.FileOps.{diskfs_write_file, diskfs_delete_file}
use myos_gui_desktop.FileOps.Steps.{Steps, here, next, write, delete, Steps-Agrees}
use myos_gui_desktop.DiskFs.View.{IsDisk, Shows}
use myos_gui_desktop.DiskFs.Working.{IsWorking}
use myos_gui_desktop.Files.Settled.{HasLayout}
use myos_gui_desktop.FileOps.WriteRead.{HasFile}
use myos_gui_desktop.FileOps.WriteFile.{diskfs_write_file-HasFile, diskfs_write_file_long_name}
use myos_gui_desktop.Paths.Walk.{Spells, name, tail_only, walk_dirs}
use myos_gui_desktop.Volume.{root_inode}
use myos_gui_desktop.Base.{List, ◌++◌}
use myos_gui_desktop.Paths.{find_path}
use myos_gui_desktop.Paths.{
  ensure_parent_dir, path_part, skip_slashes, take_part, parent_dir_from, find_child,
  find_child_from, is_child, inode_name_valid, ends_within,
}
use Prim.Native.Nat.{min}
use myos_gui_desktop.Base.{◌%◌, ◌*◌}
use myos_gui_desktop.Process.{Processes, no_processes, empty_process, closed}
use myos_gui_desktop.Process.Reads.{reads, user_process_fd_read-reads}
use myos_gui_desktop.Base.Lists.{drop}
use myos_gui_desktop.Files.{diskfs_read_index}
use myos_gui_desktop.Files.Reading.{diskfs_read_index-Holds}
use myos_gui_desktop.Files.RoundTrip.{IsFile, Reads, diskfs_read_index-write_file_data}
use myos_gui_desktop.Strings.{bytes_of, kstrcmp}
use myos_gui_desktop.Base.Bitmap.{set_bit, test_bit}
use myos_gui_desktop.DiskFs.{
  write_sector, cache_get, find_slot, use_slot, take_slot, cache_writeback, fill_slot,
  raw_read_sector, raw_write_sector, read_sector, flush_slots, diskfs_flush,
}
use myos_gui_desktop.Files.{
  rebuild_file_list, begin_transaction, write_journal, flush, write_superblock, write_bitmap,
  write_inode, write_file_data, write_sectors, data_sector, commit_transaction,
}
use myos_gui_desktop.Volume.{
  sectors_for_size, alloc_inode, alloc_inode_from, alloc_contiguous, find_run,
}
use myos_gui_desktop.FileOps.{create_file, create_inode}
use myos_gui_desktop.Fsck.{check_space, diskfs_fsck}
use myos_gui_desktop.Fsck.Covered.{covered, IsSized, Fits-Agrees}
use myos_gui_desktop.Fsck.Sound.{NoWrap, diskfs_fsck-Agrees, check_space-Agrees, check_space-Steps}

-- A disk as the map that it holds.
abbrev Disk : Type 0
Disk = ℕ → Sector

ata : Ata Disk
ata = record {
  ata_read_sector = λ d s b. (true, d s);
  ata_write_sector = λ d s b. (true, λ t. if s == t then b else d t);
}

abbrev root : Inode
root = record zero_inode { kind = type_dir }

-- The tables of a volume with 20 sectors in front of the data area and no file.
abbrev tables : Space
tables = record {
  superblock = record {
    magic = diskfs_magic;
    total = 4096;
    inode_limit = 64;
    inode_count = 1;
    bitmap_start = 2;
    bitmap_sectors = 1;
    inode_start = 3;
    inode_sectors = 8;
    data_start = 20;
    journal_state = 0;
  };
  inodes = root ∷ replicate 63 zero_inode;
  bitmap = set_bits 8 20 0 (replicate 512 0);
}

fresh : Volume Disk
fresh = record {
  sectors = record {
    disk = λ s. replicate 512 0;
    fs_start_lba = 2048;
    cache = replicate 8 no_entry;
    cache_clock = 0;
  };
  available = true;
  space = tables;
  files = [];
  file_buffer = replicate 16384 0;
}

no_files : (i : ℕ) → (inode_at tables i).kind ≡ (if i == 0 then 2 else 0)
no_files zero = refl
no_files (suc i) = ap (λ e. e.kind) (get_or-replicate_same 63 i zero_inode) ∙ ground arith

tables-IsSized : IsSized tables
tables-IsSized = record {
  size = ap suc (length-replicate 63 zero_inode);
  words = length-set_bits 8 20 0 (replicate 512 0) ∙ length-replicate 512 0;
  total = refl;
  start = omega arith;
  count = omega arith;
  unused = λ i l. no_files i ∙ ground arith;
}

tables-NoWrap : NoWrap tables
tables-NoWrap i f = ground (arith, no_files i, f)

tables-covered : (j : ℕ) → covered 1 tables j ≡ ltb j 20
unfolding covered used_by
tables-covered j = refl

tables-Agrees : Agrees tables
unfolding bitmap_get used_by
tables-Agrees =
    let size : length {A = ℕ} (replicate 512 0) ≡ 512 = length-replicate 512 0 in
    Fits-Agrees tables tables-IsSized
      (λ k l. record {
        range = λ f. absurd (ground (arith, no_files k, f));
        new = λ j u. absurd (ground (arith, no_files k, u));
      })
      (λ j l.
        test_bit-set_bits 8 (omega arith) 20 0 j (replicate 512 0) (omega (arith, size))
        ∙ ground (arith, test_bit-zeros 8 512 j, tables-covered j))

diskfs_fsck-Agrees_example : ((diskfs_fsck fresh).0 ≡ 0) ↔ Agrees fresh.space
unfolding fresh
diskfs_fsck-Agrees_example = diskfs_fsck-Agrees fresh refl tables-IsSized tables-NoWrap

-- A file `/a` is written and deleted again.
written : Volume Disk
written = (diskfs_write_file ata (b'/' ∷ b'a' ∷ []) (b'h' ∷ b'i' ∷ []) 2 fresh).1

steps : Steps ata fresh (diskfs_delete_file ata (b'/' ∷ b'a' ∷ []) written).1
unfolding written
steps = next (next here (write (b'/' ∷ b'a' ∷ []) (b'h' ∷ b'i' ∷ []) 2)) (delete (b'/' ∷ b'a' ∷ []))

fresh-Agrees : Agrees fresh.space
unfolding fresh
fresh-Agrees = tables-Agrees

Steps-Agrees_example : Agrees (diskfs_delete_file ata (b'/' ∷ b'a' ∷ []) written).1.space
Steps-Agrees_example = Steps-Agrees ata steps fresh-Agrees

fresh_clean : (check_space fresh.space).errors ≡ 0
unfolding fresh
fresh_clean = (check_space-Agrees tables tables-IsSized tables-NoWrap).1 tables-Agrees

fresh-IsSized : IsSized fresh.space
unfolding fresh
fresh-IsSized = tables-IsSized

fresh-NoWrap : NoWrap fresh.space
unfolding fresh
fresh-NoWrap = tables-NoWrap

check_space-Steps_example :
    (check_space (diskfs_delete_file ata (b'/' ∷ b'a' ∷ []) written).1.space).errors ≡ 0
check_space-Steps_example = check_space-Steps ata steps fresh-IsSized fresh-NoWrap fresh_clean

abbrev sector_at : Disk → ℕ → Sector
sector_at d s = d s

ata-IsDisk : IsDisk ata sector_at
unfolding ata
ata-IsDisk = record {
  read = λ d s b h. refl;
  write = λ d s b h. (let yes : (s == s) ≡ true = ground arith in rw yes);
  others = λ d s t b h. (let no : (s == t) ≡ false = ground arith in rw no);
}

ata-IsWorking : IsWorking ata
unfolding ata
ata-IsWorking = record { reads = λ d s b. refl; writes = λ d s b. refl }

abbrev blank : ℕ → Sector
blank s = replicate 512 0

fresh-Shows : Shows sector_at blank fresh.sectors
unfolding fresh
fresh-Shows = record {
  size = length-replicate 8 no_entry;
  lba = omega arith;
  range = λ i l. rw (get_or-replicate 8 no_entry no_entry i l) (λ v. ground (arith, v));
  apart = λ i j l k. rw (get_or-replicate 8 no_entry no_entry i l) (λ v. ground (arith, v));
  cached = λ i l. rw (get_or-replicate 8 no_entry no_entry i l) (λ v. ground (arith, v));
  backed = λ s l clean. refl;
}

fresh-HasLayout : HasLayout fresh.space
unfolding fresh
fresh-HasLayout = record {
  front = omega arith;
  back = omega arith;
  bitmap = omega arith;
  inodes = omega arith;
}

write_succeeds : (diskfs_write_file ata (b'/' ∷ b'a' ∷ []) (b'h' ∷ b'i' ∷ []) 2 fresh).0 ≡ true
unfolding fresh ata ensure_parent_dir path_part skip_slashes take_part parent_dir_from
    diskfs_write_file replicate begin_transaction write_journal write_sector cache_get find_slot
    use_slot take_slot cache_writeback fill_slot raw_read_sector raw_write_sector read_sector
    flush_slots diskfs_flush flush write_superblock write_bitmap write_inode write_file_data
    write_sectors data_sector sectors_for_size find_child find_child_from is_child create_file
    create_inode alloc_inode alloc_inode_from alloc_contiguous find_run bitmap_get test_bit set_bit
    set_bits commit_transaction inode_name_valid ends_within bytes_of kstrcmp rebuild_file_list
write_succeeds = refl

a-Spells : Spells (replicate 0 b'/') ((b'a' ∷ []) ∷ []) (b'/' ∷ b'a' ∷ [])
unfolding replicate
a-Spells =
    name 1 (b'a' ∷ []) (record { no_slash = refl; some_byte = omega arith; short = omega arith })
      refl tail_only

leads_to_root : walk_dirs [] root_inode (b'a' ∷ []) fresh.space ≡ some (0, b'a' ∷ [])
unfolding walk_dirs
leads_to_root = refl

diskfs_write_file-HasFile_example : HasFile ata 0 (b'a' ∷ []) 2 (b'h' ∷ b'i' ∷ []) written
unfolding written
diskfs_write_file-HasFile_example =
    diskfs_write_file-HasFile ata-IsDisk ata-IsWorking fresh (b'/' ∷ b'a' ∷ []) (b'h' ∷ b'i' ∷ []) 2
      0 0 fresh-Agrees fresh-HasLayout fresh-Shows a-Spells leads_to_root write_succeeds

abbrev long_name : List ℕ
unfolding replicate
long_name = replicate 31 b'x'

behind_a-Spells :
    Spells (b'/' ∷ (long_name ++ [])) ((b'a' ∷ []) ∷ []) (b'/' ∷ b'a' ∷ b'/' ∷ (long_name ++ []))
unfolding replicate
behind_a-Spells =
    name 1 (b'a' ∷ []) (record { no_slash = refl; some_byte = omega arith; short = omega arith })
      refl tail_only

diskfs_write_file_long_name_example :
    (diskfs_write_file ata (b'/' ∷ b'a' ∷ b'/' ∷ (long_name ++ [])) (b'h' ∷ []) 1 fresh
      ≡ diskfs_write_file ata (b'/' ∷ b'a' ∷ []) (b'h' ∷ []) 1 fresh)
    × (find_path (b'/' ∷ b'a' ∷ b'/' ∷ (long_name ++ [])) fresh.space
        ≡ find_path (b'/' ∷ b'a' ∷ []) fresh.space)
unfolding replicate
diskfs_write_file_long_name_example =
    diskfs_write_file_long_name ata long_name [] (b'h' ∷ []) 1 0 fresh refl (omega arith)
      behind_a-Spells a-Spells

-- A file of one sector, in front of the write of its bytes.
abbrev single : Volume Disk
single = record fresh {
  space = record fresh.space {
    superblock = record fresh.space.superblock { inode_count = 2 };
    inodes =
        root ∷ record zero_inode { kind = 1; size = 2; first_sector = 20; sector_count = 1 } ∷ [];
  };
}

single-IsFile : IsFile single.space 1
unfolding sectors_for_size
single-IsFile = record {
  counted = omega arith;
  file = refl;
  small = omega arith;
  room = omega arith;
}

single-Shows : Shows sector_at blank single.sectors
single-Shows = fresh-Shows

diskfs_read_index-Holds_example :
    (diskfs_read_index ata 1 1 5 single).0 ≡ (true, bytes_of (min 5 1) (drop 1 (0 ∷ 0 ∷ [])))
unfolding fresh ata
diskfs_read_index-Holds_example =
    diskfs_read_index-Holds ata-IsDisk ata-IsWorking single 1 1 5 (0 ∷ 0 ∷ []) single-Shows refl
      (omega arith) refl (omega arith)
      (record {
        room = λ p l. omega arith;
        bytes = λ p l. get_or-replicate_same 512 (p % 512) 0 ∙ ground arith;
      })

diskfs_read_index-write_file_data_example :
    ((write_file_data ata 20 (b'h' ∷ b'i' ∷ []) 2 single).0 ≡ true)
    × Reads ata (write_file_data ata 20 (b'h' ∷ b'i' ∷ []) 2 single).1 1 2 (b'h' ∷ b'i' ∷ [])
unfolding fresh
diskfs_read_index-write_file_data_example =
    diskfs_read_index-write_file_data ata-IsDisk ata-IsWorking single 1 (b'h' ∷ b'i' ∷ [])
      single-IsFile refl single-Shows

-- A process with that file open as its descriptor 1.
abbrev reader : Processes
reader = record no_processes {
  processes =
      record empty_process {
        fds = closed ∷ record { is_open = true; file_index = 1; offset = 0 } ∷ [];
      }
      ∷ [];
  current_process_index = some 0;
}

user_process_fd_read-reads_example :
    reads ata 3 1 1 reader single ≡ bytes_of (min (3 * 1) 2) (drop 0 (0 ∷ 0 ∷ []))
unfolding fresh ata
user_process_fd_read-reads_example =
    user_process_fd_read-reads ata-IsDisk ata-IsWorking 0 1 1 1 (0 ∷ 0 ∷ []) 3 reader single 0
      (omega arith)
      (record {
        current = refl;
        counted = omega arith;
        place = omega arith;
        room = omega arith;
        known = omega arith;
        opened = refl;
        file = refl;
        reached = refl;
      })
      (record {
        shows = single-Shows;
        ready = refl;
        counted = omega arith;
        is = refl;
        small = omega arith;
        holds = record {
          room = λ p l. omega arith;
          bytes = λ p l. get_or-replicate_same 512 (p % 512) 0 ∙ ground arith;
        };
      })
