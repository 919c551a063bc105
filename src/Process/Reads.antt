-- ===== src/Process/Reads.antt =====
-- Reading a file through a descriptor, one `user_process_fd_read` after the other.
use Prim.Native.Nat.{min}
use myos_gui_desktop.Base.{
  ℕ, zero, suc, ◌+◌, ◌-◌, ◌*◌, ◌%◌, ◌^◌, ◌≤◌, ◌<◌, ◌≡◌, refl, sym, ap, ◌∙◌, Bool, true, false, not,
  some, List, [], ◌++◌, subst, arith,
}
use myos_gui_desktop.Base.Tests.{leb, if◌then◌else◌}
use myos_gui_desktop.Base.Lists.{length, get_or, set, drop, length-set, get_or-set_self}
use myos_gui_desktop.Base.Int.{ℤ, pos, negsuc}
use myos_gui_desktop.Strings.{bytes_of}
use myos_gui_desktop.Strings.Bytes.{
  bytes_of_none, length-bytes_of, bytes_of-append, get_or-drop, bytes_of-same,
}
use myos_gui_desktop.DiskFs.{Ata, Sector}
use myos_gui_desktop.DiskFs.View.{IsDisk, Shows}
use myos_gui_desktop.DiskFs.Working.{IsWorking}
use myos_gui_desktop.Volume.{Space, Volume, inode_at, type_file}
use myos_gui_desktop.Files.{diskfs_read_index}
use myos_gui_desktop.Files.Reading.{Holds, diskfs_read_index-Holds, diskfs_read_index-Shows}
use myos_gui_desktop.Process.{
  Descriptor, closed, UserProcess, Processes, empty_process, current_process,
}
use myos_gui_desktop.Process.Descriptors.{
  process_at, descriptor, put_descriptor, open_in, user_process_fd_read,
}

-- What a program gets that reads `n` times.
abbrev pub reads : {Disk : Type 0} → Ata Disk → (n fd size : ℕ) → Processes → Volume Disk → List ℕ
reads ata zero fd size w v = []
reads ata (suc n) fd size w v =
    let got = user_process_fd_read ata fd size w v in got.0.1 ++ reads ata n fd size got.1 got.2

-- The descriptor of the current process is open at an offset of a file.
pub record IsAt (w : Processes) (i fd index from : ℕ) : Type 0 where
  pub current : w.current_process_index ≡ some i
  pub counted : i < 8
  pub place : i < length w.processes
  pub room : fd < length (process_at w i).fds
  pub known : fd < 8
  pub opened : (descriptor w i fd).is_open ≡ true
  pub file : (descriptor w i fd).file_index ≡ index
  pub reached : (descriptor w i fd).offset ≡ from

current_process-IsAt :
    {w : Processes} {i fd index offset : ℕ} → IsAt w i fd index offset → current_process w ≡ some i
unfolding current_process
current_process-IsAt {w} {i} at =
    let low : leb 8 i ≡ false = ground (arith, at.counted) in
    rw (current_process, at.current, low) refl

open_in-IsAt :
    {w : Processes} {i fd index offset : ℕ} → IsAt w i fd index offset → open_in fd w ≡ some i
unfolding open_in
open_in-IsAt {w} {i} {fd} at =
    let known : leb 8 fd ≡ false = ground (arith, at.known) in
    rw (open_in, current_process-IsAt at, known, at.opened) refl

-- The descriptor goes on.
put_descriptor-IsAt :
    {w : Processes} {i fd index offset : ℕ} (next : ℕ)
    → IsAt w i fd index offset
    → IsAt (put_descriptor i fd (record (descriptor w i fd) { offset = next }) w) i fd index next
put_descriptor-IsAt {w} {i} {fd} next at =
    let d : Descriptor = record (descriptor w i fd) { offset = next } in
    let process : UserProcess = process_at w i in
    let new : UserProcess = record process { fds = set process.fds fd d } in
    let there : get_or (set w.processes i new) i empty_process ≡ new =
      get_or-set_self w.processes i new empty_process at.place in
    let same : get_or (set process.fds fd d) fd closed ≡ d =
      get_or-set_self process.fds fd d closed at.room in
    let found : get_or (get_or (set w.processes i new) i empty_process).fds fd closed ≡ d =
      ap (λ (p : UserProcess). get_or p.fds fd closed) there ∙ same in
    record {
      current = at.current;
      counted = at.counted;
      place = omega (arith, at.place, length-set w.processes i new);
      room = omega (
        arith,
        at.room,
        length-set process.fds fd d,
        ap (λ (p : UserProcess). length p.fds) there,
      );
      known = at.known;
      opened = ap (λ (e : Descriptor). e.is_open) found ∙ at.opened;
      file = ap (λ (e : Descriptor). e.file_index) found ∙ at.file;
      reached = ap (λ (e : Descriptor). e.offset) found;
    }

-- Bytes from two places on.
drop_bytes : (n a b : ℕ) (l : List ℕ) → bytes_of n (drop (a + b) l) ≡ bytes_of n (drop b (drop a l))
drop_bytes n a b l = bytes_of-same n (drop (a + b) l) (drop b (drop a l)) (λ i h.
    get_or-drop (a + b) i l
    ∙ ap (λ k. get_or l k 0) (omega arith)
    ∙ sym (get_or-drop a (b + i) l)
    ∙ sym (get_or-drop b i (drop a l)))

-- The file that is read: its sectors hold its bytes.
pub record IsFile {Disk : Type 0} (sector_at : Disk → ℕ → Sector) (m : ℕ → Sector) (v : Volume Disk)
    (index : ℕ) (input : List ℕ) : Type 0 where
  pub shows : Shows sector_at m v.sectors
  pub ready : v.available ≡ true
  pub counted : index < v.space.superblock.inode_count
  pub is : (inode_at v.space index).kind ≡ type_file
  pub small : (inode_at v.space index).size ≤ 2 ^ 21
  pub holds : Holds m (inode_at v.space index).first_sector input (inode_at v.space index).size

IsFile-same :
    {Disk : Type 0} {sector_at : Disk → ℕ → Sector} {m : ℕ → Sector} {v : Volume Disk}
    (q : Volume Disk) {index : ℕ} {input : List ℕ}
    → IsFile sector_at m v index input
    → Shows sector_at m q.sectors
    → q.available ≡ true
    → q.space ≡ v.space
    → IsFile sector_at m q index input
IsFile-same {m = m} q {index} {input} file shows ready same =
    let back = sym same in
    record {
      shows = shows;
      ready = ready;
      counted = subst (λ (s : Space). index < s.superblock.inode_count) back file.counted;
      is = subst (λ (s : Space). (inode_at s index).kind ≡ type_file) back file.is;
      small = subst (λ (s : Space). (inode_at s index).size ≤ 2 ^ 21) back file.small;
      holds =
          subst
            (λ (s : Space). Holds m (inode_at s index).first_sector input (inode_at s index).size)
            back file.holds;
    }

abbrev pub file_length : {Disk : Type 0} → Volume Disk → ℕ → ℕ
file_length v index = (inode_at v.space index).size

-- The rest of a read, once the file system has answered.
abbrev answered :
    {Disk : Type 0} (i fd : ℕ)
    → Processes
    → (Bool × List ℕ) × Volume Disk
    → (ℤ × List ℕ) × Processes × Volume Disk
answered i fd w got =
    let d = descriptor w i fd in
    if not got.0.0 then ((negsuc 1, got.0.1), w, got.1) else (
      (pos (length got.0.1), got.0.1),
      put_descriptor i fd (record d { offset = (d.offset + length got.0.1) % 2 ^ 32 }) w,
      got.1,
    )

user_process_fd_read-answered :
    {Disk : Type 0} (ata : Ata Disk) (i fd index size : ℕ) (w : Processes) (v : Volume Disk)
    (from : ℕ)
    → IsAt w i fd index from
    → user_process_fd_read ata fd size w v
      ≡ answered i fd w (diskfs_read_index ata index from size v)
unfolding user_process_fd_read
user_process_fd_read-answered ata i fd index size w v from at =
    rw (user_process_fd_read, open_in-IsAt at, at.file, at.reached) refl

-- What one read gives and leaves.
record Read {Disk : Type 0} (sector_at : Disk → ℕ → Sector) (m : ℕ → Sector) (i fd index size : ℕ)
    (input : List ℕ) (v : Volume Disk) (from : ℕ) (out : (ℤ × List ℕ) × Processes × Volume Disk)
    : Type 0 where
  returned : out.0 ≡ (
    pos (min size (file_length v index - from)),
    bytes_of (min size (file_length v index - from)) (drop from input),
  )
  moved : IsAt out.1 i fd index (from + min size (file_length v index - from))
  file : IsFile sector_at m out.2 index input
  same : out.2.space ≡ v.space

module _ {Disk : Type 0} {ata : Ata Disk} {sector_at : Disk → ℕ → Sector}
    (law : IsDisk ata sector_at) (works : IsWorking ata) {m : ℕ → Sector} (i fd index size : ℕ)
    (input : List ℕ) where
  answered-Read :
      (w : Processes) (v q : Volume Disk) (from : ℕ) (r : Bool × List ℕ)
      → from ≤ file_length v index
      → file_length v index ≤ 2 ^ 21
      → IsAt w i fd index from
      → r ≡ (true, bytes_of (min size (file_length v index - from)) (drop from input))
      → IsFile sector_at m q index input
      → q.space ≡ v.space
      → Read sector_at m i fd index size input v from (answered i fd w (r, q))
  answered-Read w v q from r l small at is file same =
      let cut : ℕ = min size (file_length v index - from) in
      let long = length-bytes_of cut (drop from input) in
      let next : ((descriptor w i fd).offset + cut) % 2 ^ 32 ≡ from + cut =
        omega (arith, at.reached) in
      subst (λ x. Read sector_at m i fd index size input v from (answered i fd w (x, q))) (sym is)
        (record {
          returned = ap (λ n. (pos n, bytes_of cut (drop from input))) long;
          moved = rw (long, next) (put_descriptor-IsAt (from + cut) at);
          file = file;
          same = same;
        })

  user_process_fd_read-Read :
      (w : Processes) (v : Volume Disk) (from : ℕ)
      → from ≤ file_length v index
      → IsAt w i fd index from
      → IsFile sector_at m v index input
      → Read sector_at m i fd index size input v from (user_process_fd_read ata fd size w v)
  user_process_fd_read-Read w v from l at file =
      let got =
        diskfs_read_index-Holds law works v index from size input file.shows file.ready file.counted
          file.is file.small file.holds in
      let (shows, same, ready) =
        diskfs_read_index-Shows law works v index from size input file.shows file.ready file.counted
          file.is file.small file.holds in
      let done = diskfs_read_index ata index from size v in
      subst (Read sector_at m i fd index size input v from)
        (sym (user_process_fd_read-answered ata i fd index size w v from at))
        (answered-Read w v done.1 from done.0 l file.small at got
          (IsFile-same done.1 file shows ready same) same)

  -- On a disk that does not fail, `n` reads through a descriptor of the current process, each with room
  -- for `size` bytes, give together the bytes of the file from the offset of the descriptor on, without
  -- a gap and in order, as many as there is room for or up to the end of a file of at most 2 MiB.
  pub user_process_fd_read-reads :
      (n : ℕ) (w : Processes) (v : Volume Disk) (from : ℕ)
      → from ≤ file_length v index
      → IsAt w i fd index from
      → IsFile sector_at m v index input
      → reads ata n fd size w v
        ≡ bytes_of (min (n * size) (file_length v index - from)) (drop from input)
  user_process_fd_read-reads zero w v from l at file =
      let nothing : min (0 * size) (file_length v index - from) ≡ 0 = omega arith in
      rw (nothing, bytes_of_none (drop from input)) refl
  user_process_fd_read-reads (suc n) w v from l at file =
      let out = user_process_fd_read ata fd size w v in
      let h = user_process_fd_read-Read w v from l at file in
      let len : ℕ = file_length v index in
      let cut : ℕ = min size (len - from) in
      let long : file_length out.2 index ≡ len =
        ap (λ (s : Space). (inode_at s index).size) h.same in
      let rest : ℕ = min (n * size) (len - (from + cut)) in
      let whole : cut + rest ≡ min (suc n * size) (len - from) = ground arith in
      let later =
        user_process_fd_read-reads n out.1 out.2 (from + cut) (omega (arith, long, l)) h.moved
          h.file in
      ap (λ (r : ℤ × List ℕ). r.1 ++ reads ata n fd size out.1 out.2) h.returned
      ∙ ap (λ x. bytes_of cut (drop from input) ++ x)
          (later
            ∙ ap (λ k. bytes_of (min (n * size) (k - (from + cut))) (drop (from + cut) input)) long
            ∙ drop_bytes rest from cut input)
      ∙ bytes_of-append cut rest (drop from input)
      ∙ ap (λ k. bytes_of k (drop from input)) whole
