-- ===== src/Paths.antt =====
-- Paths of the file system, kernel/fs/diskfs/diskfs.c: how a path is cut into parts, and how a part
-- is looked up. A text is the bytes in front of its end; a result of -1 is `none`.
pub mod Kinds
pub mod Search
pub mod Alike
pub mod Short
pub mod Walk
mod Tests
use myos_gui_desktop.Base.{
  ℕ, zero, suc, ◌+◌, ◌-◌, Bool, true, false, not, ◌&&◌, ◌||◌, Option, none, some, List, [], ◌∷◌,
  ◌++◌,
}
use myos_gui_desktop.Base.Tests.{ltb, leb, ◌==◌, if◌then◌else◌}
use myos_gui_desktop.Base.Lists.{length, get_or, take}
use myos_gui_desktop.Base.Int.{pos, eq_ℤ}
use myos_gui_desktop.Strings.{kstrcmp}
use myos_gui_desktop.Volume.{Inode, Space, inode_at, max_inodes, root_inode, type_file, type_dir}

-- `DISKFS_NAME_MAX` and `DISKFS_PATH_MAX`.
abbrev pub name_max : ℕ
name_max = 31

abbrev pub path_max : ℕ
path_max = 64

-- The loop of `inode_name_valid`, `n` bytes from `i` on.
unfoldable pub ends_within : (n i : ℕ) → List ℕ → Bool
ends_within zero i name = false
ends_within (suc n) i name = if get_or name i 0 == 0 then true else ends_within n (i + 1) name

-- For a name that is no null pointer.
unfoldable pub inode_name_valid : List ℕ → Bool
inode_name_valid name = if get_or name 0 0 == 0 then false else ends_within 32 0 name

unfoldable pub skip_slashes : List ℕ → List ℕ
skip_slashes [] = []
skip_slashes (c ∷ p) = if c == b'/' then skip_slashes p else c ∷ p

-- The second loop of `path_part`: the part after the `len` bytes taken, and what is behind it.
-- `none` is a part that is too long.
unfoldable pub take_part : (len : ℕ) → List ℕ → Option (List ℕ × List ℕ)
take_part len [] = some ([], [])
take_part len (c ∷ p) =
    let rest = take_part (len + 1) p in
    if c == b'/'
    then some ([], c ∷ p)
    else if leb name_max (len + 1)
    then none
    else elim rest [ some (part, q) ↦ some (c ∷ part, q) | none ↦ none ]

-- The part and the new cursor. On a failure the callers use neither.
unfoldable pub path_part : List ℕ → Option (List ℕ × List ℕ)
path_part cursor = elim (skip_slashes cursor) [
  | [] ↦ none
  | c ∷ p ↦ elim (take_part 0 (c ∷ p)) [
    | some (part, q) ↦ if ltb 0 (length part) then some (part, q) else none
    | none ↦ none
  ]
]

-- The test of `find_child`.
unfoldable pub is_child : (parent : ℕ) (name : List ℕ) (type_or_zero : ℕ) → Inode → Bool
is_child parent name type_or_zero e =
    not (e.kind == 0)
    && (e.parent == parent)
    && ((type_or_zero == 0) || (e.kind == type_or_zero))
    && eq_ℤ (kstrcmp e.name name) (pos 0)

-- The loop of `find_child`, `n` inodes from `i` on.
unfoldable pub find_child_from :
    (n i : ℕ) (parent : ℕ) (name : List ℕ) (type_or_zero : ℕ) → Space → Option ℕ
find_child_from zero i parent name type_or_zero s = none
find_child_from (suc n) i parent name type_or_zero s =
    let rest = find_child_from n (i + 1) parent name type_or_zero s in
    if ltb i s.superblock.inode_count
    then (if is_child parent name type_or_zero (inode_at s i) then some i else rest)
    else none

unfoldable pub find_child : (parent : ℕ) (name : List ℕ) (type_or_zero : ℕ) → Space → Option ℕ
find_child = find_child_from max_inodes 0

-- The loop of `find_path`. Every part takes a byte of the path at least, so one round for each byte
-- and one to stop are enough; `Paths.Walk` shows it.
pub find_path_from : (fuel : ℕ) (cursor : List ℕ) (current : ℕ) (saw_part : Bool) → Space → Option ℕ
find_path_from zero cursor current saw_part s = none
find_path_from (suc fuel) cursor current saw_part s = elim (path_part cursor) [
  | none ↦ some (if saw_part then current else root_inode)
  | some (part, rest) ↦ elim (find_child current part 0 s) [
    | some child ↦ find_path_from fuel rest child true s
    | none ↦ none
  ]
]

-- For a path that is no null pointer.
unfoldable pub find_path : List ℕ → Space → Option ℕ
find_path path = find_path_from (length path + 1) path root_inode false

-- The loop of `ensure_parent_dir`.
unfoldable pub parent_dir_from :
    (fuel : ℕ) (cursor : List ℕ) (current : ℕ) (part : List ℕ) → Space → Option (ℕ × List ℕ)
parent_dir_from zero cursor current part s = none
parent_dir_from (suc fuel) cursor current part s = elim (path_part cursor) [
  | none ↦ some (current, part)
  | some (next, rest) ↦ elim (find_child current part type_dir s) [
    | some child ↦ parent_dir_from fuel rest child next s
    | none ↦ none
  ]
]

-- The inode of the directory and the last part.
unfoldable pub ensure_parent_dir : List ℕ → Space → Option (ℕ × List ℕ)
ensure_parent_dir path s = elim (path_part path) [
  | none ↦ none
  | some (part, rest) ↦ parent_dir_from (length path + 1) rest root_inode part s
]

pub is_file : Space → Option ℕ → Bool
is_file s (some index) = (inode_at s index).kind == type_file
is_file s none = false

-- The path with a slash in front, cut to the buffer.
pub full_path : List ℕ → List ℕ
full_path path = b'/' ∷ take (path_max - 2) path

unfoldable pub diskfs_find_file : List ℕ → Space → Option ℕ
diskfs_find_file path s =
    let index = find_path path s in
    let again = find_path (full_path path) s in
    if is_file s index
    then index
    else if not (get_or path 0 0 == b'/') && is_file s again
    then again
    else none
