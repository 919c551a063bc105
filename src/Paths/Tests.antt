-- ===== src/Paths/Tests.antt =====
-- A small tree, `/d/f`, and the lookups in it.
use myos_gui_desktop.Base.{ℕ, ◌≡◌, refl, List, [], ◌∷◌, arith}
use myos_gui_desktop.Base.Lists.{replicate}
use myos_gui_desktop.Volume.{Space, zero_inode, root_inode, type_dir, type_file}
use myos_gui_desktop.Mount.{zero_superblock}
use myos_gui_desktop.Paths.{path_part, skip_slashes, find_path, ensure_parent_dir}
use myos_gui_desktop.Paths.Walk.{
  IsPart, Spells, tail_only, name, walk, walk_dirs, find_path-walk, ensure_parent_dir-walk_dirs,
}

abbrev tree : Space
tree = record {
  superblock = record zero_superblock { inode_count = 3 };
  inodes =
      record zero_inode { kind = type_dir }
      ∷ record zero_inode { kind = type_dir; name = b'd' ∷ 0 ∷ [] }
      ∷ record zero_inode { kind = type_file; parent = 1; name = b'f' ∷ 0 ∷ [] }
      ∷ [];
  bitmap = [];
}

abbrev d_name : List ℕ
d_name = b'd' ∷ []

abbrev f_name : List ℕ
f_name = b'f' ∷ []

d-IsPart : IsPart d_name
d-IsPart = record { no_slash = refl; some_byte = omega arith; short = omega arith }

f-IsPart : IsPart f_name
f-IsPart = record { no_slash = refl; some_byte = omega arith; short = omega arith }

spelled :
    (tail : List ℕ)
    → Spells (b'/' ∷ tail) (d_name ∷ f_name ∷ []) (b'/' ∷ b'd' ∷ b'/' ∷ b'f' ∷ b'/' ∷ tail)
unfolding replicate
spelled tail = name 1 d_name d-IsPart refl (name 1 f_name f-IsPart refl tail_only)

find_path-walk_example :
    find_path (b'/' ∷ b'd' ∷ b'/' ∷ b'f' ∷ b'/' ∷ []) tree
    ≡ walk (d_name ∷ f_name ∷ []) root_inode tree
unfolding path_part skip_slashes
find_path-walk_example = find_path-walk tree (spelled []) refl

ensure_parent_dir-walk_dirs_example :
    ensure_parent_dir (b'/' ∷ b'd' ∷ b'/' ∷ b'f' ∷ b'/' ∷ []) tree
    ≡ walk_dirs (f_name ∷ []) root_inode d_name tree
unfolding path_part skip_slashes
ensure_parent_dir-walk_dirs_example = ensure_parent_dir-walk_dirs tree (spelled []) refl
