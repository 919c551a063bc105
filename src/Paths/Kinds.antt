-- ===== src/Paths/Kinds.antt =====
-- The kind of what the lookups of a path find.
use myos_gui_desktop.Base.{
  ℕ, zero, suc, ◌+◌, ◌≡◌, ◌≢◌, inl, inr, true, not, ◌&&◌, Option, none, some, List, arith,
}
use mathlib.Core.Option.{some-injective}
use myos_gui_desktop.Base.Lists.{get_or}
use myos_gui_desktop.Base.Tests.{ltb, ◌==◌, Bool-cases, ==_iff}
use myos_gui_desktop.Volume.{Space, inode_at, type_file}
use myos_gui_desktop.Paths.{
  is_child, find_child_from, find_child, find_path, full_path, is_file, diskfs_find_file,
}

is_child-kind :
    (parent : ℕ) (name : List ℕ) (type i : ℕ) (s : Space)
    → type ≢ 0
    → is_child parent name type (inode_at s i) ≡ true
    → (inode_at s i).kind ≡ type
unfolding is_child
is_child-kind parent name type i s wanted h = ground (arith, h)

find_child_from-kind :
    (n i parent : ℕ) (name : List ℕ) (type : ℕ) (s : Space) (k : ℕ)
    → type ≢ 0
    → find_child_from n i parent name type s ≡ some k
    → (inode_at s k).kind ≡ type
unfolding find_child_from
find_child_from-kind zero i parent name type s k wanted = λ h. ground (arith, h)
find_child_from-kind (suc n) i parent name type s k wanted =
    elim (Bool-cases (ltb i s.superblock.inode_count)) [
      | inr out ↦ rw out (λ h. ground (arith, h))
      | inl inside ↦ elim (Bool-cases (is_child parent name type (inode_at s i))) [
        | inl hit ↦
            rw (inside, hit)
              (λ h. (rw (some-injective i k h) at (is_child-kind parent name type i s wanted hit)))
        | inr miss ↦ rw (inside, miss) (find_child_from-kind n (i + 1) parent name type s k wanted)
      ]
    ]

-- A lookup of a file finds a file.
pub find_child-kind :
    (parent : ℕ) (name : List ℕ) (s : Space) (k : ℕ)
    → find_child parent name type_file s ≡ some k
    → (inode_at s k).kind ≡ type_file
unfolding find_child
find_child-kind parent name s k = find_child_from-kind 64 0 parent name type_file s k (omega arith)

is_file-kind :
    (s : Space) (r : Option ℕ) (k : ℕ)
    → is_file s r ≡ true
    → r ≡ some k
    → (inode_at s k).kind ≡ type_file
unfolding is_file
is_file-kind s (some i) k h e = rw (some-injective i k e) at ((==_iff _ _).0 h)
is_file-kind s none k h e = ground (arith, h)

-- A path that is found is the path of a file.
pub diskfs_find_file-kind :
    (path : List ℕ) (s : Space) (k : ℕ)
    → diskfs_find_file path s ≡ some k
    → (inode_at s k).kind ≡ type_file
unfolding diskfs_find_file
diskfs_find_file-kind path s k = elim (Bool-cases (is_file s (find_path path s))) [
  | inl first ↦ rw first (is_file-kind s (find_path path s) k first)
  | inr missing ↦
      elim (Bool-cases (not (get_or path 0 0 == 47) && is_file s (find_path (full_path path) s))) [
        | inl second ↦
            rw (missing, second)
              (is_file-kind s (find_path (full_path path) s) k (ground (arith, second)))
        | inr neither ↦ rw (missing, neither) (λ h. ground (arith, h))
      ]
]
