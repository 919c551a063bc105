-- ===== src/Paths/Alike.antt =====
-- A lookup looks at the kind, the directory and the name of the inodes that count, and at nothing
-- else.
use myos_gui_desktop.Base.{ℕ, zero, suc, ◌+◌, ◌≡◌, refl, List}
use myos_gui_desktop.Volume.{Space, Inode, inode_at, max_inodes}
use myos_gui_desktop.Paths.{is_child, find_child_from, find_child}

pub record Alike (e f : Inode) : Type 0 where
  pub kind : f.kind ≡ e.kind
  pub parent : f.parent ≡ e.parent
  pub name : f.name ≡ e.name

is_child-Alike :
    (parent : ℕ) (name : List ℕ) (type : ℕ) {e f : Inode}
    → Alike e f
    → is_child parent name type f ≡ is_child parent name type e
unfolding is_child
is_child-Alike parent name type h = rw (h.kind, h.parent, h.name) refl

find_child_from-Alike :
    (n i parent : ℕ) (name : List ℕ) (type : ℕ) (s t : Space)
    → t.superblock.inode_count ≡ s.superblock.inode_count
    → ((k : ℕ) → Alike (inode_at s k) (inode_at t k))
    → find_child_from n i parent name type t ≡ find_child_from n i parent name type s
unfolding find_child_from
find_child_from-Alike zero i parent name type s t c h = refl
find_child_from-Alike (suc n) i parent name type s t c h =
    rw
      (
        find_child_from-Alike n (i + 1) parent name type s t c h,
        is_child-Alike parent name type (h i),
        c,
      )
      refl

pub find_child-Alike :
    (parent : ℕ) (name : List ℕ) (type : ℕ) (s t : Space)
    → t.superblock.inode_count ≡ s.superblock.inode_count
    → ((k : ℕ) → Alike (inode_at s k) (inode_at t k))
    → find_child parent name type t ≡ find_child parent name type s
unfolding find_child
find_child-Alike = find_child_from-Alike max_inodes 0
