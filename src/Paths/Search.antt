-- ===== src/Paths/Search.antt =====
-- What `find_child` finds.
use myos_gui_desktop.Base.{
  ℕ, zero, suc, ◌+◌, ◌≤◌, ◌<◌, ◌≡◌, ◌≢◌, ◌↔◌, ◌⊎◌, inl, inr, true, Option, none, some, List, subst,
  arith,
}
use myos_gui_desktop.Base.Tests.{ltb, ◌==◌, Bool-cases, ==_iff}
use myos_gui_desktop.Strings.Compare.{text_of, kstrcmp-text_of}
use myos_gui_desktop.Volume.{Space, Inode, inode_at, max_inodes}
use myos_gui_desktop.Paths.{is_child, find_child_from, find_child}

-- The inode is in use, in the directory, of the kind if one is asked for, and has the name.
pub record IsChild (parent : ℕ) (name : List ℕ) (type_or_zero : ℕ) (e : Inode) : Type 0 where
  pub used : e.kind ≢ 0
  pub parent_of : e.parent ≡ parent
  pub kind_of : (type_or_zero ≡ 0) ⊎ (e.kind ≡ type_or_zero)
  pub name_of : text_of e.name ≡ text_of name

pub is_child-IsChild :
    (parent : ℕ) (name : List ℕ) (type : ℕ) (e : Inode)
    → (is_child parent name type e ≡ true) ↔ IsChild parent name type e
unfolding is_child
is_child-IsChild parent name type e = (
  λ h. record {
    used = ground (arith, h);
    parent_of = ground (arith, h);
    kind_of = ground (arith, h);
    name_of = (kstrcmp-text_of e.name name).0 (ground (arith, h));
  },
  λ c. ground (arith, c.used, c.parent_of, c.kind_of, (kstrcmp-text_of e.name name).1 c.name_of),
)

-- What a search from inode `i` on gives: the first child, or none if there is no child.
pub data Searched (parent : ℕ) (name : List ℕ) (type : ℕ) (s : Space) (i : ℕ)
    : Option ℕ → Type 0 where
  first :
      (k : ℕ)
      → i ≤ k
      → k < s.superblock.inode_count
      → k < max_inodes
      → IsChild parent name type (inode_at s k)
      → ((j : ℕ) → i ≤ j → j < k → ¬ IsChild parent name type (inode_at s j))
      → Searched parent name type s i (some k)
  missing :
      ((j : ℕ)
        → i ≤ j
        → j < s.superblock.inode_count
        → j < max_inodes
        → ¬ IsChild parent name type (inode_at s j))
      → Searched parent name type s i none

module _ (parent : ℕ) (name : List ℕ) (type : ℕ) (s : Space) where
  skip-Searched :
      (i : ℕ) (r : Option ℕ)
      → ¬ IsChild parent name type (inode_at s i)
      → Searched parent name type s (i + 1) r
      → Searched parent name type s i r
  skip-Searched i r unlike (first k a b c d e) = first k (omega arith) b c d (λ j l m.
      elim (Bool-cases (i == j)) [
        | inl same ↦
            subst (λ u. ¬ IsChild parent name type (inode_at s u)) ((==_iff i j).0 same) unlike
        | inr later ↦ e j (ground (arith, later)) m
      ])
  skip-Searched i r unlike (missing e) = missing (λ j l m n. elim (Bool-cases (i == j)) [
    | inl same ↦ subst (λ u. ¬ IsChild parent name type (inode_at s u)) ((==_iff i j).0 same) unlike
    | inr later ↦ e j (ground (arith, later)) m n
  ])

  find_child_from-Searched :
      (n i : ℕ)
      → n + i ≡ max_inodes
      → Searched parent name type s i (find_child_from n i parent name type s)
  unfolding find_child_from
  find_child_from-Searched zero i h = missing (λ j a b c. absurd (omega arith))
  find_child_from-Searched (suc n) i h = elim (Bool-cases (ltb i s.superblock.inode_count)) [
    | inr out ↦ rw out (missing (λ j a b c. absurd (ground (arith, out))))
    | inl inside ↦
        let child = is_child-IsChild parent name type (inode_at s i) in
        elim (Bool-cases (is_child parent name type (inode_at s i))) [
          | inl hit ↦
              rw (inside, hit)
                (first i (omega arith) (ground arith) (omega arith) (child.0 hit)
                  (λ j a b. absurd (omega arith)))
          | inr miss ↦
              rw (inside, miss)
                (skip-Searched i _ (λ c. ground (arith, child.1 c, miss))
                  (find_child_from-Searched n (i + 1) (omega arith)))
        ]
  ]

-- find_child gives the first inode that counts and is a child with the name, and of the kind that is
-- asked for, and -1 exactly where there is none.
pub find_child-Searched :
    (parent : ℕ) (name : List ℕ) (type : ℕ) (s : Space)
    → Searched parent name type s 0 (find_child parent name type s)
unfolding find_child
find_child-Searched parent name type s =
    find_child_from-Searched parent name type s max_inodes 0 (omega arith)
