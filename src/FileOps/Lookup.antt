-- ===== src/FileOps/Lookup.antt =====
-- A new file is found under its name.
use myos_gui_desktop.Base.{
  ℕ, zero, suc, ◌-◌, ◌≤◌, ◌<◌, ◌≡◌, ◌≢◌, refl, sym, ap, inl, inr, Option, none, some, List, [], ◌∷◌,
  ◌++◌, subst, arith,
}
use myos_gui_desktop.Base.Tests.{ltb, ◌==◌, Bool-cases, ==_iff}
use myos_gui_desktop.Base.Lists.{length, replicate, take}
use myos_gui_desktop.Strings.Compare.{text_of}
use myos_gui_desktop.Volume.{Space, inode_at, max_inodes, type_file}
use myos_gui_desktop.Volume.Layout.{Agrees}
use myos_gui_desktop.Paths.{find_child}
use myos_gui_desktop.Paths.Search.{IsChild, Searched, first, missing, find_child-Searched}
use myos_gui_desktop.FileOps.{stored_name}
use myos_gui_desktop.FileOps.Changes.{Created}

text_of-replicate : (n : ℕ) → text_of (replicate n 0) ≡ []
unfolding text_of replicate
text_of-replicate zero = refl
text_of-replicate (suc n) = refl

text_of-take :
    (n k : ℕ) (name : List ℕ)
    → length name ≤ n
    → text_of (take n name ++ replicate k 0) ≡ text_of name
unfolding text_of
text_of-take zero k [] l = text_of-replicate k
text_of-take (suc n) k [] l = text_of-replicate k
text_of-take zero k (c ∷ name) l = absurd (omega arith)
text_of-take (suc n) k (c ∷ name) l = ground (arith, text_of-take n k name (omega arith))

-- A name of 31 bytes or less is stored whole.
pub text_of-stored_name :
    (leaf : List ℕ) → length leaf ≤ 31 → text_of (stored_name leaf) ≡ text_of leaf
unfolding stored_name
text_of-stored_name leaf l = text_of-take 31 (32 - length (take 31 leaf)) leaf l

-- With no file of the name in the directory before, the new file is the one that the name finds.
pub find_child-create_inode :
    {parent : ℕ} {leaf : List ℕ} {sectors size : ℕ} {s t : Space} {i : ℕ}
    → Agrees s
    → length leaf ≤ 31
    → find_child parent leaf type_file s ≡ none
    → Created parent leaf sectors size s i t
    → find_child parent leaf type_file t ≡ some i
find_child-create_inode {parent} {leaf} {sectors} {size} {s} {t} {i} a short before c =
    go (find_child parent leaf type_file t) (find_child-Searched parent leaf type_file t)
  where
    child_here : IsChild parent leaf type_file (inode_at t i)
    child_here = rw (c.here) (record {
      used = omega arith;
      parent_of = refl;
      kind_of = inr refl;
      name_of = text_of-stored_name leaf short;
    })

    none_before :
        Searched parent leaf type_file s 0 none
        → (k : ℕ) → k < s.superblock.inode_count
        → k < max_inodes
        → ¬ IsChild parent leaf type_file (inode_at s k)
    none_before (missing no_child) k b l = no_child k (omega arith) b l

    -- Another child was one before.
    old : (k : ℕ) → i ≢ k → k < max_inodes → ¬ IsChild parent leaf type_file (inode_at t k)
    old k other l child =
        let was : IsChild parent leaf type_file (inode_at s k) =
          subst (IsChild parent leaf type_file) (c.there k other) child in
        elim (Bool-cases (ltb k s.superblock.inode_count)) [
          | inl inside ↦
              none_before
                (subst (Searched parent leaf type_file s 0) before
                  (find_child-Searched parent leaf type_file s))
                k (ground (arith, inside)) l was
          | inr beyond ↦ was.used (a.unused k (ground (arith, beyond)))
        ]

    go : (r : Option ℕ) → Searched parent leaf type_file t 0 r → r ≡ some i
    go none (missing no_child) =
        absurd (no_child i (omega arith) c.counted (omega (arith, c.counted, c.limit)) child_here)
    go (some k) (first k' low inside limit child before') = elim (Bool-cases (i == k)) [
      | inl same ↦ ap some (sym ((==_iff i k).0 same))
      | inr other ↦ absurd (old k (ground (arith, other)) limit child)
    ]
