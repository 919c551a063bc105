-- ===== src/Paths/Short.antt =====
-- How long the names are that a path gives.
use myos_gui_desktop.Base.{
  ℕ, zero, suc, ◌+◌, ◌-◌, ◌≤◌, ◌<◌, ◌≡◌, ap, inl, inr, Option, none, some, List, [], ◌∷◌, subst,
  arith,
}
use mathlib.Core.Option.{some-injective}
use myos_gui_desktop.Base.Tests.{ltb, leb, ◌==◌, if◌then◌else◌, Bool-cases}
use myos_gui_desktop.Base.Lists.{length}
use myos_gui_desktop.Volume.{Space, type_dir}
use myos_gui_desktop.Paths.{
  name_max, skip_slashes, take_part, path_part, find_child, parent_dir_from, ensure_parent_dir,
}

-- The part that was taken, if one was, has `k` bytes at most.
data IsShort (k : ℕ) : Option (List ℕ × List ℕ) → Type 0 where
  short : (part rest : List ℕ) → length part ≤ k → IsShort k (some (part, rest))
  refused : IsShort k none

take_part-IsShort : (len : ℕ) (p : List ℕ) → IsShort (30 - len) (take_part len p)
unfolding take_part
take_part-IsShort len [] = short [] [] (omega arith)
take_part-IsShort len (c ∷ p) = elim (Bool-cases (c == b'/')) [
  | inl slash ↦ rw slash (short [] (c ∷ p) (omega arith))
  | inr other ↦ elim (Bool-cases (leb name_max (len + 1))) [
    | inl long ↦ rw (other, long) refused
    | inr fits ↦
        rw (other, fits)
          (go (take_part (len + 1) p) (take_part-IsShort (len + 1) p) (ground (arith, fits)))
  ]
]
  where
    go :
        (r : Option (List ℕ × List ℕ))
        → IsShort (30 - (len + 1)) r
        → len + 1 < 31
        → IsShort (30 - len) (elim r as (λ x. Option (List ℕ × List ℕ)) [
          | some (part, q) ↦ some (c ∷ part, q)
          | none ↦ none
        ])
    go r (short part rest l) h = short (c ∷ part) rest (omega arith)
    go r refused h = refused

path_part-IsShort : (p : List ℕ) → IsShort 30 (path_part p)
unfolding path_part
path_part-IsShort p = start (skip_slashes p)
  where
    cut :
        (r : Option (List ℕ × List ℕ))
        → IsShort 30 r
        → IsShort 30 (elim r as (λ x. Option (List ℕ × List ℕ)) [
          | some (part, q) ↦ if ltb 0 (length part) then some (part, q) else none
          | none ↦ none
        ])
    cut r refused = refused
    cut r (short part q l) = elim (Bool-cases (ltb 0 (length part))) [
      | inl full ↦ rw full (short part q l)
      | inr empty ↦ rw empty refused
    ]

    start :
        (l : List ℕ)
        → IsShort 30 (elim l as (λ x. Option (List ℕ × List ℕ)) [
          | [] ↦ none
          | c ∷ q ↦ elim (take_part 0 (c ∷ q)) [
            | some (part, q') ↦ if ltb 0 (length part) then some (part, q') else none
            | none ↦ none
          ]
        ])
    start [] = refused
    start (c ∷ q) = cut (take_part 0 (c ∷ q)) (take_part-IsShort 0 (c ∷ q))

abbrev LeafShort : Option (ℕ × List ℕ) → Type 0
LeafShort r = (parent : ℕ) (leaf : List ℕ) → r ≡ some (parent, leaf) → length leaf ≤ 30

parent_dir_from-LeafShort :
    (fuel : ℕ) (cursor : List ℕ) (current : ℕ) (part : List ℕ) (s : Space)
    → length part ≤ 30
    → LeafShort (parent_dir_from fuel cursor current part s)
unfolding parent_dir_from
parent_dir_from-LeafShort zero cursor current part s l = λ parent leaf h. absurd (ground (arith, h))
parent_dir_from-LeafShort (suc fuel) cursor current part s l =
    go (λ rest child next b. parent_dir_from-LeafShort fuel rest child next s b) (path_part cursor)
      (path_part-IsShort cursor)
  where
    Deeper : Type 0
    Deeper =
        (rest : List ℕ) (child : ℕ) (next : List ℕ)
        → length next ≤ 30
        → LeafShort (parent_dir_from fuel rest child next s)

    down :
        Deeper
        → (next rest : List ℕ) → length next ≤ 30
        → (r : Option ℕ)
        → LeafShort (elim r as (λ x. Option (ℕ × List ℕ)) [
          | some child ↦ parent_dir_from fuel rest child next s
          | none ↦ none
        ])
    down deeper next rest b none = λ parent leaf h. absurd (ground (arith, h))
    down deeper next rest b (some child) = deeper rest child next b

    go :
        Deeper
        → (r : Option (List ℕ × List ℕ)) → IsShort 30 r
        → LeafShort (elim r as (λ x. Option (ℕ × List ℕ)) [
          | none ↦ some (current, part)
          | some (next, rest) ↦ elim (find_child current part type_dir s) [
            | some child ↦ parent_dir_from fuel rest child next s
            | none ↦ none
          ]
        ])
    go deeper r refused =
        λ parent leaf h. subst (λ x. length x ≤ 30) (ap (λ x. x.1) (some-injective _ _ h)) l
    go deeper r (short next rest b) = down deeper next rest b (find_child current part type_dir s)

-- The last name of a path has 30 bytes at most.
pub ensure_parent_dir-short :
    (path : List ℕ) (s : Space) (parent : ℕ) (leaf : List ℕ)
    → ensure_parent_dir path s ≡ some (parent, leaf)
    → length leaf ≤ 30
unfolding ensure_parent_dir
ensure_parent_dir-short path s = go (path_part path) (path_part-IsShort path)
  where
    go :
        (r : Option (List ℕ × List ℕ))
        → IsShort 30 r
        → LeafShort (elim r as (λ x. Option (ℕ × List ℕ)) [
          | none ↦ none
          | some (part, rest) ↦ parent_dir_from (length path + 1) rest 0 part s
        ])
    go r refused = λ parent leaf h. absurd (ground (arith, h))
    go r (short part rest b) = parent_dir_from-LeafShort (length path + 1) rest 0 part s b
