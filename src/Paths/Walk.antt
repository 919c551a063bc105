-- ===== src/Paths/Walk.antt =====
-- What the lookup of a path does with the names that the path spells.
use myos_gui_desktop.Base.{
  ℕ, zero, suc, ◌+◌, ◌≤◌, ◌<◌, ◌≡◌, refl, sym, ◌∙◌, ◌⊎◌, inl, inr, Bool, true, false, not, ◌&&◌,
  Option, none, some, List, [], ◌∷◌, ◌++◌, arith,
}
use myos_gui_desktop.Base.Tests.{leb, ◌==◌, Bool-cases}
use myos_gui_desktop.Base.Lists.{length, length-append, replicate}
use myos_gui_desktop.Volume.{Space, root_inode, type_dir}
use myos_gui_desktop.Paths.{
  name_max, skip_slashes, take_part, path_part, find_child, find_path_from, find_path,
  parent_dir_from, ensure_parent_dir,
}

-- No byte is a slash.
abbrev pub plain : List ℕ → Bool
plain [] = true
plain (c ∷ text) = not (c == b'/') && plain text

-- A part may end here: at the end of the path, or in front of a slash.
abbrev pub ends_part : List ℕ → Bool
ends_part [] = true
ends_part (c ∷ text) = c == b'/'

-- A name that the code can take from a path: it is not empty and has 30 bytes at most.
pub record IsPart (part : List ℕ) : Type 0 where
  pub no_slash : plain part ≡ true
  pub some_byte : 0 < length part
  pub short : length part < name_max

-- The text spells the names, each behind any number of slashes, with `tail` behind them.
pub data Spells (tail : List ℕ) : List (List ℕ) → List ℕ → Type 0 where
  tail_only : Spells tail [] tail
  name :
      {names : List (List ℕ)} {text : List ℕ} (slashes : ℕ) (part : List ℕ)
      → IsPart part
      → ends_part text ≡ true
      → Spells tail names text
      → Spells tail (part ∷ names) (replicate slashes b'/' ++ (part ++ text))

-- Name by name through the tree, from an inode.
pub walk : List (List ℕ) → ℕ → Space → Option ℕ
walk [] current s = some current
walk (part ∷ names) current s = elim (find_child current part 0 s) [
  | none ↦ none
  | some child ↦ walk names child s
]

-- The same for all names but the last, with that one: only directories lead on.
unfoldable pub walk_dirs :
    List (List ℕ) → (current : ℕ) → (part : List ℕ) → Space → Option (ℕ × List ℕ)
walk_dirs [] current part s = some (current, part)
walk_dirs (next ∷ names) current part s = elim (find_child current part type_dir s) [
  | none ↦ none
  | some child ↦ walk_dirs names child next s
]

take_part-append :
    (len : ℕ) (part text : List ℕ)
    → plain part ≡ true
    → len + length part < name_max
    → ends_part text ≡ true
    → take_part len (part ++ text) ≡ some (part, text)
unfolding take_part
take_part-append len [] [] p l e = refl
take_part-append len [] (c ∷ text) p l e = rw e refl
take_part-append len (c ∷ part) text p l e =
    let other : (c == b'/') ≡ false = ground (arith, p) in
    let short : leb name_max (len + 1) ≡ false = ground arith in
    rw (other, short, take_part-append (len + 1) part text (ground (arith, p)) (omega arith) e) refl

skip_slashes-replicate :
    (n : ℕ) (text : List ℕ) → skip_slashes (replicate n b'/' ++ text) ≡ skip_slashes text
unfolding skip_slashes replicate
skip_slashes-replicate zero text = refl
skip_slashes-replicate (suc n) text = skip_slashes-replicate n text

-- A name is taken from the path, and the cursor is behind it.
path_part-append :
    (n : ℕ) (part text : List ℕ)
    → IsPart part
    → ends_part text ≡ true
    → path_part (replicate n b'/' ++ (part ++ text)) ≡ some (part, text)
unfolding path_part skip_slashes
path_part-append n [] text h e = absurd (omega (arith, h.some_byte))
path_part-append n (c ∷ part) text h e =
    let other : (c == b'/') ≡ false = ground (arith, h.no_slash) in
    rw
      (
        path_part,
        skip_slashes-replicate n ((c ∷ part) ++ text),
        other,
        take_part-append 0 (c ∷ part) text h.no_slash (omega (arith, h.short)) e,
      )
      (ground arith)

names-length :
    {tail text : List ℕ} {names : List (List ℕ)}
    → Spells tail names text
    → length names ≤ length text
names-length tail_only = omega arith
names-length (name {names} {text} n part h e spells) =
    let front = length-append (replicate n b'/') (part ++ text) in
    omega (arith, front, length-append part text, names-length spells, h.some_byte)

find_path_from-walk :
    {tail text : List ℕ} {names : List (List ℕ)} (fuel current : ℕ) (saw_part : Bool) (s : Space)
    → Spells tail names text
    → path_part tail ≡ none
    → length names < fuel
    → (saw_part ≡ true) ⊎ (current ≡ root_inode)
    → find_path_from fuel text current saw_part s ≡ walk names current s
unfolding find_path_from walk replicate
find_path_from-walk zero current saw_part s spells stop l here = absurd (omega arith)
find_path_from-walk (suc fuel) current saw_part s tail_only stop l here =
    rw (find_path_from, stop) (ground (arith, here))
find_path_from-walk (suc fuel) current saw_part s (name {names} {text} n part h e spells) stop l
      here =
    rw (find_path_from, path_part-append n part text h e)
      (elim (find_child current part 0 s)
        as (λ r.
          elim r as (λ x. Option ℕ) [
            | some child ↦ find_path_from fuel text child true s
            | none ↦ none
          ]
          ≡ elim r as (λ x. Option ℕ) [ none ↦ none | some child ↦ walk names child s ]) [
            | none ↦ refl
            | some child ↦
                find_path_from-walk fuel child true s spells stop (omega arith) (inl refl)
          ])

-- For a path that spells some names of 1 to 30 bytes, with something behind them that holds no
-- further name, find_path goes through the tree name by name, and its loop runs long enough.
pub find_path-walk :
    {tail path : List ℕ} {names : List (List ℕ)} (s : Space)
    → Spells tail names path
    → path_part tail ≡ none
    → find_path path s ≡ walk names root_inode s
unfolding find_path
find_path-walk {tail} {path} s spells stop =
    find_path_from-walk (length path + 1) root_inode false s spells stop
      (omega (arith, names-length spells)) (inr refl)

parent_dir_from-walk_dirs :
    {tail text : List ℕ} {names : List (List ℕ)} (fuel current : ℕ) (part : List ℕ) (s : Space)
    → Spells tail names text
    → path_part tail ≡ none
    → length names < fuel
    → parent_dir_from fuel text current part s ≡ walk_dirs names current part s
unfolding parent_dir_from walk_dirs replicate
parent_dir_from-walk_dirs zero current part s spells stop l = absurd (omega arith)
parent_dir_from-walk_dirs (suc fuel) current part s tail_only stop l =
    rw (parent_dir_from, stop) refl
parent_dir_from-walk_dirs (suc fuel) current part s (name {names} {text} n next h e spells) stop l =
    rw (parent_dir_from, path_part-append n next text h e)
      (elim (find_child current part type_dir s)
        as (λ r.
          elim r as (λ x. Option (ℕ × List ℕ)) [
            | some child ↦ parent_dir_from fuel text child next s
            | none ↦ none
          ]
          ≡ elim r as (λ x. Option (ℕ × List ℕ)) [
            | none ↦ none
            | some child ↦ walk_dirs names child next s
          ]) [
            | none ↦ refl
            | some child ↦ parent_dir_from-walk_dirs fuel child next s spells stop (omega arith)
          ])

-- For a path that spells at least one name of 1 to 30 bytes, with something behind the names that holds no further
-- one, ensure_parent_dir goes through the directories of all names but the last, and gives the one
-- that it comes to, with the last name.
pub ensure_parent_dir-walk_dirs :
    {tail part path : List ℕ} {names : List (List ℕ)} (s : Space)
    → Spells tail (part ∷ names) path
    → path_part tail ≡ none
    → ensure_parent_dir path s ≡ walk_dirs names root_inode part s
unfolding ensure_parent_dir
ensure_parent_dir-walk_dirs s (name {names} {text} n part h e spells) stop =
    let front = length-append (replicate n b'/') (part ++ text) in
    rw (ensure_parent_dir, path_part-append n part text h e)
      (parent_dir_from-walk_dirs (length (replicate n b'/' ++ (part ++ text)) + 1) root_inode part s
        spells stop (omega (arith, names-length spells, front, length-append part text)))

take_part-long :
    (len : ℕ) (part text : List ℕ)
    → plain part ≡ true
    → len < name_max
    → name_max ≤ len + length part
    → take_part len (part ++ text) ≡ none
unfolding take_part
take_part-long len [] text p a l = absurd (omega arith)
take_part-long len (c ∷ part) text p a l =
    let other : (c == b'/') ≡ false = ground (arith, p) in
    elim (Bool-cases (leb name_max (len + 1))) [
      | inl long ↦ rw (other, long) refl
      | inr short ↦
          rw
            (
              other,
              short,
              take_part-long (len + 1) part text (ground (arith, p)) (ground arith) (omega arith),
            )
            refl
    ]

-- No name is taken where the next one has 31 bytes or more.
path_part-long :
    (part text : List ℕ)
    → plain part ≡ true
    → name_max ≤ length part
    → path_part (b'/' ∷ (part ++ text)) ≡ none
unfolding path_part skip_slashes
path_part-long [] text p l = absurd (omega arith)
path_part-long (c ∷ part) text p l =
    let other : (c == b'/') ≡ false = ground (arith, p) in
    rw (path_part, other, take_part-long 0 (c ∷ part) text p (omega arith) (omega (arith, l))) refl

-- Only slashes are left.
path_part-slashes : (n : ℕ) → path_part (replicate n b'/') ≡ none
unfolding path_part skip_slashes replicate
path_part-slashes zero = refl
path_part-slashes (suc n) = path_part-slashes n

-- For a path that spells at least one name of 1 to 30 bytes, with nothing but slashes behind the names,
-- ensure_parent_dir gives the directory to which all names but the last lead, with the last name.
pub ensure_parent_dir-Spells :
    {part path : List ℕ} {names : List (List ℕ)} (n : ℕ) (s : Space)
    → Spells (replicate n b'/') (part ∷ names) path
    → ensure_parent_dir path s ≡ walk_dirs names root_inode part s
ensure_parent_dir-Spells n s spells = ensure_parent_dir-walk_dirs s spells (path_part-slashes n)

-- A path that goes on with a name of 31 bytes or more behind some names of 1 to 30 bytes is looked up
-- as a path is that ends with these names, for find_path and for ensure_parent_dir.
pub long_name_lem :
    {path short part : List ℕ} {names : List (List ℕ)} (long text : List ℕ) (n : ℕ) (s : Space)
    → plain long ≡ true
    → name_max ≤ length long
    → Spells (b'/' ∷ (long ++ text)) (part ∷ names) path
    → Spells (replicate n b'/') (part ∷ names) short
    → (find_path path s ≡ find_path short s)
      × (ensure_parent_dir path s ≡ ensure_parent_dir short s)
long_name_lem long text n s p l spells whole =
    let stop = path_part-long long text p l in
    (
      find_path-walk s spells stop ∙ sym (find_path-walk s whole (path_part-slashes n)),
      ensure_parent_dir-walk_dirs s spells stop ∙ sym (ensure_parent_dir-Spells n s whole),
    )
