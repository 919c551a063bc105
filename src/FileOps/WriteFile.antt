-- ===== src/FileOps/WriteFile.antt =====
-- The round trip of diskfs_write_file and the reads.
use myos_gui_desktop.Base.{
  ℕ, ◌^◌, ◌≤◌, ◌≡◌, refl, sym, ap, ◌∙◌, inl, inr, Bool, true, not, ◌||◌, Option, none, some, List,
  subst, arith,
}
use myos_gui_desktop.Base.Tests.{ltb, Bool-cases}
use myos_gui_desktop.DiskFs.{Ata, Sector}
use myos_gui_desktop.DiskFs.View.{IsDisk, Shows}
use myos_gui_desktop.DiskFs.Working.{IsWorking}
use myos_gui_desktop.Volume.{Volume, type_file, root_inode}
use myos_gui_desktop.Volume.Layout.{Agrees}
use myos_gui_desktop.Paths.{find_path, name_max, find_child, ensure_parent_dir, inode_name_valid}
use myos_gui_desktop.Paths.Walk.{Spells, plain, walk_dirs, ensure_parent_dir-Spells, long_name_lem}
use myos_gui_desktop.Base.{◌∷◌, ◌++◌}
use myos_gui_desktop.Base.Lists.{length, replicate}
use myos_gui_desktop.Paths.Short.{ensure_parent_dir-short}
use myos_gui_desktop.Files.{max_file_size, ◌&>◌, begin_transaction}
use myos_gui_desktop.Files.Settled.{HasLayout}
use myos_gui_desktop.Files.Settles.{HasFront, marked-HasFront, begin_transaction-Settles}
use myos_gui_desktop.Files.Quiet.{begin_transaction-IsQuiet}
use myos_gui_desktop.FileOps.{overwrite_file, create_file, diskfs_write_file}
use myos_gui_desktop.FileOps.WriteRead.{
  HasFile, marked-found, overwrite_file-HasFile, create_file-HasFile,
}

module _ {Disk : Type 0} {ata : Ata Disk} {sector_at : Disk → ℕ → Sector}
    (law : IsDisk ata sector_at) (works : IsWorking ata) {m : ℕ → Sector} (v : Volume Disk)
    (path buffer : List ℕ) (size parent : ℕ) (leaf : List ℕ) (a : Agrees v.space)
    (layout : HasLayout v.space) (shows : Shows sector_at m v.sectors)
    (named : ensure_parent_dir path v.space ≡ some (parent, leaf)) where
  -- The part behind the start of the transaction.
  abbrev store_file : Option ℕ → Volume Disk → Bool × Volume Disk
  store_file r = elim r [
    | some index ↦ overwrite_file ata index buffer size
    | none ↦ create_file ata parent leaf buffer size
  ]

  begun-HasFile :
      v.available ≡ true
      → size ≤ 2 ^ 20
      → ((begin_transaction ata &> store_file (find_child parent leaf type_file v.space)) v).0
        ≡ true
      → HasFile ata parent leaf size buffer
          ((begin_transaction ata &> store_file (find_child parent leaf type_file v.space)) v).1
  begun-HasFile ready small =
      let lo : ℕ = v.space.superblock.data_start in
      let front : HasFront lo v.space = record { is = refl; layout = layout } in
      let w : Volume Disk = (begin_transaction ata v).1 in
      let begun = begin_transaction-Settles law works lo m v front shows in
      let agrees : Agrees w.space = ((begin_transaction-IsQuiet ata).same v).agrees a in
      let there : HasFront lo w.space =
        subst (HasFront lo) (sym begun.space) (marked-HasFront begun.state front) in
      let same : find_child parent leaf type_file v.space
          ≡ find_child parent leaf type_file w.space =
        sym (
          ap (find_child parent leaf type_file) begun.space
          ∙ marked-found parent leaf begun.state v.space) in
      let up : w.available ≡ true = begun.up ∙ ready in
      rw (begun.ok) (
        rw same (
          go w agrees (there.layout) up begun.shows (find_child parent leaf type_file w.space)
            refl))
    where
      go :
          {k : ℕ → Sector} (w : Volume Disk)
          → Agrees w.space
          → HasLayout w.space
          → w.available ≡ true
          → Shows sector_at k w.sectors
          → (r : Option ℕ) → find_child parent leaf type_file w.space ≡ r
          → (store_file r w).0 ≡ true
          → HasFile ata parent leaf size buffer (store_file r w).1
      go w agrees layout' up shown (some index) found =
          overwrite_file-HasFile law works w parent leaf buffer size agrees layout' up shown small
            index found
      go w agrees layout' up shown none found =
          create_file-HasFile law works w parent leaf buffer size agrees layout' up shown small
            (omega (arith, ensure_parent_dir-short path v.space parent leaf named)) found

  -- What a write makes that returns true, where `ensure_parent_dir` gives the directory and the name.
  written-HasFile :
      (diskfs_write_file ata path buffer size v).0 ≡ true
      → HasFile ata parent leaf size buffer (diskfs_write_file ata path buffer size v).1
  unfolding diskfs_write_file
  written-HasFile = elim (Bool-cases (not v.available || ltb max_file_size size)) [
    | inl refused ↦ rw refused (λ ok. absurd (ground (arith, ok)))
    | inr allowed ↦ elim (Bool-cases (inode_name_valid leaf)) [
      | inr bad ↦ rw (allowed, named, bad) (λ ok. absurd (ground (arith, ok)))
      | inl valid ↦
          rw (allowed, named, valid)
            (begun-HasFile (ground (arith, allowed)) (ground (arith, allowed)))
    ]
  ]

-- On a disk that does not fail, with tables that agree and lie in front of the data area, and a path
-- that spells names of 1 to 30 bytes, with nothing but slashes behind them, of which all but the last
-- lead from the root through directories to `parent`: where diskfs_write_file returns true, that
-- directory has a file with the last name and the size written, and every read of it gives the bytes
-- written, from any offset and up to its end.
pub diskfs_write_file-HasFile :
    {Disk : Type 0} {ata : Ata Disk} {sector_at : Disk → ℕ → Sector}
    → IsDisk ata sector_at
    → IsWorking ata
    → {m : ℕ → Sector} (v : Volume Disk) (path buffer : List ℕ) (size parent : ℕ)
    → {part leaf : List ℕ} {names : List (List ℕ)} (slashes : ℕ) → Agrees v.space
    → HasLayout v.space
    → Shows sector_at m v.sectors
    → Spells (replicate slashes b'/') (part ∷ names) path
    → walk_dirs names root_inode part v.space ≡ some (parent, leaf)
    → (diskfs_write_file ata path buffer size v).0 ≡ true
    → HasFile ata parent leaf size buffer (diskfs_write_file ata path buffer size v).1
diskfs_write_file-HasFile law works v path buffer size parent {leaf = leaf} slashes a layout shows
      spells leads =
    written-HasFile law works v path buffer size parent leaf a layout shows
      (ensure_parent_dir-Spells slashes v.space spells ∙ leads)

-- A write to a path that goes on with a name of 31 bytes or more behind some names of 1 to 30 bytes is
-- the write to a path that ends with these names, in its result and in all that it changes, and both
-- paths are found alike.
pub diskfs_write_file_long_name :
    {Disk : Type 0} (ata : Ata Disk) {path short part : List ℕ} {names : List (List ℕ)}
    (long text buffer : List ℕ) (size slashes : ℕ) (v : Volume Disk)
    → plain long ≡ true
    → name_max ≤ length long
    → Spells (b'/' ∷ (long ++ text)) (part ∷ names) path
    → Spells (replicate slashes b'/') (part ∷ names) short
    → (diskfs_write_file ata path buffer size v ≡ diskfs_write_file ata short buffer size v)
      × (find_path path v.space ≡ find_path short v.space)
unfolding diskfs_write_file
diskfs_write_file_long_name ata long text buffer size slashes v p l spells whole =
    let (found, parent) = long_name_lem long text slashes v.space p l spells whole in
    (rw (diskfs_write_file, parent) refl, found)
