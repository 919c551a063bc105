-- ===== src/FileOps/Made.antt =====
-- The changes that making, deleting and renaming a file make to the tables.
use myos_gui_desktop.Base.{
  ℕ, ◌≤◌, ◌<◌, ◌≡◌, refl, sym, ap, ◌∙◌, inl, inr, Option, none, some, List, arith,
}
use myos_gui_desktop.Volume.{
  Space, Inode, zero_inode, inode_at, put_inode, type_file, max_inodes, alloc_inode,
  alloc_contiguous, free_extent,
}
use myos_gui_desktop.Volume.Alloc.{Allocated, found, full, alloc_contiguous-Allocated}
use myos_gui_desktop.Volume.Layout.{Agrees, Changed-Agrees}
use myos_gui_desktop.Volume.Change.{Given, given, exhausted, alloc_inode-Given}
use myos_gui_desktop.FileOps.{create_inode, stored_name}
use myos_gui_desktop.FileOps.Tables.{
  counted, stored-Changed, free_extent-Beside, freed-bits, used_by_file, used_by_none,
}

-- A new file.
pub create_inode-Agrees :
    {s : Space} (parent : ℕ) (leaf : List ℕ) (sectors size : ℕ)
    → Agrees s
    → 0 < sectors
    → Agrees (create_inode parent leaf sectors size s).1
unfolding create_inode
create_inode-Agrees {s} parent leaf sectors size a pos = start (alloc_inode s) (alloc_inode-Given a)
  where
    made : ℕ → ℕ → Inode
    made i first = record zero_inode {
      kind = type_file;
      parent = parent;
      size = size;
      first_sector = first;
      sector_count = sectors;
      name = stored_name leaf;
    }

    -- The tables with a larger count.
    counting :
        (i count : ℕ)
        → count ≤ max_inodes
        → s.superblock.inode_count ≤ count
        → Agrees (record s { superblock = record s.superblock { inode_count = count } })
    counting i count l h = record {
      size = a.size;
      words = a.words;
      total = a.total;
      start = a.start;
      count = l;
      unused = λ k b. a.unused k (omega arith);
      in_range = a.in_range;
      reserved = a.reserved;
      owned = a.owned;
      owner = a.owner;
      apart = a.apart;
    }

    taken :
        (u : Space)
        → Agrees u
        → (i : ℕ) → i < u.superblock.inode_count
        → (inode_at u i).kind ≡ 0
        → (r : Option ℕ × Space) → Allocated sectors u r
        → Agrees
            (elim (r.0) as (λ x. Option ℕ × Space) [
              | none ↦ (none, r.1)
              | some first ↦ (some i, put_inode i (made i first) r.1)
            ]).1
    taken u b i l free r (found first run t (sb, n, w) bits) = Changed-Agrees b (
        stored-Changed i (made i first) b
          (record {
            inodes = n;
            words = w;
            total = ap (λ x. x.total) sb;
            start = ap (λ x. x.data_start) sb;
            count = (
              omega (arith, ap (λ x. x.inode_count) sb),
              omega (arith, ap (λ x. x.inode_count) sb, b.count),
            );
          })
          (omega (arith, ap (λ x. x.inode_count) sb))
          (λ j.
            bits j
            ∙ (rw (used_by_none (inode_at u i) j free)
                (rw (used_by_file (made i first) j refl) (ground arith))))
          (λ j h. inl (
            run.clear j (ground (arith, sym (used_by_file (made i first) j refl) ∙ h))
              (ground (arith, sym (used_by_file (made i first) j refl) ∙ h))))
          (λ h. (run.low, run.high)))
    taken u b i l free r (full blocked) = b

    start :
        (r : Option ℕ × Space)
        → Given s r
        → Agrees
            (elim (r.0) as (λ x. Option ℕ × Space) [
              | none ↦ (none, r.1)
              | some i ↦ elim ((alloc_contiguous sectors r.1).0) as (λ x. Option ℕ × Space) [
                | none ↦ (none, (alloc_contiguous sectors r.1).1)
                | some first ↦ (some i, put_inode i (made i first) (alloc_contiguous sectors r.1).1)
              ]
            ]).1
    start r (given i count pos' l top more free) =
        let u : Space = record s { superblock = record s.superblock { inode_count = count } } in
        let b = counting i count top more in
        taken u b i l free (alloc_contiguous sectors u)
          (alloc_contiguous-Allocated sectors u pos (omega (arith, a.total, a.words)))
    start r exhausted = a

-- A file that is deleted.
pub remove-Agrees :
    {s : Space} (i : ℕ)
    → Agrees s
    → (inode_at s i).kind ≡ type_file
    → Agrees (
        put_inode i zero_inode
          (free_extent (inode_at s i).first_sector (inode_at s i).sector_count s))
unfolding free_extent
remove-Agrees {s} i a f =
    let e : Inode = inode_at s i in
    Changed-Agrees a (
      stored-Changed i zero_inode a (free_extent-Beside s e.first_sector e.sector_count a)
        (counted a i f)
        (λ j.
          freed-bits s e.first_sector e.sector_count j a.total a.words (a.in_range i f).1
          ∙ (rw (used_by_none zero_inode j refl, used_by_file e j f) (ground arith)))
        (λ j h. ground (arith, h, used_by_none zero_inode j refl)) (λ h. ground (arith, h)))

-- A file that is renamed.
pub rename-Agrees :
    {s : Space} (i parent : ℕ) (name : List ℕ)
    → Agrees s
    → (inode_at s i).kind ≡ type_file
    → Agrees (put_inode i (record (inode_at s i) { parent = parent; name = name }) s)
rename-Agrees {s} i parent name a f =
    let e : Inode = record (inode_at s i) { parent = parent; name = name } in
    Changed-Agrees a (
      stored-Changed i e a
        (record {
          inodes = refl;
          words = refl;
          total = refl;
          start = refl;
          count = (omega arith, a.count);
        })
        (counted a i f)
        (λ j.
          rw (used_by_file e j f, used_by_file (inode_at s i) j f)
            (ground (arith, a.owned i j, used_by_file (inode_at s i) j f)))
        (λ j h. inr (used_by_file (inode_at s i) j f ∙ sym (used_by_file e j f) ∙ h))
        (λ h. a.in_range i f))
