-- ===== src/FileOps/Changes.antt =====
-- Which inodes writing a file changes, and how.
use myos_gui_desktop.Base.{
  ℕ, ◌+◌, ◌%◌, ◌^◌, ◌-◌, ◌≤◌, ◌<◌, ◌≡◌, ◌≢◌, refl, sym, ap, ◌∙◌, inl, inr, Option, none, some, List,
  subst, arith,
}
use myos_gui_desktop.Base.Tests.{ltb, ◌==◌, Bool-cases, ==_iff}
use myos_gui_desktop.Base.Lists.{length, get_or}
use myos_gui_desktop.Volume.{
  Space, Inode, zero_inode, inode_at, put_inode, max_inodes, type_file, find_run, alloc_contiguous,
  free_extent, alloc_inode,
}
use myos_gui_desktop.Base.Runs.{set_bits}
use myos_gui_desktop.Volume.Layout.{Agrees}
use myos_gui_desktop.Volume.Change.{inode_at-put_inode, Given, given, exhausted, alloc_inode-Given}
use myos_gui_desktop.Paths.Alike.{Alike}
use myos_gui_desktop.FileOps.{resize_extent, create_inode, stored_name}

-- A search for room leaves everything but the bitmap.
alloc_contiguous-tables :
    (sectors : ℕ) (s : Space)
    → ((alloc_contiguous sectors s).1.superblock ≡ s.superblock)
      × ((alloc_contiguous sectors s).1.inodes ≡ s.inodes)
unfolding alloc_contiguous
alloc_contiguous-tables sectors s =
    elim (find_run (s.superblock.total - s.superblock.data_start) sectors s.bitmap
        s.superblock.data_start s.superblock.data_start 0)
      as (λ r.
        let p = elim r as (λ x. Option ℕ × Space) [
          | some first ↦ (some first, record s { bitmap = set_bits 8 sectors first s.bitmap })
          | none ↦ (none, s)
        ] in
        (p.1.superblock ≡ s.superblock) × (p.1.inodes ≡ s.inodes)) [
          | some first ↦ (refl, refl)
          | none ↦ (refl, refl)
        ]

-- A file has another size and extent.
pub record Resized (i sectors size : ℕ) (s t : Space) : Type 0 where
  pub superblock : t.superblock ≡ s.superblock
  pub size_is : (inode_at t i).size ≡ size
  pub sectors_are : (inode_at t i).sector_count ≡ sectors
  pub alike : (k : ℕ) → Alike (inode_at s k) (inode_at t k)

pub data Resizing (i sectors size : ℕ) (s : Space) : Option Space → Type 0 where
  resized : (t : Space) → Resized i sectors size s t → Resizing i sectors size s (some t)
  no_room : Resizing i sectors size s none

stored-Resized :
    {i sectors size : ℕ} {s : Space} (u : Space) (first : ℕ)
    → i < length s.inodes
    → u.superblock ≡ s.superblock
    → u.inodes ≡ s.inodes
    → Resized i sectors size s (
        put_inode i
          (record (inode_at s i) { first_sector = first; sector_count = sectors; size = size })
          u)
stored-Resized {i} {sectors} {size} {s} u first l sb same =
    let e : Inode = record (inode_at s i) {
      first_sector = first;
      sector_count = sectors;
      size = size;
    } in
    let put = inode_at-put_inode u i e (omega (arith, ap length same)) in
    record {
      superblock = sb;
      size_is = ap (λ x. x.size) (put.0);
      sectors_are = ap (λ x. x.sector_count) (put.0);
      alike = λ k. elim (Bool-cases (i == k)) [
        | inl here ↦
            subst (λ x. Alike (inode_at s x) (inode_at (put_inode i e u) x)) ((==_iff i k).0 here)
              (subst (Alike (inode_at s i)) (sym (put.0))
                (record { kind = refl; parent = refl; name = refl }))
        | inr there ↦
            subst (Alike (inode_at s k))
              (sym (put.1 k (ground (arith, there)) ∙ ap (λ x. get_or x k zero_inode) same))
              (record { kind = refl; parent = refl; name = refl })
      ];
    }

pub resize_extent-Resizing :
    (i sectors size : ℕ) (s : Space)
    → i < length s.inodes
    → Resizing i sectors size s (resize_extent i sectors size s)
unfolding resize_extent free_extent
resize_extent-Resizing i sectors size s l =
    let e : Inode = inode_at s i in
    elim (Bool-cases (ltb e.sector_count sectors)) [
      | inl more ↦ rw more (grown (alloc_contiguous sectors s) (alloc_contiguous-tables sectors s))
      | inr enough ↦ elim (Bool-cases (ltb sectors e.sector_count)) [
        | inl less ↦
            rw (enough, less)
              (resized _ (
                stored-Resized
                  (free_extent ((e.first_sector + sectors) % 2 ^ 32) (e.sector_count - sectors) s)
                  e.first_sector l refl refl))
        | inr equal ↦
            let same : e.sector_count ≡ sectors = ground (arith, enough, equal) in
            let r =
              stored-Resized {sectors = e.sector_count} {size = size} {s = s} s e.first_sector l
                refl refl in
            rw (enough, equal)
              (resized _ (record {
                superblock = r.superblock;
                size_is = r.size_is;
                sectors_are = r.sectors_are ∙ same;
                alike = r.alike;
              }))
      ]
    ]
  where
    grown :
        (r : Option ℕ × Space)
        → (r.1.superblock ≡ s.superblock) × (r.1.inodes ≡ s.inodes)
        → Resizing i sectors size s (elim (r.0) as (λ x. Option Space) [
          | none ↦ none
          | some first ↦ some (
              put_inode i
                (record (inode_at s i) {
                  first_sector = first;
                  sector_count = sectors;
                  size = size;
                })
                (free_extent (inode_at s i).first_sector (inode_at s i).sector_count r.1))
        ])
    grown (some first, u) (sb, same) = resized _ (
        stored-Resized (free_extent (inode_at s i).first_sector (inode_at s i).sector_count u) first
          l sb same)
    grown (none, u) same = no_room

-- A new file: a free inode gets these fields, and no other inode changes.
pub record Created (parent : ℕ) (leaf : List ℕ) (sectors size : ℕ) (s : Space) (i : ℕ) (t : Space)
    : Type 0 where
  pub free : (inode_at s i).kind ≡ 0
  pub superblock : t.superblock ≡ record s.superblock { inode_count = t.superblock.inode_count }
  pub count : s.superblock.inode_count ≤ t.superblock.inode_count
  pub counted : i < t.superblock.inode_count
  pub limit : t.superblock.inode_count ≤ max_inodes
  pub first : ℕ
  pub here : inode_at t i ≡ record zero_inode {
    kind = type_file;
    parent = parent;
    size = size;
    first_sector = first;
    sector_count = sectors;
    name = stored_name leaf;
  }
  pub there : (k : ℕ) → i ≢ k → inode_at t k ≡ inode_at s k

pub data Creating (parent : ℕ) (leaf : List ℕ) (sectors size : ℕ) (s : Space)
    : Option ℕ × Space → Type 0 where
  created :
      (i : ℕ) (t : Space)
      → Created parent leaf sectors size s i t
      → Creating parent leaf sectors size s (some i, t)
  refused : (t : Space) → Creating parent leaf sectors size s (none, t)

pub create_inode-Creating :
    (parent : ℕ) (leaf : List ℕ) (sectors size : ℕ) (s : Space)
    → Agrees s
    → Creating parent leaf sectors size s (create_inode parent leaf sectors size s)
unfolding create_inode
create_inode-Creating parent leaf sectors size s a = start (alloc_inode s) (alloc_inode-Given a)
  where
    taken :
        (i count : ℕ)
        → i < count
        → count ≤ max_inodes
        → s.superblock.inode_count ≤ count
        → (inode_at s i).kind ≡ 0
        → (r : Option ℕ × Space)
        → (r.1.superblock ≡ record s.superblock { inode_count = count }) × (r.1.inodes ≡ s.inodes)
        → Creating parent leaf sectors size s (elim (r.0) as (λ x. Option ℕ × Space) [
          | none ↦ (none, r.1)
          | some first ↦ (
            some i,
            put_inode i
                (record zero_inode {
                  kind = type_file;
                  parent = parent;
                  size = size;
                  first_sector = first;
                  sector_count = sectors;
                  name = stored_name leaf;
                })
                r.1,
          )
        ])
    taken i count inside limit more free (none, u) same = refused u
    taken i count inside limit more free (some first, u) (sb, same) =
        let e : Inode = record zero_inode {
          kind = type_file;
          parent = parent;
          size = size;
          first_sector = first;
          sector_count = sectors;
          name = stored_name leaf;
        } in
        let put = inode_at-put_inode u i e (omega (arith, ap length same, a.size)) in
        let counts : u.superblock.inode_count ≡ count = ap (λ x. x.inode_count) sb in
        created i (put_inode i e u) (record {
          free = free;
          superblock = sb ∙ ap (λ x. record s.superblock { inode_count = x }) (sym counts);
          count = omega (arith, counts);
          counted = omega (arith, counts);
          limit = omega (arith, counts);
          first = first;
          here = put.0;
          there = λ k h. put.1 k h ∙ ap (λ x. get_or x k zero_inode) same;
        })

    start :
        (r : Option ℕ × Space)
        → Given s r
        → Creating parent leaf sectors size s (elim (r.0) as (λ x. Option ℕ × Space) [
          | none ↦ (none, r.1)
          | some i ↦ elim ((alloc_contiguous sectors r.1).0) as (λ x. Option ℕ × Space) [
            | none ↦ (none, (alloc_contiguous sectors r.1).1)
            | some first ↦ (
              some i,
              put_inode i
                  (record zero_inode {
                    kind = type_file;
                    parent = parent;
                    size = size;
                    first_sector = first;
                    sector_count = sectors;
                    name = stored_name leaf;
                  })
                  (alloc_contiguous sectors r.1).1,
            )
          ]
        ])
    start r exhausted = refused s
    start r (given i count pos inside limit more free) =
        let t : Space = record s { superblock = record s.superblock { inode_count = count } } in
        taken i count inside limit more free (alloc_contiguous sectors t)
          (alloc_contiguous-tables sectors t)
