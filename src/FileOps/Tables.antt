-- ===== src/FileOps/Tables.antt =====
-- The change that another size of a file makes to the tables.
use myos_gui_desktop.Base.{
  ℕ, ◌+◌, ◌-◌, ◌%◌, ◌^◌, ◌≤◌, ◌<◌, ◌≡◌, refl, sym, ap, ◌∙◌, ◌⊎◌, inl, inr, true, false, not, ◌&&◌,
  ◌||◌, Option, none, some, subst, arith,
}
use mathlib.Core.Option.{some-injective}
use myos_gui_desktop.Base.Tests.{if◌then◌else◌, ltb, leb, Bool-cases}
use myos_gui_desktop.Base.Lists.{length, get_or, length-set}
use myos_gui_desktop.Base.Runs.{within}
use myos_gui_desktop.Volume.{
  Space, Inode, zero_inode, inode_at, put_inode, type_file, max_inodes, bitmap_get,
  alloc_contiguous, free_extent, sectors_for_size,
}
use myos_gui_desktop.Volume.Alloc.{FirstRun, Allocated, found, full, alloc_contiguous-Allocated}
use myos_gui_desktop.Volume.Layout.{Agrees, Changed, InRange, used_by, Changed-Agrees}
use myos_gui_desktop.Volume.Change.{length-free_extent, free_extent-bits, inode_at-put_inode}
use myos_gui_desktop.FileOps.{resize_extent}

pub sectors_for_size-pos : (size : ℕ) → 0 < sectors_for_size size
unfolding sectors_for_size
sectors_for_size-pos size = ground arith

-- A file is one of the inodes that count.
pub counted :
    {s : Space}
    → Agrees s
    → (i : ℕ) → (inode_at s i).kind ≡ type_file
    → i < s.superblock.inode_count
counted {s} a i f = elim (Bool-cases (leb s.superblock.inode_count i)) [
  | inl beyond ↦ ground (arith, a.unused i (ground arith), f)
  | inr inside ↦ ground arith
]

-- Only the bitmap and the count of inodes differ.
pub record Beside (s t : Space) : Type 0 where
  pub inodes : t.inodes ≡ s.inodes
  pub words : length t.bitmap ≡ length s.bitmap
  pub total : t.superblock.total ≡ s.superblock.total
  pub start : t.superblock.data_start ≡ s.superblock.data_start
  pub count :
      (s.superblock.inode_count ≤ t.superblock.inode_count)
      × (t.superblock.inode_count ≤ max_inodes)

-- The store of an inode in such tables.
pub stored-Changed :
    {s t : Space} (i : ℕ) (e : Inode)
    → Agrees s
    → Beside s t
    → i < t.superblock.inode_count
    → ((j : ℕ)
        → bitmap_get t.bitmap j
          ≡ (used_by e j || (bitmap_get s.bitmap j && not (used_by (inode_at s i) j))))
    → ((j : ℕ)
        → used_by e j ≡ true
        → (bitmap_get s.bitmap j ≡ false) ⊎ (used_by (inode_at s i) j ≡ true))
    → InRange s e
    → Changed s (put_inode i e t) i e
stored-Changed {s} {t} i e a same l bits fresh range =
    let inside : i < length t.inodes = omega (arith, same.count, a.size, ap length same.inodes) in
    let stored = inode_at-put_inode t i e inside in
    record {
      size = length-set t.inodes i e ∙ ap length same.inodes;
      words = same.words;
      total = same.total;
      start = same.start;
      count = same.count;
      inside = l;
      here = stored.0;
      there = λ k h. stored.1 k h ∙ ap (λ u. get_or u k zero_inode) same.inodes;
      bits = bits;
      fresh = fresh;
      range = range;
    }

pub free_extent-Beside :
    (s : Space) (first sectors : ℕ) → Agrees s → Beside s (free_extent first sectors s)
unfolding free_extent
free_extent-Beside s first sectors a = record {
  inodes = refl;
  words = length-free_extent first sectors s;
  total = refl;
  start = refl;
  count = (omega arith, a.count);
}

-- Tables that agree: an extent of theirs can be given back.
pub freed-bits :
    (s : Space) (first sectors j : ℕ)
    → s.superblock.total ≡ 4096
    → length s.bitmap ≡ 512
    → first + sectors ≤ s.superblock.total
    → bitmap_get (free_extent first sectors s).bitmap j
      ≡ (if within first sectors j then false else bitmap_get s.bitmap j)
freed-bits s first sectors j t w l =
    free_extent-bits first sectors s j l (omega arith) (omega arith)

-- What a file uses.
pub used_by_file :
    (e : Inode) (j : ℕ) → e.kind ≡ type_file → used_by e j ≡ within e.first_sector e.sector_count j
unfolding used_by
used_by_file e j h = rw h refl

-- What is no file uses nothing.
pub used_by_none : (e : Inode) (j : ℕ) → e.kind ≡ 0 → used_by e j ≡ false
unfolding used_by
used_by_none e j h = rw h refl

module _ {s : Space} (a : Agrees s) (i : ℕ) (f : (inode_at s i).kind ≡ type_file) where
  -- Another size, and less sectors or as many.
  shrunk-Agrees :
      (t : Space) (sectors size : ℕ)
      → Beside s t
      → sectors ≤ (inode_at s i).sector_count
      → t.superblock.inode_count ≡ s.superblock.inode_count
      → ((j : ℕ)
          → bitmap_get t.bitmap j ≡ (
              if within
                ((inode_at s i).first_sector + sectors)
                ((inode_at s i).sector_count - sectors)
                j
              then false
              else bitmap_get s.bitmap j))
      → Agrees (put_inode i (record (inode_at s i) { sector_count = sectors; size = size }) t)
  shrunk-Agrees t sectors size same l n bits =
      let e : Inode = inode_at s i in
      let e' : Inode = record e { sector_count = sectors; size = size } in
      Changed-Agrees a (
        stored-Changed i e' a same (omega (arith, counted a i f))
          (λ j.
            bits j
            ∙ (rw (used_by_file e' j f, used_by_file e j f)
                (ground (arith, a.owned i j, used_by_file e j f))))
          (λ j h. inr (used_by_file e j f ∙ ground (arith, sym (used_by_file e' j f) ∙ h)))
          (λ h. ((a.in_range i f).0, omega (arith, (a.in_range i f).1))))

  grown-Agrees :
      (t : Space) (first sectors size : ℕ)
      → Beside s t
      → FirstRun s.bitmap sectors s.superblock.data_start s.superblock.total first
      → t.superblock.inode_count ≡ s.superblock.inode_count
      → ((j : ℕ)
          → bitmap_get t.bitmap j ≡ (
              if within (inode_at s i).first_sector (inode_at s i).sector_count j
              then false
              else if within first sectors j
              then true
              else bitmap_get s.bitmap j))
      → Agrees (
          put_inode i
            (record (inode_at s i) { first_sector = first; sector_count = sectors; size = size })
            t)
  grown-Agrees t first sectors size same run n bits =
      let e : Inode = inode_at s i in
      let e' : Inode = record e { first_sector = first; sector_count = sectors; size = size } in
      Changed-Agrees a (
        stored-Changed i e' a same (omega (arith, counted a i f))
          (λ j.
            bits j
            ∙ (rw (used_by_file e' j f, used_by_file e j f)
                (ground (arith, a.owned i j, used_by_file e j f, run.clear j))))
          (λ j h. inl (
            run.clear j (ground (arith, sym (used_by_file e' j f) ∙ h))
              (ground (arith, sym (used_by_file e' j f) ∙ h))))
          (λ h. (run.low, run.high)))

  -- With a new size the tables agree still.
  pub resize_extent-Agrees :
      (sectors size : ℕ)
      → 0 < sectors
      → (t : Space) → resize_extent i sectors size s ≡ some t
      → Agrees t
  unfolding resize_extent free_extent
  resize_extent-Agrees sectors size pos t =
      elim (Bool-cases (ltb (inode_at s i).sector_count sectors)) [
        | inl more ↦ rw more (
            grown (alloc_contiguous sectors s)
              (alloc_contiguous-Allocated sectors s pos (omega (arith, a.total, a.words))))
        | inr enough ↦ elim (Bool-cases (ltb sectors (inode_at s i).sector_count)) [
          | inl less ↦
              rw (enough, less, place (ground (arith, less)))
                (λ h. subst Agrees (some-injective _ _ h) (
                  shrunk
                    (free_extent-Beside s (e.first_sector + sectors) (e.sector_count - sectors) a)
                    (ground (arith, less))))
          | inr equal ↦
              rw (enough, equal)
                (λ h. subst Agrees (some-injective _ _ h) (
                  shrunk-Agrees s e.sector_count size
                    (record {
                      inodes = refl;
                      words = refl;
                      total = refl;
                      start = refl;
                      count = (omega arith, a.count);
                    })
                    (omega arith) refl (λ j. ground arith)))
        ]
      ]
    where
      e : Inode
      e = inode_at s i

      place :
          sectors ≤ e.sector_count → (e.first_sector + sectors) % 2 ^ 32 ≡ e.first_sector + sectors
      place l = omega (arith, a.in_range i f, a.total)

      shrunk :
          Beside s (free_extent (e.first_sector + sectors) (e.sector_count - sectors) s)
          → sectors ≤ e.sector_count
          → Agrees (
              put_inode i
                (record e { sector_count = sectors; size = size })
                (free_extent (e.first_sector + sectors) (e.sector_count - sectors) s))
      shrunk beside l =
          shrunk-Agrees (free_extent (e.first_sector + sectors) (e.sector_count - sectors) s)
            sectors size beside l refl
            (λ j.
              freed-bits s (e.first_sector + sectors) (e.sector_count - sectors) j a.total a.words
                (omega (arith, a.in_range i f)))

      grown_here :
          (first : ℕ)
          → FirstRun s.bitmap sectors s.superblock.data_start s.superblock.total first
          → (u : Space)
          → (u.superblock ≡ s.superblock)
            × (u.inodes ≡ s.inodes)
            × (length u.bitmap ≡ length s.bitmap)
          → ((j : ℕ)
              → bitmap_get u.bitmap j
                ≡ (if within first sectors j then true else bitmap_get s.bitmap j))
          → Agrees (
              put_inode i
                (record e { first_sector = first; sector_count = sectors; size = size })
                (free_extent e.first_sector e.sector_count u))
      grown_here first run u (b, n, w) bits =
          grown-Agrees (free_extent e.first_sector e.sector_count u) first sectors size
            (record {
              inodes = n;
              words = length-free_extent e.first_sector e.sector_count u ∙ w;
              total = ap (λ x. x.total) b;
              start = ap (λ x. x.data_start) b;
              count = (
                omega (arith, ap (λ x. x.inode_count) b),
                omega (arith, ap (λ x. x.inode_count) b, a.count),
              );
            })
            run (ap (λ x. x.inode_count) b)
            (λ j.
              freed-bits u e.first_sector e.sector_count j (ap (λ x. x.total) b ∙ a.total)
                (w ∙ a.words) (omega (arith, ap (λ x. x.total) b, a.in_range i f))
              ∙ ap (λ x. if within e.first_sector e.sector_count j then false else x) (bits j))

      grown :
          (r : Option ℕ × Space)
          → Allocated sectors s r
          → (elim (r.0) as (λ x. Option Space) [
            | none ↦ none
            | some first ↦ some (
                put_inode i
                  (record e { first_sector = first; sector_count = sectors; size = size })
                  (free_extent e.first_sector e.sector_count r.1))
          ])
            ≡ some t
          → Agrees t
      grown r (found first run u same bits) h =
          subst Agrees (some-injective _ _ h) (grown_here first run u same bits)
      grown r (full blocked) h = ground (arith, h)
