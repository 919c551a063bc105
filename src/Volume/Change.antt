-- ===== src/Volume/Change.antt =====
-- What `free_extent`, `alloc_inode` and the store of an inode do to the tables.
use myos_gui_desktop.Base.{
  ℕ, zero, suc, ◌+◌, ◌%◌, ◌^◌, ◌*◌, ◌≤◌, ◌<◌, ◌≡◌, ◌≢◌, refl, ap, ◌∙◌, inl, inr, true, false,
  Option, none, some, arith,
}
use myos_gui_desktop.Base.Tests.{◌==◌, if◌then◌else◌, ltb, leb, Bool-cases, ==_iff, ne→==}
use myos_gui_desktop.Base.Lists.{length, get_or-set}
use myos_gui_desktop.Base.Bitmap.{Words, test_bit-clear_bit, length-clear_bit}
use myos_gui_desktop.Base.Runs.{within}
use myos_gui_desktop.Volume.{
  Space, Inode, zero_inode, inode_at, put_inode, max_inodes, bitmap_get, bitmap_set, free_from,
  free_extent, alloc_inode_from, alloc_inode,
}
use myos_gui_desktop.Volume.Layout.{Agrees}

length-free_from :
    (n i first total : ℕ) (words : Words) → length (free_from n i first total words) ≡ length words
unfolding free_from bitmap_set
length-free_from zero i first total words = refl
length-free_from (suc n) i first total words =
    elim (Bool-cases (ltb ((first + i) % 2 ^ 32) total)) [
      | inl go ↦ rw go (
          length-free_from n (i + 1) first total (bitmap_set words ((first + i) % 2 ^ 32) false)
          ∙ length-clear_bit 8 words ((first + i) % 2 ^ 32))
      | inr stop ↦ rw stop refl
    ]

-- A run inside the volume is cleared, and no other bit changes.
free_from-bits :
    (n i first total : ℕ) (words : Words) (j : ℕ)
    → first + i + n ≤ total
    → total ≤ 2 ^ 32
    → total ≤ length words * 8
    → bitmap_get (free_from n i first total words) j
      ≡ (if within (first + i) n j then false else bitmap_get words j)
unfolding free_from bitmap_set bitmap_get
free_from-bits zero i first total words j a b c = ground arith
free_from-bits (suc n) i first total words j a b c =
    let place : (first + i) % 2 ^ 32 ≡ first + i = omega arith in
    let go : ltb (first + i) total ≡ true = ground arith in
    let rest : total ≤ length (bitmap_set words (first + i) false) * 8 =
      omega (arith, length-clear_bit 8 words (first + i)) in
    rw (place, go)
      (ground (
        arith,
        free_from-bits n (i + 1) first total (bitmap_set words (first + i) false) j (omega arith) b
            rest,
        test_bit-clear_bit 8 (omega arith) words (first + i) j (omega arith),
      ))

pub length-free_extent :
    (first sectors : ℕ) (s : Space) → length (free_extent first sectors s).bitmap ≡ length s.bitmap
unfolding free_extent
length-free_extent first sectors s = length-free_from sectors 0 first s.superblock.total s.bitmap

pub free_extent-bits :
    (first sectors : ℕ) (s : Space) (j : ℕ)
    → first + sectors ≤ s.superblock.total
    → s.superblock.total ≤ 2 ^ 32
    → s.superblock.total ≤ length s.bitmap * 8
    → bitmap_get (free_extent first sectors s).bitmap j
      ≡ (if within first sectors j then false else bitmap_get s.bitmap j)
unfolding free_extent
free_extent-bits first sectors s j a b c =
    let flat : first + 0 ≡ first = omega arith in
    rw flat at (free_from-bits sectors 0 first s.superblock.total s.bitmap j (omega arith) b c)

-- A stored inode.
pub inode_at-put_inode :
    (s : Space) (i : ℕ) (e : Inode)
    → i < length s.inodes
    → (inode_at (put_inode i e s) i ≡ e)
      × ((k : ℕ) → i ≢ k → inode_at (put_inode i e s) k ≡ inode_at s k)
inode_at-put_inode s i e l = (
  get_or-set s.inodes i i e zero_inode l
      ∙ ap (λ b. if b then e else inode_at s i) ((==_iff i i).1 refl),
  λ k h.
      get_or-set s.inodes i k e zero_inode l
      ∙ ap (λ b. if b then e else inode_at s k) (ne→== i k h),
)

-- An inode for a new file: it was free, and the count covers it then.
pub data Given (s : Space) : Option ℕ × Space → Type 0 where
  given :
      (i count : ℕ)
      → 0 < i
      → i < count
      → count ≤ max_inodes
      → s.superblock.inode_count ≤ count
      → (inode_at s i).kind ≡ 0
      → Given s (some i, record s { superblock = record s.superblock { inode_count = count } })
  exhausted : Given s (none, s)

alloc_inode_from-Given :
    (n i : ℕ) (s : Space)
    → 0 < i
    → n + i ≡ max_inodes
    → s.superblock.inode_count ≤ max_inodes
    → ((k : ℕ) → s.superblock.inode_count ≤ k → (inode_at s k).kind ≡ 0)
    → Given s (alloc_inode_from n i s)
unfolding alloc_inode_from
alloc_inode_from-Given zero i s pos e c unused = exhausted
alloc_inode_from-Given (suc n) i s pos e c unused =
    elim (Bool-cases (leb s.superblock.inode_count i)) [
      | inl beyond ↦
          rw beyond (
            given i (i + 1) pos (omega arith) (omega arith) (ground arith)
              (unused i (ground arith)))
      | inr counted ↦ elim (Bool-cases ((inode_at s i).kind == 0)) [
        | inl free ↦
            rw (counted, free)
              (given i s.superblock.inode_count pos (ground arith) c (omega arith)
                ((==_iff _ _).0 free))
        | inr used ↦
            rw (counted, used)
              (alloc_inode_from-Given n (i + 1) s (omega arith) (omega arith) c unused)
      ]
    ]

pub alloc_inode-Given : {s : Space} → Agrees s → Given s (alloc_inode s)
unfolding alloc_inode
alloc_inode-Given {s} a = alloc_inode_from-Given 63 1 s (omega arith) (omega arith) a.count a.unused
