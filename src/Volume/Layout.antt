-- ===== src/Volume/Layout.antt =====
-- When the tables of a volume agree: every sector belongs to one file, to the system or to nobody,
-- and the bitmap says which.
use myos_gui_desktop.Base.{
  ℕ, ◌+◌, ◌≤◌, ◌<◌, ◌≡◌, ◌≢◌, sym, ap, ◌∙◌, ◌⊎◌, inl, inr, Bool, true, false, not, ◌&&◌, ◌||◌,
  arith,
}
use myos_gui_desktop.Base.Tests.{◌==◌, Bool-cases, ==_iff}
use myos_gui_desktop.Base.Lists.{length}
use myos_gui_desktop.Base.Runs.{within}
use myos_gui_desktop.DiskFs.{total_sectors}
use myos_gui_desktop.Volume.{
  Space, Inode, inode_at, max_inodes, bitmap_bytes, type_file, bitmap_get,
}

-- The sector belongs to the file.
unfoldable pub used_by : Inode → ℕ → Bool
used_by e j = (e.kind == type_file) && within e.first_sector e.sector_count j

abbrev pub InRange : Space → Inode → Type 0
InRange s e =
    e.kind ≡ type_file
    → (s.superblock.data_start ≤ e.first_sector)
      × (e.first_sector + e.sector_count ≤ s.superblock.total)

pub record Agrees (s : Space) : Type 0 where
  pub size : length s.inodes ≡ max_inodes
  pub words : length s.bitmap ≡ bitmap_bytes
  pub total : s.superblock.total ≡ total_sectors
  pub start : s.superblock.data_start ≤ s.superblock.total
  pub count : s.superblock.inode_count ≤ max_inodes
  pub unused : (i : ℕ) → s.superblock.inode_count ≤ i → (inode_at s i).kind ≡ 0
  pub in_range : (i : ℕ) → InRange s (inode_at s i)
  pub reserved : (j : ℕ) → j < s.superblock.data_start → bitmap_get s.bitmap j ≡ true
  pub owned : (i j : ℕ) → used_by (inode_at s i) j ≡ true → bitmap_get s.bitmap j ≡ true
  pub owner :
      (j : ℕ)
      → s.superblock.data_start ≤ j
      → j < s.superblock.total
      → bitmap_get s.bitmap j ≡ true
      → (i : ℕ) × (used_by (inode_at s i) j ≡ true)
  pub apart :
      (i k j : ℕ) → used_by (inode_at s i) j ≡ true → used_by (inode_at s k) j ≡ true → i ≡ k

-- Inode `i` becomes `e`, which takes free sectors or its own, and gives back the ones it had.
pub record Changed (s t : Space) (i : ℕ) (e : Inode) : Type 0 where
  pub size : length t.inodes ≡ length s.inodes
  pub words : length t.bitmap ≡ length s.bitmap
  pub total : t.superblock.total ≡ s.superblock.total
  pub start : t.superblock.data_start ≡ s.superblock.data_start
  pub count :
      (s.superblock.inode_count ≤ t.superblock.inode_count)
      × (t.superblock.inode_count ≤ max_inodes)
  pub inside : i < t.superblock.inode_count
  pub here : inode_at t i ≡ e
  pub there : (k : ℕ) → i ≢ k → inode_at t k ≡ inode_at s k
  pub bits :
      (j : ℕ)
      → bitmap_get t.bitmap j
        ≡ (used_by e j || (bitmap_get s.bitmap j && not (used_by (inode_at s i) j)))
  pub fresh :
      (j : ℕ)
      → used_by e j ≡ true
      → (bitmap_get s.bitmap j ≡ false) ⊎ (used_by (inode_at s i) j ≡ true)
  pub range : InRange s e

-- No file has a sector in front of the data area.
below-unused :
    (s : Space) (e : Inode) (j : ℕ)
    → InRange s e
    → j < s.superblock.data_start
    → used_by e j ≡ false
unfolding used_by
below-unused s e j r l = ground (arith, r)

module _ {s t : Space} {i : ℕ} {e : Inode} (a : Agrees s) (c : Changed s t i e) where
  -- A slot is the changed one or another.
  slot_of : (k : ℕ) → ((i ≡ k) × (inode_at t k ≡ e)) ⊎ ((i ≢ k) × (inode_at t k ≡ inode_at s k))
  slot_of k = elim (Bool-cases (i == k)) [
    | inl same ↦ let h = (==_iff i k).0 same in inl (h, ap (inode_at t) (sym h) ∙ c.here)
    | inr other ↦ let h : i ≢ k = ground arith in inr (h, c.there k h)
  ]

  -- The sectors of another file stay as they are.
  kept : (k j : ℕ) → i ≢ k → used_by (inode_at s k) j ≡ true → used_by (inode_at s i) j ≡ false
  kept k j other h = elim (Bool-cases (used_by (inode_at s i) j)) [
    | inl mine ↦ absurd (other (a.apart i k j mine h))
    | inr spared ↦ spared
  ]

  taken_apart : (k j : ℕ) → i ≢ k → used_by e j ≡ true → ¬ (used_by (inode_at s k) j ≡ true)
  taken_apart k j other mine h = elim (c.fresh j mine) [
    | inl free ↦ ground (arith, a.owned k j h, free)
    | inr old ↦ other (a.apart i k j old h)
  ]

  owned_after : (k j : ℕ) → used_by (inode_at t k) j ≡ true → bitmap_get t.bitmap j ≡ true
  owned_after k j = elim (slot_of k) [
    | inl (same, is) ↦
        rw is (λ h.
          c.bits j ∙ ap (λ u. u || (bitmap_get s.bitmap j && not (used_by (inode_at s i) j))) h)
    | inr (other, is) ↦ rw is (λ h. c.bits j ∙ ground (arith, a.owned k j h, kept k j other h))
  ]

  owner_after :
      (j : ℕ)
      → s.superblock.data_start ≤ j
      → j < s.superblock.total
      → bitmap_get t.bitmap j ≡ true
      → (k : ℕ) × (used_by (inode_at t k) j ≡ true)
  owner_after j l h b = elim (Bool-cases (used_by e j)) [
    | inl mine ↦ (i, rw (c.here) mine)
    | inr spared ↦
        let old = sym (c.bits j) ∙ b in
        let (k, used) = a.owner j l h (ground (arith, old, spared)) in
        elim (slot_of k) [
          | inl (same, is) ↦
              let mine : used_by (inode_at s i) j ≡ true =
                ap (λ u. used_by (inode_at s u) j) same ∙ used in
              absurd (ground (arith, old, spared, mine))
          | inr (other, is) ↦ (k, rw is used)
        ]
  ]

  apart_after :
      (k l j : ℕ) → used_by (inode_at t k) j ≡ true → used_by (inode_at t l) j ≡ true → k ≡ l
  apart_after k l j = elim (slot_of k) [
    | inl (same, is) ↦ elim (slot_of l) [
      | inl (same', is') ↦ λ x y. sym same ∙ same'
      | inr (other', is') ↦ rw (is, is') (λ x y. absurd (taken_apart l j other' x y))
    ]
    | inr (other, is) ↦ elim (slot_of l) [
      | inl (same', is') ↦ rw (is, is') (λ x y. absurd (taken_apart k j other y x))
      | inr (other', is') ↦ rw (is, is') (a.apart k l j)
    ]
  ]

  -- A change of one inode that takes free sectors keeps the tables in agreement.
  pub Changed-Agrees : Agrees t
  Changed-Agrees = record {
    size = c.size ∙ a.size;
    words = c.words ∙ a.words;
    total = c.total ∙ a.total;
    start = omega (arith, a.start, c.start, c.total);
    count = c.count.1;
    unused = λ k l. elim (slot_of k) [
      | inl (same, is) ↦ absurd (omega (arith, c.inside))
      | inr (other, is) ↦ rw is (a.unused k (omega (arith, c.count.0)))
    ];
    in_range = λ k. elim (slot_of k) [
      | inl (same, is) ↦ rw (is, c.start, c.total) c.range
      | inr (other, is) ↦ rw (is, c.start, c.total) (a.in_range k)
    ];
    reserved = λ j l.
        let low : j < s.superblock.data_start = omega (arith, c.start) in
        c.bits j
        ∙ ground (arith, a.reserved j low, below-unused s (inode_at s i) j (a.in_range i) low);
    owned = owned_after;
    owner = λ j l h. owner_after j (omega (arith, c.start)) (omega (arith, c.total));
    apart = apart_after;
  }
