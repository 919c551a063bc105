-- ===== src/Fsck/Covered.antt =====
-- Which sectors the first inodes use, and when they use each once: another way to say that the
-- tables of a volume agree.
use myos_gui_desktop.Base.{
  ℕ, zero, suc, ◌≤◌, ◌<◌, ◌≡◌, sym, ap, ◌∙◌, inl, inr, Bool, true, false, ◌||◌, arith,
}
use myos_gui_desktop.Base.Tests.{ltb, leb, ◌==◌, Bool-cases, ==_iff}
use myos_gui_desktop.Base.Lists.{length}
use myos_gui_desktop.DiskFs.{total_sectors}
use myos_gui_desktop.Volume.{Space, Inode, inode_at, bitmap_get, max_inodes, bitmap_bytes}
use myos_gui_desktop.Volume.Layout.{Agrees, InRange, used_by}

-- The sector belongs to the system or to one of the first `n` inodes.
unfoldable pub covered : ℕ → Space → ℕ → Bool
covered zero s j = ltb j s.superblock.data_start
covered (suc n) s j = used_by (inode_at s n) j || covered n s j

-- Inode `k` lies in the data area, and uses no sector that one before it uses.
pub record Fits (s : Space) (k : ℕ) : Type 0 where
  pub range : InRange s (inode_at s k)
  pub new : (j : ℕ) → used_by (inode_at s k) j ≡ true → covered k s j ≡ false

-- The sizes of the tables, and that inodes behind the count are free.
pub record IsSized (s : Space) : Type 0 where
  pub size : length s.inodes ≡ max_inodes
  pub words : length s.bitmap ≡ bitmap_bytes
  pub total : s.superblock.total ≡ total_sectors
  pub start : s.superblock.data_start ≤ s.superblock.total
  pub count : s.superblock.inode_count ≤ max_inodes
  pub unused : (i : ℕ) → s.superblock.inode_count ≤ i → (inode_at s i).kind ≡ 0

module _ (s : Space) where
  covered-start : (n j : ℕ) → j < s.superblock.data_start → covered n s j ≡ true
  unfolding covered
  covered-start zero j l = ground arith
  covered-start (suc n) j l = ground (arith, covered-start n j l)

  covered-used : (n i j : ℕ) → i < n → used_by (inode_at s i) j ≡ true → covered n s j ≡ true
  unfolding covered
  covered-used zero i j l h = absurd (omega arith)
  covered-used (suc n) i j l h = elim (Bool-cases (i == n)) [
    | inl last ↦
        let mine : used_by (inode_at s n) j ≡ true =
          ap (λ u. used_by (inode_at s u) j) (sym ((==_iff i n).0 last)) ∙ h in
        ground (arith, mine)
    | inr earlier ↦ ground (arith, covered-used n i j (ground (arith, earlier)) h)
  ]

  covered-owner :
      (n j : ℕ)
      → s.superblock.data_start ≤ j
      → covered n s j ≡ true
      → (i : ℕ) × (i < n) × (used_by (inode_at s i) j ≡ true)
  unfolding covered
  covered-owner zero j l h = absurd (ground (arith, h))
  covered-owner (suc n) j l h = elim (Bool-cases (used_by (inode_at s n) j)) [
    | inl mine ↦ (n, omega arith, mine)
    | inr other ↦
        let (i, b, u) = covered-owner n j l (ground (arith, h, other)) in (i, omega arith, u)
  ]

  -- What uses a sector is a file that counts.
  used-counted :
      IsSized s → (i j : ℕ) → used_by (inode_at s i) j ≡ true → i < s.superblock.inode_count
  unfolding used_by
  used-counted z i j h = elim (Bool-cases (leb s.superblock.inode_count i)) [
    | inl beyond ↦ absurd (ground (arith, z.unused i (ground (arith, beyond)), h))
    | inr inside ↦ ground (arith, inside)
  ]

  used-inside :
      (e : Inode) (j : ℕ)
      → InRange s e
      → used_by e j ≡ true
      → (s.superblock.data_start ≤ j) × (j < s.superblock.total)
  unfolding used_by
  used-inside e j r h = ground (arith, r, h)

  -- Two inodes that fit do not share a sector.
  Fits-apart :
      (i k j : ℕ)
      → i < k
      → Fits s k
      → used_by (inode_at s i) j ≡ true
      → ¬ (used_by (inode_at s k) j ≡ true)
  Fits-apart i k j l f a b = ground (arith, f.new j b, covered-used k i j l a)

  -- Every inode is in range if the ones that count are.
  range-of :
      IsSized s
      → ((k : ℕ) → k < s.superblock.inode_count → Fits s k)
      → (i : ℕ) → InRange s (inode_at s i)
  range-of z f i h = elim (Bool-cases (ltb i s.superblock.inode_count)) [
    | inl inside ↦ (f i (ground (arith, inside))).range h
    | inr beyond ↦ absurd (ground (arith, z.unused i (ground (arith, beyond)), h))
  ]

  pub Fits-Agrees :
      IsSized s
      → ((k : ℕ) → k < s.superblock.inode_count → Fits s k)
      → ((j : ℕ)
          → j < s.superblock.total
          → bitmap_get s.bitmap j ≡ covered s.superblock.inode_count s j)
      → Agrees s
  Fits-Agrees z f bits = record {
    size = z.size;
    words = z.words;
    total = z.total;
    start = z.start;
    count = z.count;
    unused = z.unused;
    in_range = range-of z f;
    reserved = λ j l. bits j (omega (arith, z.start)) ∙ covered-start s.superblock.inode_count j l;
    owned = λ i j h.
        bits j (used-inside (inode_at s i) j (range-of z f i) h).1
        ∙ covered-used s.superblock.inode_count i j (used-counted z i j h) h;
    owner = λ j l b h.
        let (i, c, u) = covered-owner s.superblock.inode_count j l (sym (bits j b) ∙ h) in (i, u);
    apart = λ i k j a b. elim (Bool-cases (ltb i k)) [
      | inl before ↦
          absurd (Fits-apart i k j (ground (arith, before)) (f k (used-counted z k j b)) a b)
      | inr at_least ↦ elim (Bool-cases (ltb k i)) [
        | inl after ↦
            absurd (Fits-apart k i j (ground (arith, after)) (f i (used-counted z i j a)) b a)
        | inr at_most ↦ ground (arith, at_least, at_most)
      ]
    ];
  }

  pub Agrees-Fits : Agrees s → (k : ℕ) → Fits s k
  Agrees-Fits a k = record {
    range = a.in_range k;
    new = λ j h. elim (Bool-cases (covered k s j)) [
      | inr free ↦ free
      | inl old ↦
          let (i, b, u) = covered-owner k j (used-inside (inode_at s k) j (a.in_range k) h).0 old in
          absurd (omega (arith, a.apart i k j u h))
    ];
  }

  pub Agrees-IsSized : Agrees s → IsSized s
  Agrees-IsSized a = record {
    size = a.size;
    words = a.words;
    total = a.total;
    start = a.start;
    count = a.count;
    unused = a.unused;
  }

  pub Agrees-covered :
      Agrees s
      → (j : ℕ) → j < s.superblock.total
      → bitmap_get s.bitmap j ≡ covered s.superblock.inode_count s j
  Agrees-covered a j l = elim (Bool-cases (ltb j s.superblock.data_start)) [
    | inl low ↦
        a.reserved j (ground (arith, low))
        ∙ sym (covered-start s.superblock.inode_count j (ground (arith, low)))
    | inr high ↦ elim (Bool-cases (bitmap_get s.bitmap j)) [
      | inl taken ↦
          let (i, u) = a.owner j (ground (arith, high)) l taken in
          taken
          ∙ sym
              (covered-used s.superblock.inode_count i j (used-counted (Agrees-IsSized a) i j u) u)
      | inr free ↦ elim (Bool-cases (covered s.superblock.inode_count s j)) [
        | inr uncovered ↦ free ∙ sym uncovered
        | inl used ↦
            let (i, b, u) = covered-owner s.superblock.inode_count j (ground (arith, high)) used in
            absurd (ground (arith, a.owned i j u, free))
      ]
    ]
  ]
