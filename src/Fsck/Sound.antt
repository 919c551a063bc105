-- ===== src/Fsck/Sound.antt =====
-- What the check of a volume says: it finds no error exactly if the tables agree.
use myos_gui_desktop.Base.{
  ℕ, zero, suc, ◌+◌, ◌%◌, ◌^◌, ◌≤◌, ◌<◌, ◌≡◌, ◌↔◌, refl, sym, ◌∙◌, inl, inr, true, false, ◌||◌, [],
  subst, arith,
}
use myos_gui_desktop.Base.Tests.{ltb, ◌==◌, Bool-cases, ==_iff}
use myos_gui_desktop.Base.Lists.{length, replicate, length-replicate}
use myos_gui_desktop.Base.Bitmap.{test_bit, test_bit-zeros}
use myos_gui_desktop.Base.Runs.{within, set_bits, length-set_bits, test_bit-set_bits}
use myos_gui_desktop.Volume.{Space, Inode, Volume, inode_at, type_file}
use myos_gui_desktop.Volume.Layout.{Agrees, InRange, used_by}
use myos_gui_desktop.DiskFs.{Ata}
use myos_gui_desktop.FileOps.Steps.{Steps, Steps-Agrees}
use myos_gui_desktop.Fsck.{Check, see_inode, see_inodes, check_space, diskfs_fsck}
use myos_gui_desktop.Fsck.Loops.{
  SeenExtent, see_extent-SeenExtent, see_extent-errors_grow, compare_from-errors,
}
use myos_gui_desktop.Fsck.Covered.{
  covered, Fits, IsSized, Fits-Agrees, Agrees-Fits, Agrees-IsSized, Agrees-covered,
}

-- No extent of a file runs over the largest 32-bit number.
abbrev pub NoWrap : Space → Type 0
NoWrap s =
    (i : ℕ)
    → (inode_at s i).kind ≡ type_file
    → (inode_at s i).first_sector + (inode_at s i).sector_count < 2 ^ 32

-- The loops have seen what the first `i` inodes use.
record HasSeen (s : Space) (i : ℕ) (c : Check) : Type 0 where
  words : length c.seen ≡ 512
  seen : (j : ℕ) → test_bit 8 c.seen j ≡ covered i s j

-- From inode `i` to inode `k`.
record Checked (s : Space) (i k : ℕ) (c d : Check) : Type 0 where
  more : c.errors ≤ d.errors
  sound : d.errors ≡ c.errors → ((l : ℕ) → i ≤ l → l < k → Fits s l) × HasSeen s k d
  complete : ((l : ℕ) → i ≤ l → l < k → Fits s l) → d.errors ≡ c.errors

file-used_by :
    (e : Inode) (j : ℕ)
    → (e.kind == type_file) ≡ true
    → used_by e j ≡ within e.first_sector e.sector_count j
unfolding used_by
file-used_by e j h = rw h refl

other-used_by : (e : Inode) (j : ℕ) → (e.kind == type_file) ≡ false → used_by e j ≡ false
unfolding used_by
other-used_by e j h = rw h refl

-- The only one from `i` to the next.
only : {s : Space} {i : ℕ} → Fits s i → (l : ℕ) → i ≤ l → l < suc i → Fits s l
only {s} f l a b = subst (Fits s) (omega arith) f

see_inode-errors_grow : (s : Space) (e : Inode) (c : Check) → c.errors ≤ (see_inode s e c).errors
unfolding see_inode
see_inode-errors_grow s e c = ground (arith, see_extent-errors_grow e.sector_count e.first_sector c)

see_inodes-errors_grow : (n i : ℕ) (s : Space) (c : Check) → c.errors ≤ (see_inodes n i s c).errors
unfolding see_inodes
see_inodes-errors_grow zero i s c = omega arith
see_inodes-errors_grow (suc n) i s c = omega (
  arith,
  see_inode-errors_grow s (inode_at s i) c,
  see_inodes-errors_grow n (i + 1) s (see_inode s (inode_at s i) c),
)

module _ {s : Space} (z : IsSized s) (w : NoWrap s) where
  no_file-Checked :
      (i : ℕ) (c : Check)
      → HasSeen s i c
      → ((inode_at s i).kind == type_file) ≡ false
      → Checked s i (suc i) c c
  unfolding covered
  no_file-Checked i c h other = record {
    more = omega arith;
    sound = λ e. (
      only (record {
        range = λ k. ground (arith, k, other);
        new = λ j u. ground (arith, u, other-used_by (inode_at s i) j other);
      }),
      record {
        words = h.words;
        seen = λ j. h.seen j ∙ ground (arith, other-used_by (inode_at s i) j other);
      },
    );
    complete = λ f. refl;
  }

  extent-Checked :
      (i : ℕ) (c d : Check)
      → HasSeen s i c
      → ((inode_at s i).kind == type_file) ≡ true
      → InRange s (inode_at s i)
      → SeenExtent (inode_at s i).sector_count (inode_at s i).first_sector c d
      → Checked s i (suc i) c d
  unfolding covered
  extent-Checked i c d h file range x = record {
    more = x.more;
    sound = λ e. (
      only (record {
        range = range;
        new = λ j u. sym (h.seen j) ∙ x.apart e j (sym (file-used_by (inode_at s i) j file) ∙ u);
      }),
      record {
        words = x.words ∙ h.words;
        seen = λ j. x.seen j ∙ ground (arith, h.seen j, file-used_by (inode_at s i) j file);
      },
    );
    complete = λ f. x.silent (λ j b.
        h.seen j
        ∙ (f i (omega arith) (omega arith)).new j (file-used_by (inode_at s i) j file ∙ b));
  }

  see_inode-Checked :
      (i : ℕ) (c : Check) → HasSeen s i c → Checked s i (suc i) c (see_inode s (inode_at s i) c)
  unfolding see_inode
  see_inode-Checked i c h = elim (Bool-cases ((inode_at s i).kind == type_file)) [
    | inr other ↦ rw other (no_file-Checked i c h other)
    | inl file ↦
        let place : ((inode_at s i).first_sector + (inode_at s i).sector_count) % 2 ^ 32
            ≡ (inode_at s i).first_sector + (inode_at s i).sector_count =
          omega (arith, w i ((==_iff _ _).0 file)) in
        elim (Bool-cases (
          ltb (inode_at s i).first_sector s.superblock.data_start
          || ltb s.superblock.total ((inode_at s i).first_sector + (inode_at s i).sector_count))) [
            | inl outside ↦
                rw (file, place, outside)
                  (record {
                    more = omega arith;
                    sound = λ e. absurd (omega (arith, e));
                    complete = λ f. absurd (
                        ground (
                          arith,
                          (f i (omega arith) (omega arith)).range ((==_iff _ _).0 file),
                          outside,
                        ));
                  })
            | inr inside ↦
                rw (file, place, inside)
                  (extent-Checked i c _ h file (λ k. ground (arith, inside))
                    (see_extent-SeenExtent (inode_at s i).sector_count (inode_at s i).first_sector c
                      (ground (arith, inside, h.words, z.total)) (w i ((==_iff _ _).0 file))))
          ]
  ]

  see_inodes-Checked :
      (n i k : ℕ) (c : Check) → i + n ≡ k → HasSeen s i c → Checked s i k c (see_inodes n i s c)
  unfolding see_inodes
  see_inodes-Checked zero i k c e h = record {
    more = omega arith;
    sound = λ same. (λ l a b. absurd (omega arith), subst (λ u. HasSeen s u c) (omega arith) h);
    complete = λ f. refl;
  }
  see_inodes-Checked (suc n) i k c e h =
      let d : Check = see_inode s (inode_at s i) c in
      let first = see_inode-Checked i c h in
      let grow = see_inodes-errors_grow n (i + 1) s d in
      let rest : HasSeen s (suc i) d → Checked s (i + 1) k d (see_inodes n (i + 1) s d) = λ seen.
        see_inodes-Checked n (i + 1) k d (omega arith)
          (subst (λ u. HasSeen s u d) (omega arith) seen) in
      record {
        more = omega (arith, first.more, grow);
        sound = λ same.
            let here = first.sound (omega (arith, first.more, grow, same)) in
            let later = (rest here.1).sound (omega (arith, first.more, grow, same)) in
            (
              λ l a b. elim (Bool-cases (i == l)) [
                | inl now ↦ here.0 l a (ground (arith, now))
                | inr after ↦ later.0 l (ground (arith, after)) b
              ],
              later.1,
            );
        complete = λ f.
            let quiet = first.complete (λ l a b. f l a (omega arith)) in
            (rest (first.sound quiet).1).complete (λ l a b. f l (omega arith) b) ∙ quiet;
      }

-- The state in front of the loops.
abbrev begun : Space → Check
begun s = record {
  seen = set_bits 8 s.superblock.data_start 0 (replicate 512 0);
  errors = 0;
  report = [];
}

begun-HasSeen : (s : Space) → IsSized s → HasSeen s 0 (begun s)
unfolding covered
begun-HasSeen s z =
    let size : length {A = ℕ} (replicate 512 0) ≡ 512 = length-replicate 512 0 in
    record {
      words = length-set_bits 8 s.superblock.data_start 0 (replicate 512 0) ∙ size;
      seen = λ j.
          test_bit-set_bits 8 (omega arith) s.superblock.data_start 0 j (replicate 512 0)
            (omega (arith, z.start, z.total, size))
          ∙ ground (arith, test_bit-zeros 8 512 j);
    }

-- With tables of the right sizes and extents that do not wrap, the check of the tables counts no
-- error exactly if they agree.
pub check_space-Agrees :
    (s : Space) → IsSized s → NoWrap s → ((check_space s).errors ≡ 0) ↔ Agrees s
unfolding check_space
check_space-Agrees s z w =
    let n : ℕ = s.superblock.inode_count in
    let seen : Check = see_inodes n 0 s (begun s) in
    let loops = see_inodes-Checked z w n 0 n (begun s) (omega arith) (begun-HasSeen s z) in
    let (sound, complete, more) = compare_from-errors s.superblock.total 0 s.bitmap seen in
    (
      λ h.
          let none : seen.errors ≡ 0 = omega (arith, more, h) in
          let (fits, has) = loops.sound none in
          Fits-Agrees s z (λ k l. fits k (omega arith) l)
            (λ j l. sound (h ∙ sym none) j (omega arith) (omega arith) ∙ has.seen j),
      λ a.
          let none : seen.errors ≡ 0 = loops.complete (λ l b c. Agrees-Fits s a l) in
          let (fits, has) = loops.sound none in
          complete (λ j b c. Agrees-covered s a j (omega arith) ∙ sym (has.seen j)) ∙ none,
    )

-- diskfs_fsck on a volume that is available reports no error exactly if the tables agree, as long as
-- they have the right sizes and no extent wraps.
pub diskfs_fsck-Agrees :
    {Disk : Type 0} (v : Volume Disk)
    → v.available ≡ true
    → IsSized v.space
    → NoWrap v.space
    → ((diskfs_fsck v).0 ≡ 0) ↔ Agrees v.space
unfolding diskfs_fsck
diskfs_fsck-Agrees v on z w = rw on (check_space-Agrees v.space z w)

Agrees-NoWrap : {s : Space} → Agrees s → NoWrap s
Agrees-NoWrap a i f = omega (arith, a.in_range i f, a.total)

-- The tables of a volume that pass the check still pass it after any sequence of operations on
-- files, whatever the disk does, if they have the right sizes and no extent wraps.
pub check_space-Steps :
    {Disk : Type 0} (ata : Ata Disk) {v w : Volume Disk}
    → Steps ata v w
    → IsSized v.space
    → NoWrap v.space
    → (check_space v.space).errors ≡ 0
    → (check_space w.space).errors ≡ 0
check_space-Steps ata {v} {w} steps z n h =
    let after = Steps-Agrees ata steps ((check_space-Agrees v.space z n).0 h) in
    (check_space-Agrees w.space (Agrees-IsSized w.space after) (Agrees-NoWrap after)).1 after
