-- ===== src/DiskFs/Get.antt =====
-- Reads and writes of sectors through the cache.
use myos_gui_desktop.Base.{
  ℕ, ◌<◌, ◌≡◌, ◌≢◌, refl, sym, ap, ◌∙◌, inl, inr, Bool, true, false, Option, none, some, arith,
}
use mathlib.Core.Option.{some-injective}
use myos_gui_desktop.Base.Tests.{◌==◌, Bool-cases, ==_iff}
use myos_gui_desktop.DiskFs.{
  Sector, Ata, DiskFs, entry_at, put_entry, cache_slots, cache_get, read_sector, write_sector,
}
use myos_gui_desktop.DiskFs.View.{IsDisk, Shows, with_sector}
use myos_gui_desktop.DiskFs.Slots.{Fits, put_entry-Shows}
use myos_gui_desktop.DiskFs.Fill.{Got, cache_get-Got}

pub with_sector_same : (m : ℕ → Sector) (s u : ℕ) (b : Sector) → s ≡ u → with_sector m s b u ≡ b
with_sector_same m s u b h = let yes : (s == u) ≡ true = ground arith in rw yes

pub with_sector_other : (m : ℕ → Sector) (s u : ℕ) (b : Sector) → s ≢ u → with_sector m s b u ≡ m u
with_sector_other m s u b h = let no : (s == u) ≡ false = ground arith in rw no

-- What `read_sector` and `write_sector` make of the slot.
abbrev pub fetch : {Disk : Type 0} → Option ℕ × DiskFs Disk → Option Sector × DiskFs Disk
fetch got = elim (got.0) [ some i ↦ (some (entry_at got.1 i).bytes, got.1) | none ↦ (none, got.1) ]

abbrev pub store : {Disk : Type 0} → Sector → Option ℕ × DiskFs Disk → Bool × DiskFs Disk
store b got = elim (got.0) [
  | some i ↦ (true, put_entry i (record (entry_at got.1 i) { bytes = b }) got.1)
  | none ↦ (false, got.1)
]

module _ {Disk : Type 0} {ata : Ata Disk} {sector_at : Disk → ℕ → Sector}
    (law : IsDisk ata sector_at) {m : ℕ → Sector} where
  -- The new bytes of a slot that is marked as dirty.
  stored-Fits :
      (g : DiskFs Disk) (i s : ℕ) (b : Sector)
      → i < cache_slots
      → Shows sector_at m g
      → (entry_at g i).valid ≡ true
      → (entry_at g i).sector ≡ s
      → (entry_at g i).dirty ≡ true
      → Fits sector_at m (with_sector m s b) g i (record (entry_at g i) { bytes = b })
  stored-Fits g i s b l shows v at d = record {
    range = shows.range i l;
    apart = λ j c other v w h. other (shows.apart i j l c w v (sym h));
    bytes = λ h. sym (with_sector_same m s (entry_at g i).sector b (sym at));
    others =
        λ j c other w. sym (with_sector_other m s (entry_at g j).sector b (differs j c other w));
    backed = λ t c none_dirty spared.
        shows.backed t c (λ j e dirty. elim (Bool-cases (i == j)) [
          | inl same ↦
              let i_is_j = (==_iff i j).0 same in
              spared (v, d, ap (λ u. (entry_at g u).sector) i_is_j ∙ dirty.2)
          | inr away ↦ none_dirty j e (λ h. ground (arith, h, away)) dirty
        ])
        ∙ sym (with_sector_other m s t b (λ h. spared (v, d, at ∙ h)));
  }
    where
      differs :
          (j : ℕ)
          → j < cache_slots
          → i ≢ j
          → (entry_at g j).valid ≡ true
          → s ≢ (entry_at g j).sector
      differs j c other w h = other (shows.apart i j l c v w (at ∙ h))

  fetch-Shows :
      (s : ℕ) (got : Option ℕ × DiskFs Disk)
      → Got sector_at m s false got
      → Shows sector_at m (fetch got).1 × ((b : Sector) → (fetch got).0 ≡ some b → b ≡ m s)
  fetch-Shows s (some i, g) (shows, l, v, at, d) =
      (shows, λ b h. sym (some-injective _ _ h) ∙ shows.cached i l v ∙ ap m at)
  fetch-Shows s (none, g) shows = (shows, λ b h. ground (arith, h))

  store-Shows :
      (s : ℕ) (b : Sector) (got : Option ℕ × DiskFs Disk)
      → Got sector_at m s true got
      → ((store b got).0 ≡ true → Shows sector_at (with_sector m s b) (store b got).1)
        × ((store b got).0 ≡ false → Shows sector_at m (store b got).1)
  store-Shows s b (some i, g) (shows, l, v, at, d) = (
    λ h. put_entry-Shows shows l (stored-Fits g i s b l shows v at (d refl)),
    λ h. ground (arith, h),
  )
  store-Shows s b (none, g) shows = (λ h. ground (arith, h), λ h. shows)

  -- A read keeps what the cache shows, and the bytes it gives are those of the sector.
  pub read_sector-Shows :
      (f : DiskFs Disk) (s : ℕ)
      → Shows sector_at m f
      → Shows sector_at m (read_sector ata s f).1
        × ((b : Sector) → (read_sector ata s f).0 ≡ some b → b ≡ m s)
  unfolding read_sector
  read_sector-Shows f s shows =
      fetch-Shows s (cache_get ata s false f) (cache_get-Got law f s false shows)

  -- A write that succeeds changes the bytes of its sector in what the cache shows, and one that
  -- fails changes nothing in it.
  pub write_sector-Shows :
      (f : DiskFs Disk) (s : ℕ) (b : Sector)
      → Shows sector_at m f
      → ((write_sector ata s b f).0 ≡ true
          → Shows sector_at (with_sector m s b) (write_sector ata s b f).1)
        × ((write_sector ata s b f).0 ≡ false → Shows sector_at m (write_sector ata s b f).1)
  unfolding write_sector
  write_sector-Shows f s b shows =
      store-Shows s b (cache_get ata s true f) (cache_get-Got law f s true shows)
