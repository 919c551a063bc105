-- ===== src/Paging/Map.antt =====
-- What `paging_map_page_in_space` does to the translations of a space.
use myos_gui_desktop.Base.{
  ℕ, ◌+◌, ◌*◌, ◌/◌, ◌%◌, ◌^◌, ◌<◌, ◌≡◌, ◌≢◌, ◌||◌, ◌&&◌, refl, sym, ap, ◌∙◌, inl, inr, true, false,
  bit_or, Bool, arith,
}
use myos_gui_desktop.Base.Tests.{◌==◌, if◌then◌else◌, Bool-cases, ==_iff}
use myos_gui_desktop.Paging.{
  Statics, Memory, Paging, put, with_memory, directory_index, table_index, ensure_table,
  paging_map_page_in_space, paging_get_physical_in_space,
}
use myos_gui_desktop.Paging.Words.{
  bit_and-mask, bit_or-page, bit_or-present, bit_or-lt, table_index-eq, directory_index-eq,
}
use myos_gui_desktop.Paging.Tables.{put_same, put_other, put-IsWords}
use myos_gui_desktop.Paging.Space.{
  entry_in, table_in, page_entry, translated, paging_get_physical_in_space-translated, IsApart,
  Ensured,
}
use myos_gui_desktop.Paging.Ensure.{ensure_table-Ensured}

-- Another entry in the table of one page.
module _ {m : Memory} {space index table : ℕ} {t : Memory} (ensured : Ensured m space index table t)
    (aligned : m space % 4096 ≡ 0) (inside : index < 1024) (entry value : ℕ)
    (small : entry < 1024) where
  abbrev after : Memory
  after = put (table + 4 * entry) value t

  -- A word of another page.
  off_page : (a : ℕ) → a / 4096 ≢ table / 4096 → after a ≡ t a
  off_page a n =
      put_other (table + 4 * entry) a value t (λ h. n (omega (arith, h, ensured.aligned)))

  pub directory_kept : after space ≡ m space
  directory_kept = off_page space (λ h. ensured.apart.0 (sym h)) ∙ ensured.directory

  entries_kept : (j : ℕ) → j < 1024 → entry_in after (m space) j ≡ entry_in t (m space) j
  entries_kept j l = off_page (m space + 4 * j) (λ h. ensured.apart.1 (omega (arith, h, aligned)))

  pub page_entry-put :
      (j x : ℕ)
      → j < 1024
      → x < 1024
      → page_entry after (m space) j x ≡ (
          if (j == index)
          then (if x == entry then value else page_entry m (m space) j x)
          else page_entry m (m space) j x)
  page_entry-put j x l b = elim (Bool-cases (j == index)) [
    | inl same ↦
        let here : j ≡ index = (==_iff j index).0 same in
        let e : entry_in after (m space) j ≡ entry_in t (m space) index =
          entries_kept j l ∙ ap (entry_in t (m space)) here in
        let there : (entry_in after (m space) j % 2 == 0) ≡ false =
          ground (arith, e, ensured.present) in
        let place : table_in after (m space) j ≡ table =
          omega (arith, e, ensured.names, ensured.aligned) in
        rw (there, place, same)
          (elim (Bool-cases (x == entry)) [
            | inl hit ↦ rw hit (
                put_same (table + 4 * entry) (table + 4 * x) value t
                  (omega (arith, (==_iff x entry).0 hit)))
            | inr miss ↦ rw miss (
                put_other (table + 4 * entry) (table + 4 * x) value t (λ h. ground (arith, h, miss))
                ∙ ensured.same x b
                ∙ ap (λ i. page_entry m (m space) i x) (sym here))
          ])
    | inr other ↦
        let far : j ≢ index = ground (arith, other) in
        let e : entry_in after (m space) j ≡ entry_in m (m space) j =
          entries_kept j l ∙ ensured.others j far l in
        elim (Bool-cases (entry_in m (m space) j % 2 == 0)) [
          | inl absent ↦ rw (other, e, absent) refl
          | inr present ↦
              let odd : entry_in m (m space) j % 2 ≡ 1 = ground (arith, present) in
              rw (other, e, present)
                (off_page (table_in m (m space) j + 4 * x)
                    (λ h. ensured.alone j far l odd (omega (arith, h)))
                  ∙ ensured.other_tables j x far l b odd)
        ]
  ]

-- The entry that a mapping stores.
abbrev pub new_entry : (physical flags : ℕ) → ℕ
new_entry physical flags = bit_or (bit_or (physical / 4096 * 4096) 1) flags

pub new_entry-parts :
    (physical flags : ℕ)
    → physical < 2 ^ 32
    → flags < 4096
    → (new_entry physical flags / 4096 ≡ physical / 4096)
      × (new_entry physical flags % 2 ≡ 1)
      × (new_entry physical flags < 2 ^ 32)
new_entry-parts physical flags low few =
    let page : ℕ = physical / 4096 * 4096 in
    (
      bit_or-page (bit_or page 1) flags few ∙ bit_or-page page 1 (omega arith) ∙ omega arith,
      omega (arith, bit_or-present (bit_or page 1) flags, bit_or-present page 1),
      bit_or-lt (bit_or page 1) flags (bit_or-lt page 1 (omega arith) (omega arith)) few,
    )

abbrev pub of_entry : (a entry : ℕ) → ℕ
of_entry a entry = if entry % 2 == 0 then 0 else entry / 4096 * 4096 + a % 4096

pub of_entry-chosen :
    (a value old goal : ℕ) (b c : Bool)
    → of_entry a value ≡ goal
    → of_entry a (if b then (if c then value else old) else old)
      ≡ (if b && c then goal else of_entry a old)
of_entry-chosen a value old goal true true h = h
of_entry-chosen a value old goal true false h = refl
of_entry-chosen a value old goal false c h = refl

-- The translation of an address, with the new entry in its table.
module _ {p : Paging} (q : Paging) {space index table : ℕ} (apart : IsApart p space index)
    (ensured : Ensured p.memory space index table q.memory) (physical flags entry : ℕ)
    (low : physical < 2 ^ 32) (few : flags < 4096) (small : entry < 1024) where
  stored-translated :
      (a : ℕ)
      → a < 2 ^ 32
      → paging_get_physical_in_space space a
          (with_memory q (put (table + 4 * entry) (new_entry physical flags) q.memory))
        ≡ (if (a / 2 ^ 22 == index) && (a / 4096 % 1024 == entry)
            then physical / 4096 * 4096 + a % 4096
            else paging_get_physical_in_space space a p)
  stored-translated a l =
      let value : ℕ = new_entry physical flags in
      let w : Paging = with_memory q (put (table + 4 * entry) value q.memory) in
      let (page, present, word) = new_entry-parts physical flags low few in
      let same : w.memory space ≡ p.memory space =
        directory_kept ensured apart.aligned apart.inside entry value small in
      let put_in =
        page_entry-put ensured apart.aligned apart.inside entry value small (a / 2 ^ 22)
          (a / 4096 % 1024) (omega arith) (omega arith) in
      paging_get_physical_in_space-translated w space a
        (put-IsWords (table + 4 * entry) value q.memory word ensured.words) apart.some_space
        (λ h. apart.some_directory (sym same ∙ h))
      ∙ ap (λ d. translated w.memory d a) same
      ∙ ap (of_entry a) put_in
      ∙ of_entry-chosen a value
          (page_entry p.memory (p.memory space) (a / 2 ^ 22) (a / 4096 % 1024))
          (physical / 4096 * 4096 + a % 4096) (a / 2 ^ 22 == index) (a / 4096 % 1024 == entry)
          (let odd : (value % 2 == 0) ≡ false = ground (arith, present) in
            rw odd (ap (λ x. x * 4096 + a % 4096) page))
      ∙ ap
          (λ x.
            if (a / 2 ^ 22 == index) && (a / 4096 % 1024 == entry)
            then physical / 4096 * 4096 + a % 4096
            else x)
          (sym (
            paging_get_physical_in_space-translated p space a apart.words apart.some_space
              apart.some_directory))

module _ (k : Statics) (p : Paging) (space virtual physical flags : ℕ) (low : virtual < 2 ^ 32)
    (low' : physical < 2 ^ 32) (few : flags < 4096)
    (apart : IsApart p space (virtual / 2 ^ 22)) where
  -- For 32-bit addresses and flags below 4096, and with the parts of the space that are used in pages of
  -- their own: where paging_map_page_in_space returns true, the addresses of the page are translated to
  -- those of the physical page, and every other address of the space as before.
  pub paging_get_physical_in_space-paging_map_page_in_space :
      (paging_map_page_in_space k space virtual physical flags p).0 ≡ true
      → (a : ℕ) → a < 2 ^ 32
      → paging_get_physical_in_space space a
          (paging_map_page_in_space k space virtual physical flags p).1
        ≡ (if a / 4096 == virtual / 4096
            then physical / 4096 * 4096 + a % 4096
            else paging_get_physical_in_space space a p)
  unfolding paging_map_page_in_space
  paging_get_physical_in_space-paging_map_page_in_space =
      let page : ℕ = virtual / 4096 * 4096 in
      let there : ((space == 0) || (p.memory space == 0)) ≡ false =
        ground (arith, apart.some_space, apart.some_directory) in
      let at : directory_index page ≡ virtual / 2 ^ 22 = directory_index-eq page ∙ omega arith in
      let entry : table_index page ≡ virtual / 4096 % 1024 = table_index-eq page ∙ omega arith in
      rw (bit_and-mask virtual low, bit_and-mask physical low', there, at, entry)
        (go (ensure_table k space (virtual / 2 ^ 22) flags p) (ensure_table-Ensured apart k flags))
    where
      after_map : ℕ × Paging → Bool × Paging
      after_map got = if got.0 == 0 then (false, got.1) else (
        true,
        with_memory got.1
            (put (got.0 + 4 * (virtual / 4096 % 1024)) (new_entry physical flags) got.1.memory),
      )

      go :
          (got : ℕ × Paging)
          → (got.0 ≢ 0 → Ensured p.memory space (virtual / 2 ^ 22) got.0 got.1.memory)
          → (after_map got).0 ≡ true
          → (a : ℕ) → a < 2 ^ 32
          → paging_get_physical_in_space space a (after_map got).1 ≡ (
              if a / 4096 == virtual / 4096
              then physical / 4096 * 4096 + a % 4096
              else paging_get_physical_in_space space a p)
      go (table, q) ensured = elim (Bool-cases (table == 0)) [
        | inl null ↦ rw null (λ ok. absurd (ground (arith, ok)))
        | inr found ↦ rw found (λ ok a l.
            stored-translated q apart (ensured (ground (arith, found))) physical flags
              (virtual / 4096 % 1024) low' few (omega arith) a l
            ∙ ap
                (λ b.
                  if b
                  then physical / 4096 * 4096 + a % 4096
                  else paging_get_physical_in_space space a p)
                (ground arith))
      ]
