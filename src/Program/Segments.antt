-- ===== src/Program/Segments.antt =====
-- What the loop over the program headers of an ELF file leaves in the image.
use myos_gui_desktop.Base.{
  ℕ, zero, suc, ◌+◌, ◌-◌, ◌*◌, ◌%◌, ◌^◌, ◌≤◌, ◌<◌, ◌≡◌, refl, sym, ap, ◌∙◌, inl, inr, Bool, true,
  false, ◌&&◌, Option, none, some, arith,
}
use myos_gui_desktop.Base.Tests.{==_iff, ◌==◌, if◌then◌else◌, Bool-cases}
use myos_gui_desktop.Base.Int.{ℤ, negsuc}
use myos_gui_desktop.Program.{
  Bytes, program_base, image_size, program_header_size, Elf32ProgramHeader, program_header_at,
  copy_segment, outside_image, outside_file, load_segments,
}
use myos_gui_desktop.Program.Copy.{among, copy_segment-at, read32-lt}

-- The header with number `i`, and the byte of its segment at an index of the image.
abbrev pub header : Bytes → (file phoff i : ℕ) → Elf32ProgramHeader
header m file phoff i = program_header_at m (file + phoff + i * program_header_size)

abbrev pub covers : Elf32ProgramHeader → ℕ → Bool
covers ph a = (ph.kind == 1) && among (ph.vaddr - program_base) ph.filesz a

abbrev pub segment_byte : Bytes → (file : ℕ) → Elf32ProgramHeader → ℕ → ℕ
segment_byte m file ph a = m ((file + ph.offset + (a - (ph.vaddr - program_base))) % 2 ^ 32)

-- The byte that the last of the `n` headers from `i` on has for an index, or else `old`.
abbrev pub last_byte : Bytes → (file phoff i n old a : ℕ) → ℕ
last_byte m file phoff i zero old a = old
last_byte m file phoff i (suc n) old a =
    let ph = program_header_at m (file + phoff + (i + n) * program_header_size) in
    if covers ph a then segment_byte m file ph a else last_byte m file phoff i n old a

-- The first header may also be taken first.
last_byte-first :
    (m : Bytes) (file phoff i n old a : ℕ)
    → last_byte m file phoff
        (i + 1)
        n
        (if covers (header m file phoff i) a
          then segment_byte m file (header m file phoff i) a
          else old)
        a
      ≡ last_byte m file phoff i (suc n) old a
last_byte-first m file phoff i zero old a =
    ap
      (λ k.
        if covers (header m file phoff k) a
        then segment_byte m file (header m file phoff k) a
        else old)
      (omega arith)
last_byte-first m file phoff i (suc n) old a =
    let same : i + 1 + n ≡ i + suc n = omega arith in
    ap
      (λ k.
        if covers (header m file phoff k) a
        then segment_byte m file (header m file phoff k) a
        else last_byte m file phoff (i + 1) n
            (if covers (header m file phoff i) a
              then segment_byte m file (header m file phoff i) a
              else old)
            a)
      same
    ∙ ap
        (λ x.
          if covers (header m file phoff (i + suc n)) a
          then segment_byte m file (header m file phoff (i + suc n)) a
          else x)
        (last_byte-first m file phoff i n old a)

-- What the loop over the headers leaves, and that every segment passed the check against the file.
pub record Loaded (m : Bytes) (file file_size phoff n i : ℕ) (image : ℕ → ℕ)
    (out : Option ℤ × Bool × (ℕ → ℕ)) : Type 0 where
  pub outside : (a : ℕ) → image_size ≤ a → out.2 a ≡ image a
  pub bytes : out.0 ≡ none → (a : ℕ) → out.2 a ≡ last_byte m file phoff i n (image a) a
  pub checked :
      out.0 ≡ none
      → (j : ℕ) → i ≤ j
      → j < i + n
      → (header m file phoff j).kind ≡ 1
      → outside_file file_size (header m file phoff j) ≡ false

module _ (m : Bytes) (bytes : (b : ℕ) → m b < 256) (file file_size phoff : ℕ) where
  -- A segment that passes the checks lies in the image.
  segment_inside :
      (i : ℕ)
      → outside_image (header m file phoff i) ≡ false
      → outside_file file_size (header m file phoff i) ≡ false
      → (header m file phoff i).vaddr - program_base + (header m file phoff i).filesz ≤ image_size
  unfolding outside_image outside_file program_header_at
  segment_inside i h g =
      let at : ℕ = file + phoff + i * 32 in
      ground (
        arith,
        h,
        g,
        read32-lt m (at + 8) bytes,
        read32-lt m (at + 20) bytes,
        read32-lt m (at + 16) bytes,
      )

  stopped-Loaded :
      (n i : ℕ) (code : ℤ) (loaded : Bool) (image : ℕ → ℕ)
      → Loaded m file file_size phoff n i image (some code, loaded, image)
  stopped-Loaded n i code loaded image = record {
    outside = λ a l. refl;
    bytes = λ h. absurd (ground (arith, h));
    checked = λ h. absurd (ground (arith, h));
  }

  -- A header that is skipped.
  skipped-Loaded :
      (n i : ℕ) (image : ℕ → ℕ) (out : Option ℤ × Bool × (ℕ → ℕ))
      → ((header m file phoff i).kind == 1) ≡ false
      → Loaded m file file_size phoff n (i + 1) image out
      → Loaded m file file_size phoff (suc n) i image out
  skipped-Loaded n i image out other h = record {
    outside = h.outside;
    bytes = λ e a.
        let off : covers (header m file phoff i) a ≡ false = ground (arith, other) in
        h.bytes e a
        ∙ ap
            (λ b.
              last_byte m file phoff (i + 1) n
                (if b then segment_byte m file (header m file phoff i) a else image a) a)
            (sym off)
        ∙ last_byte-first m file phoff i n (image a) a;
    checked = λ e j b l k. elim (Bool-cases (j == i)) [
      | inl same ↦
          absurd
            (ground (arith, other, k, ap (λ x. (header m file phoff x).kind) ((==_iff j i).0 same)))
      | inr later ↦ h.checked e j (ground (arith, b, later)) (omega arith) k
    ];
  }

  -- A segment that is copied.
  copied-Loaded :
      (n i : ℕ) (image : ℕ → ℕ) (out : Option ℤ × Bool × (ℕ → ℕ))
      → ((header m file phoff i).kind == 1) ≡ true
      → (header m file phoff i).vaddr - program_base + (header m file phoff i).filesz ≤ image_size
      → outside_file file_size (header m file phoff i) ≡ false
      → Loaded m file file_size phoff n
          (i + 1)
          (copy_segment m
            (header m file phoff i).filesz
            0
            ((header m file phoff i).vaddr - program_base)
            (file + (header m file phoff i).offset)
            image)
          out
      → Loaded m file file_size phoff (suc n) i image out
  copied-Loaded n i image out load fits inside h =
      let ph : Elf32ProgramHeader = header m file phoff i in
      let destination : ℕ = ph.vaddr - program_base in
      let copied = copy_segment-at m ph.filesz 0 destination (file + ph.offset) image in
      record {
        outside = λ a l.
            let off : among (destination + 0) ph.filesz a ≡ false = ground (arith, fits, l) in
            h.outside a l
            ∙ copied a
            ∙ ap (λ b. if b then segment_byte m file ph a else image a) off;
        bytes = λ e a.
            let on : among (destination + 0) ph.filesz a ≡ covers ph a = ground (arith, load) in
            h.bytes e a
            ∙ ap (λ x. last_byte m file phoff (i + 1) n x a)
                (copied a ∙ ap (λ b. if b then segment_byte m file ph a else image a) on)
            ∙ last_byte-first m file phoff i n (image a) a;
        checked = λ e j b l k. elim (Bool-cases (j == i)) [
          | inl same ↦
              ap (λ x. outside_file file_size (header m file phoff x)) ((==_iff j i).0 same)
              ∙ inside
          | inr other ↦ h.checked e j (ground (arith, b, other)) (omega arith) k
        ];
      }

  pub load_segments-Loaded :
      (n i : ℕ) (loaded : Bool) (image : ℕ → ℕ)
      → Loaded m file file_size phoff n i image
          (load_segments m file file_size phoff n i loaded image)
  unfolding load_segments
  load_segments-Loaded zero i loaded image = record {
    outside = λ a l. refl;
    bytes = λ h a. refl;
    checked = λ h j b l. absurd (omega arith);
  }
  load_segments-Loaded (suc n) i loaded image =
      let ph : Elf32ProgramHeader = header m file phoff i in
      let filled : ℕ → ℕ =
        copy_segment m ph.filesz 0 (ph.vaddr - program_base) (file + ph.offset) image in
      elim (Bool-cases (ph.kind == 1)) [
        | inl load ↦ elim (Bool-cases (outside_image ph)) [
          | inl bad ↦ rw (load, bad) (stopped-Loaded (suc n) i (negsuc 33) loaded image)
          | inr placed ↦ elim (Bool-cases (outside_file file_size ph)) [
            | inl bad ↦ rw (load, placed, bad) (stopped-Loaded (suc n) i (negsuc 34) loaded image)
            | inr fits ↦
                rw (load, placed, fits)
                  (copied-Loaded n i image
                    (load_segments m file file_size phoff n (i + 1) true filled) load
                    (segment_inside i placed fits) fits
                    (load_segments-Loaded n (i + 1) true filled))
          ]
        ]
        | inr other ↦ rw other (
            skipped-Loaded n i image (load_segments m file file_size phoff n (i + 1) loaded image)
              other (load_segments-Loaded n (i + 1) loaded image))
      ]

-- The segment whose byte an index of the image has: the last one of `n` headers that covers it.
pub data FromFile (m : Bytes) (file file_size phoff n a : ℕ) : ℕ → Type 0 where
  segment :
      (i position : ℕ)
      → i < n
      → covers (header m file phoff i) a ≡ true
      → ((j : ℕ) → i < j → j < n → covers (header m file phoff j) a ≡ false)
      → position + ((header m file phoff i).vaddr - program_base)
        ≡ (header m file phoff i).offset + a
      → position < file_size
      → FromFile m file file_size phoff n a (m (file + position))
  uncovered :
      ((j : ℕ) → j < n → covers (header m file phoff j) a ≡ false)
      → FromFile m file file_size phoff n a 0

-- No segment that is loaded has an end in the file that wraps round.
abbrev pub NoWrap : Bytes → (file phoff n : ℕ) → Type 0
NoWrap m file phoff n =
    (i : ℕ)
    → i < n
    → (header m file phoff i).kind ≡ 1
    → (header m file phoff i).offset + (header m file phoff i).filesz < 2 ^ 32

module _ (m : Bytes) (file file_size phoff a : ℕ) (low : file + file_size ≤ 2 ^ 32) where
  more-FromFile :
      (n value : ℕ)
      → covers (header m file phoff n) a ≡ false
      → FromFile m file file_size phoff n a value
      → FromFile m file file_size phoff (suc n) a value
  more-FromFile n value off (segment i position l c last is inside) =
      segment i position (omega arith) c
        (λ j b k. elim (Bool-cases (j == n)) [
          | inl same ↦ ap (λ x. covers (header m file phoff x) a) ((==_iff j n).0 same) ∙ off
          | inr other ↦ last j b (ground (arith, k, other))
        ])
        is inside
  more-FromFile n value off (uncovered nothing) = uncovered (λ j k. elim (Bool-cases (j == n)) [
    | inl same ↦ ap (λ x. covers (header m file phoff x) a) ((==_iff j n).0 same) ∙ off
    | inr other ↦ nothing j (ground (arith, k, other))
  ])

  pub last_byte-FromFile :
      (n : ℕ)
      → NoWrap m file phoff n
      → ((j : ℕ)
          → j < n
          → (header m file phoff j).kind ≡ 1
          → outside_file file_size (header m file phoff j) ≡ false)
      → FromFile m file file_size phoff n a (last_byte m file phoff 0 n 0 a)
  unfolding outside_file
  last_byte-FromFile zero wraps checked = uncovered (λ j k. absurd (omega arith))
  last_byte-FromFile (suc n) wraps checked =
      let same : 0 + n ≡ n = omega arith in
      let ph : Elf32ProgramHeader = header m file phoff n in
      let rest =
        last_byte-FromFile n (λ i l. wraps i (omega arith)) (λ j l. checked j (omega arith)) in
      rw same (elim (Bool-cases (covers ph a)) [
        | inr off ↦ rw off (more-FromFile n (last_byte m file phoff 0 n 0 a) off rest)
        | inl on ↦
            let load : ph.kind ≡ 1 = ground (arith, on) in
            let destination : ℕ = ph.vaddr - program_base in
            let low_end : destination ≤ a = ground (arith, on) in
            let high_end : a < destination + ph.filesz = ground (arith, on) in
            let passed = checked n (omega arith) load in
            let fits : ph.offset + ph.filesz ≤ file_size =
              ground (arith, passed, wraps n (omega arith) load) in
            let position : ℕ = ph.offset + (a - destination) in
            let inside : position < file_size = omega arith in
            let flat : (file + ph.offset + (a - destination)) % 2 ^ 32 ≡ file + position =
              omega (arith, low, inside) in
            rw (on, flat)
              (segment n position (omega arith) on (λ j b k. absurd (omega arith)) (omega arith)
                inside)
      ])
