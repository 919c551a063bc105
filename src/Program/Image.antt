-- ===== src/Program/Image.antt =====
-- The image that `run_elf_program` makes of a file: where it writes, and what.
use myos_gui_desktop.Base.{
  ℕ, ◌*◌, ◌^◌, sym, subst, ◌+◌, ◌≤◌, ◌<◌, ◌≡◌, refl, ap, ◌∙◌, Bool, true, false, not, Option, none,
  some, arith,
}
use myos_gui_desktop.Base.Tests.{ltb, if◌then◌else◌}
use myos_gui_desktop.Base.Int.{ℤ, negsuc}
use myos_gui_desktop.Program.{
  outside_file, program_header_size, Bytes, program_base, image_size, elf_header_size, Elf32Header,
  elf_header_at, Launch, refused, launched, clear_image, load_segments, has_elf_magic, wrong_kind,
  wrong_headers, wrong_entry, run_elf_program,
}
use myos_gui_desktop.Program.Segments.{
  header, FromFile, NoWrap, last_byte-FromFile, last_byte, Loaded, load_segments-Loaded,
}
use myos_gui_desktop.Program.Copy.{among, clear_image-at}

-- The image and the entry of a program that is started.
abbrev pub is_launched : Launch → Bool
is_launched (refused code) = false
is_launched (launched entry image size) = true

abbrev pub launched_image : Launch → ℕ → ℕ
launched_image (refused code) a = 0
launched_image (launched entry image size) a = image a

abbrev pub launched_entry : Launch → ℕ
launched_entry (refused code) = 0
launched_entry (launched entry image size) = entry

module _ (m : Bytes) (bytes : (b : ℕ) → m b < 256) (file file_size : ℕ) (image : ℕ → ℕ) where
  abbrev cleared : ℕ → ℕ
  cleared = clear_image image_size 0 image

  segments :
      Loaded m file file_size (elf_header_at m file).phoff (elf_header_at m file).phnum 0 cleared (
        load_segments m file file_size
          (elf_header_at m file).phoff
          (elf_header_at m file).phnum
          0
          false
          cleared)
  segments =
      load_segments-Loaded m bytes file file_size (elf_header_at m file).phoff
        (elf_header_at m file).phnum 0 false cleared

  record Ran (out : Launch × (ℕ → ℕ)) : Type 0 where
    outside : (a : ℕ) → image_size ≤ a → out.1 a ≡ image a
    low : is_launched out.0 ≡ true → program_base ≤ launched_entry out.0
    high : is_launched out.0 ≡ true → launched_entry out.0 < program_base + image_size
    bytes_are :
        is_launched out.0 ≡ true
        → (a : ℕ) → a < image_size
        → launched_image out.0 a
          ≡ last_byte m file (elf_header_at m file).phoff 0 (elf_header_at m file).phnum 0 a
    checked :
        is_launched out.0 ≡ true
        → (j : ℕ) → j < (elf_header_at m file).phnum
        → (header m file (elf_header_at m file).phoff j).kind ≡ 1
        → outside_file file_size (header m file (elf_header_at m file).phoff j) ≡ false
    table : is_launched out.0 ≡ true → wrong_headers file_size (elf_header_at m file) ≡ false

  refused-Ran :
      (code : ℤ) (left : ℕ → ℕ)
      → ((a : ℕ) → image_size ≤ a → left a ≡ image a)
      → Ran (refused code, left)
  refused-Ran code left h = record {
    outside = h;
    low = λ launch. absurd (ground (arith, launch));
    high = λ launch. absurd (ground (arith, launch));
    bytes_are = λ launch. absurd (ground (arith, launch));
    checked = λ launch. absurd (ground (arith, launch));
    table = λ launch. absurd (ground (arith, launch));
  }

  -- A check that refuses before anything is written.
  guard-Ran :
      (b : Bool) (code : ℤ) (rest : Launch × (ℕ → ℕ))
      → (b ≡ false → Ran rest)
      → Ran (if b then (refused code, image) else rest)
  guard-Ran true code rest h = refused-Ran code image (λ a l. refl)
  guard-Ran false code rest h = h refl

  cleared_outside : (a : ℕ) → image_size ≤ a → cleared a ≡ image a
  cleared_outside a l =
      let off : among 0 image_size a ≡ false = ground (arith, l) in
      clear_image-at image_size 0 image a ∙ ap (λ b. if b then 0 else image a) off

  cleared_inside : (a : ℕ) → a < image_size → cleared a ≡ 0
  cleared_inside a l =
      let on : among 0 image_size a ≡ true = ground (arith, l) in
      clear_image-at image_size 0 image a ∙ ap (λ b. if b then 0 else image a) on

  abbrev finished : Option ℤ × Bool × (ℕ → ℕ) → Launch × (ℕ → ℕ)
  finished out = elim (out.0) [
    | some result ↦ (refused result, out.2)
    | none ↦
        if not out.1
        then (refused (negsuc 35), out.2)
        else (launched (elf_header_at m file).entry out.2 image_size, out.2)
  ]

  finished-Ran :
      (out : Option ℤ × Bool × (ℕ → ℕ))
      → wrong_headers file_size (elf_header_at m file) ≡ false
      → wrong_entry (elf_header_at m file) ≡ false
      → Loaded m file file_size
          (elf_header_at m file).phoff
          (elf_header_at m file).phnum
          0
          cleared
          out
      → Ran (finished out)
  unfolding wrong_entry
  finished-Ran (some code, loaded, filled) t e h =
      refused-Ran code filled (λ a l. h.outside a l ∙ cleared_outside a l)
  finished-Ran (none, false, filled) t e h =
      refused-Ran (negsuc 35) filled (λ a l. h.outside a l ∙ cleared_outside a l)
  finished-Ran (none, true, filled) t e h = record {
    outside = λ a l. h.outside a l ∙ cleared_outside a l;
    low = λ launch. ground (arith, e);
    high = λ launch. ground (arith, e);
    bytes_are = λ launch a l.
        h.bytes refl a
        ∙ ap (λ x. last_byte m file (elf_header_at m file).phoff 0 (elf_header_at m file).phnum x a)
            (cleared_inside a l);
    checked = λ launch j l k. h.checked refl j (omega arith) (omega arith) k;
    table = λ launch. t;
  }

  run_elf_program-Ran : Ran (run_elf_program m file file_size image)
  unfolding run_elf_program
  run_elf_program-Ran =
      let elf : Elf32Header = elf_header_at m file in
      let out = load_segments m file file_size elf.phoff elf.phnum 0 false cleared in
      let last = if wrong_entry elf then (refused (negsuc 36), image) else finished out in
      let third = if wrong_headers file_size elf then (refused (negsuc 32), image) else last in
      let second = if wrong_kind m file elf then (refused (negsuc 31), image) else third in
      let first = if not (has_elf_magic m file) then (refused (negsuc 30), image) else second in
      guard-Ran (ltb file_size elf_header_size) (negsuc 29) first (λ h.
        guard-Ran (not (has_elf_magic m file)) (negsuc 30) second (λ h.
          guard-Ran (wrong_kind m file elf) (negsuc 31) third (λ h.
            guard-Ran (wrong_headers file_size elf) (negsuc 32) last (λ t.
              guard-Ran (wrong_entry elf) (negsuc 36) (finished out)
                (λ e. finished-Ran out t e segments)))))

  -- Whatever bytes the file has, run_elf_program writes only inside load_image.
  pub run_elf_program-inside :
      (a : ℕ) → image_size ≤ a → (run_elf_program m file file_size image).1 a ≡ image a
  run_elf_program-inside = run_elf_program-Ran.outside

  -- If run_elf_program starts a program from a file that lies below 2^32, whose program headers and
  -- whose segments to be loaded do not run past 2^32 as offsets: the program headers lie in the file, the
  -- entry lies in the image, and every byte of the image is the one that the last segment over it has
  -- at that place of the file, or 0 if there is no segment over it.
  pub run_elf_program-FromFile :
      file + file_size ≤ 2 ^ 32
      → (elf_header_at m file).phoff + (elf_header_at m file).phnum * program_header_size < 2 ^ 32
      → NoWrap m file (elf_header_at m file).phoff (elf_header_at m file).phnum
      → is_launched (run_elf_program m file file_size image).0 ≡ true
      → ((elf_header_at m file).phoff + (elf_header_at m file).phnum * program_header_size
          ≤ file_size)
        × (program_base ≤ launched_entry (run_elf_program m file file_size image).0)
        × (launched_entry (run_elf_program m file file_size image).0 < program_base + image_size)
        × ((a : ℕ)
            → a < image_size
            → FromFile m file file_size
                (elf_header_at m file).phoff
                (elf_header_at m file).phnum
                a
                (launched_image (run_elf_program m file file_size image).0 a))
  unfolding wrong_headers
  run_elf_program-FromFile low table wraps launch =
      let elf : Elf32Header = elf_header_at m file in
      (
        ground (arith, run_elf_program-Ran.table launch, table),
        run_elf_program-Ran.low launch,
        run_elf_program-Ran.high launch,
        λ a l.
            subst (FromFile m file file_size elf.phoff elf.phnum a)
              (sym (run_elf_program-Ran.bytes_are launch a l))
              (last_byte-FromFile m file file_size elf.phoff a low elf.phnum wraps
                (run_elf_program-Ran.checked launch)),
      )
