-- ===== src/Program/Tests.antt =====
-- A program of three bytes in an ELF file of 87, and the theorems there.
use myos_gui_desktop.Base.{
  zero, suc, ◌*◌, ℕ, ◌+◌, ◌-◌, ◌/◌, ◌%◌, ◌&&◌, ◌^◌, ◌≤◌, ◌<◌, ◌≡◌, refl, true, List, [], ◌∷◌, ◌++◌,
  arith,
}
use myos_gui_desktop.Base.Tests.{ltb, ◌==◌, if◌then◌else◌}
use myos_gui_desktop.Base.Lists.{get_or}
use myos_gui_desktop.Program.{
  program_header_size, Bytes, read16, read32, elf_header_at, program_header_at, load_segments,
  outside_image, outside_file, has_elf_magic, wrong_kind, wrong_headers, wrong_entry,
  run_elf_program, program_base, image_size,
}
use myos_gui_desktop.Base.Lists.{replicate, length-replicate}
use myos_gui_desktop.Base.Int.{ℤ, pos}
use myos_gui_desktop.Strings.{codes}
use myos_gui_desktop.Paging.{Statics}
use myos_gui_desktop.Process.{no_processes, empty_process}
use myos_gui_desktop.Program.Run.{Machine, run_loaded_image}
use myos_gui_desktop.Program.Outcome.{Outcome, run_loaded_image-Outcome}
use myos_gui_desktop.Program.Segments.{last_byte, FromFile, NoWrap}
use myos_gui_desktop.Program.Image.{
  is_launched, launched_image, launched_entry, run_elf_program-inside, run_elf_program-FromFile,
}

abbrev le32 : ℕ → List ℕ
le32 x = x % 256 ∷ (x / 256) % 256 ∷ (x / 65536) % 256 ∷ (x / 2 ^ 24) % 256 ∷ []

abbrev elf_file : List ℕ
elf_file =
    (0x7f ∷ b'E' ∷ b'L' ∷ b'F' ∷ 1 ∷ 1 ∷ 1 ∷ 0 ∷ 0 ∷ 0 ∷ 0 ∷ 0 ∷ 0 ∷ 0 ∷ 0 ∷ 0 ∷ [])
    ++ (2 ∷ 0 ∷ 3 ∷ 0 ∷ [])
    ++ le32 1
    ++ le32 0x40_0010
    ++ le32 52
    ++ le32 0
    ++ le32 0
    ++ (52 ∷ 0 ∷ 32 ∷ 0 ∷ 1 ∷ 0 ∷ 0 ∷ 0 ∷ 0 ∷ 0 ∷ 0 ∷ 0 ∷ [])
    ++ le32 1
    ++ le32 84
    ++ le32 0x40_0010
    ++ le32 0
    ++ le32 3
    ++ le32 16
    ++ le32 5
    ++ le32 4096
    ++ (0xeb ∷ 0xfe ∷ 0x90 ∷ [])

abbrev memory : Bytes
memory a = get_or elf_file (a - 0x10_0000) 0 % 256

memory-lt : (b : ℕ) → memory b < 256
memory-lt b = omega arith

elf_starts : is_launched (run_elf_program memory 0x10_0000 87 (λ a. 7)).0 ≡ true
unfolding run_elf_program load_segments read16 read32 elf_header_at program_header_at outside_image
    outside_file has_elf_magic wrong_kind wrong_headers wrong_entry
elf_starts = refl

run_elf_program-inside_example : (run_elf_program memory 0x10_0000 87 (λ a. 7)).1 0x1_0000 ≡ 7
run_elf_program-inside_example =
    run_elf_program-inside memory memory-lt 0x10_0000 87 (λ a. 7) 0x1_0000 (omega arith)

memory-NoWrap :
    NoWrap memory 0x10_0000
      (elf_header_at memory 0x10_0000).phoff
      (elf_header_at memory 0x10_0000).phnum
unfolding read16 read32 elf_header_at program_header_at
memory-NoWrap zero l k = omega arith
memory-NoWrap (suc i) l k = absurd (omega arith)

headers_low :
    (elf_header_at memory 0x10_0000).phoff + (elf_header_at memory 0x10_0000).phnum * 32 < 2 ^ 32
unfolding read16 read32 elf_header_at
headers_low = omega arith

run_elf_program-FromFile_example :
    ((elf_header_at memory 0x10_0000).phoff
        + (elf_header_at memory 0x10_0000).phnum * program_header_size
      ≤ 87)
    × (program_base ≤ launched_entry (run_elf_program memory 0x10_0000 87 (λ a. 7)).0)
    × (launched_entry (run_elf_program memory 0x10_0000 87 (λ a. 7)).0 < program_base + image_size)
    × ((a : ℕ)
        → a < image_size
        → FromFile memory 0x10_0000 87
            (elf_header_at memory 0x10_0000).phoff
            (elf_header_at memory 0x10_0000).phnum
            a
            (launched_image (run_elf_program memory 0x10_0000 87 (λ a. 7)).0 a))
run_elf_program-FromFile_example =
    run_elf_program-FromFile memory memory-lt 0x10_0000 87 (λ a. 7) (omega arith) headers_low
      memory-NoWrap elf_starts

second_byte :
    last_byte memory 0x10_0000
      (elf_header_at memory 0x10_0000).phoff
      0
      (elf_header_at memory 0x10_0000).phnum
      0
      17
    ≡ 0xfe
unfolding read16 read32 elf_header_at program_header_at
second_byte = refl

-- The same file, with a segment that starts two bytes in front of the file and is taken all the same:
-- the sum of its offset and its size wraps round to 1.
abbrev wrapped : Bytes
wrapped a =
    if a == 0x10_0038 then 0xfe else if ltb 0x10_0038 a && ltb a 0x10_003c then 0xff else memory a

wrapped_starts : is_launched (run_elf_program wrapped 0x10_0000 87 (λ a. 7)).0 ≡ true
unfolding run_elf_program load_segments read16 read32 elf_header_at program_header_at outside_image
    outside_file has_elf_magic wrong_kind wrong_headers wrong_entry
wrapped_starts = refl

-- 48 free pages, no process, and a program that exits at once.
abbrev machine : Machine
machine = record {
  paging = record {
    memory = λ a. 0;
    current_space = 0x40_0000;
    boot_framebuffer_physical = 0;
    boot_framebuffer_size = 0;
    cr0 = 0;
    cr3 = 0x1000;
    pmm = record {
      page_bitmap = replicate 1024 0;
      managed_start = 0x1_0000;
      managed_end = 0x4_0000;
      total_pages_count = 48;
      used_pages_count = 0;
      e820_entry_count = 0;
    };
  };
  processes = no_processes;
}

abbrev statics : Statics
statics = record {
  kernel_page_directory = 0x1000;
  identity_page_tables = 0x20_0000;
  framebuffer_page_tables = 0x30_0000;
  kernel_space = 0x40_0000;
}

abbrev exits : (entry stack : ℕ) → Machine → ℤ × Machine
exits entry stack w = (pos 42, w)

run_loaded_image-Outcome_example :
    Outcome exits
      (codes "hello")
      0x40_0010
      machine.processes
      (run_loaded_image statics exits (codes "hello") 0x40_0010 (λ i. 0x90) 3 machine)
run_loaded_image-Outcome_example =
    run_loaded_image-Outcome statics
      (record { current = λ entry stack w. refl; places = λ entry stack w. refl }) (codes "hello")
      0x40_0010 (λ i. 0x90) 3 machine (length-replicate 8 empty_process)
