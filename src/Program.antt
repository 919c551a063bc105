-- ===== src/Program.antt =====
-- Program images of kernel/core/usermode.c: the checks on an ELF or MEXE file and the image that is
-- made of it. Memory is bytes by their 32-bit address, and `load_image` is a function of the index.
pub mod Copy
pub mod Segments
pub mod Image
pub mod Run
pub mod Outcome
mod Tests
use myos_gui_desktop.Base.{
  ℕ, zero, suc, ◌+◌, ◌-◌, ◌*◌, ◌/◌, ◌%◌, ◌^◌, Bool, true, false, not, ◌&&◌, ◌||◌, Option, none,
  some, List, [], ◌∷◌, map,
}
use myos_gui_desktop.Base.Tests.{ltb, leb, ◌==◌, if◌then◌else◌}
use myos_gui_desktop.Base.Int.{ℤ, pos, negsuc}

abbrev pub program_base : ℕ
program_base = 0x0040_0000

-- `USER_IMAGE_PAGES * PAGE_SIZE`.
abbrev pub image_size : ℕ
image_size = 65536

-- `sizeof(struct user_exec_header)`, `sizeof(struct elf32_header)` and the size of a program header.
abbrev pub exec_header_size : ℕ
exec_header_size = 16

abbrev pub elf_header_size : ℕ
elf_header_size = 52

abbrev pub program_header_size : ℕ
program_header_size = 32

abbrev pub Bytes : Type 0
Bytes = ℕ → ℕ

-- Words of 16 and 32 bits, the lowest byte first.
unfoldable pub read16 : Bytes → ℕ → ℕ
read16 m a = m (a % 2 ^ 32) + 0x100 * m ((a + 1) % 2 ^ 32)

unfoldable pub read32 : Bytes → ℕ → ℕ
read32 m a = read16 m a + 0x1_0000 * read16 m (a + 2)

pub record UserExecHeader : Type 0 where
  pub magic : ℕ
  pub entry_offset : ℕ
  pub size : ℕ
  pub reserved : ℕ

-- The field `type` is `kind` here and below, and `size` above is `image_size`.
pub record Elf32Header : Type 0 where
  pub ident : List ℕ
  pub kind : ℕ
  pub machine : ℕ
  pub version : ℕ
  pub entry : ℕ
  pub phoff : ℕ
  pub shoff : ℕ
  pub flags : ℕ
  pub ehsize : ℕ
  pub phentsize : ℕ
  pub phnum : ℕ
  pub shentsize : ℕ
  pub shnum : ℕ
  pub shstrndx : ℕ

pub record Elf32ProgramHeader : Type 0 where
  pub kind : ℕ
  pub offset : ℕ
  pub vaddr : ℕ
  pub paddr : ℕ
  pub filesz : ℕ
  pub memsz : ℕ
  pub flags : ℕ
  pub align : ℕ

-- The structures at an address.
unfoldable pub exec_header_at : Bytes → ℕ → UserExecHeader
exec_header_at m a = record {
  magic = read32 m a;
  entry_offset = read32 m (a + 4);
  size = read32 m (a + 8);
  reserved = read32 m (a + 12);
}

unfoldable pub elf_header_at : Bytes → ℕ → Elf32Header
elf_header_at m a = record {
  ident =
      map (λ i. m ((a + i) % 2 ^ 32))
        (0 ∷ 1 ∷ 2 ∷ 3 ∷ 4 ∷ 5 ∷ 6 ∷ 7 ∷ 8 ∷ 9 ∷ 10 ∷ 11 ∷ 12 ∷ 13 ∷ 14 ∷ 15 ∷ []);
  kind = read16 m (a + 16);
  machine = read16 m (a + 18);
  version = read32 m (a + 20);
  entry = read32 m (a + 24);
  phoff = read32 m (a + 28);
  shoff = read32 m (a + 32);
  flags = read32 m (a + 36);
  ehsize = read16 m (a + 40);
  phentsize = read16 m (a + 42);
  phnum = read16 m (a + 44);
  shentsize = read16 m (a + 46);
  shnum = read16 m (a + 48);
  shstrndx = read16 m (a + 50);
}

unfoldable pub program_header_at : Bytes → ℕ → Elf32ProgramHeader
program_header_at m a = record {
  kind = read32 m a;
  offset = read32 m (a + 4);
  vaddr = read32 m (a + 8);
  paddr = read32 m (a + 12);
  filesz = read32 m (a + 16);
  memsz = read32 m (a + 20);
  flags = read32 m (a + 24);
  align = read32 m (a + 28);
}

-- What is handed to `run_loaded_image`, or the code that is returned.
pub data Launch : Type 0 where
  refused : ℤ → Launch
  launched : (entry : ℕ) → (image : ℕ → ℕ) → (size : ℕ) → Launch

abbrev pub store : ℕ → ℕ → (ℕ → ℕ) → ℕ → ℕ
store i value image a = if a == i then value else image a

-- The loop that clears `load_image`, `n` bytes from `i` on.
unfoldable pub clear_image : (n i : ℕ) → (ℕ → ℕ) → ℕ → ℕ
clear_image zero i image = image
clear_image (suc n) i image = clear_image n (i + 1) (store i 0 image)

-- The loop over the bytes of a segment, `n` of them from `j` on; `source` is the address in the file.
unfoldable pub copy_segment : Bytes → (n j destination source : ℕ) → (ℕ → ℕ) → ℕ → ℕ
copy_segment m zero j destination source image = image
copy_segment m (suc n) j destination source image =
    copy_segment m n (j + 1) destination source
      (store (destination + j) (m ((source + j) % 2 ^ 32)) image)

-- The conditions of -34 and -35.
unfoldable pub outside_image : Elf32ProgramHeader → Bool
outside_image ph =
    ltb ph.vaddr program_base
    || ltb ((ph.vaddr + ph.memsz) % 2 ^ 32) ph.vaddr
    || ltb (program_base + image_size) ((ph.vaddr + ph.memsz) % 2 ^ 32)

unfoldable pub outside_file : (file_size : ℕ) → Elf32ProgramHeader → Bool
outside_file file_size ph =
    ltb file_size ((ph.offset + ph.filesz) % 2 ^ 32) || ltb ph.memsz ph.filesz

-- The loop over the program headers, `n` of them from `i` on: the code if it returns, `loaded` and
-- `load_image`. The memory that is read stays as it is, which is so while the reads stay in the file:
-- `load_image` is another array. A read that wraps round may meet what was written; that is not modelled.
unfoldable pub load_segments :
    Bytes → (file file_size phoff n i : ℕ) → (loaded : Bool) → (ℕ → ℕ) → Option ℤ × Bool × (ℕ → ℕ)
load_segments m file file_size phoff zero i loaded image = (none, loaded, image)
load_segments m file file_size phoff (suc n) i loaded image =
    let ph = program_header_at m (file + phoff + i * program_header_size) in
    let destination = ph.vaddr - program_base in
    let skipped = load_segments m file file_size phoff n (i + 1) loaded image in
    let next =
      load_segments m file file_size phoff n (i + 1) true
        (copy_segment m ph.filesz 0 destination (file + ph.offset) image) in
    if not (ph.kind == 1)
    then skipped
    else if outside_image ph
    then (some (negsuc 33), loaded, image)
    else if outside_file file_size ph
    then (some (negsuc 34), loaded, image)
    else next

-- The magic bytes at the start of a file.
unfoldable pub has_elf_magic : Bytes → ℕ → Bool
has_elf_magic m file =
    (m (file % 2 ^ 32) == 0x7f)
    && (m ((file + 1) % 2 ^ 32) == b'E')
    && (m ((file + 2) % 2 ^ 32) == b'L')
    && (m ((file + 3) % 2 ^ 32) == b'F')

-- The conditions of -32, -33 and -37.
unfoldable pub wrong_kind : Bytes → ℕ → Elf32Header → Bool
wrong_kind m file elf =
    not (m ((file + 4) % 2 ^ 32) == 1)
    || not (m ((file + 5) % 2 ^ 32) == 1)
    || not (elf.kind == 2)
    || not (elf.machine == 3)
    || not (elf.version == 1)
    || not (elf.phentsize == program_header_size)

unfoldable pub wrong_headers : (file_size : ℕ) → Elf32Header → Bool
wrong_headers file_size elf =
    (elf.phnum == 0) || ltb file_size ((elf.phoff + elf.phnum * program_header_size) % 2 ^ 32)

unfoldable pub wrong_entry : Elf32Header → Bool
wrong_entry elf = ltb elf.entry program_base || leb (program_base + image_size) elf.entry

-- What goes on to `run_loaded_image`, with `load_image` afterwards.
unfoldable pub run_elf_program : Bytes → (file file_size : ℕ) → (ℕ → ℕ) → Launch × (ℕ → ℕ)
run_elf_program m file file_size image =
    let elf = elf_header_at m file in
    let (code, loaded, filled) =
      load_segments m file file_size elf.phoff elf.phnum 0 false (clear_image image_size 0 image) in
    if ltb file_size elf_header_size
    then (refused (negsuc 29), image)
    else if not (has_elf_magic m file)
    then (refused (negsuc 30), image)
    else if wrong_kind m file elf
    then (refused (negsuc 31), image)
    else if wrong_headers file_size elf
    then (refused (negsuc 32), image)
    else if wrong_entry elf
    then (refused (negsuc 36), image)
    else elim code [
      | some result ↦ (refused result, filled)
      | none ↦
          if not loaded
          then (refused (negsuc 35), filled)
          else (launched elf.entry filled image_size, filled)
    ]

unfoldable pub run_mexe_program : Bytes → (file file_size : ℕ) → Launch
run_mexe_program m file file_size =
    let header = exec_header_at m file in
    if ltb file_size exec_header_size
    then refused (negsuc 9)
    else if not (header.magic == 0x4558_454d)
        || leb header.size header.entry_offset
        || ltb image_size header.size
    then refused (negsuc 10)
    else if ltb file_size ((exec_header_size + header.size) % 2 ^ 32)
    then refused (negsuc 11)
    else launched (program_base + header.entry_offset)
        (λ i. m ((file + exec_header_size + i) % 2 ^ 32)) header.size

-- `file` and `file_size` are what `diskfs_read_file` gives: the address, which is 0 for no file, and the
-- number of bytes.
unfoldable pub usermode_run_program : Bytes → (file file_size : ℕ) → (ℕ → ℕ) → Launch × (ℕ → ℕ)
usermode_run_program m file file_size image =
    if (file == 0) || ltb file_size 4
    then (refused (negsuc 9), image)
    else if has_elf_magic m file
    then run_elf_program m file file_size image
    else (run_mexe_program m file file_size, image)
