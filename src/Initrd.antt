-- ===== src/Initrd.antt =====
-- The boot archive of kernel/fs/initrd.c: two texts in the kernel image. No pointer is null.
use myos_gui_desktop.Base.{ℕ, zero, suc, ◌+◌, Option, none, some, List, [], ◌∷◌}
use myos_gui_desktop.Base.Tests.{leb, ltb, if◌then◌else◌}
use myos_gui_desktop.Base.Lists.{length, get_or}
use myos_gui_desktop.Base.Int.{pos, eq_ℤ}
use myos_gui_desktop.Strings.{kstrcmp, codes}
mod Tests

pub record InitrdFile : Type 0 where
  pub name : List ℕ
  pub text : List ℕ
  pub size : ℕ

abbrev pub hello_txt : List ℕ
hello_txt =
    codes "Hello from MyOS initrd.\nThis is a tiny read-only filesystem baked into the kernel.\n"

abbrev pub system_txt : List ℕ
system_txt = codes "MyOS subsystems: E820 PMM, heap, PIT timer, keyboard, shell, ATA PIO, initrd.\n"

abbrev pub files : List InitrdFile
files =
    record { name = codes "hello.txt"; text = hello_txt; size = length hello_txt }
    ∷ record { name = codes "system.txt"; text = system_txt; size = length system_txt }
    ∷ []

abbrev no_file : InitrdFile
no_file = record { name = []; text = []; size = 0 }

abbrev pub initrd_file_count : ℕ
initrd_file_count = length files

pub initrd_file_name : ℕ → List ℕ
initrd_file_name index =
    if leb initrd_file_count index then [] else (get_or files index no_file).name

-- The loop of `initrd_read_file`, `n` files from `i` on.
pub read_from : (n i : ℕ) (name : List ℕ) → Option (List ℕ × ℕ)
read_from zero i name = none
read_from (suc n) i name =
    let f = get_or files i no_file in
    let rest = read_from n (i + 1) name in
    if eq_ℤ (kstrcmp name f.name) (pos 0) then some (f.text, f.size) else rest

-- The text and the size.
pub initrd_read_file : (name : List ℕ) → Option (List ℕ × ℕ)
initrd_read_file = read_from initrd_file_count 0
