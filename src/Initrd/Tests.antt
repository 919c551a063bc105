-- ===== src/Initrd/Tests.antt =====
-- Lookups by name and by number.
use myos_gui_desktop.Base.{◌≡◌, refl, []}
use myos_gui_desktop.Strings.{codes}
use myos_gui_desktop.Initrd.{initrd_file_name}

second_name : initrd_file_name 1 ≡ codes "system.txt"
unfolding initrd_file_name
second_name = refl

third_name : initrd_file_name 2 ≡ []
unfolding initrd_file_name
third_name = refl
