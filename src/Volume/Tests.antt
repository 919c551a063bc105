-- ===== src/Volume/Tests.antt =====
-- The allocation of sectors on a small volume.
use myos_gui_desktop.Base.{◌≡◌, refl, [], ◌∷◌, none, some, arith}
use myos_gui_desktop.Base.Bitmap.{test_bit}
use myos_gui_desktop.Volume.{Space, zero_inode, alloc_contiguous, find_run, bitmap_get}
use myos_gui_desktop.Volume.Alloc.{Allocated, alloc_contiguous-Allocated}

-- Sixteen sectors, of which the first two and sector 5 are taken.
small : Space
small = record {
  superblock = record {
    magic = 0;
    total = 16;
    inode_limit = 64;
    inode_count = 1;
    bitmap_start = 2;
    bitmap_sectors = 1;
    inode_start = 3;
    inode_sectors = 8;
    data_start = 2;
    journal_state = 0;
  };
  inodes = zero_inode ∷ [];
  bitmap = 0x23 ∷ 0 ∷ [];
}

two : (alloc_contiguous 2 small).0 ≡ some 2
unfolding small alloc_contiguous find_run bitmap_get test_bit
two = refl

four : (alloc_contiguous 4 small).0 ≡ some 6
unfolding small alloc_contiguous find_run bitmap_get test_bit
four = refl

eleven : (alloc_contiguous 11 small).0 ≡ none
unfolding small alloc_contiguous find_run bitmap_get test_bit
eleven = refl

alloc_contiguous-Allocated_example : Allocated 4 small (alloc_contiguous 4 small)
unfolding small
alloc_contiguous-Allocated_example = alloc_contiguous-Allocated 4 small (omega arith) (omega arith)
