-- ===== src/Lib.antt =====
-- The verification of MyOS, a 32-bit x86 operating system with a graphical desktop: one kernel
-- image, a boot loader, a file system on an ATA disk, programs in ring 3 and a window system.
--
-- The parts modelled here, and how they interact. At start-up the boot loader leaves the memory map
-- of the BIOS, and the page allocator (kernel/mm/pmm.c) makes a bitmap of it, from which the heap,
-- the page tables and the stacks of tasks get their pages. The scheduler (kernel/sched/scheduler.c)
-- keeps a fixed table of tasks; the timer interrupt calls it, and it answers with the frame of
-- registers that the interrupt returns to. The keyboard and the mouse (kernel/drivers/input) are
-- driven by interrupts, one byte each, and the input layer (kernel/input/input.c) polls both and
-- gives the desktop one stream of events. Paging (kernel/mm/paging.c) gives every process an address
-- space of page tables of its own, whose pages the page allocator hands out; kernel/core/usermode.c
-- keeps the table of processes with the files that each has open, and makes the image of a program
-- from an ELF or MEXE file. The file system (kernel/fs/diskfs) keeps a superblock, 64
-- inodes and a bitmap of sectors in memory, and reads and writes the disk through a cache of eight
-- sectors; the shell and the system calls use it by paths.
--
-- A file of C is a module here, its static variables are the fields of a record, and a function of
-- the source is a function of the same name that takes the record and returns it:
--   Base       numbers, integers, lists, and bitmaps as arrays of words, for all the
--              parts
--   Pmm        kernel/mm/pmm.c and include/myos/pmm.h. Pmm.Valid has the invariant,
--              Pmm.Scan, Pmm.Alloc, Pmm.Clear, Pmm.Free and Pmm.RoundTrip are about
--              allocating and freeing, Pmm.Mark, Pmm.Region and Pmm.Init about start-up.
--   Scheduler  kernel/sched/scheduler.c and include/myos/idt.h. Scheduler.Pick is about
--              the choice of a task, Scheduler.Switch about one switch, Scheduler.Valid
--              and Scheduler.Run about the states that the system reaches,
--              Scheduler.Fair about many switches.
--   Paging     kernel/mm/paging.c and include/myos/paging.h, over Pmm. Paging.Start has
--              paging_initialize, Paging.Words and Paging.Tables are about entries and
--              tables, Paging.Space says what a space translates and when its parts lie
--              apart, Paging.Ensure is about ensure_table, Paging.Map and Paging.Unmap
--              about mapping, Paging.Overlap about the size of address_space.
--   Process    kernel/core/usermode.c, the table of processes, and in
--              Process.Descriptors the files that a process has open. Process.Table is
--              about the table as a list, Process.Slots about new processes,
--              Process.Reads about reads of a file one after the other.
--   Program    the images of programs there: ELF and MEXE files. Program.Copy and
--              Program.Segments are about its loops, Program.Image about the image that is
--              made. Program.Run has run_loaded_image, and Program.Outcome is about its end.
--   Keyboard   kernel/drivers/input/keyboard.c and include/myos/keyboard.h.
--              Keyboard.Buffer has the ring buffers, Keyboard.Events is about the
--              interrupt, Keyboard.Chars about characters.
--   Mouse      kernel/drivers/input/mouse.c. Mouse.Bounds has the invariant and the
--              states that are reached, Mouse.Packet is about packets.
--   Input      kernel/input/input.c, over the two drivers. Input.Owed is about one poll,
--              Input.Drain about many.
--   DiskFs     the sector cache of kernel/fs/diskfs/diskfs.c. DiskFs.View says what a
--              cache and a disk stand for, DiskFs.Slots, DiskFs.Find, DiskFs.Fill and
--              DiskFs.Writeback are about its slots, DiskFs.Get about reads and writes,
--              DiskFs.Working about a disk that does not fail.
--   Strings    lib/libk/runtime.c (user/libc/string.c repeats it): text, memory and the
--              printing of numbers. Strings.Compare is about the comparison,
--              Strings.Bytes about copies.
--   Volume     the tables of kernel/fs/diskfs/diskfs.c: superblock, inodes, bitmap.
--              Volume.Alloc is about the search for free sectors, Volume.Layout says
--              when the tables agree, Volume.Change is about freeing and about new
--              inodes.
--   Paths      the lookup of paths there. Paths.Walk is about the names that a path
--              spells, Paths.Search about one directory, Paths.Kinds, Paths.Short and
--              Paths.Alike about what is found.
--   Files      reading and writing files there, and what goes to the disk with that.
--              Files.Reading and Files.Writing are about the bytes of a file,
--              Files.RoundTrip about both, Files.Settled, Files.Settles and Files.Quiet
--              about the writes of tables.
--   FileOps    write, delete, rename, truncate and read by path there. FileOps.Tables,
--              FileOps.Made, FileOps.Writes, FileOps.Moves and FileOps.Steps are about
--              the tables, FileOps.Changes, FileOps.Lookup, FileOps.WriteRead and
--              FileOps.WriteFile about a file that is written.
--   Mount      diskfs_initialize and diskfs_validate, with the packed structures of the
--              disk.
--   Fsck       diskfs_fsck. Fsck.Loops and Fsck.Covered are about its loops, Fsck.Sound
--              about its result.
--   Initrd     the boot archive, kernel/fs/initrd.c.
-- Each part's module Tests runs it on small inputs.
--
-- Words of 32 bits are natural numbers with `% 2 ^ 32` where the code adds; the coordinates of the
-- mouse are integers. A loop over a range is recursion on its length. The loops that search have fuel:
-- `free_run` gets count + 1 rounds, of which it needs one for each page of a run and one to stop,
-- and `alloc_from` gets one round for each page of the managed memory and one to stop, which is
-- enough because every round goes on by a page at least; the loop of paging_initialize over the
-- frame buffer gets 1024 rounds, since every round starts another of the 1024 directory entries; the loops over a path get one round for
-- each byte and one to stop, since a name takes a byte at least; the loop that reads a file gets
-- one round for each byte, since every round reads one at least.
--
-- `usermode_enter`, which is assembly, is a parameter of Program.Run, and Program.Outcome.IsProgram
-- says what a program in ring 3 leaves alone. The two functions of the disk driver are parameters, and what they promise is the record
-- DiskFs.View.IsDisk, with DiskFs.Working.IsWorking for a disk that does not fail. What a port reads is an argument of the function that reads it: a scancode, a
-- byte or the identity of the mouse. The functions that the scheduler's tasks run are numbers, as
-- are pointers. An interrupt is one step, since the code runs it with interrupts off, and the
-- readers of the buffers turn interrupts off around each read.
--
-- Memory is a function of the address where pointers matter: of 32-bit words in Paging, of bytes in
-- Program. The processor's own copies of the page table entries are left out.
--
-- Not modelled: the heap (kernel/mm/heap.c), the test program of usermode.c, system calls (kernel/core/syscall.c), drawing (kernel/graphics) and the
-- interrupt table (arch/x86); assembly and the boot loader, the port I/O of the drivers and the
-- printing of the shell, which C does not determine; the desktop and its programs, which are C++;
-- generated images and the tools that build and test.
pub mod Base
pub mod Pmm
pub mod Paging
pub mod Scheduler
pub mod Process
pub mod Program
pub mod Keyboard
pub mod Mouse
pub mod Input
pub mod DiskFs
pub mod Strings
pub mod Volume
pub mod Paths
pub mod Files
pub mod FileOps
pub mod Mount
pub mod Fsck
pub mod Initrd
