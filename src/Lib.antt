-- ===== src/Lib.antt =====
-- The aidos operating system: its bootloader (src/bootloader/stage2) and its kernel (src/kernel).
--
-- The bootloader starts the console, reads the kernel's file from a FAT12 disk and jumps into it; the
-- kernel takes over the page tables and maps memory as it needs it. Each part is modelled by the
-- functions of its C++ files, under the names of the source.
--
-- - Common: the names that all files share: lists and tests over the native numbers, words with their
--   wrap, and lemmas that read masks and shifts as remainders and quotients.
-- - Str: `strchr`, `strlen` and `toupper` of src/bootloader/stage2/string.hpp, on lists of bytes.
-- - Mem: `memcmp`, `memcpy` and `memset` of the two memory.hpp. A memory is a function from cell
--   numbers to their content.
-- - Heap: `kmalloc` and the operators of the two memory.cpp. Heap/Laws is about one call, Heap/Blocks
--   about a run of them.
-- - Paging: src/kernel/memory.cpp. The state `Kernel` holds the memory, the heap and the statics; a
--   step is a function from a state to a result with a new state, or to none for a page fault.
--   Paging/Mmu is the abstract view, the walk that the processor makes from the PML4 of the kernel;
--   Paging/Tree is the invariant, that the tables are a tree; Create, Map, Unmap and Lookup relate the
--   functions to the walk, through the lemmas of Grows, Entry, Walk, Way, Link, Leaf and Range. Paging/Directory
--   is about the entries of 2 MiB, for `map_2m` in Paging/Large and `unmap_2m` in Paging/Unmap/Regions.
--   Paging/Clone is
--   `setup_paging`, whose three nested loops are one function of what is done inside; Clone/Frame says
--   which cells a loop can write. Clone/Copy says when a table stands for an old one, Clone/Takeover what a loop
--   starts from and leaves, Clone/Entry is about the copy of one table, Clone/Walks and Clone/Forest about what a copied table does for the processor and
--   for the tree, Clone/Rounds and Clone/Loop about the loops, and Clone/Upper about the whole.
-- - Io: the port accesses of src/bootloader/stage2/x86/io.hpp, as a history. The devices are a
--   parameter.
-- - Vga: the console of src/bootloader/stage2/dev/io/text/vga/vga.cpp.
-- - Stdio: `printf` of src/bootloader/stage2/stdio.cpp and the class that it writes to, over any device.
--   Stdio/Digits reads the digits back, Stdio/Laws is about a whole format, and Stdio/Console about the
--   console of Vga.
-- - Boot: the page tables of src/bootloader/stage2/memory.cpp. A state of the bootloader is one of the
--   kernel with memory mapped to itself (Boot/Same), by which Boot/Map has the theorem of Paging/Map and
--   Boot/Large one about `map_2m`;
--   Boot/Setup, Boot/Entries and Boot/Identity are about `setup_paging`.
-- - Ata: the disk driver of src/bootloader/stage2/dev/io/disk/ata.cpp, over the history of Io. Ata/Wait is
--   about its polls, Ata/Read about the sectors read, on a disk that keeps to the protocol IsDisk of Ata/Protocol,
--   Ata/Identify about `initialize`, and Ata/Bounds counts the port accesses.
-- - Fat: the file system of src/bootloader/stage2/dev/io/fs/fat. Fat/Cluster is the chain of clusters,
--   Fat/Name the names of directory entries, Fat/Read the reads and seeks, with the volume and its files
--   that `read` is about in Fat/Read/Volume, Fat/Entry the search and the opening of an entry, Fat/Open the paths, with
--   Fat/Entry/Find and Fat/Entry/Missed on the search of the root directory and Fat/Open/Recovery on the
--   paths that are refused, and Fat/Mount `detect`, `initialize` and
--   `detectAndMount`. The disk is a parameter, a function from a read to its outcome.
-- - Elf: src/bootloader/stage2/elf.cpp. The open file is a parameter, with the law IsFile that a seek and a
--   read give its bytes. Elf/Bytes reads the structs, Elf/Segment is about one program header, Elf/Table
--   puts several together for the loop of Elf/Loop, and Elf/Laws is about the whole file. Elf/Volume has the law for a file of Fat,
--   by Fat/Read/Kept, and Elf/Opened puts `open` and `readElf` together.
-- - Main: src/bootloader/stage2/Main.cpp, on the functions of Boot, Vga, Ata, Fat, Elf and Stdio. The calls of
--   `map_4k` and `map_2m` that Elf keeps in a list are made there.
-- - KernelMain: src/kernel/kernel.cpp, which calls `setup_paging` and the constructor of ACPI; KernelMain/Laws
--   puts the theorems about the two together.
-- - Acpi: src/kernel/dev/acpi, with the bytes that the firmware left as a parameter.
--
-- The disk that Fat is given answers from its arguments alone; Ata is not plugged into it, as its reads
-- depend on the history and fail behind 28 bits.
--
-- Loops recur on the rounds that are left where the source counts them. Elsewhere a bound is given:
-- `read` has as many rounds as bytes, as each round takes one; `seek` has one more round than the
-- position, as each round goes over a cluster that is not empty; `open` has as many as the path has
-- bytes. The search of a directory has no bound in the source, as its chain of clusters can be a
-- circle; there the rounds are an argument, and running out of them is an outcome of its own.
--
-- Memory that the source reads behind an array is modelled where the layout of the struct tells what
-- stands there (the FAT cache); a name that is too long and a null pointer that is read through are
-- outcomes of their own. The messages that the drivers print are left out. The kernel's `setup_paging` reads
-- the old tables at their physical addresses: its model has no page fault there, and the theorem about
-- what it hands over asks that each of the old tables is mapped to itself.
--
-- Not modelled: the assembly, the linker scripts and the build.
pub mod Common
pub mod Str
pub mod Mem
pub mod Heap
pub mod Paging
pub mod Io
pub mod Vga
pub mod Fat
pub mod Acpi
pub mod Ata
pub mod Boot
pub mod Elf
pub mod Main
pub mod KernelMain
pub mod Stdio
