-- ===== src/Lib.antt =====
-- Verification of SumiOS, a small x86-64 kernel.
--
-- The kernel comes up in two stages. The boot stage (code/arch/x86/boot) sets up a screen, finds the
-- size of memory, and builds the first page table from a linear allocator. The kernel proper takes
-- both over: code/mm/mm_init.c reads the memory map, maps memory and the array of struct pages with a
-- linear allocator of its own, and releases the pages that are left to the buddy allocator
-- (code/mm/page_alloc.c), on top of which the slub allocator (code/mm/slub.c) serves small objects.
-- All lists are the circular ones of code/include/sumios/list.h, and the allocators hold the spin lock
-- of code/include/sumios/lock.h while they work. Messages go through code/lib/print.c to the screen
-- and the ports of code/arch/x86/tty.c.
--
-- Which file is about which code; functions and fields keep their names, less leading underscores:
--   Base       numbers, lists, 64-bit arithmetic and the tests shared by all
--   Links      code/include/sumios/list.h: both links of every node, by address; a list is a ring
--              through a head, and its view is the list of its nodes (Links/Ring)
--   Lock       code/include/sumios/lock.h and atomic.h; Lock/Threads has any number of threads whose
--              compare-and-swaps interleave in any order, and Lock/Progress the end of their loops
--   Layout     code/include/mm/layout.h, page_types.h, page_table.h, page.h and sumios/align.h
--   PageTable  code/mm/pgtable.c: the walk (`mm_pgtable_get_va_pte`), and the mapping of a page
--              (`map_page`) for any allocator of pages. PageTable/Walk has the walk by recursion,
--              Tree the tables as a tree, Grow and Descend one level of the mapping and the interface
--              of an allocator, Frame, Leaf and Write what the walks of other addresses see of a
--              change, Map and Near the mapping of a page,
--              Range that of a row of pages, and Clear an entry of the root that is taken away
--   PageMap    code/mm/pgtable.c: `mm_pgtable_map`, which is `map_page` with the buddy allocator
--   PageAlloc  code/mm/page_alloc.c: `Zone` is its state. The view is a list of blocks for each order
--              and a set of held addresses, all apart (PageAlloc/Blocks, PageAlloc/Rep);
--              PageAlloc/Row is what the release of pages one after the other builds
--   Slub       code/mm/slub.c: `Slubs` is a zone and the ten caches. Slub/Heap is what the caches own
--              together while no slub is partial, as the code leaves them: no function of it puts a
--              slub on a partial list. Heap/Pop and Supply are an object from a cache and from a new
--              slub, Client what a caller of `kmalloc` sees
--   MemInit    code/mm/mm_init.c: the linear allocator (MemInit/Chunks, and Source as a source of pages
--              that are no tables) and the passes over the memory map. Direct and Shown are about the
--              pass of the direct mapping, Backing and Structs about that of the struct pages, Row and
--              Released about the release, Release about what is not released, and Passes about whole
--              memory maps. Areas is about the pass that collects the areas and finds the current one,
--              and Finished, Stocked and Ready put `mm_init` together
--   BootMem    code/arch/x86/boot/mm_boot.c: another linear allocator, which feeds the kernel's first
--              page table (BootMem/Kernel). BootMem/Built has it beside the tables of the boot code, and
--              Handover as the kernel gets it, under whose root these are then
--   Start      code/arch/x86/boot/startup64.c and lib_boot.c, on top of TtyBoot and BootMem; Start/Halt
--              runs both stages one after the other
--   Main       code/kernel/main.c and process/process.c, on top of all others but Start
--   Str        code/lib/string.c, on bytes by address
--   Print      code/lib/print.c, as the list of the bytes that go to `kputchar`
--   Tty        code/arch/x86/tty.c and code/include/graphics/vga.h
--   TtyBoot    code/arch/x86/boot/tty_boot.c
--   Interrupt  code/arch/x86/include/asm/desc.h, gate.h, interrupt.h and trap.h, and
--              code/arch/x86/kernel and code/arch/x86/init.c: the descriptor and interrupt tables, the
--              registers that hold them, and the handlers
--
-- Numbers are natural numbers; where the C code computes in a fixed width, the remainder is written
-- out. A struct page stands for its address, and its fields are looked up by it; links, fields of
-- pages and words of memory are separate stores, which the code keeps apart by its memory layout.
-- A word of memory can always be read and written: whether the processor finds its address mapped at
-- that moment is not part of the model. The boot stage sees physical memory at its own addresses, the
-- kernel in the direct mapping area (`seen` of BootMem/Handover).
-- The linker's placement of arrays, the bytes that ports answer and the contents of the CMOS are
-- parameters.
--
-- A result `none` is a call that does not come back: a spin lock that nobody frees, the loop of
-- `mm_phys_alloc` for a size that no order of 64 bits holds, a step that is undefined (an available
-- entry of the memory map behind the 32 that `phys_mm_area_arr` holds; `%c`, whose `va_arg` of type
-- `char` traps), or fuel that has run out. Fuel stands in
-- `redo` of the slub allocator, where two rounds are shown to be enough for an empty cache with no
-- partial slub; in `trim`, which has a round for each byte of the block; in the digit loops of
-- `kprintnum` and `kprinthex`, whose fuel is the 29 cells of the buffer; and in `strlen`, which is
-- given a bound of its text. All other loops count down the rounds that the code makes.
--
-- Not modelled: the assembly of the boot code and the privileged instructions (code/arch/x86/boot/*.S,
-- cpu.h, io.h but `inb` and `outb`); loading a table into the processor is a write to a field of
-- `Cpu`, and a halt the end of the function. The Multiboot2 header is third-party. The messages of
-- mm_init.c and of refused allocations are left out.
pub mod Base
pub mod Links
pub mod Lock
pub mod Layout
pub mod PageTable
pub mod PageAlloc
pub mod PageMap
pub mod Slub
pub mod Start
pub mod Main
pub mod MemInit
pub mod BootMem
pub mod Str
pub mod Print
pub mod Tty
pub mod TtyBoot
pub mod Interrupt
