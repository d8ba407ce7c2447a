-- ===== src/Start/Halt.antt =====
-- The two stages one after the other: from the entry of the boot stage to the halt of `main`.
use sumi_os.Base.{
  length, ℕ, ◌+◌, ◌-◌, ◌*◌, ◌^◌, ◌%◌, ◌<◌, ◌≤◌, ◌≡◌, refl, ◌≢◌, some, List, ◌∷◌, ◌++◌, arith, ap,
}
use native.Mathlib.Decide.{dec_lt}
use sumi_os.Layout.{kernel_base_addr}
use sumi_os.Lock.{lock_free}
use sumi_os.Tty.{Tty}
use sumi_os.PageTable.{Words}
use sumi_os.BootMem.{BootMem, boot_mm_detect}
use sumi_os.BootMem.Kernel.{read_only, writable}
use sumi_os.BootMem.Handover.{
  IsBootTable, handed_levels, handed-IsTree, handed-root, handed-none, seen, seen-IsTree,
}
use sumi_os.Slub.{Slubs}
use sumi_os.Slub.Heap.{Object, uses, IsPlaced}
use sumi_os.Slub.Heap.Client.{SomeHeap, kmallocs}
use sumi_os.MemInit.{
  Linear, MmapEntry, multiboot_memory_available, rounds, page_at, find_mmap, add_areas,
}
use sumi_os.MemInit.Works.{Works}
use sumi_os.MemInit.Source.{HasPages}
use sumi_os.MemInit.Passes.{AllLow, need}
use sumi_os.MemInit.Areas.{AllApart, add_areas-current, count_available, add_areas-few}
use sumi_os.MemInit.Stocked.{started, IsMemory, IsFresh}
use sumi_os.MemInit.Ready.{IsStart}
use sumi_os.Main.{Kernel, Boot, rounds_of_main, main}
use sumi_os.Main.Rounds.{requests}
use sumi_os.Main.Whole.{main-returns}
use sumi_os.Start.{Image, Machine, multiboot2_bootloader_magic, entered, startup64}
use sumi_os.Start.Enter.{startup64-entered}

-- `main` gets the page table and the rest of the memory, and sees what the boot stage wrote through
-- the direct mapping area; the screen and the ports go on as they are.
abbrev pub handed_boot : Boot → (table : ℕ) → BootMem → Boot
handed_boot boot table mem = record boot {
  kern_pgtable = table;
  mem_alloc_start = mem.boot_mem_alloc_start;
}

abbrev pub handed_kernel : Kernel → Tty → Words → Kernel
handed_kernel k tty word = record k {
  tty = tty;
  slubs = record (k.slubs) { zone = record (k.slubs.zone) { word = seen word } };
}

-- The image, and memory by the CMOS for the first page table and `n` pages more.
pub record IsLoaded (m : Machine) (image : Image) (mbi n : ℕ) : Type 0 where
  pub aligned : mbi % 8 ≡ 0
  pub small : mbi < 2 ^ 64
  pub above : image.boot_start + kernel_base_addr ≤ image.kernel_end
  pub ordered : image.roseg_end ≤ image.kernel_end
  pub top : image.kernel_end + 4096 ≤ 2 ^ 64
  pub enough :
      image.kernel_end
        - kernel_base_addr
        + 4096
          * (3
              + 3 * (read_only image.roseg_end + (writable image.roseg_end image.kernel_end + 2560))
              + n)
      ≤ boot_mm_detect m.cmos

-- Area `a` of the memory map is the one that the boot stage begins, right behind the image, with room
-- for all that the passes need where the boot stage has left `n` pages; none of `others`, which come
-- behind it in the map, reaches into it.
pub record HasArea (m : Machine) (image : Image) (n : ℕ) (a : MmapEntry)
    (others entries : List MmapEntry) : Type 0 where
  pub available : a.kind ≡ multiboot_memory_available
  pub begins : a.addr ≤ image.kernel_end - kernel_base_addr + 4096
  pub apart : AllApart (image.kernel_end - kernel_base_addr + 4096) (a.addr + a.len) others
  pub room : boot_mm_detect m.cmos + 4096 * need entries ≤ a.addr + a.len + 4096 * n
  pub bound : a.addr + a.len ≤ 2 ^ 46

handed-HasPages :
    (m : Machine) (image : Image) (n : ℕ) (first middle others : List MmapEntry) (a : MmapEntry)
    (k : Kernel) (level : ℕ → ℕ) (mem : BootMem) (areas : Linear)
    → HasArea m image n a (middle ++ others) ((first ++ a ∷ middle) ++ others)
    → AllLow ((first ++ a ∷ middle) ++ others)
    → image.kernel_end - kernel_base_addr + 4096 ≤ mem.boot_mem_alloc_start
    → mem.boot_mem_alloc_start % 4096 ≡ 0
    → mem.boot_mem_alloc_start + 4096 * n < boot_mm_detect m.cmos
    → ((q : ℕ) → mem.boot_mem_alloc_start ≤ q → level q ≡ 0)
    → add_areas mem.boot_mem_alloc_start ((first ++ a ∷ middle) ++ others) k.linear ≡ some areas
    → HasPages (a.addr + a.len) (need ((first ++ a ∷ middle) ++ others)) areas level
handed-HasPages m image n first middle others a k level mem areas area low behind whole fits
      no_table collects =
    let room = area.room in
    let (from, to) =
      add_areas-current mem.boot_mem_alloc_start (image.kernel_end - kernel_base_addr + 4096) first
        middle others a k.linear areas behind area.available area.begins (omega (arith, fits, room))
        low area.apart collects in
    record {
      some_start = λ e. omega (arith, from, e, behind);
      whole = rw from whole;
      fits = omega (arith, from, to, fits, room);
      bound = omega (arith, to, area.bound);
      ends = to;
      no_table = λ q le. no_table q (omega (arith, le, from));
    }

-- Conditions. The boot code's page table is well formed and lies below the end of the image, whose
-- parts are in order; the information of the boot loader is at a 64-bit address that is a multiple
-- of 8; and the machine has the memory, by the CMOS, for the first page table. The memory map: its
-- entries lie in the first 64 terabytes, and none begins inside the first page; its available
-- entries, with those already in the array of the areas, are at most 32, so that the pass that
-- collects them returns; one available entry lies behind the area that the boot stage has begun,
-- and all others end before the end of that area, which has memory for the tables and the struct
-- pages of the whole map. The area begins at most one page behind the end of the image, and no
-- later available entry reaches into it. No struct page outside the memory map is marked free, in
-- memory that the code does not clear; the caches are unlocked; and the free lists and the lists of
-- the caches lie behind the array of the struct pages, apart from each other. Then the two stages
-- run one after the other: the boot stage enters `main`, and `main`, with what the boot stage hands
-- over, comes to its halt. The heap in between is well formed, over the pages of the released entry
-- of the memory map; at the halt the caches are those of the `kmalloc` calls of the rounds, on a
-- well-formed heap, and no byte is in two of the objects.
pub startup64-halts :
    (m : Machine) (image : Image) (mbi n pgd : ℕ) (level : ℕ → ℕ) (word : Words) (s : Tty)
    (boot : Boot) (k : Kernel) (first middle after : List MmapEntry) (a e : MmapEntry)
    → IsLoaded m image mbi n
    → IsBootTable level word pgd image.boot_page_table_pud
    → ((q : ℕ) → image.kernel_end - kernel_base_addr + 4096 ≤ q → level q ≡ 0)
    → HasArea m image n a (middle ++ e ∷ after) ((first ++ a ∷ middle) ++ e ∷ after)
    → find_mmap boot.tags ≡ some ((first ++ a ∷ middle) ++ e ∷ after)
    → IsMemory (a.addr + a.len) (first ++ a ∷ middle) after e
    → length k.linear.phys_mm_area_arr + count_available ((first ++ a ∷ middle) ++ e ∷ after) ≤ 32
    → IsFresh ((first ++ a ∷ middle) ++ e ∷ after) k.slubs.zone
    → IsPlaced k.slubs
    → ((i : ℕ) → i < 10 → (k.slubs.cache i).lock ≡ lock_free)
    → (s' : Tty) × (table : ℕ) × (mem : BootMem) × (word' : Words) × (k' : Kernel) × (heap : Slubs)
      × (objs : List Object) × (outs : List Object) × (startup64 m image multiboot2_bootloader_magic
            mbi word s
          ≡ some (s', entered table mem word'))
      × (main m.inb mbi (handed_boot boot table mem) (handed_kernel k s' word') ≡ some k')
      × IsStart heap (page_at e.addr) (rounds e)
      × (kmallocs (requests rounds_of_main 0) heap ≡ some (objs, k'.slubs))
      × SomeHeap k'.slubs (λ _. 0) outs
      × ((m : ℕ) → uses objs m ≤ 1)
startup64-halts m image mbi n pgd level word s boot k first middle after a e l o no_table area found
      memory few fresh placed unlocked =
    let end = a.addr + a.len in
    let before = first ++ a ∷ middle in
    let entries = before ++ e ∷ after in
    let total = boot_mm_detect m.cmos in
    let pud = image.boot_page_table_pud in
    let (s', table, mem, word', enters, on, behind, map, b) =
      startup64-entered m image multiboot2_bootloader_magic mbi word s level n refl l.aligned o.tree
        no_table l.above l.ordered l.top l.enough in
    let apart : pgd ≢ table = λ same. omega (arith, o.root, no_table table behind, ap level same) in
    let level' = handed_levels level word total table n pgd pud mem word' b o apart in
    let (areas, collects) = add_areas-few mem.boot_mem_alloc_start entries k.linear few in
    let pages =
      handed-HasPages m image n first middle (e ∷ after) a k level' mem areas area memory.low
        (start_behind b.level' table mem.boot_mem_alloc_start _ b.root b.pages.no_table behind)
        b.pages.whole (omega (arith, b.pages.fits, b.pages.all))
        (λ q le.
          handed-none level word total table n pgd pud mem word' b o apart q
            (b.pages.no_table q le))
        collects in
    let works : Works end (need entries) level' (
        started table areas
          (record { linear = k.linear; zone = record (k.slubs.zone) { word = seen word' } })) =
      record {
        tree =
            seen-IsTree level' word'
              (handed-IsTree level word total table n pgd pud mem word' b o apart);
        root = handed-root level word total table n pgd pud mem word' b o apart;
        pages = pages;
      } in
    let (k', heap, objs, outs, runs, start, cpu, calls, some_heap, once) =
      main-returns m.inb mbi (handed_boot boot table mem) (handed_kernel k s' word') end before
        after e level' areas l.small
        (record {
          found = found;
          collects = collects;
          memory = memory;
          fresh = record {
            apart = record { behind = fresh.apart.behind; fits = fresh.apart.fits };
            none_free = fresh.none_free;
          };
          placed = record {
            behind = placed.behind;
            free_lists = placed.free_lists;
            apart = placed.apart;
          };
          unlocked = unlocked;
          works = works;
        }) in
    (s', table, mem, word', k', heap, objs, outs, enters, runs, start, calls, some_heap, once)
  where
    start_behind :
        (level : ℕ → ℕ) (table start low : ℕ)
        → level table ≡ 4
        → ((q : ℕ) → start ≤ q → level q ≡ 0)
        → low ≤ table
        → low ≤ start
    start_behind level table start low at none le = elim (dec_lt table start) [
      | yes lt ↦ omega (arith, lt, le)
      | no ge ↦ absurd (omega (arith, at, none table (omega (arith, ge))))
    ]
