-- ===== src/Start/Tests.antt =====
-- The boot stage on a machine with 128 megabytes, and both stages on one with 64.
use sumi_os.Base.{
  ℕ, ◌+◌, ◌-◌, ◌≤◌, ◌≡◌, refl, true, inr, some, List, [], ◌∷◌, ◌==◌, if◌then◌else◌, arith,
}
use sumi_os.Layout.{kernel_base_addr}
use sumi_os.Tty.{Tty, display_mode_text}
use sumi_os.TtyBoot.Start.{OnScreen}
use sumi_os.PageTable.{Words}
use sumi_os.BootMem.{BootMem, boot_mm_detect, nvram_read}
use sumi_os.BootMem.Kernel.{IsKernelMap, read_only, writable}
use sumi_os.Start.{entered, Image, Machine, multiboot2_bootloader_magic, startup64}
use sumi_os.Start.Enter.{startup64-entered}
use sumi_os.MemInit.Areas.{count_available}
use sumi_os.Start.Halt.{handed_boot, handed_kernel, IsLoaded, HasArea, startup64-halts}
use sumi_os.BootMem.Built.{IsBuilt}
use sumi_os.BootMem.Handover.{IsBootTable}
use sumi_os.Slub.{Slubs}
use sumi_os.Slub.Heap.{Object, uses}
use sumi_os.Slub.Heap.Client.{SomeHeap, kmallocs}
use sumi_os.MemInit.{page_at, find_mmap}
use sumi_os.MemInit.Ready.{IsStart}
use sumi_os.MemInit.Fixtures.{
  available, reserved, upper, entries, tags, unused, fresh_caches, entries-IsMemory, empty-IsFresh,
  fresh_caches-IsPlaced,
}
use sumi_os.Interrupt.{gate_init}
use sumi_os.Main.{Kernel, Boot, rounds_of_main, main}
use sumi_os.Main.Rounds.{requests}

abbrev machine : Machine
machine = record { inb = λ n port. 0; holds = true; cmos = λ r. if r == 0x35 then 7 else 0 }

abbrev image : Image
image = record {
  boot_start = 0x100000;
  roseg_end = kernel_base_addr + 0x210000;
  kernel_end = kernel_base_addr + 0x22c000;
  boot_page_table_pud = 0x109000;
}

abbrev boot_levels : ℕ → ℕ
boot_levels t = if t == 0x108000 then 4 else if t == 0x109000 then 3 else 0

-- The boot code's root at 0x108000 leads to its table at 0x109000.
abbrev boot_words : Words
boot_words a = if a == 0x108000 then 0x109003 else 0

boot_tables : IsBootTable boot_levels boot_words 0x108000 0x109000
boot_tables = record {
  tree = record {
    tables = λ t ne. (ground (arith, ne), ground (arith, ne));
    child = λ t i lt high used. ground (arith, lt, high, used);
    sole = λ t i u j lt lt' high high' used used' same. (
      ground (arith, lt, lt', high, high', used, used'),
      ground (arith, lt, lt', high, high', used, used'),
    );
  };
  root = refl;
  used = λ e. omega (arith, e);
  leads = refl;
}

boot_tables_low : (q : ℕ) → 0x22d000 ≤ q → boot_levels q ≡ 0
boot_tables_low q le = ground (arith, le)

abbrev off : Tty
off = record {
  text_mem = λ i. 0;
  text_mem_at = 0;
  cursor_loc = 0;
  display_mode = display_mode_text;
  serial_exists = true;
  reads = 0;
  out = [];
}

startup64-entered_example :
    (s' : Tty) × (table : ℕ) × (mem : BootMem) × (word' : Words) × (startup64 machine image
        multiboot2_bootloader_magic 0x10000 boot_words off
      ≡ some (s', entered table mem word'))
    × OnScreen s'
    × (image.kernel_end - kernel_base_addr + 4096 ≤ table)
    × IsKernelMap
        (read_only image.roseg_end + writable image.roseg_end image.kernel_end)
        table
        word'
    × IsBuilt boot_levels boot_words (boot_mm_detect machine.cmos) table 1000 0x109000 mem word'
unfolding boot_mm_detect nvram_read
startup64-entered_example =
    startup64-entered machine image multiboot2_bootloader_magic 0x10000 boot_words off boot_levels
      1000 refl refl boot_tables.tree boot_tables_low (omega arith) (omega arith) (omega arith)
      (omega arith)

-- 64 megabytes by the CMOS.
abbrev smaller : Machine
smaller = record machine { cmos = λ r. if r == 0x35 then 3 else 0 }

abbrev loaded : Boot
loaded = record {
  kern_pgtable = 0;
  mem_alloc_start = 0;
  tags = tags;
  gdt_at = 0xffff_ffff_8120_0000;
  idt_at = 0xffff_ffff_8121_0000;
  null_intr_handler_at = 0xffff_ffff_8100_1000;
  page_fault_handler_at = 0xffff_ffff_8100_2000;
}

abbrev kernel : Kernel
kernel = record {
  tty = off;
  linear = unused;
  slubs = fresh_caches;
  cpu = record {
    gdtr = record { size = 0; address = 0 };
    idtr = record { size = 0; address = 0 };
    idt = λ nr. gate_init 0 0 0;
    interrupts = true;
  };
}

image-IsLoaded : IsLoaded smaller image 0x10000 2000
unfolding boot_mm_detect nvram_read
image-IsLoaded = record {
  aligned = refl;
  small = omega arith;
  above = omega arith;
  ordered = omega arith;
  top = omega arith;
  enough = omega arith;
}

first_area : HasArea smaller image 2000 available (reserved ∷ upper ∷ []) entries
unfolding boot_mm_detect nvram_read
first_area = record {
  available = refl;
  begins = omega arith;
  apart = ((λ e. absurd (omega (arith, e))), ((λ e. inr (omega arith)), tt));
  room = omega arith;
  bound = omega arith;
}

startup64-halts_example :
    (s' : Tty) × (table : ℕ) × (mem : BootMem) × (word' : Words) × (k' : Kernel) × (heap : Slubs)
    × (objs : List Object) × (outs : List Object) × (startup64 smaller image
          multiboot2_bootloader_magic 0x10000 boot_words off
        ≡ some (s', entered table mem word'))
    × (main smaller.inb 0x10000 (handed_boot loaded table mem) (handed_kernel kernel s' word')
        ≡ some k')
    × IsStart heap (page_at 0x4020000) 0x400
    × (kmallocs (requests rounds_of_main 0) heap ≡ some (objs, k'.slubs))
    × SomeHeap k'.slubs (λ _. 0) outs
    × ((m : ℕ) → uses objs m ≤ 1)
unfolding find_mmap count_available
startup64-halts_example =
    startup64-halts smaller image 0x10000 2000 0x108000 boot_levels boot_words off loaded kernel []
      (reserved ∷ []) [] available upper image-IsLoaded boot_tables boot_tables_low first_area refl
      entries-IsMemory (omega arith) empty-IsFresh fresh_caches-IsPlaced (λ i lt. refl)
