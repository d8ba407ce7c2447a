-- ===== src/Main/Tests.antt =====
-- `main` on a machine of two areas of memory.
use sumi_os.Base.{ℕ, ◌≤◌, ◌≡◌, List, [], ◌∷◌, some, refl, arith, true, false}
use sumi_os.PageAlloc.Fixtures.{blank}
use sumi_os.Slub.{Slubs, kmem_cache_alloc, kmalloc}
use sumi_os.Tty.{Tty, display_mode_text}
use sumi_os.Interrupt.{Cpu, gate_init, arch_init}
use sumi_os.Slub.Heap.{Object, uses}
use sumi_os.Slub.Heap.Client.{SomeHeap, kmallocs}
use sumi_os.MemInit.{page_at, find_mmap}
use sumi_os.MemInit.Fixtures.{
  collected, add_areas-collected, available, reserved, upper, entries, tags, unused, fresh_caches,
  only_root, entries-IsMemory, empty-IsFresh, fresh_caches-IsPlaced, entries-Works,
}
use sumi_os.MemInit.Passes.{need}
use sumi_os.MemInit.Ready.{IsStart}
use sumi_os.Main.{request, rounds_of_main, Boot, Kernel, main}
use sumi_os.Main.Requests.{kmalloc-request}
use sumi_os.Main.Rounds.{requests}
use sumi_os.Main.Whole.{IsBootable, main-returns}

abbrev caches : Slubs
caches = record {
  zone = blank;
  cache = λ i. record { lock = 0; obj_size = 16; slub = 0; freelist = 0 };
  kmem_cache_list = 0xffff_ffff_8102_0000;
}

-- Round 13 asks the cache of 128 bytes.
thirteenth_request : kmalloc 2 (request 13) caches ≡ kmem_cache_alloc 2 3 caches
thirteenth_request = kmalloc-request 2 13 caches

abbrev off : Cpu
off = record {
  gdtr = record { size = 0; address = 0 };
  idtr = record { size = 0; address = 0 };
  idt = λ nr. gate_init 0 0 0;
  interrupts = true;
}

abbrev screen : Tty
screen = record {
  text_mem = λ a. 0;
  text_mem_at = 0xb8000;
  cursor_loc = 0;
  display_mode = display_mode_text;
  serial_exists = false;
  reads = 0;
  out = [];
}

abbrev handed_over : Boot
handed_over = record {
  kern_pgtable = 0x200000;
  mem_alloc_start = 0x400000;
  tags = tags;
  gdt_at = 0xffff_ffff_8120_0000;
  idt_at = 0xffff_ffff_8121_0000;
  null_intr_handler_at = 0xffff_ffff_8100_1000;
  page_fault_handler_at = 0xffff_ffff_8100_2000;
}

abbrev ports : (n port : ℕ) → ℕ
ports n port = 0xff

abbrev kernel : Kernel
kernel = record { tty = screen; linear = unused; slubs = fresh_caches; cpu = off }

kernel-IsBootable :
    IsBootable 0x4000000 (available ∷ reserved ∷ []) [] upper only_root collected handed_over kernel
unfolding find_mmap
kernel-IsBootable = record {
  found = refl;
  collects = add_areas-collected;
  memory = entries-IsMemory;
  fresh = empty-IsFresh;
  placed = fresh_caches-IsPlaced;
  unlocked = λ i lt. refl;
  works = entries-Works (need entries) (omega arith);
}

-- The whole of `main`, with all its rounds.
main-returns_example :
    (k' : Kernel) × (s : Slubs) × (objs : List Object) × (outs : List Object) × (main ports 0x9500
        handed_over kernel
      ≡ some k')
    × IsStart s (page_at 0x4020000) 0x400
    × (k'.cpu
        ≡ arch_init 0xffff_ffff_8120_0000 0xffff_ffff_8121_0000 0xffff_ffff_8100_1000
            0xffff_ffff_8100_2000 off)
    × (kmallocs (requests rounds_of_main 0) s ≡ some (objs, k'.slubs))
    × SomeHeap k'.slubs (λ _. 0) outs
    × ((m : ℕ) → uses objs m ≤ 1)
main-returns_example =
    main-returns ports 0x9500 handed_over kernel 0x4000000 (available ∷ reserved ∷ []) [] upper
      only_root collected (omega arith) kernel-IsBootable
