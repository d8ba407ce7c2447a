-- ===== src/Main/Whole.antt =====
-- `main` from its first line to its halt.
use sumi_os.Base.{ℕ, ◌^◌, ◌≤◌, ◌<◌, ◌≡◌, refl, some, List, [], ◌∷◌, ◌++◌, arith, bytes, ◌∙◌}
use sumi_os.Lock.{lock_free}
use sumi_os.Print.{Text, slot, kprintf, kputs}
use sumi_os.Print.Format.{kprintf-some}
use sumi_os.Slub.{Slubs}
use sumi_os.Slub.Heap.{Object, uses, IsPlaced}
use sumi_os.Slub.Heap.Client.{SomeHeap, kmallocs}
use sumi_os.Tty.{tty_init}
use sumi_os.MemInit.{MmapEntry, rounds, find_mmap, add_areas, Linear, page_at, mm_init}
use sumi_os.MemInit.Works.{Works}
use sumi_os.MemInit.Passes.{need}
use sumi_os.MemInit.Stocked.{started, IsMemory, IsFresh}
use sumi_os.MemInit.Ready.{IsStart, mm_init-IsStart}
use sumi_os.Interrupt.{arch_init}
use sumi_os.Main.{Kernel, Boot, print, rounds_of_main, main_after_mm_init, main}
use sumi_os.Main.Rounds.{requests, main_after_mm_init-returns}

main-runs :
    (inb : (n port : ℕ) → ℕ) (mbi : ℕ) (boot : Boot) (k : Kernel) (out : Text) (linear : Linear)
    (s : Slubs)
    → kprintf (bytes "\t[*] mbi at %p\n") (slot mbi ∷ []) ≡ some out
    → mm_init boot.kern_pgtable boot.mem_alloc_start boot.tags k.linear k.slubs ≡ some (linear, s)
    → main inb mbi boot k
      ≡ main_after_mm_init inb rounds_of_main boot
          (print inb out (
            print inb
              (kputs (bytes "\n\t[+] Successfully to enter the highmem kernel!\n"))
              (tty_init k.tty)))
          linear
          s
          k.cpu
unfolding main
main-runs inb mbi boot k out linear s e runs = rw (e, main) (rw (runs, main) refl)

-- What the boot stage and the kernel's image must bring: the array of the areas has room for the
-- available entries, with `areas` the result; one entry of the memory map lies behind the area that
-- the boot stage has begun, which holds all the tables and struct pages that the passes need; the
-- page table is well formed; no struct page outside the memory map is marked free; the caches are
-- unlocked, and the lists in place.
pub record IsBootable (end : ℕ) (before after : List MmapEntry) (e : MmapEntry) (level : ℕ → ℕ)
    (areas : Linear) (boot : Boot) (k : Kernel) : Type 0 where
  pub found : find_mmap boot.tags ≡ some (before ++ e ∷ after)
  pub collects : add_areas boot.mem_alloc_start (before ++ e ∷ after) k.linear ≡ some areas
  pub memory : IsMemory end before after e
  pub fresh : IsFresh (before ++ e ∷ after) k.slubs.zone
  pub placed : IsPlaced k.slubs
  pub unlocked : (i : ℕ) → i < 10 → (k.slubs.cache i).lock ≡ lock_free
  pub works :
      Works end
        (need (before ++ e ∷ after))
        level
        (started boot.kern_pgtable areas (record { linear = k.linear; zone = k.slubs.zone }))

-- Conditions. The memory map: its entries lie in the first 64 terabytes, and none begins inside the
-- first page; its available entries, with those already in the array of the areas, are at most 32,
-- so that the pass that collects them returns; one available entry lies behind the area that the
-- boot stage has begun, and all others end before the end of that area, which has memory for the
-- tables and the struct pages of the whole map. The page table is well formed, with no table in the
-- rest of that area; the address of the information is a 64-bit one; no struct page outside the
-- memory map is marked free, in memory that the code does not clear; the caches are unlocked; and
-- the free lists and the lists of the caches lie behind the array of the struct pages, apart from
-- each other. Then `main` comes from its first line to its halt: every pass of the memory's
-- initialization, all the allocations and every line that is printed end. In between, `mm_init`
-- leaves a well-formed heap over the pages of the released entry; at the halt the descriptor tables
-- are those that `arch_init` loads, and the caches those of the `kmalloc` calls of the rounds, on a
-- well-formed heap again; no byte is in two of the objects.
pub main-returns :
    (inb : (n port : ℕ) → ℕ) (mbi : ℕ) (boot : Boot) (k : Kernel) (end : ℕ)
    (before after : List MmapEntry) (e : MmapEntry) (level : ℕ → ℕ) (areas : Linear)
    → mbi < 2 ^ 64
    → IsBootable end before after e level areas boot k
    → (k' : Kernel) × (s : Slubs) × (objs : List Object) × (outs : List Object) × (main inb mbi boot
          k
        ≡ some k')
      × IsStart s (page_at e.addr) (rounds e)
      × (k'.cpu
          ≡ arch_init boot.gdt_at boot.idt_at boot.null_intr_handler_at boot.page_fault_handler_at
              k.cpu)
      × (kmallocs (requests rounds_of_main 0) s ≡ some (objs, k'.slubs))
      × SomeHeap k'.slubs (λ _. 0) outs
      × ((m : ℕ) → uses objs m ≤ 1)
main-returns inb mbi boot k end before after e level areas low b =
    let (out, printed) =
      kprintf-some (bytes "\t[*] mbi at %p\n") (slot mbi ∷ []) (ground (arith, low)) in
    let (linear, s, ready, start) =
      mm_init-IsStart boot.kern_pgtable boot.mem_alloc_start end boot.tags before after e level
        k.linear areas k.slubs b.found b.collects b.memory b.fresh b.placed b.unlocked b.works in
    let tty = print inb out (
      print inb (kputs (bytes "\n\t[+] Successfully to enter the highmem kernel!\n"))
        (tty_init k.tty)) in
    let (k', objs, outs, runs, cpu, calls, heap, apart) =
      main_after_mm_init-returns inb rounds_of_main boot tty linear s k.cpu [] (omega arith)
        (start.blocks, (λ _. []), (λ _. 0), start.heap) in
    (
      k',
      s,
      objs,
      outs,
      main-runs inb mbi boot k out linear s printed ready ∙ runs,
      start,
      cpu,
      calls,
      heap,
      λ m. omega (arith, apart m),
    )
