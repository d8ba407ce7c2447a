-- ===== src/Main/Rounds.antt =====
-- The end of `main`, from the return of `mm_init` on, on a well-formed heap.
use sumi_os.Base.{
  ℕ, zero, suc, ◌+◌, ◌^◌, ◌%◌, ◌≤◌, ◌<◌, ◌≡◌, refl, some, List, [], ◌∷◌, ◌++◌, arith, bytes,
}
use native.Mathlib.Nat.{one-le-pow}
use sumi_os.Print.{Text, slot, kputs}
use sumi_os.Print.Format.{kprintf-some}
use sumi_os.Slub.{Slubs}
use sumi_os.Slub.Heap.{Object, uses, uses-le, handed}
use sumi_os.Slub.Heap.Client.{SomeHeap, kmallocs, kmalloc-Answers, handed-fits, handed-uses}
use sumi_os.Tty.{Tty}
use sumi_os.MemInit.{Linear}
use sumi_os.Interrupt.{Cpu, arch_init}
use sumi_os.Main.{Kernel, Boot, print, request, allocate, main_after_mm_init}

-- The sizes that the rounds ask for.
abbrev pub requests : (left i : ℕ) → List ℕ
requests zero i = []
requests (suc left) i = request i ∷ requests left (i + 1)

request-pos : (i : ℕ) → 0 < request i
request-pos i = omega (arith, one-le-pow (i % 10) 2)

allocate-grow :
    {rest : ℕ → ℕ} (left i : ℕ) (s : Slubs) (outs : List Object)
    → i + left ≤ 2 ^ 64
    → SomeHeap s rest outs
    → (lines : Text) × (objs : List Object) × (s' : Slubs) × (outs' : List Object) × (allocate left
          i s
        ≡ some (lines, s'))
      × (kmallocs (requests left i) s ≡ some (objs, s'))
      × SomeHeap s' rest outs'
      × ((m : ℕ) → uses objs m + uses outs m ≤ uses outs' m)
unfolding allocate kmallocs
allocate-grow zero i s outs low h = ([], [], s, outs, refl, refl, h, λ m. omega arith)
allocate-grow (suc left) i s outs low h =
    let (b, full, free, heap) = h in
    let (n, le, answers) = kmalloc-Answers heap (request i) in
    let (obj, s1, runs, why, h1) = answers in
    let fits : obj < 2 ^ 64 = handed-fits obj n s1 outs (omega (arith, request-pos i, le)) h1 in
    let (line, printed) =
      kprintf-some (bytes "[allocate time: %lu] get object at %p\n") (slot i ∷ slot obj ∷ [])
        (ground (arith, low, fits)) in
    let (lines, objs, s2, outs2, later, calls, h2, bound) =
      allocate-grow left (i + 1) s1 (handed obj n outs) (omega arith) h1 in
    (
      line ++ lines,
      handed obj (request i) objs,
      s2,
      outs2,
      rw (runs, allocate) (rw (printed, allocate) (rw (later, allocate) refl)),
      rw (runs, kmallocs) (rw (calls, kmallocs) refl),
      h2,
      λ m. handed-uses obj (request i) n objs outs m (uses outs2 m) le (bound m),
    )

-- On a well-formed heap the loop returns, whatever its number of rounds up to `2 ^ 64`: each
-- allocation and each line that is printed ends. It leaves the caches as the `kmalloc` calls of its
-- requests do, on a well-formed heap again, and no byte is in two of the objects.
pub allocate-returns :
    {rest : ℕ → ℕ} (left i : ℕ) (s : Slubs) (outs : List Object)
    → i + left ≤ 2 ^ 64
    → SomeHeap s rest outs
    → (lines : Text) × (objs : List Object) × (s' : Slubs) × (outs' : List Object) × (allocate left
          i s
        ≡ some (lines, s'))
      × (kmallocs (requests left i) s ≡ some (objs, s'))
      × SomeHeap s' rest outs'
      × ((m : ℕ) → uses objs m + uses outs m ≤ 1)
allocate-returns left i s outs low h =
    let (lines, objs, s', outs', runs, calls, h', bound) = allocate-grow left i s outs low h in
    let (b', full', left', heap) = h' in
    (lines, objs, s', outs', runs, calls, h', λ m. omega (arith, bound m, uses-le heap m))

-- The kernel at the halt, after the lines of the rounds.
abbrev at_halt :
    (inb : (n port : ℕ) → ℕ) → Boot → Tty → Linear → Cpu → (lines : Text) → Slubs → Kernel
at_halt inb boot tty linear cpu lines s =
    let tty1 = print inb (kputs (bytes "\n\t[+] kernel memory initialization complete.")) tty in
    let tty2 =
      print inb (kputs (bytes "\n\t[+] process schedule subsystem initialization complete."))
        tty1 in
    let tty3 = print inb (kputs (bytes "\n\t[+] arch related initialization complete.")) tty2 in
    record {
      tty = print inb lines tty3;
      linear = linear;
      slubs = s;
      cpu =
          arch_init boot.gdt_at boot.idt_at boot.null_intr_handler_at boot.page_fault_handler_at
            cpu;
    }

main_after_mm_init-at_halt :
    (inb : (n port : ℕ) → ℕ) (left : ℕ) (boot : Boot) (tty : Tty) (linear : Linear) (s : Slubs)
    (cpu : Cpu) {lines : Text} {s' : Slubs}
    → allocate left 0 s ≡ some (lines, s')
    → main_after_mm_init inb left boot tty linear s cpu
      ≡ some (at_halt inb boot tty linear cpu lines s')
unfolding main_after_mm_init
main_after_mm_init-at_halt inb left boot tty linear s cpu runs = rw (runs, main_after_mm_init) refl

-- On a well-formed heap `main` comes from the return of `mm_init` to its halt, for any number of
-- rounds up to `2 ^ 64`: each allocation and each line that is printed ends. The descriptor tables
-- are then those that `arch_init` loads, and the caches those of the `kmalloc` calls of the rounds, on
-- a well-formed heap again; no byte is in two of the objects.
pub main_after_mm_init-returns :
    {rest : ℕ → ℕ} (inb : (n port : ℕ) → ℕ) (left : ℕ) (boot : Boot) (tty : Tty) (linear : Linear)
    (s : Slubs) (cpu : Cpu) (outs : List Object)
    → left ≤ 2 ^ 64
    → SomeHeap s rest outs
    → (k : Kernel) × (objs : List Object) × (outs' : List Object) × (main_after_mm_init inb left
          boot tty linear s cpu
        ≡ some k)
      × (k.cpu
          ≡ arch_init boot.gdt_at boot.idt_at boot.null_intr_handler_at boot.page_fault_handler_at
              cpu)
      × (kmallocs (requests left 0) s ≡ some (objs, k.slubs))
      × SomeHeap k.slubs rest outs'
      × ((m : ℕ) → uses objs m + uses outs m ≤ 1)
main_after_mm_init-returns inb left boot tty linear s cpu outs low h =
    let (lines, objs, s', outs', runs, calls, h', bound) =
      allocate-returns left 0 s outs (omega (arith, low)) h in
    (
      at_halt inb boot tty linear cpu lines s',
      objs,
      outs',
      main_after_mm_init-at_halt inb left boot tty linear s cpu runs,
      refl,
      calls,
      h',
      bound,
    )
