-- ===== src/Main.antt =====
-- kernel/main.c and kernel/process/process.c: the order in which the kernel's parts are set up, and
-- the loop of allocations at the end. The messages of mm/mm_init.c are left out.
pub mod Requests
pub mod Rounds
pub mod Whole
mod Tests
use sumi_os.Base.{ℕ, zero, suc, ◌+◌, ◌%◌, Option, none, some, List, [], ◌∷◌, ◌++◌, bytes, u64, ◌<<◌}
use sumi_os.Print.{Text, slot, kprintf, kputs}
use sumi_os.Tty.{Tty, tty_init, put_text}
use sumi_os.Slub.{Slubs, kmalloc}
use sumi_os.MemInit.{Tag, Linear, mm_init}
use sumi_os.Interrupt.{Cpu, arch_init}

-- The size that round `i` of the loop asks for.
abbrev pub request : ℕ → ℕ
request i = 0x10 << (i % 10)

-- `left` rounds of the loop from round `i` on: what they print, and the caches after them. Each call
-- of `kmalloc` has fuel for two rounds of its own.
unfoldable pub allocate : (left i : ℕ) → Slubs → Option (Text × Slubs)
allocate zero i s = some ([], s)
allocate (suc left) i s = elim (kmalloc 2 (request i) s) [
  | none ↦ none
  | some (obj, s') ↦
      elim (kprintf (bytes "[allocate time: %lu] get object at %p\n") (slot i ∷ slot obj ∷ [])) [
        | none ↦ none
        | some line ↦ elim (allocate left (i + 1) s') [
          | none ↦ none
          | some (lines, s'') ↦ some (line ++ lines, s'')
        ]
      ]
]

-- The body of `task_init` is empty.
abbrev pub task_init : Slubs → Slubs
task_init s = s

-- What the kernel consists of.
pub record Kernel : Type 0 where
  pub tty : Tty
  pub linear : Linear
  pub slubs : Slubs
  pub cpu : Cpu

-- What the boot stage and the linker hand over.
pub record Boot : Type 0 where
  pub kern_pgtable : ℕ
  pub mem_alloc_start : ℕ
  pub tags : List Tag
  pub gdt_at : ℕ
  pub idt_at : ℕ
  pub null_intr_handler_at : ℕ
  pub page_fault_handler_at : ℕ

abbrev pub rounds_of_main : ℕ
rounds_of_main = 1145141919

module _ (inb : (n port : ℕ) → ℕ) where
  abbrev pub print : Text → Tty → Tty
  print out s = put_text inb out s

  -- `main` from the return of `mm_init` on, with `left` rounds of the loop, up to the halt at its end.
  unfoldable pub main_after_mm_init : (left : ℕ) → Boot → Tty → Linear → Slubs → Cpu → Option Kernel
  main_after_mm_init left boot tty linear slubs cpu =
      let tty1 = print (kputs (bytes "\n\t[+] kernel memory initialization complete.")) tty in
      let slubs' = task_init slubs in
      let tty2 =
        print (kputs (bytes "\n\t[+] process schedule subsystem initialization complete.")) tty1 in
      let cpu' =
        arch_init boot.gdt_at boot.idt_at boot.null_intr_handler_at boot.page_fault_handler_at
          cpu in
      let tty3 = print (kputs (bytes "\n\t[+] arch related initialization complete.")) tty2 in
      elim (allocate left 0 slubs') [
        | none ↦ none
        | some (out, slubs'') ↦
            some (record { tty = print out tty3; linear = linear; slubs = slubs''; cpu = cpu' })
      ]

  unfoldable pub main : (mbi : ℕ) → Boot → Kernel → Option Kernel
  main mbi boot k =
      let tty1 =
        print (kputs (bytes "\n\t[+] Successfully to enter the highmem kernel!\n"))
          (tty_init k.tty) in
      elim (kprintf (bytes "\t[*] mbi at %p\n") (slot mbi ∷ [])) [
        | none ↦ none
        | some out ↦
            elim (mm_init boot.kern_pgtable boot.mem_alloc_start boot.tags k.linear k.slubs) [
              | none ↦ none
              | some (linear, slubs) ↦
                  main_after_mm_init rounds_of_main boot (print out tty1) linear slubs k.cpu
            ]
      ]
