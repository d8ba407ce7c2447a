-- ===== src/Interrupt.antt =====
-- arch/x86/include/asm/desc.h, gate.h, interrupt.h and trap.h, kernel/desc.c, kernel/interrupt.c and
-- init.c: segment descriptors, interrupt gates, the tables that the kernel fills with them and loads
-- into the processor, and what the handlers print before they halt.
pub mod Tables
pub mod Handlers
mod Tests
use sumi_os.Base.{
  ℕ, ◌+◌, ◌*◌, ◌%◌, ◌==◌, if◌then◌else◌, Bool, false, Option, none, some, List, [], ◌∷◌, ◌++◌,
  update, u16, u32, u64, ◌>>◌, bytes,
}
use sumi_os.Print.{Text, slot, kprintf, kputs}

-- struct descriptor, less its packing.
pub record Descriptor : Type 0 where
  pub limit0 : ℕ
  pub base0 : ℕ
  pub base1 : ℕ
  pub kind : ℕ
  pub s : ℕ
  pub dpl : ℕ
  pub p : ℕ
  pub limit1 : ℕ
  pub avl : ℕ
  pub l : ℕ
  pub d : ℕ
  pub g : ℕ
  pub base2 : ℕ

unfoldable pub descriptor_init : (base limit flags : ℕ) → Descriptor
descriptor_init base limit flags = record {
  limit0 = u16 limit;
  limit1 = (limit >> 16) % 16;
  base0 = u16 base;
  base1 = (base >> 16) % 256;
  base2 = (base >> 24) % 256;
  kind = flags % 16;
  s = (flags >> 4) % 2;
  dpl = (flags >> 5) % 4;
  p = (flags >> 7) % 2;
  avl = (flags >> 12) % 2;
  l = (flags >> 13) % 2;
  d = (flags >> 14) % 2;
  g = (flags >> 15) % 2;
}

-- The table of desc.c; the entries that are not named are zero.
unfoldable pub gdt : ℕ → Descriptor
gdt i =
    if i == 1
    then descriptor_init 0 0xfffff 0xa09b
    else if i == 2
    then descriptor_init 0 0xfffff 0xc093
    else if i == 3
    then descriptor_init 0 0xfffff 0xc0fb
    else if i == 4
    then descriptor_init 0 0xfffff 0xc0f3
    else if i == 5
    then descriptor_init 0 0xfffff 0xa0fb
    else descriptor_init 0 0 0

-- struct gate_desc, less its packing.
pub record GateDesc : Type 0 where
  pub offset0 : ℕ
  pub selector : ℕ
  pub ist : ℕ
  pub kind : ℕ
  pub dpl : ℕ
  pub p : ℕ
  pub offset1 : ℕ
  pub offset2 : ℕ

abbrev pub gate_init : (kind handler selector : ℕ) → GateDesc
gate_init kind handler selector = record {
  offset0 = u16 handler;
  offset1 = u16 (handler >> 16);
  offset2 = u32 (u64 handler >> 32);
  selector = u16 selector;
  ist = 0;
  kind = kind;
  dpl = 0;
  p = 1;
}

abbrev pub default_kernel_cs_selector : ℕ
default_kernel_cs_selector = 8

abbrev pub seg_type_sys_80386_intr_gate : ℕ
seg_type_sys_80386_intr_gate = 14

abbrev pub seg_type_sys_80386_trap_gate : ℕ
seg_type_sys_80386_trap_gate = 15

abbrev pub Idt : Type 0
Idt = ℕ → GateDesc

unfoldable pub set_intr_handler : (nr handler : ℕ) → Idt → Idt
set_intr_handler nr handler idt =
    update idt nr (gate_init seg_type_sys_80386_intr_gate handler default_kernel_cs_selector)

unfoldable pub set_trap_handler : (nr handler : ℕ) → Idt → Idt
set_trap_handler nr handler idt =
    update idt nr (gate_init seg_type_sys_80386_trap_gate handler default_kernel_cs_selector)

abbrev pub trap_pf : ℕ
trap_pf = 14

-- The traps 0 to 21 in the order of their installation.
abbrev pub traps : List ℕ
traps =
    0 ∷ 1 ∷ 2 ∷ 3 ∷ 4 ∷ 5 ∷ 6 ∷ 7 ∷ 8 ∷ 9 ∷ 10 ∷ 11 ∷ 12 ∷ 13 ∷ 14 ∷ 15 ∷ 16 ∷ 17 ∷ 18 ∷ 19 ∷ 20
    ∷ 21 ∷ []

unfoldable pub install : (null_intr_handler page_fault_handler : ℕ) → List ℕ → Idt → Idt
install null_intr_handler page_fault_handler [] idt = idt
install null_intr_handler page_fault_handler (nr ∷ nrs) idt =
    install null_intr_handler page_fault_handler nrs
      (set_intr_handler nr (if nr == trap_pf then page_fault_handler else null_intr_handler) idt)

-- `idt_init`; the linker places the two handlers.
unfoldable pub idt_init : (null_intr_handler page_fault_handler : ℕ) → Idt → Idt
idt_init null_intr_handler page_fault_handler idt =
    install null_intr_handler page_fault_handler traps idt

-- struct gdt_register and struct idt_register.
pub record Register : Type 0 where
  pub size : ℕ
  pub address : ℕ

-- `GDT_SIZE`: 32 entries of 8 bytes.
abbrev pub gdt_size : ℕ
gdt_size = 32 * 8

-- `sizeof(idt)`: 32 entries of 16 bytes, with the alignment of a page.
abbrev pub idt_size : ℕ
idt_size = 4096

-- What `arch_init` sets in the processor, and the table that it fills.
pub record Cpu : Type 0 where
  pub gdtr : Register
  pub idtr : Register
  pub idt : Idt
  pub interrupts : Bool

unfoldable pub gdt_init : (gdt_at : ℕ) → Cpu → Cpu
gdt_init gdt_at c = record c { gdtr = record { size = u16 gdt_size; address = gdt_at } }

-- `idt_init` with its end, which loads the table.
unfoldable pub load_idt : (idt_at null_intr_handler page_fault_handler : ℕ) → Cpu → Cpu
load_idt idt_at null_intr_handler page_fault_handler c = record c {
  idt = idt_init null_intr_handler page_fault_handler c.idt;
  idtr = record { size = u16 idt_size; address = idt_at };
}

-- `arch_init`, whose last statement but one is `cli`; the linker places the tables and the handlers.
unfoldable pub arch_init : (gdt_at idt_at null_intr_handler page_fault_handler : ℕ) → Cpu → Cpu
arch_init gdt_at idt_at null_intr_handler page_fault_handler c =
    record (load_idt idt_at null_intr_handler page_fault_handler (gdt_init gdt_at c)) {
      interrupts = false;
    }

-- What the handlers print; after that they halt.
unfoldable pub page_fault_handler : (cr2 : ℕ) → Option Text
page_fault_handler cr2 =
    elim (kprintf (bytes "[!] kernel page fault detected at addr: %p\n") (slot cr2 ∷ [])) [
      | none ↦ none
      | some out ↦ some (out ++ kputs (bytes "[x] NO HANDLER NOW! hlting..."))
    ]

unfoldable pub null_intr_handler : Text
null_intr_handler = kputs (bytes "[x] NO handler set for CURRENT interrupt! hlting...")
