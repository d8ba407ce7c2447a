-- ===== src/Interrupt/Tests.antt =====
-- The descriptor and interrupt tables at concrete addresses.
use sumi_os.Base.{ℕ, ◌≡◌, refl, true, arith}
use sumi_os.Interrupt.Handlers.{IsSetUp, arch_init-IsSetUp}
use sumi_os.Interrupt.{descriptor_init, Idt, gate_init, gdt, Cpu, arch_init}
use sumi_os.Interrupt.Tables.{base_of, limit_of, flags_of, descriptor_init-fields}

descriptor_init-fields_example :
    (base_of (descriptor_init 0x12345678 0xfffff 0xa09b) ≡ 0x12345678)
    × (limit_of (descriptor_init 0x12345678 0xfffff 0xa09b) ≡ 0xfffff)
    × (flags_of (descriptor_init 0x12345678 0xfffff 0xa09b) ≡ 0xa09b)
descriptor_init-fields_example =
    descriptor_init-fields 0x12345678 0xfffff 0xa09b (omega arith) (omega arith) (omega arith) refl

-- The kernel's code segment is present, for 64 bits, and of privilege 0.
kernel_cs : ((gdt 1).p ≡ 1) × ((gdt 1).l ≡ 1) × ((gdt 1).dpl ≡ 0)
unfolding gdt descriptor_init
kernel_cs = (refl, refl, refl)

abbrev no_gates : Idt
no_gates nr = gate_init 0 0 0

abbrev null : ℕ
null = 0xffff_ffff_8100_1000

abbrev page_fault : ℕ
page_fault = 0xffff_ffff_8100_2000

abbrev at_reset : Cpu
at_reset = record {
  gdtr = record { size = 0; address = 0 };
  idtr = record { size = 0; address = 0 };
  idt = no_gates;
  interrupts = true;
}

arch_init-IsSetUp_example :
    IsSetUp 0xffff_ffff_8120_0000 0xffff_ffff_8121_0000 null page_fault
      (arch_init 0xffff_ffff_8120_0000 0xffff_ffff_8121_0000 null page_fault at_reset)
arch_init-IsSetUp_example =
    arch_init-IsSetUp 0xffff_ffff_8120_0000 0xffff_ffff_8121_0000 null page_fault at_reset
      (omega arith) (omega arith)
