-- ===== src/Interrupt/Handlers.antt =====
-- What `arch_init` leaves the processor with, and what the page fault handler prints.
use sumi_os.Base.{
  ℕ, ◌*◌, ◌^◌, ◌<◌, ◌≤◌, ◌≡◌, refl, false, if◌then◌else◌, ◌==◌, some, [], ◌∷◌, ◌++◌, arith, bytes,
}
use sumi_os.Print.{Text, slot, kputs, kprintf, kprintf_loop, kprinthex, convert, with_slot}
use sumi_os.Print.Digits.{IsHexadecimal, kprinthex-IsHexadecimal}
use sumi_os.Print.Format.{kprintf-append}
use sumi_os.Interrupt.{trap_pf, gdt_init, Cpu, load_idt, arch_init, page_fault_handler}
use sumi_os.Interrupt.Tables.{LeadsTo, idt_init-LeadsTo}

kprintf-pointer :
    (n : ℕ) (out : Text)
    → kprinthex n ≡ some out
    → kprintf (bytes "%p\n") (slot n ∷ []) ≡ some (bytes "0x" ++ out ++ bytes "\n")
unfolding kprintf kprintf_loop convert with_slot
kprintf-pointer n out e = ground (arith, e)

-- A page fault at any 64-bit address is reported with the hexadecimal digits of that address.
pub page_fault_handler-IsHexadecimal :
    (cr2 : ℕ)
    → cr2 < 2 ^ 64
    → (digits : Text) × IsHexadecimal cr2 digits
      × (page_fault_handler cr2
          ≡ some (
              (bytes "[!] kernel page fault detected at addr: "
                ++ (bytes "0x" ++ digits ++ bytes "\n"))
              ++ kputs (bytes "[x] NO HANDLER NOW! hlting...")))
unfolding page_fault_handler
page_fault_handler-IsHexadecimal cr2 lt =
    let (digits, numeral, e) = kprinthex-IsHexadecimal cr2 lt in
    let printed =
      kprintf-append (bytes "[!] kernel page fault detected at addr: ") (bytes "%p\n")
        (slot cr2 ∷ []) refl in
    (digits, numeral, rw (printed, page_fault_handler) (rw (kprintf-pointer cr2 digits e) refl))

-- The registers hold the tables, with at least the entries that the kernel fills, the interrupts are
-- off, and each trap leads to its handler.
pub record IsSetUp (gdt_at idt_at null page_fault : ℕ) (c : Cpu) : Type 0 where
  pub gdt : (c.gdtr.address ≡ gdt_at) × (6 * 8 ≤ c.gdtr.size)
  pub idt : (c.idtr.address ≡ idt_at) × (22 * 16 ≤ c.idtr.size)
  pub off : c.interrupts ≡ false
  pub leads : (nr : ℕ) → nr < 22 → LeadsTo (if nr == trap_pf then page_fault else null) (c.idt nr)

-- After `arch_init` the registers hold the two tables, the interrupts are off, and the page fault
-- leads to its handler, as the other 21 traps do to theirs; handlers have 64-bit addresses.
pub arch_init-IsSetUp :
    (gdt_at idt_at null page_fault : ℕ) (c : Cpu)
    → null < 2 ^ 64
    → page_fault < 2 ^ 64
    → IsSetUp gdt_at idt_at null page_fault (arch_init gdt_at idt_at null page_fault c)
unfolding arch_init load_idt gdt_init
arch_init-IsSetUp gdt_at idt_at null page_fault c low low' = record {
  gdt = (refl, omega arith);
  idt = (refl, omega arith);
  off = refl;
  leads = λ nr lt. idt_init-LeadsTo null page_fault low low' c.idt nr lt;
}
