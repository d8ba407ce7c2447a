-- ===== src/Interrupt/Tables.antt =====
-- What the processor reads out of the descriptors and the interrupt table.
use sumi_os.Base.{
  ℕ, ◌+◌, ◌*◌, ◌^◌, ◌%◌, ◌<◌, ◌≡◌, refl, true, false, ◌⊎◌, inl, inr, ◌==◌, ==_iff, if◌then◌else◌,
  List, [], ◌∷◌, arith, Bool-cases, ◌∙◌, ap, has, update, ◌>>◌,
}
use sumi_os.Interrupt.{
  Descriptor, descriptor_init, GateDesc, gate_init, Idt, set_intr_handler,
  seg_type_sys_80386_intr_gate, default_kernel_cs_selector, trap_pf, traps, install, idt_init,
}

-- The parts of a descriptor put together by their places.
abbrev pub base_of : Descriptor → ℕ
base_of e = e.base0 + e.base1 * 2 ^ 16 + e.base2 * 2 ^ 24

abbrev pub limit_of : Descriptor → ℕ
limit_of e = e.limit0 + e.limit1 * 2 ^ 16

abbrev pub flags_of : Descriptor → ℕ
flags_of e =
    e.kind
    + e.s * 2 ^ 4
    + e.dpl * 2 ^ 5
    + e.p * 2 ^ 7
    + e.avl * 2 ^ 12
    + e.l * 2 ^ 13
    + e.d * 2 ^ 14
    + e.g * 2 ^ 15

-- A descriptor gives back a base of 32 bits, a limit of 20 bits, and flags of 16 bits with none
-- between bits 8 and 11.
pub descriptor_init-fields :
    (base limit flags : ℕ)
    → base < 2 ^ 32
    → limit < 2 ^ 20
    → flags < 2 ^ 16
    → (flags >> 8) % 16 ≡ 0
    → (base_of (descriptor_init base limit flags) ≡ base)
      × (limit_of (descriptor_init base limit flags) ≡ limit)
      × (flags_of (descriptor_init base limit flags) ≡ flags)
unfolding descriptor_init
descriptor_init-fields base limit flags b l f gap = (omega arith, omega arith, omega arith)

-- Where a gate leads.
abbrev pub handler_of : GateDesc → ℕ
handler_of e = e.offset0 + e.offset1 * 2 ^ 16 + e.offset2 * 2 ^ 32

-- A gate that is present and leads to `handler` in the kernel, with interrupts off.
pub record LeadsTo (handler : ℕ) (e : GateDesc) : Type 0 where
  pub leads : handler_of e ≡ handler
  pub present : e.p ≡ 1
  pub in_kernel : e.selector ≡ default_kernel_cs_selector
  pub interrupts_off : e.kind ≡ seg_type_sys_80386_intr_gate

gate_init-LeadsTo :
    (handler : ℕ)
    → handler < 2 ^ 64
    → LeadsTo handler (gate_init seg_type_sys_80386_intr_gate handler default_kernel_cs_selector)
gate_init-LeadsTo handler lt = record {
  leads = omega arith;
  present = refl;
  in_kernel = refl;
  interrupts_off = refl;
}

LeadsTo-path : {handler : ℕ} {e e' : GateDesc} → e' ≡ e → LeadsTo handler e → LeadsTo handler e'
LeadsTo-path q r = record {
  leads = ap handler_of q ∙ r.leads;
  present = ap (λ e. e.p) q ∙ r.present;
  in_kernel = ap (λ e. e.selector) q ∙ r.in_kernel;
  interrupts_off = ap (λ e. e.kind) q ∙ r.interrupts_off;
}

update_at : (idt : Idt) (n nr : ℕ) (g : GateDesc) → n ≡ nr → update idt n g nr ≡ g
update_at idt n nr g e = ground (arith, e)

module _ (null page_fault : ℕ) (null_fits : null < 2 ^ 64)
    (page_fault_fits : page_fault < 2 ^ 64) where
  abbrev handler : ℕ → ℕ
  handler nr = if nr == trap_pf then page_fault else null

  abbrev gate_of : ℕ → GateDesc
  gate_of nr = gate_init seg_type_sys_80386_intr_gate (handler nr) default_kernel_cs_selector

  handler-LeadsTo : (nr : ℕ) → LeadsTo (handler nr) (gate_of nr)
  handler-LeadsTo nr = gate_init-LeadsTo (handler nr) (ground (arith, null_fits, page_fault_fits))

  installed : (n nr : ℕ) (idt : Idt) → n ≡ nr → set_intr_handler n (handler n) idt nr ≡ gate_of nr
  unfolding set_intr_handler
  installed n nr idt e = update_at idt n nr (gate_of n) e ∙ ap gate_of e

  still :
      (n : ℕ) (nrs : List ℕ) (idt : Idt) (nr : ℕ)
      → (has nr (n ∷ nrs) ≡ true) ⊎ LeadsTo (handler nr) (idt nr)
      → (n == nr) ≡ false
      → (has nr nrs ≡ true) ⊎ LeadsTo (handler nr) (set_intr_handler n (handler n) idt nr)
  unfolding set_intr_handler
  still n nrs idt nr (inl h) later = inl (ground (arith, h, later))
  still n nrs idt nr (inr done) later = inr (LeadsTo-path (ground (arith, later)) done)

  install-LeadsTo :
      (nrs : List ℕ) (idt : Idt) (nr : ℕ)
      → (has nr nrs ≡ true) ⊎ LeadsTo (handler nr) (idt nr)
      → LeadsTo (handler nr) (install null page_fault nrs idt nr)
  unfolding install set_intr_handler
  install-LeadsTo [] idt nr (inl h) = absurd (ground (arith, h))
  install-LeadsTo [] idt nr (inr done) = done
  install-LeadsTo (n ∷ nrs) idt nr h = elim (Bool-cases (n == nr)) [
    | inl now ↦
        install-LeadsTo nrs (set_intr_handler n (handler n) idt) nr
          (inr (LeadsTo-path (installed n nr idt ((==_iff n nr).0 now)) (handler-LeadsTo nr)))
    | inr later ↦
        install-LeadsTo nrs (set_intr_handler n (handler n) idt) nr (still n nrs idt nr h later)
  ]

  -- After `idt_init` each of the traps 0 to 21 leads to its handler, which are at 64-bit addresses:
  -- page faults to the one for them, and the others to the other.
  pub idt_init-LeadsTo :
      (idt : Idt) (nr : ℕ) → nr < 22 → LeadsTo (handler nr) (idt_init null page_fault idt nr)
  unfolding idt_init
  idt_init-LeadsTo idt nr lt = install-LeadsTo traps idt nr (inl (ground (arith, lt)))
