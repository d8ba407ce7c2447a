-- ===== src/Start.antt =====
-- arch/x86/boot/startup64.c and lib_boot.c: the boot stage from the entry to the call of `main`, with
-- the messages of mm_boot.c on the way, less those of an allocation that fails.
pub mod Enter
pub mod Halt
mod Tests
use sumi_os.Base.{
  ℕ, zero, suc, ◌+◌, ◌-◌, ◌/◌, ◌^◌, ◌%◌, Bool, not, Option, none, some, List, [], ◌∷◌, ◌++◌, ◌==◌,
  if◌then◌else◌, update, bytes, u64,
}
use sumi_os.Layout.{align_page, page_size, kernel_base_addr}
use sumi_os.Str.{Bytes}
use sumi_os.Tty.{Tty}
use sumi_os.TtyBoot.{boot_tty_init, boot_printstr, boot_printhex, boot_puts}
use sumi_os.PageTable.{Words}
use sumi_os.BootMem.{BootMem, nvram_read, boot_mm_detect, boot_mm_init}

abbrev boot_memset_loop : (left i dst val : ℕ) → Bytes → Bytes
boot_memset_loop zero i dst val m = m
boot_memset_loop (suc left) i dst val m =
    boot_memset_loop left (i + 1) dst val (update m (dst + i) val)

unfoldable pub boot_memset : (dst val sz : ℕ) → Bytes → Bytes
boot_memset dst val sz m = boot_memset_loop sz 0 dst val m

-- A call of `boot_printstr`, `boot_printhex` or `boot_puts`.
pub data Say : Type 0 where
  printstr : List ℕ → Say
  printhex : ℕ → Say
  puts : List ℕ → Say

abbrev pub multiboot2_bootloader_magic : ℕ
multiboot2_bootloader_magic = 0x36d76289

abbrev pub banner : List Say
banner =
    puts (bytes "Sumi OS v0.0.1")
    ∷ puts (bytes "Copyright (c) 2022 arttnba3 <arttnba@gmail.com>\n")
    ∷ puts (bytes "This is a 64-bit and toy-like OS developed by arttnba3.\n")
    ∷ puts (bytes "[*] System setting up...\n")
    ∷ []

-- The messages of `boot_mm_detect`, which are in kilobytes.
unfoldable pub boot_mm_detect_says : (cmos : ℕ → ℕ) → List Say
boot_mm_detect_says cmos =
    let total = boot_mm_detect cmos / 1024 in
    let mem_base = nvram_read cmos 0x15 in
    puts (bytes "\n\t[+] boot memory deteced done. ")
    ∷ printstr (bytes "\t[*] total: 0x")
    ∷ printhex total
    ∷ printstr (bytes "KB available, base = 0x")
    ∷ printhex mem_base
    ∷ printstr (bytes "KB, extend = 0x")
    ∷ printhex (u64 (total + 2 ^ 64 - mem_base))
    ∷ puts (bytes "KB")
    ∷ []

-- The messages of `boot_mm_init`.
unfoldable pub boot_mm_init_says : (cmos : ℕ → ℕ) → (boot_start kernel_end : ℕ) → List Say
boot_mm_init_says cmos boot_start kernel_end =
    let kernel_size = kernel_end - boot_start - kernel_base_addr in
    printstr (bytes "\n\t[*] kernel image phys mm start: 0x")
      ∷ printhex boot_start
      ∷ printstr (bytes ",  kernel image size: 0x")
      ∷ printhex kernel_size
      ∷ puts []
      ∷ boot_mm_detect_says cmos
    ++ printstr (bytes "\t[*] booting memory allocate from 0x")
      ∷ printhex (align_page (boot_start + kernel_size + page_size))
      ∷ puts []
      ∷ puts (bytes "\t[+] booting-kernel page table initialization done!")
      ∷ []

-- What the boot stage comes to: it goes back to the boot code, or into `main` with the page table,
-- the memory of the boot stage and the memory.
pub data Outcome : Type 0 where
  returned : Outcome
  entered : (table : ℕ) → BootMem → Words → Outcome

-- What the linker and the boot code place.
pub record Image : Type 0 where
  pub boot_start : ℕ
  pub roseg_end : ℕ
  pub kernel_end : ℕ
  pub boot_page_table_pud : ℕ

-- What the machine answers: on its ports, whether the memory of the color display holds what is
-- written, and the registers of the CMOS.
pub record Machine : Type 0 where
  pub inb : (n port : ℕ) → ℕ
  pub holds : Bool
  pub cmos : ℕ → ℕ

module _ (m : Machine) where
  unfoldable pub say : Say → Tty → Option Tty
  say (printstr str) s = some (boot_printstr m.inb str s)
  say (puts str) s = some (boot_puts m.inb str s)
  say (printhex n) s = elim (boot_printhex n) [
    | none ↦ none
    | some str ↦ some (boot_printstr m.inb str s)
  ]

  unfoldable pub say_all : List Say → Tty → Option Tty
  say_all [] s = some s
  say_all (x ∷ xs) s = elim (say x s) [ none ↦ none | some s' ↦ say_all xs s' ]

  -- From the check of the registers on; `none` is a digit buffer that is too short, or a mapping that
  -- the code makes without a page for its table.
  unfoldable pub startup64_checked : Image → (magic mbi : ℕ) → Words → Tty → Option (Tty × Outcome)
  startup64_checked image magic mbi word s =
      let bad_magic : Tty × Outcome =
        (boot_puts m.inb (bytes "[x] BAD BOOTLOADER MAGIC!") s, returned) in
      let unaligned : Tty × Outcome = (boot_puts m.inb (bytes "[x] UNALIGNED MBI!") s, returned) in
      let says =
        printstr (bytes "\t[+] multiboot2 magic detected: 0x")
        ∷ printhex magic
        ∷ boot_mm_init_says m.cmos image.boot_start image.kernel_end in
      let begun : Option (Tty × Outcome) = elim (say_all says s) [
        | none ↦ none
        | some s' ↦
            elim (boot_mm_init m.cmos image.boot_start image.roseg_end image.kernel_end
              image.boot_page_table_pud word) [
                | none ↦ none
                | some (table, mem, word') ↦ some (s', entered table mem word')
              ]
      ] in
      if not (magic == multiboot2_bootloader_magic)
      then some bad_magic
      else if not (mbi % 8 == 0)
      then some unaligned
      else begun

  unfoldable pub startup64 : Image → (magic mbi : ℕ) → Words → Tty → Option (Tty × Outcome)
  startup64 image magic mbi word s = elim (say_all banner (boot_tty_init m.inb m.holds s)) [
    | none ↦ none
    | some s' ↦ startup64_checked image magic mbi word s'
  ]
