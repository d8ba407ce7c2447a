-- ===== src/Start/Enter.antt =====
-- The boot stage enters `main` with the kernel mapped, or goes back to the boot code with a message.
use sumi_os.Base.{
  ℕ, ◌+◌, ◌-◌, ◌*◌, ◌%◌, ◌^◌, ◌<◌, ◌≤◌, ◌≡◌, refl, true, some, List, [], ◌∷◌, ◌++◌, ◌==◌, arith,
  bytes,
}
use sumi_os.Layout.{kernel_base_addr}
use sumi_os.Print.Digits.{kprinthex-IsHexadecimal}
use sumi_os.Tty.{Tty, put_text}
use sumi_os.Tty.Cursor.{kputchar-IsSettled}
use sumi_os.TtyBoot.{boot_tty_init, boot_putchar, boot_printstr, boot_printhex, boot_puts}
use sumi_os.TtyBoot.Start.{OnScreen, boot_tty_init-OnScreen}
use sumi_os.PageTable.{Words}
use sumi_os.BootMem.{BootMem, boot_mm_detect, boot_mm_init}
use sumi_os.PageTable.Tree.{IsTree}
use sumi_os.BootMem.Built.{IsBuilt}
use sumi_os.BootMem.Kernel.{IsKernelMap, read_only, writable}
use sumi_os.BootMem.Boot.{boot_mm_init-IsKernelMap, nvram_read-bound, boot_mm_detect-bound}
use sumi_os.Start.{
  Say, printstr, printhex, puts, multiboot2_bootloader_magic, banner, boot_mm_detect_says,
  boot_mm_init_says, Outcome, entered, Image, Machine, say, say_all, startup64_checked, startup64,
}

-- The numbers that are printed are 64-bit ones.
abbrev IsSayable : List Say → Type 0
IsSayable [] = Unit {0}
IsSayable (printstr str ∷ xs) = IsSayable xs
IsSayable (puts str ∷ xs) = IsSayable xs
IsSayable (printhex n ∷ xs) = (n < 2 ^ 64) × IsSayable xs

IsSayable-append : (xs ys : List Say) → IsSayable xs → IsSayable ys → IsSayable (xs ++ ys)
IsSayable-append [] ys a b = b
IsSayable-append (printstr str ∷ xs) ys a b = IsSayable-append xs ys a b
IsSayable-append (puts str ∷ xs) ys a b = IsSayable-append xs ys a b
IsSayable-append (printhex n ∷ xs) ys a b = (a.0, IsSayable-append xs ys a.1 b)

module _ (m : Machine) where
  put_text-OnScreen : (str : List ℕ) (s : Tty) → OnScreen s → OnScreen (put_text m.inb str s)
  unfolding put_text
  put_text-OnScreen [] s on = on
  put_text-OnScreen (ch ∷ str) s on =
      put_text-OnScreen str _ (kputchar-IsSettled m.inb ch s on).on_screen

  boot_puts-OnScreen : (str : List ℕ) (s : Tty) → OnScreen s → OnScreen (boot_puts m.inb str s)
  unfolding boot_puts boot_putchar boot_printstr
  boot_puts-OnScreen str s on =
      (kputchar-IsSettled m.inb 10 (put_text m.inb str s) (put_text-OnScreen str s on)).on_screen

  boot_printstr-OnScreen :
      (str : List ℕ) (s : Tty) → OnScreen s → OnScreen (boot_printstr m.inb str s)
  unfolding boot_printstr
  boot_printstr-OnScreen str s on = put_text-OnScreen str s on

  boot_printhex-some : (n : ℕ) → n < 2 ^ 64 → (str : List ℕ) × (boot_printhex n ≡ some str)
  unfolding boot_printhex
  boot_printhex-some n lt = let (str, numeral, e) = kprinthex-IsHexadecimal n lt in (str, e)

  -- Messages are printed, and leave the cursor on the screen.
  say_all-OnScreen :
      (xs : List Say) (s : Tty)
      → IsSayable xs
      → OnScreen s
      → (s' : Tty) × (say_all m xs s ≡ some s') × OnScreen s'
  unfolding say_all say
  say_all-OnScreen [] s sayable on = (s, refl, on)
  say_all-OnScreen (printstr str ∷ xs) s sayable on =
      say_all-OnScreen xs (boot_printstr m.inb str s) sayable (boot_printstr-OnScreen str s on)
  say_all-OnScreen (puts str ∷ xs) s sayable on =
      say_all-OnScreen xs (boot_puts m.inb str s) sayable (boot_puts-OnScreen str s on)
  say_all-OnScreen (printhex n ∷ xs) s sayable on =
      let (str, e) = boot_printhex-some n sayable.0 in
      let (s', runs, on') =
        say_all-OnScreen xs (boot_printstr m.inb str s) sayable.1
          (boot_printstr-OnScreen str s on) in
      (s', rw (e, say_all) runs, on')

  boot_mm_init_says-IsSayable :
      (boot_start kernel_end : ℕ)
      → boot_start < 2 ^ 64
      → kernel_end < 2 ^ 64
      → IsSayable (boot_mm_init_says m.cmos boot_start kernel_end)
  unfolding boot_mm_init_says boot_mm_detect_says
  boot_mm_init_says-IsSayable boot_start kernel_end low low' =
      let total = boot_mm_detect-bound m.cmos in
      let base = nvram_read-bound m.cmos 0x15 in
      (
        low,
        (
          omega arith,
          (omega (arith, total), (omega (arith, base), (omega arith, (omega arith, tt)))),
        ),
      )

  -- The banner is printed on a screen that is set up.
  greeted :
      (s : Tty)
      → (s' : Tty) × (say_all m banner (boot_tty_init m.inb m.holds s) ≡ some s') × OnScreen s'
  greeted s =
      say_all-OnScreen banner (boot_tty_init m.inb m.holds s) tt
        (boot_tty_init-OnScreen m.inb m.holds s)

  module _ (image : Image) (magic mbi : ℕ) (word : Words) where
    startup64-checked :
        (s s' s'' : Tty) (o : Outcome)
        → say_all m banner (boot_tty_init m.inb m.holds s) ≡ some s'
        → startup64_checked m image magic mbi word s' ≡ some (s'', o)
        → startup64 m image magic mbi word s ≡ some (s'', o)
    unfolding startup64
    startup64-checked s s' s'' o e e' = rw (e, startup64) e'

    checked-entered :
        (s : Tty) (table : ℕ) (mem : BootMem) (word' : Words)
        → OnScreen s
        → magic ≡ multiboot2_bootloader_magic
        → mbi % 8 ≡ 0
        → image.boot_start < 2 ^ 64
        → image.kernel_end < 2 ^ 64
        → boot_mm_init m.cmos image.boot_start image.roseg_end image.kernel_end
            image.boot_page_table_pud word
          ≡ some (table, mem, word')
        → (s' : Tty) × (startup64_checked m image magic mbi word s
            ≡ some (s', entered table mem word'))
          × OnScreen s'
    unfolding startup64_checked
    checked-entered s table mem word' on good aligned low low' e =
        let says = boot_mm_init_says m.cmos image.boot_start image.kernel_end in
        let (s', runs, on') =
          say_all-OnScreen
            (printstr (bytes "\t[+] multiboot2 magic detected: 0x") ∷ printhex magic ∷ says) s
            (
              omega (arith, good),
              boot_mm_init_says-IsSayable image.boot_start image.kernel_end low low',
            )
            on in
        let good' : (magic == multiboot2_bootloader_magic) ≡ true = ground (arith, good) in
        let aligned' : (mbi % 8 == 0) ≡ true = ground (arith, aligned) in
        (
          s',
          rw (good', aligned') (rw (runs, startup64_checked) (rw (e, startup64_checked) refl)),
          on',
        )

    -- With the magic number of the boot loader, aligned information, enough memory, and tables that
    -- are well formed and lie below the end of the image, the boot stage enters `main`, with the
    -- cursor on the screen and the kernel's page table behind the image; the walks of that find the
    -- pages of the image and the first ten megabytes of the direct mapping area. But for the first
    -- entry of its root the tables are well formed, the other roots are as they were, and `n` pages
    -- are left. The image ends below the last page of the address space.
    pub startup64-entered :
        (s : Tty) (level : ℕ → ℕ) (n : ℕ)
        → magic ≡ multiboot2_bootloader_magic
        → mbi % 8 ≡ 0
        → IsTree 0 level word
        → ((q : ℕ) → image.kernel_end - kernel_base_addr + 4096 ≤ q → level q ≡ 0)
        → image.boot_start + kernel_base_addr ≤ image.kernel_end
        → image.roseg_end ≤ image.kernel_end
        → image.kernel_end + 4096 ≤ 2 ^ 64
        → let ro = read_only image.roseg_end in
          let more = writable image.roseg_end image.kernel_end in
          image.kernel_end - kernel_base_addr + 4096 * (3 + 3 * (ro + (more + 2560)) + n)
            ≤ boot_mm_detect m.cmos
          → (s' : Tty) × (table : ℕ) × (mem : BootMem) × (word' : Words) × (startup64 m image magic
                mbi word s
              ≡ some (s', entered table mem word'))
            × OnScreen s'
            × (image.kernel_end - kernel_base_addr + 4096 ≤ table)
            × IsKernelMap (ro + more) table word'
            × IsBuilt level word (boot_mm_detect m.cmos) table n image.boot_page_table_pud mem word'
    startup64-entered s level n good aligned tree no_table above ordered top enough =
        let (table, mem, word', e, behind, map, built) =
          boot_mm_init-IsKernelMap m.cmos image.boot_start image.roseg_end image.kernel_end
            image.boot_page_table_pud word level n tree no_table above ordered top enough in
        let (s1, e1, on) = greeted s in
        let (s2, e2, on') =
          checked-entered s1 table mem word' on good aligned (omega (arith, above, top))
            (omega (arith, top)) e in
        (
          s2,
          table,
          mem,
          word',
          startup64-checked s s1 s2 (entered table mem word') e1 e2,
          on',
          behind,
          map,
          built,
        )
