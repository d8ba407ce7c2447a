-- ===== src/TtyBoot/Start.antt =====
-- The state in which the boot stage leaves the text screen, and in which arch/x86/tty.c takes it over.
use sumi_os.Base.{ℕ, ◌+◌, ◌≡◌, refl, ◌<◌, Bool, true, false, arith, if◌then◌else◌, List, ◌∷◌}
use sumi_os.Layout.{kernel_direct_mapping_area, phys_to_kernel_direct_mapping_addr}
use sumi_os.Tty.Place.{
  SameDisplay, SameDisplay-trans, if-SameDisplay, clear_screen-SameDisplay, put_text-SameDisplay,
  kputchar-SameDisplay, tty_serial_init-SameDisplay,
}
use sumi_os.Tty.{
  DisplayMode, display_mode_text, display_mode_blackwhite, Tty, outb, read, clear_screen, put_text,
  tty_serial_init, tty_init,
}
use sumi_os.Tty.Cursor.{kputchar-IsSettled, put_text-IsSettled}
use sumi_os.TtyBoot.{
  write_name, cga_text_vram_start, cga_blackwhite_vram_start, boot_tty_init, no_serial_port,
  boot_puts, boot_putchar, boot_printstr, boot_clear_screen, boot_tty_serial_init,
}

abbrev pub OnScreen : Tty → Type 0
OnScreen s = s.cursor_loc < 2000

OnScreen-if : (b : Bool) (s t : Tty) → OnScreen s → OnScreen t → OnScreen (if b then s else t)
OnScreen-if true s t x y = x
OnScreen-if false s t x y = y

abbrev found_color : Tty → Tty
found_color s = record (write_name s) {
  text_mem_at = cga_text_vram_start;
  display_mode = display_mode_text;
}

abbrev found_blackwhite : Tty → Tty
found_blackwhite s = record s {
  text_mem_at = cga_blackwhite_vram_start;
  display_mode = display_mode_blackwhite;
}

-- Where the memory of the display is in the direct mapping area, and the mode of the display.
abbrev pub display_at : (holds : Bool) → ℕ
display_at holds = kernel_direct_mapping_area + (if holds then 0xb8000 else 0xb0000)

abbrev pub mode_of : (holds : Bool) → DisplayMode
mode_of holds = if holds then display_mode_text else display_mode_blackwhite

-- The screen in `t`, taken over from the boot stage that began with `s`.
pub record IsTaken (inb : (n port : ℕ) → ℕ) (holds : Bool) (s t : Tty) : Type 0 where
  pub at : t.text_mem_at ≡ display_at holds
  pub mode : t.display_mode ≡ mode_of holds
  pub cells : t.text_mem ≡ (boot_tty_init inb holds s).text_mem
  pub on_screen : OnScreen t

taken-at :
    (holds : Bool) (s t : Tty)
    → SameDisplay (if holds then found_color s else found_blackwhite s) t
    → (phys_to_kernel_direct_mapping_addr t.text_mem_at ≡ display_at holds)
      × (t.display_mode ≡ mode_of holds)
taken-at true s t d = (rw d.same_at refl, d.same_mode)
taken-at false s t d = (rw d.same_at refl, d.same_mode)

module _ (inb : (n port : ℕ) → ℕ) where
  serial-OnScreen : (s : Tty) → OnScreen (tty_serial_init inb (clear_screen s))
  unfolding tty_serial_init clear_screen read outb
  serial-OnScreen s = omega arith

  boot_puts-OnScreen :
      (ch : ℕ) (str : List ℕ) (s : Tty) → OnScreen s → OnScreen (boot_puts inb (ch ∷ str) s)
  unfolding boot_puts boot_putchar boot_printstr
  boot_puts-OnScreen ch str s on =
      let said = put_text-IsSettled inb ch str s on in
      (kputchar-IsSettled inb 10 (put_text inb (ch ∷ str) s) said.on_screen).on_screen

  pub boot_tty_init-OnScreen : (holds : Bool) (s : Tty) → OnScreen (boot_tty_init inb holds s)
  unfolding boot_tty_init boot_tty_serial_init boot_clear_screen
  boot_tty_init-OnScreen holds s =
      OnScreen-if _ _ _ (serial-OnScreen _) (boot_puts-OnScreen _ _ _ (serial-OnScreen _))

  boot_puts-SameDisplay : (str : List ℕ) (s : Tty) → SameDisplay s (boot_puts inb str s)
  unfolding boot_puts boot_putchar boot_printstr
  boot_puts-SameDisplay str s =
      SameDisplay-trans (put_text-SameDisplay inb str s)
        (kputchar-SameDisplay inb 10 (put_text inb str s))

  -- The display that is found stays the one in use.
  boot_tty_init-SameDisplay :
      (holds : Bool) (s : Tty)
      → SameDisplay
          (if holds then found_color s else found_blackwhite s)
          (boot_tty_init inb holds s)
  unfolding boot_tty_init boot_tty_serial_init boot_clear_screen
  boot_tty_init-SameDisplay holds s =
      let found : Tty = if holds then found_color s else found_blackwhite s in
      let s' = tty_serial_init inb (clear_screen found) in
      let set_up : SameDisplay found s' =
        SameDisplay-trans (clear_screen-SameDisplay found)
          (tty_serial_init-SameDisplay inb (clear_screen found)) in
      if-SameDisplay s'.serial_exists found s' (boot_puts inb no_serial_port s') set_up
        (SameDisplay-trans set_up (boot_puts-SameDisplay no_serial_port s'))

  -- Whichever display there is, and whatever the ports answer, `tty_init` takes over the screen that
  -- the boot stage has set up: its memory is that of the display that was found, at its place in the
  -- direct mapping area, with the cells as the boot stage left them, and the cursor is on it.
  pub tty_init-IsTaken :
      (holds : Bool) (s : Tty) → IsTaken inb holds s (tty_init (boot_tty_init inb holds s))
  unfolding tty_init
  tty_init-IsTaken holds s =
      let (at, mode) = taken-at holds s _ (boot_tty_init-SameDisplay holds s) in
      record { at = at; mode = mode; cells = refl; on_screen = boot_tty_init-OnScreen holds s }
