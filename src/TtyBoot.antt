-- ===== src/TtyBoot.antt =====
-- arch/x86/boot/tty_boot.c: the screen and the ports at boot. Its functions are those of
-- arch/x86/tty.c and the numerals of lib/print.c again under names of their own; what it adds is the
-- choice between the two displays.
pub mod Start
mod Tests
use sumi_os.Base.{ℕ, ◌+◌, Bool, Option, List, [], ◌∷◌, ◌++◌, if◌then◌else◌, update}
use sumi_os.Print.{kprintnum, kprinthex}
use sumi_os.Tty.{
  DisplayMode, display_mode_text, display_mode_blackwhite, Tty, set_cursor_loc, set_char,
  roll_screen_mem, clear_screen, kputchar_serial, kputchar_lpt, kputchar_cga, kputchar, put_text,
  tty_serial_init,
}

abbrev pub cga_text_vram_start : ℕ
cga_text_vram_start = 0xb8000

abbrev pub cga_blackwhite_vram_start : ℕ
cga_blackwhite_vram_start = 0xb0000

unfoldable pub boot_set_cursor_loc : ℕ → Tty → Tty
boot_set_cursor_loc cursor_loc s = set_cursor_loc cursor_loc s

unfoldable pub boot_set_char : (color val loc : ℕ) → Tty → Tty
boot_set_char color val loc s = set_char color val loc s

unfoldable pub boot_roll_screen_mem : Tty → Tty
boot_roll_screen_mem s = roll_screen_mem s

unfoldable pub boot_clear_screen : Tty → Tty
boot_clear_screen s = clear_screen s

-- The bytes that `boot_printnum` and `boot_printhex` put.
unfoldable pub boot_printnum : ℕ → Option (List ℕ)
boot_printnum n = kprintnum n

unfoldable pub boot_printhex : ℕ → Option (List ℕ)
boot_printhex n = kprinthex n

-- "[x] NO serial port, you cannot input anything!" and the end of the line.
abbrev pub no_serial_port : List ℕ
no_serial_port =
    91 ∷ b'x' ∷ 93 ∷ 32 ∷ b'N' ∷ b'O' ∷ 32 ∷ b's' ∷ b'e' ∷ b'r' ∷ b'i' ∷ b'a' ∷ b'l' ∷ 32 ∷ b'p'
    ∷ b'o' ∷ b'r' ∷ b't' ∷ 44 ∷ 32 ∷ b'y' ∷ b'o' ∷ b'u' ∷ 32 ∷ b'c' ∷ b'a' ∷ b'n' ∷ b'n' ∷ b'o'
    ∷ b't' ∷ 32 ∷ b'i' ∷ b'n' ∷ b'p' ∷ b'u' ∷ b't' ∷ 32 ∷ b'a' ∷ b'n' ∷ b'y' ∷ b't' ∷ b'h' ∷ b'i'
    ∷ b'n' ∷ b'g' ∷ 33 ∷ 10 ∷ []

-- Eight bytes of a name, as the first four cells.
abbrev pub write_name : Tty → Tty
write_name s = record s {
  text_mem = update (update (update (update s.text_mem 0 29281) 1 29812) 2 25198) 3 13153;
}

module _ (inb : (n port : ℕ) → ℕ) where
  unfoldable pub boot_putchar : ℕ → Tty → Tty
  boot_putchar ch s = kputchar inb ch s

  unfoldable pub boot_printstr : List ℕ → Tty → Tty
  boot_printstr str s = put_text inb str s

  unfoldable pub boot_puts : List ℕ → Tty → Tty
  boot_puts str s = boot_putchar 10 (boot_printstr str s)

  unfoldable pub boot_tty_serial_init : Tty → Tty
  boot_tty_serial_init s = tty_serial_init inb s

  -- `holds` tells whether the memory of the color display gives back what is written to it.
  unfoldable pub boot_tty_init : (holds : Bool) → Tty → Tty
  boot_tty_init holds s =
      let text = record (write_name s) {
        text_mem_at = cga_text_vram_start;
        display_mode = display_mode_text;
      } in
      let blackwhite = record s {
        text_mem_at = cga_blackwhite_vram_start;
        display_mode = display_mode_blackwhite;
      } in
      let s' = boot_tty_serial_init (boot_clear_screen (if holds then text else blackwhite)) in
      let told = boot_puts no_serial_port s' in if s'.serial_exists then s' else told
