-- ===== src/TtyBoot/Tests.antt =====
-- The boot of a machine with the black and white display and no serial port.
use sumi_os.Base.{ℕ, true, false, []}
use sumi_os.Tty.{Tty, display_mode_text, tty_init}
use sumi_os.TtyBoot.{boot_tty_init}
use sumi_os.TtyBoot.Start.{IsTaken, tty_init-IsTaken}

abbrev absent : (n port : ℕ) → ℕ
absent n port = 0xff

abbrev before_boot : Tty
before_boot = record {
  text_mem = λ a. 0;
  text_mem_at = 0;
  cursor_loc = 0xffff;
  display_mode = display_mode_text;
  serial_exists = true;
  reads = 0;
  out = [];
}

tty_init-IsTaken_example :
    IsTaken absent false before_boot (tty_init (boot_tty_init absent false before_boot))
tty_init-IsTaken_example = tty_init-IsTaken absent false before_boot
