-- ===== src/Tty.antt =====
-- arch/x86/tty.c and the constants of include/graphics/vga.h: the text screen, the serial port and the
-- parallel port. What the machine answers on a port is a parameter; what is written to the ports is
-- kept, the last write first.
pub mod Screen
pub mod Cursor
pub mod Text
pub mod Place
mod Tests
use sumi_os.Base.{
  ℕ, zero, suc, ◌+◌, ◌-◌, ◌*◌, ◌/◌, ◌%◌, ◌^◌, Bool, not, List, [], ◌∷◌, ◌==◌, leb, ltb,
  if◌then◌else◌, update, u8, u16, bit_and, bit_or, ◌<<◌, ◌>>◌,
}
use sumi_os.Layout.{phys_to_kernel_direct_mapping_addr}

pub data DisplayMode : Type 0 where
  display_mode_blackwhite display_mode_text : DisplayMode

abbrev pub cga_text_columns : ℕ
cga_text_columns = 80

abbrev pub cga_text_size : ℕ
cga_text_size = 2000

-- White on black.
abbrev pub cga_text_color_default : ℕ
cga_text_color_default = 15

abbrev pub com_serial_base : ℕ
com_serial_base = 0x3f8

abbrev pub com_serial_lsr : ℕ
com_serial_lsr = com_serial_base + 5

-- The macro adds the port's base to the bit.
abbrev pub com_serial_lsr_tx_ready : ℕ
com_serial_lsr_tx_ready = com_serial_base + 0x20

abbrev pub com_serial_lcr_dlab : ℕ
com_serial_lcr_dlab = com_serial_base + 0x80

pub record Tty : Type 0 where
  pub text_mem : ℕ → ℕ  -- the cells of the screen, by their index
  pub text_mem_at : ℕ  -- where `text_mem` points
  pub cursor_loc : ℕ
  pub display_mode : DisplayMode
  pub serial_exists : Bool
  pub reads : ℕ  -- the reads of ports so far
  pub out : List (ℕ × ℕ)  -- the writes, a port and a byte each

unfoldable pub outb : ℕ → ℕ → Tty → Tty
outb port val s = record s { out = (port, u8 val) ∷ s.out }

abbrev pub crtc_address : DisplayMode → ℕ
crtc_address display_mode_blackwhite = 0x3b4
crtc_address display_mode_text = 0x3d4

-- Both ways to set the cursor: the high byte into register 14, the low byte into register 15.
unfoldable pub set_cursor_loc : ℕ → Tty → Tty
set_cursor_loc cursor_loc s =
    let address = crtc_address s.display_mode in
    outb (address + 1) (cursor_loc % 256)
      (outb address 0xf (outb (address + 1) (cursor_loc >> 8) (outb address 0xe s)))

abbrev pub cell : (color val : ℕ) → ℕ
cell color val = u16 (bit_or (color << 8) (u8 val))

abbrev pub blank : ℕ
blank = cell cga_text_color_default b' '

unfoldable pub set_char : (color val loc : ℕ) → Tty → Tty
set_char color val loc s = record s { text_mem = update s.text_mem loc (cell color val) }

-- The first loop of `roll_screen_mem`: `left` rounds, from index `i` on.
unfoldable pub roll_loop : (left i : ℕ) → (ℕ → ℕ) → ℕ → ℕ
roll_loop zero i mem = mem
roll_loop (suc left) i mem = roll_loop left (i + 1) (update mem (i - cga_text_columns) (mem i))

-- A loop that sets `left` cells, from index `i` on, to blanks.
unfoldable pub blank_loop : (left i : ℕ) → (ℕ → ℕ) → ℕ → ℕ
blank_loop zero i mem = mem
blank_loop (suc left) i mem = blank_loop left (i + 1) (update mem i blank)

unfoldable pub roll_screen_mem : Tty → Tty
roll_screen_mem s = record s {
  text_mem =
      blank_loop cga_text_columns (cga_text_size - cga_text_columns)
        (roll_loop (cga_text_size - cga_text_columns) cga_text_columns s.text_mem);
}

unfoldable pub clear_screen : Tty → Tty
clear_screen s =
    record (set_cursor_loc 0 (record s { text_mem = blank_loop cga_text_size 0 s.text_mem })) {
      cursor_loc = 0;
    }

-- The `switch` of `__kputchar_cga` but its tab.
unfoldable pub place : (color ch : ℕ) → Tty → Tty
place color ch s =
    let down = u16 (s.cursor_loc + cga_text_columns) in
    let left = if s.cursor_loc % cga_text_columns == 0 then s.cursor_loc else s.cursor_loc - 1 in
    let s' = set_char color ch s.cursor_loc s in
    if ch == 10
    then record s { cursor_loc = down - down % cga_text_columns }
    else if ch == 13
    then record s { cursor_loc = s.cursor_loc - s.cursor_loc % cga_text_columns }
    else if ch == 8
    then record s { cursor_loc = left }
    else record s' { cursor_loc = u16 (s.cursor_loc + 1) }

-- The end of `__kputchar_cga`: scroll if the cursor has left the screen, and show the cursor.
unfoldable pub settle : Tty → Tty
settle s =
    let rolled = record (roll_screen_mem s) { cursor_loc = cga_text_size - cga_text_columns } in
    let s' = if leb cga_text_size s.cursor_loc then rolled else s in set_cursor_loc s'.cursor_loc s'

-- `inb n port` is the byte that the machine answers to read `n`, which is from `port`.
module _ (inb : (n port : ℕ) → ℕ) where
  unfoldable pub read : ℕ → Tty → ℕ × Tty
  read port s = (u8 (inb s.reads port), record s { reads = s.reads + 1 })

  -- Both ways to ask for the cursor; nothing calls them.
  unfoldable pub get_cursor_loc : Tty → ℕ × Tty
  get_cursor_loc s =
      let address = crtc_address s.display_mode in
      let (high, s1) = read (address + 1) (outb address 0xe s) in
      let (low, s2) = read (address + 1) (outb address 0xf s1) in (bit_or (high << 8) low, s2)

  unfoldable pub kputchar_delay : Tty → Tty
  kputchar_delay s = (read 0x84 (read 0x84 (read 0x84 (read 0x84 s).1).1).1).1

  -- The waiting loops: until a bit of `mask` is set on `port`, and for at most `left` delays.
  unfoldable pub wait : (left port mask : ℕ) → Tty → Tty
  wait zero port mask s = (read port s).1
  wait (suc left) port mask s =
      let (status, s') = read port s in
      let rest = wait left port mask (kputchar_delay s') in
      if bit_and status mask == 0 then rest else s'

  unfoldable pub kputchar_serial : (color ch : ℕ) → Tty → Tty
  kputchar_serial color ch s =
      outb com_serial_base (bit_or (color << 8) ch)
        (wait 12800 com_serial_lsr com_serial_lsr_tx_ready s)

  unfoldable pub kputchar_lpt : (color ch : ℕ) → Tty → Tty
  kputchar_lpt color ch s =
      outb 0x37a 8 (outb 0x37a 13 (outb 0x378 (bit_or (color << 8) ch) (wait 12800 0x379 0x80 s)))

  -- `kputchar` of a byte that is no tab.
  unfoldable pub kputchar_plain : (color ch : ℕ) → Tty → Tty
  kputchar_plain color ch s =
      settle (place color ch (kputchar_lpt color ch (kputchar_serial color ch s)))

  abbrev pub put_space : Tty → Tty
  put_space s = kputchar_plain cga_text_color_default b' ' s

  -- A tab is four spaces, each put by a call of `kputchar`.
  unfoldable pub kputchar_cga : (color ch : ℕ) → Tty → Tty
  kputchar_cga color ch s =
      let tab = settle (put_space (put_space (put_space (put_space s)))) in
      let plain = settle (place color ch s) in if ch == 9 then tab else plain

  unfoldable pub kputchar : ℕ → Tty → Tty
  kputchar ch s =
      let color = cga_text_color_default in
      kputchar_cga color ch (kputchar_lpt color ch (kputchar_serial color ch s))

  -- A text through `kputchar`, byte by byte.
  unfoldable pub put_text : List ℕ → Tty → Tty
  put_text [] s = s
  put_text (ch ∷ str) s = put_text str (kputchar ch s)

  unfoldable pub tty_serial_init : Tty → Tty
  tty_serial_init s =
      let s1 = outb (com_serial_base + 2) 0 s in
      let s2 = outb (com_serial_base + 3) com_serial_lcr_dlab s1 in
      let s3 = outb com_serial_base (115200 / 9600) s2 in
      let s4 = outb (com_serial_base + 1) 0 s3 in
      let s5 =
        outb (com_serial_base + 3)
          (bit_and (com_serial_base + 3) (2 ^ 32 - 1 - com_serial_lcr_dlab)) s4 in
      let s6 = outb (com_serial_base + 4) 0 s5 in
      let s7 = outb (com_serial_base + 1) (com_serial_base + 1) s6 in
      let (status, s8) = read com_serial_lsr s7 in
      let s9 = record s8 { serial_exists = not (status == 0xff) } in
      (read com_serial_base (read (com_serial_base + 2) s9).1).1

-- `tty_init` takes over the state of the boot stage, and sees the screen through the direct mapping.
unfoldable pub tty_init : (boot : Tty) → Tty
tty_init boot = record boot { text_mem_at = phys_to_kernel_direct_mapping_addr boot.text_mem_at }
