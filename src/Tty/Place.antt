-- ===== src/Tty/Place.antt =====
-- Printing leaves alone where the memory of the screen is, and which display it is.
use sumi_os.Base.{
  ℕ, zero, suc, ◌≡◌, refl, Bool, true, false, List, [], ◌∷◌, ◌==◌, arith, if◌then◌else◌, ◌∙◌,
  bit_and,
}
use sumi_os.Tty.{
  Tty, outb, set_cursor_loc, set_char, place, settle, read, kputchar_delay, wait, kputchar_serial,
  kputchar_lpt, kputchar_plain, kputchar_cga, kputchar, put_text, roll_screen_mem, clear_screen,
  tty_serial_init,
}

pub record SameDisplay (s t : Tty) : Type 0 where
  pub same_at : t.text_mem_at ≡ s.text_mem_at
  pub same_mode : t.display_mode ≡ s.display_mode

pub SameDisplay-trans : {s t u : Tty} → SameDisplay s t → SameDisplay t u → SameDisplay s u
SameDisplay-trans a b = record {
  same_at = b.same_at ∙ a.same_at;
  same_mode = b.same_mode ∙ a.same_mode;
}

pub if-SameDisplay :
    (b : Bool) (s t u : Tty)
    → SameDisplay s t
    → SameDisplay s u
    → SameDisplay s (if b then t else u)
if-SameDisplay true s t u a c = a
if-SameDisplay false s t u a c = c

settle-SameDisplay : (s : Tty) → SameDisplay s (settle s)
unfolding settle roll_screen_mem set_cursor_loc outb
settle-SameDisplay s = record { same_at = ground arith; same_mode = ground arith }

place-SameDisplay : (color ch : ℕ) (s : Tty) → SameDisplay s (place color ch s)
unfolding place set_char
place-SameDisplay color ch s = record { same_at = ground arith; same_mode = ground arith }

outb-SameDisplay : (port val : ℕ) (s : Tty) → SameDisplay s (outb port val s)
unfolding outb
outb-SameDisplay port val s = record { same_at = refl; same_mode = refl }

pub clear_screen-SameDisplay : (s : Tty) → SameDisplay s (clear_screen s)
unfolding clear_screen set_cursor_loc outb
clear_screen-SameDisplay s = record { same_at = refl; same_mode = refl }

module _ (inb : (n port : ℕ) → ℕ) where
  delay-SameDisplay : (s : Tty) → SameDisplay s (kputchar_delay inb s)
  unfolding kputchar_delay read
  delay-SameDisplay s = record { same_at = refl; same_mode = refl }

  read-SameDisplay : (port : ℕ) (s : Tty) → SameDisplay s (read inb port s).1
  unfolding read
  read-SameDisplay port s = record { same_at = refl; same_mode = refl }

  wait-SameDisplay : (left port mask : ℕ) (s : Tty) → SameDisplay s (wait inb left port mask s)
  unfolding wait
  wait-SameDisplay zero port mask s = read-SameDisplay port s
  wait-SameDisplay (suc left) port mask s =
      let s' = (read inb port s).1 in
      if-SameDisplay (bit_and (read inb port s).0 mask == 0) s
        (wait inb left port mask (kputchar_delay inb s')) s'
        (SameDisplay-trans (read-SameDisplay port s) (
          SameDisplay-trans (delay-SameDisplay s')
            (wait-SameDisplay left port mask (kputchar_delay inb s'))))
        (read-SameDisplay port s)

  ports-SameDisplay :
      (color ch : ℕ) (s : Tty)
      → SameDisplay s (kputchar_lpt inb color ch (kputchar_serial inb color ch s))
  unfolding kputchar_serial kputchar_lpt
  ports-SameDisplay color ch s = SameDisplay-trans (wait-SameDisplay 12800 _ _ s) (
      SameDisplay-trans (outb-SameDisplay _ _ _) (
        SameDisplay-trans (wait-SameDisplay 12800 _ _ _) (
          SameDisplay-trans (outb-SameDisplay _ _ _)
            (SameDisplay-trans (outb-SameDisplay _ _ _) (outb-SameDisplay _ _ _)))))

  plain-SameDisplay : (color ch : ℕ) (s : Tty) → SameDisplay s (kputchar_plain inb color ch s)
  unfolding kputchar_plain
  plain-SameDisplay color ch s =
      SameDisplay-trans (ports-SameDisplay color ch s)
        (SameDisplay-trans (place-SameDisplay color ch _) (settle-SameDisplay _))

  pub kputchar-SameDisplay : (ch : ℕ) (s : Tty) → SameDisplay s (kputchar inb ch s)
  unfolding kputchar kputchar_cga
  kputchar-SameDisplay ch s =
      let t = kputchar_lpt inb 15 ch (kputchar_serial inb 15 ch s) in
      SameDisplay-trans (ports-SameDisplay 15 ch s) (
        if-SameDisplay (ch == 9) t _ _
          (SameDisplay-trans (plain-SameDisplay 15 32 t) (
            SameDisplay-trans (plain-SameDisplay 15 32 _) (
              SameDisplay-trans (plain-SameDisplay 15 32 _)
                (SameDisplay-trans (plain-SameDisplay 15 32 _) (settle-SameDisplay _)))))
          (SameDisplay-trans (place-SameDisplay 15 ch t) (settle-SameDisplay _)))

  pub put_text-SameDisplay : (str : List ℕ) (s : Tty) → SameDisplay s (put_text inb str s)
  unfolding put_text
  put_text-SameDisplay [] s = record { same_at = refl; same_mode = refl }
  put_text-SameDisplay (ch ∷ str) s =
      SameDisplay-trans (kputchar-SameDisplay ch s) (put_text-SameDisplay str (kputchar inb ch s))

  pub tty_serial_init-SameDisplay : (s : Tty) → SameDisplay s (tty_serial_init inb s)
  unfolding tty_serial_init outb read
  tty_serial_init-SameDisplay s = record { same_at = refl; same_mode = refl }
