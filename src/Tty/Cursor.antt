-- ===== src/Tty/Cursor.antt =====
-- The cursor of the text screen: it stays on the screen, nothing is written behind the screen, and the
-- machine is shown where the cursor is.
use sumi_os.Base.{
  ℕ, zero, suc, ◌+◌, ◌*◌, ◌%◌, ◌≤◌, ◌<◌, ◌≡◌, refl, Bool, true, false, List, [], ◌∷◌, ◌==◌, arith,
  leb, if◌then◌else◌, ◌∙◌, ap, u8, ◌>>◌, bit_and,
}
use sumi_os.Tty.{
  Tty, crtc_address, outb, set_cursor_loc, set_char, place, settle, read, kputchar_delay, wait,
  kputchar_serial, kputchar_lpt, kputchar_plain, kputchar_cga, kputchar, put_text, roll_screen_mem,
}
use sumi_os.Tty.Screen.{roll_screen_mem_at}

-- Only the ports have been used: the screen and the cursor are the same.
pub record SameScreen (s t : Tty) : Type 0 where
  pub same_mem : t.text_mem ≡ s.text_mem
  pub same_cursor : t.cursor_loc ≡ s.cursor_loc
  pub same_mode : t.display_mode ≡ s.display_mode

SameScreen-trans : {s t u : Tty} → SameScreen s t → SameScreen t u → SameScreen s u
SameScreen-trans a b = record {
  same_mem = b.same_mem ∙ a.same_mem;
  same_cursor = b.same_cursor ∙ a.same_cursor;
  same_mode = b.same_mode ∙ a.same_mode;
}

outb-SameScreen : (port val : ℕ) (s : Tty) → SameScreen s (outb port val s)
unfolding outb
outb-SameScreen port val s = record { same_mem = refl; same_cursor = refl; same_mode = refl }

if-SameScreen :
    (b : Bool) (s t u : Tty) → SameScreen s t → SameScreen s u → SameScreen s (if b then t else u)
if-SameScreen true s t u a c = a
if-SameScreen false s t u a c = c

module _ (inb : (n port : ℕ) → ℕ) where
  read-SameScreen : (port : ℕ) (s : Tty) → SameScreen s (read inb port s).1
  unfolding read
  read-SameScreen port s = record { same_mem = refl; same_cursor = refl; same_mode = refl }

  delay-SameScreen : (s : Tty) → SameScreen s (kputchar_delay inb s)
  unfolding kputchar_delay read
  delay-SameScreen s = record { same_mem = refl; same_cursor = refl; same_mode = refl }

  wait-SameScreen : (left port mask : ℕ) (s : Tty) → SameScreen s (wait inb left port mask s)
  unfolding wait
  wait-SameScreen zero port mask s = read-SameScreen port s
  wait-SameScreen (suc left) port mask s =
      let s' = (read inb port s).1 in
      if-SameScreen (bit_and (read inb port s).0 mask == 0) s
        (wait inb left port mask (kputchar_delay inb s')) s'
        (SameScreen-trans (read-SameScreen port s) (
          SameScreen-trans (delay-SameScreen s')
            (wait-SameScreen left port mask (kputchar_delay inb s'))))
        (read-SameScreen port s)

  pub ports-SameScreen :
      (color ch : ℕ) (s : Tty)
      → SameScreen s (kputchar_lpt inb color ch (kputchar_serial inb color ch s))
  unfolding kputchar_serial kputchar_lpt
  ports-SameScreen color ch s = SameScreen-trans (wait-SameScreen 12800 _ _ s) (
      SameScreen-trans (outb-SameScreen _ _ _) (
        SameScreen-trans (wait-SameScreen 12800 _ _ _) (
          SameScreen-trans (outb-SameScreen _ _ _)
            (SameScreen-trans (outb-SameScreen _ _ _) (outb-SameScreen _ _ _)))))

-- The last writes to the ports told the machine the cursor's place.
pub record IsShown (s : Tty) : Type 0 where
  pub low : ℕ
  pub high : ℕ
  pub before : List (ℕ × ℕ)
  pub writes :
      s.out
      ≡ (crtc_address s.display_mode + 1, low)
        ∷ (crtc_address s.display_mode, 15)
        ∷ (crtc_address s.display_mode + 1, high)
        ∷ (crtc_address s.display_mode, 14)
        ∷ before
  pub is_cursor : high * 256 + low ≡ s.cursor_loc

-- From `s` the code came to `t` with the cursor on the screen and shown, and has written to no cell
-- behind the screen.
pub record IsSettled (s t : Tty) : Type 0 where
  pub on_screen : t.cursor_loc < 2000
  pub behind : (a : ℕ) → 2000 ≤ a → t.text_mem a ≡ s.text_mem a
  pub shown : IsShown t

set_cursor_loc-IsShown : (s : Tty) → s.cursor_loc < 2000 → IsShown (set_cursor_loc s.cursor_loc s)
unfolding set_cursor_loc outb
set_cursor_loc-IsShown s lt = record {
  low = u8 (s.cursor_loc % 256);
  high = u8 (s.cursor_loc >> 8);
  before = s.out;
  writes = refl;
  is_cursor = omega (arith, lt);
}

show-IsSettled :
    (s t : Tty)
    → t.cursor_loc < 2000
    → ((a : ℕ) → 2000 ≤ a → t.text_mem a ≡ s.text_mem a)
    → IsSettled s (set_cursor_loc t.cursor_loc t)
unfolding set_cursor_loc outb
show-IsSettled s t lt same = record {
  on_screen = lt;
  behind = same;
  shown = set_cursor_loc-IsShown t lt;
}

rolled : Tty → Tty
rolled s = record (roll_screen_mem s) { cursor_loc = 1920 }

rolled-behind : (s : Tty) (a : ℕ) → 2000 ≤ a → (rolled s).text_mem a ≡ s.text_mem a
unfolding rolled
rolled-behind s a le = roll_screen_mem_at s a ∙ ground (arith, le)

settle-if :
    (b : Bool) (s : Tty)
    → leb 2000 s.cursor_loc ≡ b
    → IsSettled s
        (set_cursor_loc (if b then rolled s else s).cursor_loc (if b then rolled s else s))
unfolding rolled
settle-if true s past = show-IsSettled s (rolled s) (omega arith) (rolled-behind s)
settle-if false s on = show-IsSettled s s (ground (arith, on)) (λ a le. refl)

settle-IsSettled : (s : Tty) → IsSettled s (settle s)
unfolding settle rolled
settle-IsSettled s = settle-if (leb 2000 s.cursor_loc) s refl

place-behind :
    (color ch : ℕ) (s : Tty)
    → s.cursor_loc < 2000
    → (a : ℕ) → 2000 ≤ a
    → (place color ch s).text_mem a ≡ s.text_mem a
unfolding place set_char
place-behind color ch s lt a le = ground (arith, lt, le)

IsSettled-then : {s t u : Tty} → IsSettled s t → IsSettled t u → IsSettled s u
IsSettled-then a b = record {
  on_screen = b.on_screen;
  behind = λ c le. b.behind c le ∙ a.behind c le;
  shown = b.shown;
}

IsSettled-if :
    (b : Bool) (s t u : Tty) → IsSettled s t → IsSettled s u → IsSettled s (if b then t else u)
IsSettled-if true s t u a c = a
IsSettled-if false s t u a c = c

SameScreen-then : {s t u : Tty} → SameScreen s t → IsSettled t u → IsSettled s u
SameScreen-then same r = record {
  on_screen = r.on_screen;
  behind = λ a le. r.behind a le ∙ ap (λ m. m a) same.same_mem;
  shown = r.shown;
}

IsSettled-behind :
    {s t u : Tty}
    → ((a : ℕ) → 2000 ≤ a → t.text_mem a ≡ s.text_mem a)
    → IsSettled t u
    → IsSettled s u
IsSettled-behind same r = record {
  on_screen = r.on_screen;
  behind = λ a le. r.behind a le ∙ same a le;
  shown = r.shown;
}

put-IsSettled :
    (color ch : ℕ) (s t : Tty)
    → SameScreen s t
    → s.cursor_loc < 2000
    → IsSettled s (settle (place color ch t))
put-IsSettled color ch s t same lt = SameScreen-then same (
    IsSettled-behind (place-behind color ch t (omega (arith, lt, same.same_cursor)))
      (settle-IsSettled (place color ch t)))

module _ (inb : (n port : ℕ) → ℕ) where
  plain-IsSettled :
      (color ch : ℕ) (s : Tty) → s.cursor_loc < 2000 → IsSettled s (kputchar_plain inb color ch s)
  unfolding kputchar_plain
  plain-IsSettled color ch s lt = put-IsSettled color ch s _ (ports-SameScreen inb color ch s) lt

  space-IsSettled : (s : Tty) → s.cursor_loc < 2000 → IsSettled s (kputchar_plain inb 15 32 s)
  space-IsSettled s lt = plain-IsSettled 15 32 s lt

  -- From a cursor on the screen, printing a byte, with a tab and a scroll where they arise, keeps
  -- the cursor on the screen, writes to no cell behind the screen, and tells the machine the place
  -- of the cursor last, whatever the ports answer.
  pub kputchar-IsSettled :
      (ch : ℕ) (s : Tty) → s.cursor_loc < 2000 → IsSettled s (kputchar inb ch s)
  unfolding kputchar kputchar_cga
  kputchar-IsSettled ch s lt =
      let ports = ports-SameScreen inb 15 ch s in
      let t = kputchar_lpt inb 15 ch (kputchar_serial inb 15 ch s) in
      let s1 = space-IsSettled t (omega (arith, lt, ports.same_cursor)) in
      let s2 = space-IsSettled _ s1.on_screen in
      let s3 = space-IsSettled _ s2.on_screen in
      let s4 = space-IsSettled _ s3.on_screen in
      IsSettled-if (ch == 9) s _ _
        (SameScreen-then ports (
          IsSettled-then s1
            (IsSettled-then s2 (IsSettled-then s3 (IsSettled-then s4 (settle-IsSettled _))))))
        (put-IsSettled 15 ch s t ports lt)

  -- So it is for a text.
  pub put_text-IsSettled :
      (ch : ℕ) (str : List ℕ) (s : Tty)
      → s.cursor_loc < 2000
      → IsSettled s (put_text inb (ch ∷ str) s)
  unfolding put_text
  put_text-IsSettled ch [] s lt = kputchar-IsSettled ch s lt
  put_text-IsSettled ch (c ∷ str) s lt =
      let first = kputchar-IsSettled ch s lt in
      IsSettled-then first (put_text-IsSettled c str (kputchar inb ch s) first.on_screen)
