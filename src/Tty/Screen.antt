-- ===== src/Tty/Screen.antt =====
-- What scrolling and clearing do to the cells of the screen.
use sumi_os.Base.{
  ℕ, zero, suc, ◌+◌, ◌-◌, ◌≤◌, ◌≡◌, refl, ◌&&◌, arith, leb, ltb, ◌==◌, if◌then◌else◌, ◌∙◌, ap, inl,
  inr, Bool-cases, ==_iff, update,
}
use sumi_os.Tty.{
  Tty, blank, roll_loop, blank_loop, roll_screen_mem, set_cursor_loc, outb, clear_screen,
}

roll_loop_at :
    (left i a : ℕ) (mem : ℕ → ℕ)
    → 80 ≤ i
    → roll_loop left i mem a
      ≡ (if leb (i - 80) a && ltb (a + 80) (i + left) then mem (a + 80) else mem a)
unfolding roll_loop
roll_loop_at zero i a mem le = ground arith
roll_loop_at (suc left) i a mem le =
    roll_loop_at left (i + 1) a (update mem (i - 80) (mem i)) (omega (arith, le))
    ∙ elim (Bool-cases (i == a + 80)) [
      | inl here ↦ ground (arith, le, ap mem ((==_iff i (a + 80)).0 here))
      | inr away ↦ ground (arith, le)
    ]

blank_loop_at :
    (left i a : ℕ) (mem : ℕ → ℕ)
    → blank_loop left i mem a ≡ (if leb i a && ltb a (i + left) then blank else mem a)
unfolding blank_loop
blank_loop_at zero i a mem = ground arith
blank_loop_at (suc left) i a mem = blank_loop_at left (i + 1) a (update mem i blank) ∙ ground arith

-- Scrolling moves each row up by one, blanks the last row, and touches nothing behind the screen.
pub roll_screen_mem_at :
    (s : Tty) (a : ℕ)
    → (roll_screen_mem s).text_mem a
      ≡ (if ltb a 1920 then s.text_mem (a + 80) else if ltb a 2000 then blank else s.text_mem a)
unfolding roll_screen_mem
roll_screen_mem_at s a =
    blank_loop_at 80 1920 a (roll_loop 1920 80 s.text_mem)
    ∙ ground (arith, roll_loop_at 1920 80 a s.text_mem (omega arith))

-- Clearing blanks the 2000 cells of the screen and no others, and puts the cursor to the start.
pub clear_screen_at :
    (s : Tty) (a : ℕ)
    → ((clear_screen s).text_mem a ≡ (if ltb a 2000 then blank else s.text_mem a))
      × ((clear_screen s).cursor_loc ≡ 0)
unfolding clear_screen set_cursor_loc outb
clear_screen_at s a = (blank_loop_at 2000 0 a s.text_mem ∙ ground arith, refl)
