-- ===== src/Tty/Tests.antt =====
-- The theorems about the text screen on a concrete machine.
use sumi_os.Base.{ℕ, ◌<◌, ◌+◌, ◌≡◌, refl, ◌⊎◌, ◌≤◌, true, some, [], ◌∷◌, arith, get_elem?}
use sumi_os.Tty.{Tty, display_mode_text, cell, kputchar, put_text}
use sumi_os.Tty.Cursor.{IsSettled, kputchar-IsSettled}
use sumi_os.Tty.Text.{put_text-fills}

-- A machine whose ports always answer that they are ready.
abbrev ready : (n port : ℕ) → ℕ
ready n port = 0xff

-- Each cell holds its index; the cursor is in the last one.
abbrev screen : Tty
screen = record {
  text_mem = λ a. a;
  text_mem_at = 0xb8000;
  cursor_loc = 1999;
  display_mode = display_mode_text;
  serial_exists = true;
  reads = 0;
  out = [];
}

kputchar-IsSettled_example : IsSettled screen (kputchar ready 65 screen)
kputchar-IsSettled_example = kputchar-IsSettled ready 65 screen (omega arith)

abbrev middle : Tty
middle = record screen { cursor_loc = 500 }

put_text-fills_example :
    ((put_text ready (79 ∷ 75 ∷ []) middle).cursor_loc ≡ 502)
    × ((i ch : ℕ)
        → get_elem? (79 ∷ 75 ∷ []) i ≡ some ch
        → (put_text ready (79 ∷ 75 ∷ []) middle).text_mem (500 + i) ≡ cell 15 ch)
    × ((a : ℕ) → (a < 500) ⊎ (502 ≤ a) → (put_text ready (79 ∷ 75 ∷ []) middle).text_mem a ≡ a)
put_text-fills_example = put_text-fills ready (79 ∷ 75 ∷ []) middle refl (omega arith)
