-- ===== src/Tty/Text.antt =====
-- What a text of plain bytes leaves on the text screen.
use sumi_os.Base.{
  ℕ, zero, suc, ◌+◌, ◌≤◌, ◌<◌, ◌≡◌, refl, Bool, true, false, ◌⊎◌, inl, some, List, [], ◌∷◌, ◌&&◌,
  not, ◌==◌, arith, ◌∙◌, ap, update, has, length, get_elem?,
}
use sumi_os.Tty.{
  Tty, outb, set_cursor_loc, set_char, cell, place, settle, kputchar_serial, kputchar_lpt,
  kputchar_cga, kputchar, put_text,
}
use sumi_os.Tty.Cursor.{SameScreen, ports-SameScreen}

-- Bytes that only fill a cell: no newline, return, backspace or tab.
abbrev pub is_plain : ℕ → Bool
is_plain ch = not (has ch (10 ∷ 13 ∷ 8 ∷ 9 ∷ []))

abbrev pub all_plain : List ℕ → Bool
all_plain [] = true
all_plain (ch ∷ str) = is_plain ch && all_plain str

settle-SameScreen : (s : Tty) → s.cursor_loc < 2000 → SameScreen s (settle s)
unfolding settle set_cursor_loc outb
settle-SameScreen s lt = record {
  same_mem = ground (arith, lt);
  same_cursor = ground (arith, lt);
  same_mode = ground (arith, lt);
}

place-plain :
    (ch : ℕ) (s : Tty)
    → is_plain ch ≡ true
    → s.cursor_loc + 1 < 2000
    → ((place 15 ch s).text_mem ≡ update s.text_mem s.cursor_loc (cell 15 ch))
      × ((place 15 ch s).cursor_loc ≡ s.cursor_loc + 1)
unfolding place set_char
place-plain ch s plain lt = (ground (arith, plain), ground (arith, plain))

module _ (inb : (n port : ℕ) → ℕ) where
  kputchar-plain :
      (ch : ℕ) (s : Tty)
      → is_plain ch ≡ true
      → s.cursor_loc + 1 < 2000
      → ((kputchar inb ch s).text_mem ≡ update s.text_mem s.cursor_loc (cell 15 ch))
        × ((kputchar inb ch s).cursor_loc ≡ s.cursor_loc + 1)
  unfolding kputchar kputchar_cga
  kputchar-plain ch s plain lt =
      let ports = ports-SameScreen inb 15 ch s in
      let t = kputchar_lpt inb 15 ch (kputchar_serial inb 15 ch s) in
      let (mem, cursor) = place-plain ch t plain (omega (arith, lt, ports.same_cursor)) in
      let settled =
        settle-SameScreen (place 15 ch t) (omega (arith, lt, ports.same_cursor, cursor)) in
      let no_tab : (ch == 9) ≡ false = ground (arith, plain) in
      rw no_tab (
        settled.same_mem
            ∙ mem
            ∙ ap (λ m. update m t.cursor_loc (cell 15 ch)) ports.same_mem
            ∙ ap (λ c. update s.text_mem c (cell 15 ch)) ports.same_cursor,
        settled.same_cursor ∙ cursor ∙ ap (λ c. c + 1) ports.same_cursor,
      )

  -- A text of plain bytes that ends before the last cell of the screen fills the cells from the
  -- cursor on, one after the other, and no other; the cursor is then behind it.
  pub put_text-fills :
      (str : List ℕ) (s : Tty)
      → all_plain str ≡ true
      → s.cursor_loc + length str < 2000
      → ((put_text inb str s).cursor_loc ≡ s.cursor_loc + length str)
        × ((i ch : ℕ)
            → get_elem? str i ≡ some ch
            → (put_text inb str s).text_mem (s.cursor_loc + i) ≡ cell 15 ch)
        × ((a : ℕ)
            → (a < s.cursor_loc) ⊎ (s.cursor_loc + length str ≤ a)
            → (put_text inb str s).text_mem a ≡ s.text_mem a)
  unfolding put_text
  put_text-fills [] s plain lt = (omega arith, λ i ch e. ground (arith, e), λ a out. refl)
  put_text-fills (c ∷ str) s plain lt =
      let (mem, cursor) = kputchar-plain c s (ground (arith, plain)) (omega (arith, lt)) in
      let (end, fills, others) =
        put_text-fills str (kputchar inb c s) (ground (arith, plain)) (omega (arith, lt, cursor)) in
      (
        omega (arith, end, cursor),
        λ i ch e.
            elim i
                as (λ i.
                  get_elem? (c ∷ str) i ≡ some ch
                  → (put_text inb str (kputchar inb c s)).text_mem (s.cursor_loc + i)
                    ≡ cell 15 ch) [
                      | zero ↦ λ e. ground (
                        arith,
                        e,
                        others (s.cursor_loc + 0) (inl (omega (arith, cursor))),
                        ap (λ m. m (s.cursor_loc + 0)) mem,
                      )
                      | suc i ↦ λ e.
                          (let at : s.cursor_loc + suc i ≡ (kputchar inb c s).cursor_loc + i =
                              omega (arith, cursor) in
                            rw at (fills i ch e))
                    ]
              e,
        λ a out. others a (ground (arith, out, cursor)) ∙ ap (λ m. m a) mem ∙ ground (arith, out),
      )
