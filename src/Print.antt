-- ===== src/Print.antt =====
-- lib/print.c: what the printing functions hand to `kputchar`, as the list of the bytes. A text is
-- the list of its bytes without the zero behind it, and an integer is its 64-bit pattern.
pub mod Digits
pub mod Format
pub mod Directives
mod Tests
use sumi_os.Base.{
  ℕ, zero, suc, ◌+◌, ◌-◌, ◌/◌, ◌%◌, ◌^◌, Bool, true, false, Option, none, some, List, [], ◌∷◌, ◌++◌,
  ◌==◌, leb, ltb, if◌then◌else◌, u8, u32, u64,
}

abbrev pub Text : Type 0
Text = List ℕ

unfoldable pub kprintstr : Text → Text
kprintstr [] = []
kprintstr (c ∷ str) = c ∷ kprintstr str

unfoldable pub kputs : Text → Text
unfolding kprintstr
kputs str = kprintstr str ++ 10 ∷ []

-- The digits of `n_str`, from the buffer's end down: `room` cells are left, and `none` is a write
-- below the buffer. `negative` is the sign of `n`, which stays negative only for the least integer,
-- and `m` its magnitude; the remainder of C has the sign of `n`.
unfoldable pub decimal : (room : ℕ) → Bool → (m : ℕ) → Text → Option Text
decimal zero negative m n_str = none
decimal (suc room) negative m n_str =
    let c = u8 (if negative then b'0' + 256 - m % 10 else m % 10 + b'0') in
    let rest = decimal room negative (m / 10) (c ∷ n_str) in
    if m / 10 == 0 then some (c ∷ n_str) else rest

-- Is the pattern that of a negative number?
abbrev pub is_negative : ℕ → Bool
is_negative n = leb (2 ^ 63) n

unfoldable pub kprintnum : ℕ → Option Text
kprintnum n =
    let minus = u64 (2 ^ 64 - n) in
    let m = if is_negative minus then 2 ^ 64 - minus else minus in
    let below : Option Text = elim (decimal 29 (is_negative minus) m []) [
      | none ↦ none
      | some n_str ↦ some (b'-' ∷ kprintstr n_str)
    ] in
    let above : Option Text = elim (decimal 29 false n []) [
      | none ↦ none
      | some n_str ↦ some (kprintstr n_str)
    ] in
    if is_negative n then below else above

unfoldable pub hexadecimal : (room n : ℕ) → Text → Option Text
hexadecimal zero n n_str = none
hexadecimal (suc room) n n_str =
    let curr = n % 16 in
    let c = if leb 10 curr then curr - 10 + b'a' else curr + b'0' in
    let rest = hexadecimal room (n / 16) (c ∷ n_str) in
    if n / 16 == 0 then some (c ∷ n_str) else rest

unfoldable pub kprinthex : ℕ → Option Text
kprinthex n = elim (hexadecimal 29 n []) [ none ↦ none | some n_str ↦ some (kprintstr n_str) ]

-- A variadic argument: an eight-byte slot, or a pointer to a text.
pub data Arg : Type 0 where
  slot : ℕ → Arg
  text : Text → Arg

pub data Status : Type 0 where
  char mid_symbol : Status

-- The low 32 bits of a slot as an int32_t, widened to 64 bits.
abbrev pub int32 : ℕ → ℕ
int32 w = if leb (2 ^ 31) (w % 2 ^ 32) then w % 2 ^ 32 + (2 ^ 64 - 2 ^ 32) else w % 2 ^ 32

-- Print with the slot of the next argument, or with its text; `none` where there is no such one.
unfoldable pub with_slot : (ℕ → Option Text) → List Arg → Option (Text × List Arg)
with_slot f [] = none
with_slot f (text t ∷ args) = none
with_slot f (slot w ∷ args) = elim (f w) [ none ↦ none | some out ↦ some (out, args) ]

unfoldable pub with_text : List Arg → Option (Text × List Arg)
with_text [] = none
with_text (slot w ∷ args) = none
with_text (text t ∷ args) = some (kprintstr t, args)

-- The two `switch`es of `kprintf`: what a conversion prints, and the arguments left. `l` in the first
-- is no conversion, but goes on with the next byte. `%c` is read by `va_arg(args, char)`, which is
-- undefined, since a `char` is passed as an `int`, and for which the compiler emits a trap: `none`.
unfoldable pub convert : Status → (ch : ℕ) → List Arg → Option (Text × List Arg)
convert mid_symbol ch args =
    if ch == b'd'
    then with_slot kprintnum args
    else if ch == b'u'
    then with_slot kprintnum args
    else if ch == b'x'
    then with_slot kprinthex args
    else some ([], args)
convert char ch args =
    if ch == b'c'
    then none
    else if ch == b's'
    then with_text args
    else if ch == b'd'
    then with_slot (λ w. kprintnum (int32 w)) args
    else if ch == b'u'
    then with_slot (λ w. kprintnum (u32 w)) args
    else if ch == b'x'
    then with_slot (λ w. kprinthex (u32 w)) args
    else if ch == b'p'
    then with_slot (λ w. elim (kprinthex w) [ none ↦ none | some out ↦ some (b'0' ∷ b'x' ∷ out) ])
        args
    else some ([], args)

-- The loop of `kprintf`. `after_percent` is the part from the label `repeat` on.
unfoldable pub kprintf_loop : (after_percent : Bool) → Status → Text → List Arg → Option Text
kprintf_loop after status [] args = some []
kprintf_loop false status (ch ∷ format) args =
    let next = kprintf_loop true status format args in
    let plain : Option Text = elim (kprintf_loop false char format args) [
      | none ↦ none
      | some out ↦ some (ch ∷ out)
    ] in
    if ch == b'%' then next else plain
kprintf_loop true char (ch ∷ format) args =
    let long = kprintf_loop true mid_symbol format args in
    let converted : Option Text = elim (convert char ch args) [
      | none ↦ none
      | some (out, args') ↦ elim (kprintf_loop false char format args') [
        | none ↦ none
        | some rest ↦ some (out ++ rest)
      ]
    ] in
    if ch == b'l' then long else converted
kprintf_loop true mid_symbol (ch ∷ format) args = elim (convert mid_symbol ch args) [
  | none ↦ none
  | some (out, args') ↦ elim (kprintf_loop false char format args') [
    | none ↦ none
    | some rest ↦ some (out ++ rest)
  ]
]

unfoldable pub kprintf : Text → List Arg → Option Text
kprintf format args = kprintf_loop false char format args
