-- ===== src/Print/Digits.antt =====
-- The numerals that lib/print.c builds, read back.
use sumi_os.Base.{
  ℕ, zero, suc, ◌+◌, ◌-◌, ◌*◌, ◌/◌, ◌%◌, ◌^◌, ◌<◌, ◌≡◌, refl, ◌≢◌, Bool, true, false, inl, inr,
  some, [], ◌∷◌, ◌&&◌, ◌||◌, arith, leb, if◌then◌else◌, ◌∙◌, ap, Bool-cases, ◌==◌, u8, u64,
}
use sumi_os.Print.{Text, kprintstr, decimal, is_negative, kprintnum, hexadecimal, kprinthex}

-- The number that a numeral stands for, behind digits of the value `high`.
abbrev pub value : (base : ℕ) → (ℕ → ℕ) → (high : ℕ) → Text → ℕ
value base digit high [] = high
value base digit high (c ∷ cs) = value base digit (high * base + digit c) cs

abbrev pub all : (ℕ → Bool) → Text → Bool
all p [] = true
all p (c ∷ cs) = p c && all p cs

abbrev pub is_decimal : ℕ → Bool
is_decimal c = leb b'0' c && leb c b'9'

abbrev pub is_hexadecimal : ℕ → Bool
is_hexadecimal c = is_decimal c || (leb b'a' c && leb c b'f')

abbrev pub decimal_digit : ℕ → ℕ
decimal_digit c = c - b'0'

abbrev pub hexadecimal_digit : ℕ → ℕ
hexadecimal_digit c = if leb b'a' c then c - b'a' + 10 else c - b'0'

-- `out` is a decimal numeral for `n`.
abbrev pub IsDecimal : ℕ → Text → Type 0
IsDecimal n out = (all is_decimal out ≡ true) × (value 10 decimal_digit 0 out ≡ n)

abbrev pub IsHexadecimal : ℕ → Text → Type 0
IsHexadecimal n out = (all is_hexadecimal out ≡ true) × (value 16 hexadecimal_digit 0 out ≡ n)

pub kprintstr_lem : (str : Text) → kprintstr str ≡ str
unfolding kprintstr
kprintstr_lem [] = refl
kprintstr_lem (c ∷ str) = ap (λ t. c ∷ t) (kprintstr_lem str)

value_high :
    (base : ℕ) (digit : ℕ → ℕ) {h h' : ℕ} (rest : Text)
    → h ≡ h'
    → value base digit h rest ≡ value base digit h' rest
value_high base digit rest e = ap (λ h. value base digit h rest) e

-- The digit that `decimal` writes for `m`, with the remainder's sign.
abbrev pub digit_of : Bool → ℕ → ℕ
digit_of negative m = u8 (if negative then b'0' + 256 - m % 10 else m % 10 + b'0')

abbrev pub hexadecimal_of : ℕ → ℕ
hexadecimal_of n = if leb 10 (n % 16) then n % 16 - 10 + b'a' else n % 16 + b'0'

pub decimal-some :
    (room : ℕ) (negative : Bool) (m : ℕ) (rest : Text)
    → m < 10 ^ suc room
    → (out : Text) × (decimal (suc room) negative m rest ≡ some out)
unfolding decimal
decimal-some zero negative m rest lt = (digit_of negative m ∷ rest, ground arith)
decimal-some (suc room) negative m rest lt = elim (Bool-cases (m / 10 == 0)) [
  | inl last ↦ (digit_of negative m ∷ rest, ground arith)
  | inr more ↦
      let (out, e) =
        decimal-some room negative (m / 10) (digit_of negative m ∷ rest) (omega arith) in
      (out, ground (arith, e))
]

decimal-value :
    (room m : ℕ) (rest : Text)
    → m < 10 ^ suc room
    → all is_decimal rest ≡ true
    → (out : Text) × (decimal (suc room) false m rest ≡ some out)
      × (all is_decimal out ≡ true)
      × (value 10 decimal_digit 0 out ≡ value 10 decimal_digit m rest)
unfolding decimal
decimal-value zero m rest lt digits = (
  digit_of false m ∷ rest,
  ground arith,
  ground arith,
  value_high 10 decimal_digit rest (ground arith),
)
decimal-value (suc room) m rest lt digits = elim (Bool-cases (m / 10 == 0)) [
  | inl last ↦ (
    digit_of false m ∷ rest,
    ground arith,
    ground arith,
    value_high 10 decimal_digit rest (ground arith),
  )
  | inr more ↦
      let (out, e, ds, v) =
        decimal-value room (m / 10) (digit_of false m ∷ rest) (omega arith) (ground arith) in
      (out, ground (arith, e), ds, v ∙ value_high 10 decimal_digit rest (ground arith))
]

hexadecimal-value :
    (room n : ℕ) (rest : Text)
    → n < 16 ^ suc room
    → all is_hexadecimal rest ≡ true
    → (out : Text) × (hexadecimal (suc room) n rest ≡ some out)
      × (all is_hexadecimal out ≡ true)
      × (value 16 hexadecimal_digit 0 out ≡ value 16 hexadecimal_digit n rest)
unfolding hexadecimal
hexadecimal-value zero n rest lt digits = (
  hexadecimal_of n ∷ rest,
  ground arith,
  ground arith,
  value_high 16 hexadecimal_digit rest (ground arith),
)
hexadecimal-value (suc room) n rest lt digits = elim (Bool-cases (n / 16 == 0)) [
  | inl last ↦ (
    hexadecimal_of n ∷ rest,
    ground arith,
    ground arith,
    value_high 16 hexadecimal_digit rest (ground arith),
  )
  | inr more ↦
      let (out, e, ds, v) =
        hexadecimal-value room (n / 16) (hexadecimal_of n ∷ rest) (omega arith) (ground arith) in
      (out, ground (arith, e), ds, v ∙ value_high 16 hexadecimal_digit rest (ground arith))
]

-- For every 64-bit pattern but that of the least integer, `kprintnum` prints the decimal numeral of
-- the magnitude, behind a `-` where the integer is negative.
pub kprintnum-IsDecimal :
    (n : ℕ)
    → n < 2 ^ 64
    → n ≢ 2 ^ 63
    → (out : Text) × IsDecimal (if is_negative n then 2 ^ 64 - n else n) out
      × (kprintnum n ≡ some (if is_negative n then b'-' ∷ out else out))
unfolding kprintnum
kprintnum-IsDecimal n lt least = elim (Bool-cases (is_negative n)) [
  | inl below ↦
      let (out, e, ds, v) = decimal-value 28 (2 ^ 64 - n) [] (omega arith) refl in
      (out, (ds, ground (arith, v)), ground (arith, e, kprintstr_lem out))
  | inr above ↦
      let (out, e, ds, v) = decimal-value 28 n [] (omega arith) refl in
      (out, (ds, ground (arith, v)), ground (arith, e, kprintstr_lem out))
]

-- For every 64-bit number `kprinthex` prints its hexadecimal numeral.
pub kprinthex-IsHexadecimal :
    (n : ℕ) → n < 2 ^ 64 → (out : Text) × IsHexadecimal n out × (kprinthex n ≡ some out)
unfolding kprinthex
kprinthex-IsHexadecimal n lt =
    let (out, e, ds, v) = hexadecimal-value 28 n [] (omega arith) refl in
    (out, (ds, v), ground (arith, e, kprintstr_lem out))

-- No 64-bit pattern, the least integer's included, makes `kprintnum` write below its buffer, and a
-- pattern from 2 ^ 63 on is printed with a `-` in front.
pub kprintnum-some :
    (n : ℕ)
    → n < 2 ^ 64
    → (out : Text) × (kprintnum n ≡ some (if is_negative n then b'-' ∷ out else out))
unfolding kprintnum
kprintnum-some n lt = elim (Bool-cases (is_negative n)) [
  | inl below ↦
      let minus = u64 (2 ^ 64 - n) in
      let (out, e) =
        decimal-some 28 (is_negative minus) (if is_negative minus then 2 ^ 64 - minus else minus) []
          (ground arith) in
      (out, ground (arith, e, kprintstr_lem out))
  | inr above ↦
      let (out, e) = decimal-some 28 false n [] (omega arith) in
      (out, ground (arith, e, kprintstr_lem out))
]
