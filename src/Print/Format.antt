-- ===== src/Print/Format.antt =====
-- How `kprintf` of lib/print.c reads its format: plain text, and the arguments that conversions take.
use sumi_os.Base.{
  ℕ, ◌<◌, ◌≤◌, ◌^◌, ◌≡◌, refl, Bool, true, false, inl, inr, Option, none, some, List, [], ◌∷◌, ◌++◌,
  ◌&&◌, arith, ltb, if◌then◌else◌, ◌==◌, Bool-cases, has, not, u32,
}
use sumi_os.Print.{
  Text, kprintstr, Arg, slot, text, Status, char, mid_symbol, kprintnum, kprinthex, int32,
  with_slot, with_text, convert, kprintf_loop, kprintf,
}
use sumi_os.Print.Digits.{kprintnum-some, kprinthex-IsHexadecimal}

-- Put a text before what is printed.
abbrev pub behind : Text → Option Text → Option Text
behind t none = none
behind t (some out) = some (t ++ out)

-- A text with no `%` is printed as it is, and the rest of the format is printed behind it with all
-- the arguments.
pub kprintf-append :
    (plain format : Text) (args : List Arg)
    → has b'%' plain ≡ false
    → kprintf (plain ++ format) args ≡ behind plain (kprintf format args)
unfolding kprintf kprintf_loop
kprintf-append [] format args none_in = ground arith
kprintf-append (c ∷ plain) format args none_in =
    ground (arith, kprintf-append plain format args (ground arith))

pub data Kind : Type 0 where
  number string trap : Kind

-- The kinds of the arguments that a format takes, in order: those of the part behind a `%` where
-- `after` holds, and behind `%l` where `long` does. A `%c` takes one at which it traps.
abbrev pub demands : (after long : Bool) → Text → List Kind
demands after long [] = []
demands false long (c ∷ cs) = if c == b'%' then demands true long cs else demands false false cs
demands true false (c ∷ cs) =
    if c == b'l'
    then demands true true cs
    else if c == b's'
    then string ∷ demands false false cs
    else if c == b'c'
    then trap ∷ demands false false cs
    else if has c (b'd' ∷ b'u' ∷ b'x' ∷ b'p' ∷ [])
    then number ∷ demands false false cs
    else demands false false cs
demands true true (c ∷ cs) =
    if has c (b'd' ∷ b'u' ∷ b'x' ∷ [])
    then number ∷ demands false false cs
    else demands false false cs

-- Do the arguments begin with those of the kinds, each number a 64-bit one, and does none trap?
abbrev pub fits : List Kind → List Arg → Bool
fits [] args = true
fits (k ∷ ks) [] = false
fits (trap ∷ ks) (a ∷ args) = false
fits (number ∷ ks) (slot w ∷ args) = ltb w (2 ^ 64) && fits ks args
fits (number ∷ ks) (text t ∷ args) = false
fits (string ∷ ks) (slot w ∷ args) = false
fits (string ∷ ks) (text t ∷ args) = fits ks args

abbrev is_long : Status → Bool
is_long char = false
is_long mid_symbol = true

IsSome : Option Text → Type 0
IsSome o = (out : Text) × (o ≡ some out)

-- A conversion that prints, and leaves arguments of the kinds `ks`.
Converts : List Kind → Option (Text × List Arg) → Type 0
Converts ks o = (out : Text) × (args : List Arg) × (o ≡ some (out, args)) × (fits ks args ≡ true)

with_slot-Converts :
    (f : ℕ → Option Text) (ks : List Kind) (args : List Arg)
    → ((w : ℕ) → w < 2 ^ 64 → IsSome (f w))
    → fits (number ∷ ks) args ≡ true
    → Converts ks (with_slot f args)
unfolding Converts IsSome with_slot
with_slot-Converts f ks [] prints fit = ground arith
with_slot-Converts f ks (text t ∷ args) prints fit = ground arith
with_slot-Converts f ks (slot w ∷ args) prints fit =
    let (out, e) = prints w (ground arith) in (out, args, ground (arith, e), ground arith)

with_text-Converts :
    (ks : List Kind) (args : List Arg)
    → fits (string ∷ ks) args ≡ true
    → Converts ks (with_text args)
unfolding Converts with_text
with_text-Converts ks [] fit = ground arith
with_text-Converts ks (slot w ∷ args) fit = ground arith
with_text-Converts ks (text t ∷ args) fit = (kprintstr t, args, refl, fit)

kprintnum-IsSome : (w : ℕ) → w < 2 ^ 64 → IsSome (kprintnum w)
unfolding IsSome
kprintnum-IsSome w lt = let (out, e) = kprintnum-some w lt in (_, e)

kprinthex-IsSome : (w : ℕ) → w < 2 ^ 64 → IsSome (kprinthex w)
unfolding IsSome
kprinthex-IsSome w lt = let (out, numeral, e) = kprinthex-IsHexadecimal w lt in (out, e)

pointer-IsSome :
    (w : ℕ)
    → w < 2 ^ 64
    → IsSome (elim (kprinthex w) [ none ↦ none | some out ↦ some (b'0' ∷ b'x' ∷ out) ])
unfolding IsSome
pointer-IsSome w lt =
    let (out, numeral, e) = kprinthex-IsHexadecimal w lt in (b'0' ∷ b'x' ∷ out, rw e refl)

skips : (ks : List Kind) (args : List Arg) → fits ks args ≡ true → Converts ks (some ([], args))
unfolding Converts
skips ks args fit = ([], args, refl, fit)

trapped : (ks : List Kind) (args : List Arg) → fits (trap ∷ ks) args ≡ false
trapped ks [] = refl
trapped ks (a ∷ args) = refl

convert-Converts :
    (status : Status) (ch : ℕ) (format : Text) (args : List Arg)
    → (not (is_long status) && ch == b'l') ≡ false
    → fits (demands true (is_long status) (ch ∷ format)) args ≡ true
    → Converts (demands false false format) (convert status ch args)
unfolding convert
convert-Converts mid_symbol ch format args other fit = ground (
  arith,
  fit,
  with_slot-Converts kprintnum (demands false false format) args kprintnum-IsSome,
  with_slot-Converts kprinthex (demands false false format) args kprinthex-IsSome,
  skips (demands false false format) args,
)
convert-Converts char ch format args other fit = ground (
  arith,
  trapped (demands false false format) args,
  other,
  fit,
  with_text-Converts (demands false false format) args,
  with_slot-Converts (λ w. kprintnum (int32 w)) (demands false false format) args
      (λ w lt. kprintnum-IsSome (int32 w) (ground arith)),
  with_slot-Converts (λ w. kprintnum (u32 w)) (demands false false format) args
      (λ w lt. kprintnum-IsSome (u32 w) (omega arith)),
  with_slot-Converts (λ w. kprinthex (u32 w)) (demands false false format) args
      (λ w lt. kprinthex-IsSome (u32 w) (omega arith)),
  with_slot-Converts _ (demands false false format) args pointer-IsSome,
  skips (demands false false format) args,
)

converts :
    (ks : List Kind) (o : Option (Text × List Arg))
    → Converts ks o
    → (out : Text) × (args : List Arg) × (o ≡ some (out, args)) × (fits ks args ≡ true)
unfolding Converts
converts ks o c = c

kprintf_loop-IsSome :
    (after : Bool) (status : Status) (format : Text) (args : List Arg)
    → fits (demands after (is_long status) format) args ≡ true
    → IsSome (kprintf_loop after status format args)
unfolding kprintf_loop IsSome
kprintf_loop-IsSome after status [] args fit = ([], refl)
kprintf_loop-IsSome false status (ch ∷ format) args fit = elim (Bool-cases (ch == b'%')) [
  | inl percent ↦
      let (out, e) = kprintf_loop-IsSome true status format args (ground (arith, fit)) in
      (out, ground (arith, e))
  | inr plain ↦
      let (out, e) = kprintf_loop-IsSome false char format args (ground (arith, fit)) in
      (ch ∷ out, ground (arith, e))
]
kprintf_loop-IsSome true char (ch ∷ format) args fit = elim (Bool-cases (ch == b'l')) [
  | inl long ↦
      let (out, e) = kprintf_loop-IsSome true mid_symbol format args (ground (arith, fit)) in
      (out, ground (arith, e))
  | inr other ↦
      let (out, args', e, fit') = converts _ _ (convert-Converts char ch format args other fit) in
      let (rest, e') = kprintf_loop-IsSome false char format args' fit' in
      (out ++ rest, ground (arith, other, e, e'))
]
kprintf_loop-IsSome true mid_symbol (ch ∷ format) args fit =
    let (out, args', e, fit') =
      converts _ _ (convert-Converts mid_symbol ch format args refl fit) in
    let (rest, e') = kprintf_loop-IsSome false char format args' fit' in
    (out ++ rest, ground (arith, e, e'))

-- With a format without `%c`, and with arguments of the kinds that it takes, and at least as many,
-- `kprintf` prints: no number, of whatever value, makes it write below a buffer, and no argument is
-- read that is not there.
pub kprintf-some :
    (format : Text) (args : List Arg)
    → fits (demands false false format) args ≡ true
    → (out : Text) × (kprintf format args ≡ some out)
unfolding kprintf IsSome
kprintf-some format args fit = kprintf_loop-IsSome false char format args fit

-- `%lu` prints a 64-bit number from 2 ^ 63 on with a `-` in front.
pub kprintf-unsigned_minus :
    (n : ℕ)
    → 2 ^ 63 ≤ n
    → n < 2 ^ 64
    → (out : Text) × (kprintf (b'%' ∷ b'l' ∷ b'u' ∷ []) (slot n ∷ []) ≡ some (b'-' ∷ out))
unfolding kprintf kprintf_loop convert with_slot
kprintf-unsigned_minus n le lt =
    let (out, e) = kprintnum-some n lt in (out ++ [], ground (arith, e))
