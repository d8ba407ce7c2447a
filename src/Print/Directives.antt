-- ===== src/Print/Directives.antt =====
-- `kprintf` against its meaning: a format as a list of directives, and what each of them prints.
use sumi_os.Base.{
  ℕ, ◌≡◌, refl, false, Option, none, some, List, [], ◌∷◌, ◌++◌, has, u32, bytes, ap, ◌∙◌,
  Option-cases, inl, inr,
}
use sumi_os.Print.{
  Text, Arg, slot, text, char, kprintstr, kprintnum, kprinthex, int32, with_slot, with_text,
  convert, kprintf_loop, kprintf,
}
use sumi_os.Print.Format.{behind, kprintf-append}

-- What a conversion asks for: a character, a text, a signed or unsigned decimal or a hexadecimal
-- numeral of 32 or 64 bits, or a pointer.
pub data Conversion : Type 0 where
  character string signed32 unsigned32 hexa32 signed64 unsigned64 hexa64 pointer : Conversion

pub data Directive : Type 0 where
  verbatim : Text → Directive
  argument : Conversion → Directive

-- How they are written.
abbrev pub letters : Conversion → Text
letters character = bytes "%c"
letters string = bytes "%s"
letters signed32 = bytes "%d"
letters unsigned32 = bytes "%u"
letters hexa32 = bytes "%x"
letters signed64 = bytes "%ld"
letters unsigned64 = bytes "%lu"
letters hexa64 = bytes "%lx"
letters pointer = bytes "%p"

abbrev pub spell : List Directive → Text
spell [] = []
spell (verbatim t ∷ ds) = t ++ spell ds
spell (argument c ∷ ds) = letters c ++ spell ds

-- Only texts without a `%` can be asked for as they are.
abbrev pub IsSpelled : List Directive → Type 0
IsSpelled [] = Unit {0}
IsSpelled (verbatim t ∷ ds) = (has b'%' t ≡ false) × IsSpelled ds
IsSpelled (argument c ∷ ds) = IsSpelled ds

-- What a conversion prints of its argument; the unsigned numeral of 64 bits is the signed one, and a
-- character is never printed.
abbrev pub prints : Conversion → Arg → Option Text
prints string (text t) = some (kprintstr t)
prints signed32 (slot w) = kprintnum (int32 w)
prints unsigned32 (slot w) = kprintnum (u32 w)
prints hexa32 (slot w) = kprinthex (u32 w)
prints signed64 (slot w) = kprintnum w
prints unsigned64 (slot w) = kprintnum w
prints hexa64 (slot w) = kprinthex w
prints pointer (slot w) = behind (bytes "0x") (kprinthex w)
prints _ _ = none

-- What is printed for an argument, and what the rest prints behind it.
abbrev pub then_rest : Option Text → Option Text → Option Text
then_rest none rest = none
then_rest (some out) rest = behind out rest

-- What the directives print of the arguments; `none` where one is missing or of the other kind, or is
-- asked for as a character.
abbrev pub render : List Directive → List Arg → Option Text
render [] args = some []
render (verbatim t ∷ ds) args = behind t (render ds args)
render (argument c ∷ ds) [] = none
render (argument c ∷ ds) (a ∷ args) = then_rest (prints c a) (render ds args)

-- Printing an argument before the rest of the format.
print_slot :
    (f : ℕ → Option Text) (w : ℕ) (rest : List Arg → Option Text) (args : List Arg)
    → (elim (with_slot f (slot w ∷ args)) [
      | none ↦ none
      | some (out, args') ↦ elim (rest args') [ none ↦ none | some more ↦ some (out ++ more) ]
    ])
      ≡ then_rest (f w) (rest args)
unfolding with_slot
print_slot f w rest args = elim (Option-cases (f w)) [
  | inl stuck ↦ rw stuck refl
  | inr (out, e) ↦ elim (Option-cases (rest args)) [
    | inl stuck ↦ rw (e, stuck) refl
    | inr (more, e') ↦ rw (e, e') refl
  ]
]

print_text :
    (t : Text) (rest : Option Text)
    → (elim rest [ none ↦ none | some more ↦ some (kprintstr t ++ more) ])
      ≡ behind (kprintstr t) rest
print_text t none = refl
print_text t (some more) = refl

pointer_text :
    (o : Option Text)
    → (elim o [ none ↦ none | some out ↦ some (b'0' ∷ b'x' ∷ out) ]) ≡ behind (bytes "0x") o
pointer_text none = refl
pointer_text (some out) = refl

module _ (format : Text) where
  no_argument : (c : Conversion) → kprintf (letters c ++ format) [] ≡ none
  unfolding kprintf kprintf_loop convert with_slot with_text
  no_argument character = refl
  no_argument string = refl
  no_argument signed32 = refl
  no_argument unsigned32 = refl
  no_argument hexa32 = refl
  no_argument signed64 = refl
  no_argument unsigned64 = refl
  no_argument hexa64 = refl
  no_argument pointer = refl

  one_argument :
      (c : Conversion) (a : Arg) (args : List Arg)
      → kprintf (letters c ++ format) (a ∷ args) ≡ then_rest (prints c a) (kprintf format args)
  unfolding kprintf kprintf_loop convert with_slot with_text
  one_argument string (slot w) args = refl
  one_argument string (text t) args = print_text t (kprintf_loop false char format args)
  one_argument character (text t) args = refl
  one_argument character (slot w) args = refl
  one_argument signed32 (text t) args = refl
  one_argument signed32 (slot w) args =
      print_slot (λ w. kprintnum (int32 w)) w (kprintf_loop false char format) args
  one_argument unsigned32 (text t) args = refl
  one_argument unsigned32 (slot w) args =
      print_slot (λ w. kprintnum (u32 w)) w (kprintf_loop false char format) args
  one_argument hexa32 (text t) args = refl
  one_argument hexa32 (slot w) args =
      print_slot (λ w. kprinthex (u32 w)) w (kprintf_loop false char format) args
  one_argument signed64 (text t) args = refl
  one_argument signed64 (slot w) args = print_slot kprintnum w (kprintf_loop false char format) args
  one_argument unsigned64 (text t) args = refl
  one_argument unsigned64 (slot w) args =
      print_slot kprintnum w (kprintf_loop false char format) args
  one_argument hexa64 (text t) args = refl
  one_argument hexa64 (slot w) args = print_slot kprinthex w (kprintf_loop false char format) args
  one_argument pointer (text t) args = refl
  one_argument pointer (slot w) args =
      print_slot (λ w. elim (kprinthex w) [ none ↦ none | some out ↦ some (b'0' ∷ b'x' ∷ out) ]) w
        (kprintf_loop false char format) args
      ∙ ap (λ o. then_rest o (kprintf_loop false char format args)) (pointer_text (kprinthex w))

-- `kprintf` on a format that spells a list of directives prints what the directives print, each of its
-- own argument and in order, and does not come to its end where an argument is missing or of the other
-- kind, or at a `%c`, whose `va_arg` of type `char` traps. A text that is asked for as it is has no
-- `%`.
pub kprintf-render :
    (ds : List Directive) (args : List Arg)
    → IsSpelled ds
    → kprintf (spell ds) args ≡ render ds args
unfolding kprintf kprintf_loop
kprintf-render [] args spelled = refl
kprintf-render (verbatim t ∷ ds) args spelled =
    kprintf-append t (spell ds) args spelled.0 ∙ ap (behind t) (kprintf-render ds args spelled.1)
kprintf-render (argument c ∷ ds) [] spelled = no_argument (spell ds) c
kprintf-render (argument c ∷ ds) (a ∷ args) spelled =
    one_argument (spell ds) c a args ∙ ap (then_rest (prints c a)) (kprintf-render ds args spelled)
