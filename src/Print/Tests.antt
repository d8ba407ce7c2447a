-- ===== src/Print/Tests.antt =====
-- Runs of the printing functions of lib/print.c, and the theorems about them at concrete arguments.
use sumi_os.Base.{bytes, ◌-◌, ◌^◌, ◌≡◌, refl, some, [], ◌∷◌, arith}
use sumi_os.Print.{
  Text, slot, text, kputs, kprintnum, kprinthex, kprintstr, decimal, kprintf, kprintf_loop, convert,
  with_slot, with_text,
}
use sumi_os.Print.Digits.{IsDecimal, kprintnum-IsDecimal, IsHexadecimal, kprinthex-IsHexadecimal}
use sumi_os.Print.Directives.{verbatim, argument, unsigned64, pointer, render, kprintf-render}
use sumi_os.Print.Format.{kprintf-some, kprintf-unsigned_minus}

-- "order %d: %s\n"
abbrev order_format : Text
order_format = b'o' ∷ b'%' ∷ b'd' ∷ b':' ∷ b'%' ∷ b's' ∷ []

kprintf_order :
    kprintf order_format (slot (2 ^ 64 - 7) ∷ text (b'o' ∷ b'k' ∷ []) ∷ [])
    ≡ some (b'o' ∷ b'-' ∷ b'7' ∷ b':' ∷ b'o' ∷ b'k' ∷ [])
unfolding kprintf kprintf_loop convert with_slot kprintnum decimal with_text kprintstr
kprintf_order = refl

-- The least integer is printed with bytes that are no digits, since its remainders are negative.
least_integer :
    kprintnum (2 ^ 63)
    ≡ some (
        b'-' ∷ 39 ∷ 46 ∷ 46 ∷ 45 ∷ 45 ∷ 41 ∷ 46 ∷ 48 ∷ 45 ∷ 42 ∷ 40 ∷ 43 ∷ 44 ∷ 41 ∷ 41 ∷ 43 ∷ 40
        ∷ 48 ∷ 40 ∷ [])
unfolding kprintnum decimal kprintstr
least_integer = refl

kputs_newline : kputs (b'a' ∷ []) ≡ b'a' ∷ 10 ∷ []
unfolding kputs
kputs_newline = refl

kprintnum-IsDecimal_example :
    (out : Text) × IsDecimal 1024 out × (kprintnum (2 ^ 64 - 1024) ≡ some (b'-' ∷ out))
kprintnum-IsDecimal_example = kprintnum-IsDecimal (2 ^ 64 - 1024) (omega arith) (omega arith)

kprinthex-IsHexadecimal_example :
    (out : Text) × IsHexadecimal 48879 out × (kprinthex 48879 ≡ some out)
kprinthex-IsHexadecimal_example = kprinthex-IsHexadecimal 48879 (omega arith)

kprintf-some_example :
    (out : Text) × (kprintf order_format (slot (2 ^ 63) ∷ text (b'o' ∷ []) ∷ []) ≡ some out)
kprintf-some_example = kprintf-some order_format (slot (2 ^ 63) ∷ text (b'o' ∷ []) ∷ []) refl

kprintf-unsigned_minus_example :
    (out : Text) × (kprintf (b'%' ∷ b'l' ∷ b'u' ∷ []) (slot (2 ^ 64 - 1) ∷ []) ≡ some (b'-' ∷ out))
kprintf-unsigned_minus_example = kprintf-unsigned_minus (2 ^ 64 - 1) (omega arith) (omega arith)

-- A format of the kernel, in directives.
kprintf-render_example :
    kprintf (bytes "time %lu at %p") (slot 7 ∷ slot 0x2a ∷ [])
    ≡ render
        (verbatim (bytes "time ")
          ∷ argument unsigned64
          ∷ verbatim (bytes " at ")
          ∷ argument pointer
          ∷ [])
        (slot 7 ∷ slot 0x2a ∷ [])
kprintf-render_example =
    kprintf-render
      (verbatim (bytes "time ")
        ∷ argument unsigned64
        ∷ verbatim (bytes " at ")
        ∷ argument pointer
        ∷ [])
      (slot 7 ∷ slot 0x2a ∷ []) (refl, (refl, tt))
