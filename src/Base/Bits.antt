-- ===== src/Base/Bits.antt =====
-- The bitwise or with a number below the page size: what it does to a multiple of the page size, and
-- that it leaves the page of any number.
use Prim.Native.Nat.{
  ℕ, zero, suc, ◌+◌, ◌*◌, ◌/◌, ◌%◌, ◌≤◌, ◌<◌, max, digits, bit_or, bit_or-bitwise,
}
use mathlib.Core.Path.{◌≡◌, refl, sym, ap, ◌∙◌}
use native.Mathlib.Omega.{arith}

-- The lowest `k` digits of `a` are 0, and `b` has no others.
abbrev Apart : (k a b : ℕ) → Type 0
Apart zero a b = b ≡ 0
Apart (suc k) a b = (a % 2 ≡ 0) × Apart k (a / 2) (b / 2)

digits-Apart : (k n a b : ℕ) → Apart k a b → a ≤ n → digits (λ b. b) max n a b ≡ a + b
digits-Apart k zero a b apart le = omega (arith, le)
digits-Apart k (suc n) zero b apart le = omega arith
digits-Apart zero (suc n) (suc a) b apart le =
    let rest = digits-Apart zero n (suc a / 2) (b / 2) (omega (arith, apart)) (omega (arith, le)) in
    ground (arith, rest)
digits-Apart (suc k) (suc n) (suc a) b apart le =
    let rest = digits-Apart k n (suc a / 2) (b / 2) apart.1 (omega (arith, le)) in
    ground (arith, rest, apart)

pub bit_or_add : (a b : ℕ) → a % 4096 ≡ 0 → b < 4096 → bit_or a b ≡ a + b
bit_or_add a b low lt = bit_or-bitwise a b ∙ digits-Apart 12 a a b (ground arith) (omega arith)

digits-le : (n a b : ℕ) → a ≤ n → digits (λ b. b) max n a b ≤ a + b
digits-le zero a b le = omega (arith, le)
digits-le (suc n) zero b le = omega arith
digits-le (suc n) (suc a) b le = ground (arith, digits-le n (suc a / 2) (b / 2) (omega (arith, le)))

pub bit_or-le : (a b : ℕ) → bit_or a b ≤ a + b
bit_or-le a b = rw (bit_or-bitwise a b) (digits-le a a b (omega arith))

-- `a` without its lowest `k` digits.
abbrev shifted : (k a : ℕ) → ℕ
shifted zero a = a
shifted (suc k) a = shifted k (a / 2)

shifted-zero : (k : ℕ) → shifted k 0 ≡ 0
shifted-zero zero = refl
shifted-zero (suc k) = shifted-zero k

digit_below : (r x y : ℕ) → x < 2 → y < 2 → (r * 2 + max x y) / 2 ≡ r
digit_below r x y lt lt' = ground (arith, lt, lt')

digits-shifted :
    (k n a b : ℕ) → shifted k b ≡ 0 → a ≤ n → shifted k (digits (λ b. b) max n a b) ≡ shifted k a
digits-shifted zero n a b none_there le =
    omega (arith, digits-Apart zero n a b none_there le, none_there)
digits-shifted (suc k) zero zero b none_there le = none_there ∙ sym (shifted-zero k)
digits-shifted (suc k) zero (suc a) b none_there le = elim le [ ]
digits-shifted (suc k) (suc n) zero b none_there le = none_there ∙ sym (shifted-zero k)
digits-shifted (suc k) (suc n) (suc a) b none_there le =
    ap (shifted k) (
      digit_below (digits (λ b. b) max n (suc a / 2) (b / 2)) (suc a % 2) (b % 2) (omega arith)
        (omega arith))
    ∙ digits-shifted k n (suc a / 2) (b / 2) none_there (omega (arith, le))

pub bit_or-page : (a b : ℕ) → b < 4096 → bit_or a b / 4096 ≡ a / 4096
bit_or-page a b lt =
    let e : shifted 12 (bit_or a b) ≡ shifted 12 a =
      ap (shifted 12) (bit_or-bitwise a b)
      ∙ digits-shifted 12 a a b (omega (arith, lt)) (omega arith) in
    omega (arith, e)
