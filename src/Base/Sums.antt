-- ===== src/Base/Sums.antt =====
-- Sums over the numbers below a bound.
use Prim.Native.Nat.{ℕ, zero, suc, ◌+◌, ◌≤◌, ◌<◌}
use mathlib.Core.Path.{◌≡◌, refl}
use mathlib.Core.Logic.{◌≢◌, inl, inr}
use native.Mathlib.Omega.{arith}
use sumi_os.Base.Tests.{◌==◌, Bool-cases}

abbrev pub sum : (n : ℕ) → (ℕ → ℕ) → ℕ
sum zero f = 0
sum (suc n) f = sum n f + f n

pub sum-same : (n : ℕ) (f g : ℕ → ℕ) → ((j : ℕ) → j < n → f j ≡ g j) → sum n f ≡ sum n g
sum-same zero f g same = refl
sum-same (suc n) f g same =
    omega (arith, sum-same n f g (λ j lt. same j (omega (arith, lt))), same n (omega arith))

pub le-sum : (n i : ℕ) (f : ℕ → ℕ) → i < n → f i ≤ sum n f
le-sum zero i f lt = absurd (omega arith)
le-sum (suc n) i f lt = elim (Bool-cases (i == n)) [
  | inl last ↦ ground arith
  | inr below ↦ ground (arith, le-sum n i f)
]

pub add-le-sum : (n i j : ℕ) (f : ℕ → ℕ) → i < n → j < n → i ≢ j → f i + f j ≤ sum n f
add-le-sum zero i j f lt lt' ne = absurd (omega arith)
add-le-sum (suc n) i j f lt lt' ne = elim (Bool-cases (i == n)) [
  | inl last ↦ ground (arith, le-sum n j f)
  | inr below ↦ elim (Bool-cases (j == n)) [
    | inl last ↦ ground (arith, le-sum n i f)
    | inr under ↦ ground (arith, add-le-sum n i j f)
  ]
]

-- Functions that differ at one place only.
pub sum-change :
    (n i : ℕ) (f g : ℕ → ℕ) → i < n → ((j : ℕ) → i ≢ j → f j ≡ g j) → sum n f + g i ≡ sum n g + f i
sum-change zero i f g lt same = absurd (omega arith)
sum-change (suc n) i f g lt same = elim (Bool-cases (i == n)) [
  | inl last ↦ ground (arith, sum-same n f g (λ j below. same j (ground (arith, last, below))))
  | inr other ↦ ground (arith, sum-change n i f g (ground (arith, other)) same, same n)
]
