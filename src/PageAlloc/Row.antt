-- ===== src/PageAlloc/Row.antt =====
-- A row of free blocks that lie side by side, as pages that are freed one after the other leave it:
-- the last block first, each of a smaller order than the one before it but for the largest.
pub mod Carry
pub mod Free
use sumi_os.Base.{
  ℕ, zero, suc, ◌+◌, ◌-◌, ◌*◌, ◌^◌, ◌≤◌, ◌<◌, ◌≡◌, refl, ◌≢◌, Bool, true, false, ◌||◌, ◌⊎◌, inl,
  inr, List, [], ◌∷◌, arith, ◌==◌, Bool-cases, if◌then◌else◌, update, ap, ==_iff, ◌<<◌,
}
use mathlib.Core.Path.{fun_ext}
use native.Mathlib.Nat.{pow-suc, one-le-pow, pow-le-pow_right}
use sumi_os.Links.Laws.{remove}
use sumi_os.PageAlloc.{max_page_order}
use sumi_os.PageAlloc.Blocks.{Blocks, size, size-pos, size-suc, inside, cover, cover-cons}
use sumi_os.PageAlloc.Init.{no_blocks, cover-no_blocks}

pub record Block : Type 0 where
  pub at : ℕ
  pub order : ℕ

-- A block of order `k` may stand behind the blocks: the last one is larger, or of the largest order.
abbrev pub Under : ℕ → List Block → Type 0
Under k [] = Unit {0}
Under k (x ∷ xs) = (k < x.order) ⊎ (k ≡ 10)

-- The last block is not smaller.
abbrev pub AtMost : ℕ → List Block → Type 0
AtMost k [] = Unit {0}
AtMost k (x ∷ xs) = k ≤ x.order

-- The blocks fill the addresses from `from` up to `end`.
abbrev pub Stacked : (from : ℕ) → List Block → (end : ℕ) → Type 0
Stacked from [] end = end ≡ from
Stacked from (x ∷ xs) end =
    (x.at + size x.order ≡ end)
    × (x.order < max_page_order)
    × Under x.order xs
    × Stacked from xs x.at

abbrev pub listed : List Block → Blocks
listed [] = no_blocks
listed (x ∷ xs) = update (listed xs) x.order (x.at ∷ listed xs x.order)

abbrev pub begins : List Block → ℕ → Bool
begins [] a = false
begins (x ∷ xs) a = (a == x.at) || begins xs a

pub size-lt : (j k : ℕ) → j < k → size j < size k
size-lt j zero lt = absurd (omega arith)
size-lt j (suc k) lt = elim (Bool-cases (j == k)) [
  | inl same ↦ ground (arith, same, size-suc k, size-pos k)
  | inr below ↦ ground (arith, below, size-suc k, size-pos k, size-lt j k)
]

pub size_mono : (j k : ℕ) → j ≤ k → size j ≤ size k
size_mono j k le = elim (Bool-cases (j == k)) [
  | inl same ↦ ground (arith, same)
  | inr less ↦ ground (arith, less, size-lt j k)
]

pub size-le : (k : ℕ) → k < max_page_order → size k ≤ 65536
unfolding size
size-le k lt = omega (arith, pow-le-pow_right {n = 2} (omega arith) {i = k} {j = 10} (omega arith))

pub Stacked-le : (from : ℕ) (xs : List Block) (end : ℕ) → Stacked from xs end → from ≤ end
Stacked-le from [] end s = omega (arith, s)
Stacked-le from (x ∷ xs) end (e, _, _, s) = omega (arith, e, Stacked-le from xs x.at s)

pub begins-lt :
    (from : ℕ) (xs : List Block) (end a : ℕ) → Stacked from xs end → begins xs a ≡ true → a < end
begins-lt from [] end a s m = cc
begins-lt from (x ∷ xs) end a (e, _, _, s) m =
    ground (arith, m, e, size-pos x.order, begins-lt from xs x.at a s)

-- Where the previous block of order `k` would begin, one does if the last block has that order.
pub begins-prev :
    (from : ℕ) (x : Block) (xs : List Block) (p k n : ℕ)
    → Stacked from (x ∷ xs) p
    → k ≤ x.order
    → n + size k ≡ p
    → begins (x ∷ xs) n ≡ (k == x.order)
begins-prev from x xs p k n (e, _, _, s) le at = elim (Bool-cases (k == x.order)) [
  | inl same ↦ ground (arith, same, e, at)
  | inr other ↦
      let less : size k < size x.order = size-lt k x.order (ground (arith, other, le)) in
      elim (Bool-cases (begins xs n)) [
        | inl below ↦ absurd (omega (arith, begins-lt from xs x.at n s below, less, e, at))
        | inr none_there ↦ ground (arith, other, none_there, less, e, at)
      ]
]

pub listed-cover :
    (from : ℕ) (xs : List Block) (end a : ℕ)
    → Stacked from xs end
    → cover max_page_order (listed xs) a ≡ inside from (end - from) a
unfolding inside
listed-cover from [] end a s = ground (arith, s, cover-no_blocks max_page_order a)
listed-cover from (x ∷ xs) end a (e, lt, _, s) = ground (
  arith,
  e,
  listed-cover from xs x.at a s,
  Stacked-le from xs x.at s,
  cover-cons max_page_order (listed xs) x.order x.at a lt,
)

-- Without the last block.
pub listed-remove :
    (x : Block) (xs : List Block)
    → update (listed (x ∷ xs)) x.order (remove x.at (listed (x ∷ xs) x.order)) ≡ listed xs
listed-remove x xs = fun_ext λ k. ground arith
