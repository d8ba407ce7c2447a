-- ===== src/PageAlloc/Blocks.antt =====
-- The abstract view of the buddy allocator: for each order the sequence of its free blocks, each
-- named by the address of its first struct page, and how many free blocks hold a given address.
use sumi_os.Base.{
  ℕ, zero, suc, ◌+◌, ◌-◌, ◌*◌, ◌≤◌, ◌<◌, ◌≡◌, refl, ◌≢◌, true, List, [], ◌∷◌, ◌&&◌, arith, ◌==◌,
  leb, ltb, if◌then◌else◌, update, has, ◌<<◌, Bool-cases, inl, inr,
}
use sumi_os.Layout.{page_struct_size}
use sumi_os.Links.Laws.{remove}
use native.Mathlib.Nat.{pow-suc, one-le-pow}

abbrev pub Blocks : Type 0
Blocks = ℕ → List ℕ

-- The bytes of page structs in a block of an order.
unfoldable pub size : ℕ → ℕ
size order = page_struct_size * (1 << order)

-- 1 if the block of `n` bytes at `x` holds the address `a`, and 0 otherwise.
unfoldable pub inside : (x n a : ℕ) → ℕ
inside x n a = if leb x a && ltb a (x + n) then 1 else 0

-- How many blocks of a list, and of the lists of the orders below `n`, hold `a`.
unfoldable pub spans : ℕ → List ℕ → ℕ → ℕ
spans n [] a = 0
spans n (x ∷ xs) a = inside x n a + spans n xs a

unfoldable pub cover : ℕ → Blocks → ℕ → ℕ
cover zero b a = 0
cover (suc n) b a = cover n b a + spans (size n) (b n) a

pub size-suc : (order : ℕ) → size (suc order) ≡ size order + size order
unfolding size
size-suc order = simp pow-suc (omega arith)

pub size-pos : (order : ℕ) → 0 < size order
unfolding size
size-pos order = omega (arith, one-le-pow order 2)

-- Changing one list changes the count by the difference of its blocks.
cover-update_ge :
    (n : ℕ) (b : Blocks) (j : ℕ) (xs : List ℕ) (a : ℕ)
    → n ≤ j
    → cover n (update b j xs) a ≡ cover n b a
unfolding cover
cover-update_ge zero b j xs a h = refl
cover-update_ge (suc n) b j xs a h = ground (arith, cover-update_ge n b j xs a)

pub cover-update :
    (n : ℕ) (b : Blocks) (j : ℕ) (xs : List ℕ) (a : ℕ)
    → j < n
    → cover n (update b j xs) a + spans (size j) (b j) a ≡ cover n b a + spans (size j) xs a
unfolding cover
cover-update zero b j xs a h = absurd (omega arith)
cover-update (suc n) b j xs a h = elim (Bool-cases (j == n)) [
  | inl last ↦ ground (arith, cover-update_ge n b j xs a)
  | inr below ↦ ground (arith, cover-update n b j xs a)
]

-- A listed block is counted at each address that it holds.
pub spans-has : (n : ℕ) (xs : List ℕ) (x a : ℕ) → has x xs ≡ true → inside x n a ≤ spans n xs a
unfolding spans
spans-has n [] x a h = cc
spans-has n (y ∷ ys) x a h = ground (arith, spans-has n ys x a)

-- Taking a block out of a list takes its share away.
pub spans-remove :
    (n : ℕ) (xs : List ℕ) (x a : ℕ)
    → has x xs ≡ true
    → spans n (remove x xs) a + inside x n a ≡ spans n xs a
unfolding spans
spans-remove n [] x a h = cc
spans-remove n (y ∷ ys) x a h = ground (arith, spans-remove n ys x a)

pub spans-cons : (n : ℕ) (xs : List ℕ) (x a : ℕ) → spans n (x ∷ xs) a ≡ inside x n a + spans n xs a
unfolding spans
spans-cons n xs x a = refl

pub spans-le-cover : (n : ℕ) (b : Blocks) (j a : ℕ) → j < n → spans (size j) (b j) a ≤ cover n b a
unfolding cover
spans-le-cover zero b j a h = absurd (omega arith)
spans-le-cover (suc n) b j a h = elim (Bool-cases (j == n)) [
  | inl last ↦ ground arith
  | inr below ↦ ground (arith, spans-le-cover n b j a)
]

-- So at two orders together.
pub spans-add-spans-le-cover :
    (n : ℕ) (b : Blocks) (j k a : ℕ)
    → j < n
    → k < n
    → j ≢ k
    → spans (size j) (b j) a + spans (size k) (b k) a ≤ cover n b a
unfolding cover
spans-add-spans-le-cover zero b j k a h g ne = absurd (omega arith)
spans-add-spans-le-cover (suc n) b j k a h g ne = elim (Bool-cases (j == n)) [
  | inl last ↦ ground (arith, spans-le-cover n b k a)
  | inr below ↦ elim (Bool-cases (k == n)) [
    | inl last ↦ ground (arith, spans-le-cover n b j a)
    | inr under ↦ ground (arith, spans-add-spans-le-cover n b j k a)
  ]
]

pub inside_self : (x n : ℕ) → 0 < n → inside x n x ≡ 1
unfolding inside
inside_self x n h = ground arith

pub inside-last : (x n : ℕ) → 0 < n → inside x n (x + n - 1) ≡ 1
unfolding inside
inside-last x n h = ground arith

-- A block is its two halves.
pub inside-halves :
    (x order a : ℕ)
    → inside x (size (suc order)) a
      ≡ inside x (size order) a + inside (x + size order) (size order) a
unfolding inside
inside-halves x order a = ground (arith, size-suc order)

-- What listing a block, and taking it out, does to the count.
module _ (n : ℕ) (b : Blocks) (j x a : ℕ) (lt : j < n) where
  pub cover-cons : cover n (update b j (x ∷ b j)) a ≡ cover n b a + inside x (size j) a
  cover-cons = omega (arith, cover-update n b j (x ∷ b j) a lt, spans-cons (size j) (b j) x a)

  pub cover-remove :
      has x (b j) ≡ true
      → cover n (update b j (remove x (b j))) a + inside x (size j) a ≡ cover n b a
  cover-remove m =
      omega (arith, cover-update n b j (remove x (b j)) a lt, spans-remove (size j) (b j) x a m)
