-- ===== src/Links/Ring.antt =====
-- What a circular list stands for: from the head `h` the `next` words lead through the nodes of
-- `xs`, in order, back to `h`, and the `prev` words lead back the same way.
use sumi_os.Base.{ℕ, ◌≡◌, true, false, List, [], ◌∷◌, arith, has}
use sumi_os.Links.{Links}

-- The links from `p` through `xs` to `q`.
abbrev pub Seg : Links → ℕ → List ℕ → ℕ → Type 0
Seg s p [] q = (s.next p ≡ q) × (s.prev q ≡ p)
Seg s p (x ∷ xs) q = (s.next p ≡ x) × (s.prev x ≡ p) × Seg s x xs q

-- No node stands twice.
abbrev pub Distinct : List ℕ → Type 0
Distinct [] = Unit {0}
Distinct (x ∷ xs) = (has x xs ≡ false) × Distinct xs

pub record IsRing (s : Links) (h : ℕ) (xs : List ℕ) : Type 0 where
  pub chain : Seg s h xs h
  pub distinct : Distinct (h ∷ xs)

-- Two states that agree on the words that a segment uses.
pub Seg-frame :
    {s t : Links} (p : ℕ) (xs : List ℕ) (q : ℕ)
    → Seg s p xs q
    → ((a : ℕ) → has a (p ∷ xs) ≡ true → t.next a ≡ s.next a)
    → ((a : ℕ) → has a (q ∷ xs) ≡ true → t.prev a ≡ s.prev a)
    → Seg t p xs q
Seg-frame p [] q c n v = ground (arith, n p, v q)
Seg-frame p (x ∷ xs) q c n v = (
  ground (arith, n p),
  ground (arith, v x),
  Seg-frame x xs q c.2 (λ a m. ground (arith, n a)) (λ a m. ground (arith, v a)),
)
