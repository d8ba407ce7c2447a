-- ===== src/PageAlloc/Aligned.antt =====
-- mm/page_alloc.c: the blocks of the buddy allocator begin at the start of a struct page, and stay so.
use sumi_os.Base.{ℕ, ◌%◌, ◌≡◌, ◌<◌, true, ◌∷◌, arith, update, has, Bool-cases, inl, inr, ap}
use sumi_os.Links.Laws.{remove, has-remove}
use sumi_os.PageAlloc.{max_page_order}
use sumi_os.PageAlloc.Blocks.{Blocks, size}

-- All blocks begin at the start of a struct page of the array.
abbrev pub AllAligned : Blocks → Type 0
AllAligned b = (k x : ℕ) → k < max_page_order → has x (b k) ≡ true → x % 64 ≡ 0

pub size-aligned : (order : ℕ) → size order % 64 ≡ 0
unfolding size
size-aligned order = omega arith

pub cons-aligned :
    (b : Blocks) (j x : ℕ) → AllAligned b → x % 64 ≡ 0 → AllAligned (update b j (x ∷ b j))
cons-aligned b j x all at k y lt m = ground (arith, all k y lt, m, at)

pub remove-aligned :
    (b : Blocks) (j x : ℕ) → AllAligned b → AllAligned (update b j (remove x (b j)))
remove-aligned b j x all k y lt m = elim (Bool-cases (has y (b k))) [
  | inl listed ↦ all k y lt listed
  | inr away ↦ absurd (ground (arith, m, away, has-remove x y (b k), ap b))
]

pub head_aligned :
    (b : Blocks) (k x : ℕ) → AllAligned b → k < max_page_order → has x (b k) ≡ true → x % 64 ≡ 0
head_aligned b k x all lt m = all k x lt m
