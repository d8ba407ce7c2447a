-- ===== src/Slub/Trim.antt =====
-- `slub_alloc` trims a block into a chain of objects that lie side by side and fill it.
use sumi_os.Base.{
  ℕ, zero, suc, ◌+◌, ◌-◌, ◌^◌, ◌≤◌, ◌<◌, ◌≡◌, refl, true, false, ◌⊎◌, inl, Option, some, arith,
  update, u64, ltb, ◌∙◌,
}
use sumi_os.PageTable.{Words}
use sumi_os.Slub.{trim}

-- The bytes of `n` objects.
abbrev pub spaced : (obj_size n : ℕ) → ℕ
spaced o zero = 0
spaced o (suc n) = o + spaced o n

-- From `p` on lie `n` objects, the first word of each pointing to the next, and that of the last 0.
abbrev pub Chain : Words → (p obj_size n : ℕ) → Type 0
Chain w p o zero = Unit {0}
Chain w p o (suc zero) = w p ≡ 0
Chain w p o (suc (suc n)) = (w p ≡ p + o) × Chain w (p + o) o (suc n)

pub le-spaced : (o n : ℕ) → 0 < o → n ≤ spaced o n
le-spaced o zero h = omega arith
le-spaced o (suc n) h = omega (arith, le-spaced o n h)

-- Words below `p`, and from `end` on, are as before.
abbrev pub SameOutside : Words → Words → (p end : ℕ) → Type 0
SameOutside w w' p end = (a : ℕ) → (a < p) ⊎ (end ≤ a) → w' a ≡ w a

trim-round :
    (f slub_addr o alloc_size va p : ℕ) (next_obj : Option ℕ) (w : Words)
    → va + o ≤ alloc_size
    → p + o ≡ slub_addr + va
    → slub_addr + alloc_size < 2 ^ 64
    → 0 < o
    → trim (suc f) slub_addr o alloc_size va next_obj w
      ≡ trim f slub_addr o alloc_size (va + o) (some (p + o)) (update w p (p + o))
unfolding trim
trim-round f slub_addr o alloc_size va p next_obj w more at fits pos =
    let goes_on : ltb va alloc_size ≡ true = ground arith in
    let next : u64 (slub_addr + va) ≡ p + o = omega arith in
    let here : u64 (u64 (slub_addr + va) + 2 ^ 64 - o) ≡ p = omega arith in
    let step : u64 (va + o) ≡ va + o = omega arith in rw (goes_on, here, next, step)

-- From the state in which the object at `p` is not yet linked and `m` more follow it.
pub trim-Chain :
    (fuel m slub_addr o alloc_size va p : ℕ) (next_obj : Option ℕ) (w : Words)
    → 0 < o
    → va + spaced o m ≡ alloc_size
    → p + o ≡ slub_addr + va
    → slub_addr + alloc_size < 2 ^ 64
    → m < fuel
    → (m ≡ 0 → next_obj ≡ some p)
    → (w' : Words) × (trim fuel slub_addr o alloc_size va next_obj w ≡ some w')
      × Chain w' p o (suc m)
      × SameOutside w w' p (slub_addr + alloc_size)
unfolding trim
trim-Chain zero m slub_addr o alloc_size va p next_obj w pos size at fits fuel last =
    absurd (omega arith)
trim-Chain (suc f) zero slub_addr o alloc_size va p next_obj w pos size at fits fuel last =
    let ends : ltb va alloc_size ≡ false = ground arith in
    (update w p 0, rw (ends, last refl), ground arith, λ a h. ground arith)
trim-Chain (suc f) (suc m) slub_addr o alloc_size va p next_obj w pos size at fits fuel last =
    let (w', runs, chain, same) =
      trim-Chain f m slub_addr o alloc_size (va + o) (p + o) (some (p + o)) (update w p (p + o)) pos
        (omega arith) (omega arith) fits (omega arith) (λ e. refl) in
    (
      w',
      trim-round f slub_addr o alloc_size va p next_obj w (omega arith) at fits pos ∙ runs,
      (same p (inl (omega arith)) ∙ ground arith, chain),
      λ a h. ground (arith, same a),
    )
