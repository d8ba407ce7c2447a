-- ===== src/PageAlloc/Init.antt =====
-- `freelist_init` makes the zone in which nothing is free.
use sumi_os.Base.{
  ℕ, zero, suc, ◌+◌, ◌^◌, ◌≤◌, ◌<◌, ◌≡◌, refl, ◌≢◌, [], arith, ◌==◌, Bool-cases, inl, inr,
}
use sumi_os.Links.{Links, list_head_init}
use sumi_os.Links.Ring.{IsRing}
use sumi_os.Links.Laws.{list_head_init-IsRing}
use sumi_os.Links.Frame.{SameAt, IsRing-frame}
use sumi_os.PageAlloc.{max_page_order, Zone, freelist_at, freelist_init_loop, freelist_init}
use sumi_os.PageAlloc.Blocks.{Blocks, spans, cover}
use sumi_os.PageAlloc.Rep.{head_at, IsZone}

abbrev pub no_blocks : Blocks
no_blocks k = []

pub cover-no_blocks : (n a : ℕ) → cover n no_blocks a ≡ 0
unfolding cover spans
cover-no_blocks zero a = refl
cover-no_blocks (suc n) a = omega (arith, cover-no_blocks n a)

pub list_head_init-SameAt : (s : Links) (h a : ℕ) → h ≢ a → SameAt s (list_head_init s h) a
unfolding list_head_init
list_head_init-SameAt s h a ne = (ground arith, ground arith)

-- The rounds made so far have made an empty list of each head.
freelist_init_loop-IsRing :
    (left i : ℕ) (z : Zone)
    → ((k : ℕ) → k < i → IsRing z.links (head_at z.freelist k) [])
    → (k : ℕ) → k < i + left
    → IsRing (freelist_init_loop left i z).links (head_at z.freelist k) []
unfolding freelist_init_loop
freelist_init_loop-IsRing zero i z done k lt = done k (omega arith)
freelist_init_loop-IsRing (suc left) i z done k lt =
    freelist_init_loop-IsRing left (i + 1) _
      (λ j below. elim (Bool-cases (j == i)) [
        | inl this ↦
            let e : j ≡ i = ground arith in
            rw e (list_head_init-IsRing z.links (head_at z.freelist i))
        | inr other ↦
            IsRing-frame (done j (ground arith))
              λ a m. list_head_init-SameAt z.links (head_at z.freelist i) a (ground arith)
      ])
      k (omega arith)

-- After `freelist_init` no block is free; blocks may be held anywhere but at the list heads, the
-- null pointer and the top.
pub freelist_init-IsZone :
    (z : Zone) (held : ℕ → ℕ)
    → ((a : ℕ) → held a ≤ 1)
    → ((k : ℕ) → k < max_page_order → held (freelist_at z k) ≡ 0)
    → held 0 ≡ 0
    → ((a : ℕ) → 2 ^ 64 ≤ a → held a ≡ 0)
    → IsZone (freelist_init z).links z.freelist no_blocks held
unfolding freelist_init
freelist_init-IsZone z held once heads null top = record {
  ring = λ k lt.
      freelist_init_loop-IsRing max_page_order 0 z (λ j h. absurd (omega arith)) k (omega arith);
  apart = λ a. omega (arith, cover-no_blocks max_page_order a, once a);
  heads = λ k lt. omega (arith, cover-no_blocks max_page_order (head_at z.freelist k), heads k lt);
  null = omega (arith, cover-no_blocks max_page_order 0, null);
  top = λ a h. omega (arith, cover-no_blocks max_page_order a, top a h);
}
