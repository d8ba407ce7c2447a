-- ===== src/Slub/Heap/Fresh.antt =====
-- The memory of a new slub, next to what the heap holds already.
use sumi_os.Base.{ℕ, zero, suc, ◌+◌, ◌*◌, ◌%◌, ◌^◌, ◌≤◌, ◌<◌, ◌≡◌, arith, ◌∙◌, ◌⊎◌}
use sumi_os.Layout.{page_size, page_to_phys, kernel_page_array, kernel_direct_mapping_area}
use sumi_os.PageTable.{Words}
use sumi_os.PageAlloc.Blocks.{size, inside}
use sumi_os.Slub.Trim.{Chain, spaced}
use sumi_os.Slub.Refill.{memory_of}
use sumi_os.Slub.Heap.{struct_of}

-- A byte of the memory of a block has its struct page in the block.
pub inside-struct :
    (p order m : ℕ)
    → p % 64 ≡ 0
    → kernel_page_array ≤ p
    → p + size order ≤ kernel_page_array + 2 ^ 40
    → inside (memory_of p) (page_size * 2 ^ order) m ≤ inside p (size order) (struct_of m)
unfolding inside size page_to_phys
inside-struct p order m at lo hi = ground arith

-- And it lies in the direct mapping area.
pub inside-low :
    (p n m : ℕ)
    → kernel_page_array ≤ p
    → p ≤ kernel_page_array + 2 ^ 40
    → m < kernel_direct_mapping_area
    → inside (memory_of p) n m ≡ 0
unfolding inside page_to_phys
inside-low p n m lo hi below = ground arith

pub outside-inside : (x n a : ℕ) → inside x n a ≡ 0 → (a < x) ⊎ (x + n ≤ a)
unfolding inside
outside-inside x n a away = ground (arith, away)

-- A chain stands as long as its bytes keep their words.
pub Chain-frame :
    (w w' : Words) (p o n : ℕ)
    → 0 < o
    → ((a : ℕ) → inside p (spaced o n) a ≡ 1 → w' a ≡ w a)
    → Chain w p o n
    → Chain w' p o n
unfolding inside
Chain-frame w w' p o zero pos same c = tt
Chain-frame w w' p o (suc zero) pos same c = same p (ground arith) ∙ c
Chain-frame w w' p o (suc (suc n)) pos same c = (
  same p (ground arith) ∙ c.0,
  Chain-frame w w' (p + o) o (suc n) pos (λ a m. same a (ground (arith, m))) c.1,
)
