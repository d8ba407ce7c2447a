-- ===== src/PageAlloc/Array.antt =====
-- include/mm/layout.h and mm/page_alloc.c: the free blocks lie in the array of the struct pages.
use sumi_os.Base.{ℕ, ◌+◌, ◌-◌, ◌^◌, ◌≤◌, ◌<◌, ◌≡◌, arith}
use native.Mathlib.Decide.{dec_lt}
use sumi_os.Layout.{kernel_page_array}
use sumi_os.PageAlloc.{max_page_order}
use sumi_os.PageAlloc.Blocks.{Blocks, size, size-pos, inside, inside_self, inside-last, cover}

-- All free blocks have their page structs in the first 2 ^ 40 bytes of the page array, which stand
-- for 64 terabytes of memory: the direct mapping area holds no more.
pub record InArray (b : Blocks) : Type 0 where
  pub from : (a : ℕ) → a < kernel_page_array → cover max_page_order b a ≡ 0
  pub upto : (a : ℕ) → kernel_page_array + 2 ^ 40 ≤ a → cover max_page_order b a ≡ 0

pub block-in-array :
    (b : Blocks) (p order : ℕ)
    → InArray b
    → ((a : ℕ) → inside p (size order) a ≤ cover max_page_order b a)
    → (kernel_page_array ≤ p) × (p + size order ≤ kernel_page_array + 2 ^ 40)
block-in-array b p order r le =
    (lo (dec_lt p kernel_page_array), hi (dec_lt (kernel_page_array + 2 ^ 40) (p + size order)))
  where
    lo : Dec (p < kernel_page_array) → kernel_page_array ≤ p
    lo (yes h) =
        absurd (omega (arith, le p, r.from p h, inside_self p (size order) (size-pos order)))
    lo (no h) = omega arith

    hi :
        Dec (kernel_page_array + 2 ^ 40 < p + size order)
        → p + size order ≤ kernel_page_array + 2 ^ 40
    hi (yes h) = absurd (
        omega (
          arith,
          le (p + size order - 1),
          r.upto (p + size order - 1) (omega arith),
          inside-last p (size order) (size-pos order),
        ))
    hi (no h) = omega arith
