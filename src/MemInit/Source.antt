-- ===== src/MemInit/Source.antt =====
-- The linear allocator of mm/mm_init.c as the source of the pages of a mapping.
use sumi_os.Base.{ℕ, ◌+◌, ◌*◌, ◌^◌, ◌%◌, ◌<◌, ◌≤◌, ◌≡◌, refl, ◌≢◌, some, arith}
use sumi_os.Layout.{page_size}
use sumi_os.PageTable.Descend.{IsPageSource}
use sumi_os.MemInit.{Linear, mm_init_phys_alloc_linear}

-- The current memory ends at `end`, in the first 64 terabytes; it has room for `n` pages and more, and
-- no page from its start on is a table.
pub record HasPages (end n : ℕ) (s : Linear) (level : ℕ → ℕ) : Type 0 where
  pub some_start : s.mm_alloc_start ≢ 0
  pub whole : s.mm_alloc_start % 4096 ≡ 0
  pub fits : s.mm_alloc_start + 4096 * n < s.mm_alloc_end
  pub bound : s.mm_alloc_end ≤ 2 ^ 46
  pub ends : s.mm_alloc_end ≡ end
  pub no_table : (q : ℕ) → s.mm_alloc_start ≤ q → level q ≡ 0

pub mm_init_phys_alloc_linear-page :
    (s : Linear)
    → s.mm_alloc_start % 4096 ≡ 0
    → s.mm_alloc_start + 4096 < s.mm_alloc_end
    → s.mm_alloc_end ≤ 2 ^ 46
    → mm_init_phys_alloc_linear s page_size
      ≡ (s.mm_alloc_start, record s { mm_alloc_start = s.mm_alloc_start + 4096 })
unfolding mm_init_phys_alloc_linear
mm_init_phys_alloc_linear-page s whole fits bound = ground (arith, whole, fits, bound)

pub mm_init_phys_alloc_linear-IsPageSource :
    (end : ℕ) → IsPageSource (λ s. some (mm_init_phys_alloc_linear s page_size)) (HasPages end)
mm_init_phys_alloc_linear-IsPageSource end = record {
  less = λ n s level h. record {
    some_start = h.some_start;
    whole = h.whole;
    fits = omega (arith, h.fits);
    bound = h.bound;
    ends = h.ends;
    no_table = h.no_table;
  };
  gives = λ n s level h. (
    s.mm_alloc_start,
    record s { mm_alloc_start = s.mm_alloc_start + 4096 },
    rw (mm_init_phys_alloc_linear-page s h.whole (omega (arith, h.fits)) h.bound) refl,
    (h.whole, omega (arith, h.fits, h.bound)),
    h.no_table s.mm_alloc_start (omega arith),
    λ l. record {
      some_start = λ e. omega (arith, e);
      whole = omega (arith, h.whole);
      fits = omega (arith, h.fits);
      bound = h.bound;
      ends = h.ends;
      no_table = λ q le. ground (arith, le, h.no_table q (omega (arith, le)));
    },
  );
}

pub HasPages-less :
    (k n : ℕ) {end : ℕ} {s : Linear} {level : ℕ → ℕ}
    → HasPages end (k + n) s level
    → HasPages end n s level
HasPages-less k n h = record {
  some_start = h.some_start;
  whole = h.whole;
  fits = omega (arith, h.fits);
  bound = h.bound;
  ends = h.ends;
  no_table = h.no_table;
}
