-- ===== src/BootMem/Source.antt =====
-- The boot stage's linear allocator as the source of the pages of the kernel's first page table, and
-- the loops that map a row of pages with them.
use sumi_os.Base.{
  ℕ, zero, suc, ◌+◌, ◌*◌, ◌^◌, ◌%◌, ◌<◌, ◌≤◌, ◌≡◌, refl, ◌≢◌, true, ◌⊎◌, inl, some, arith, ◌∙◌,
}
use sumi_os.Layout.{page_size, kernel_va_is_phys_zero}
use sumi_os.PageTable.{Words}
use sumi_os.PageTable.Tree.{IsTree}
use sumi_os.PageTable.Descend.{IsPageSource}
use sumi_os.PageTable.Map.{map_page-whole}
use sumi_os.PageTable.Range.{IsRange, IsRange-nil, IsRange-cons}
use sumi_os.BootMem.{BootMem, boot_mm_alloc, boot_pgtable_map, boot_map_range}

-- `n` more pages fit in the memory, of `total` bytes, whose end lies in the first 64 terabytes, and
-- no page from the next chunk on is a table.
pub record HasPages (total n : ℕ) (s : BootMem) (level : ℕ → ℕ) : Type 0 where
  pub whole : s.boot_mem_alloc_start % 4096 ≡ 0
  pub fits : s.boot_mem_alloc_start + 4096 * n < s.boot_mem_total
  pub bound : s.boot_mem_total ≤ 2 ^ 46
  pub all : s.boot_mem_total ≡ total
  pub no_table : (q : ℕ) → s.boot_mem_alloc_start ≤ q → level q ≡ 0

pub boot_mm_alloc-page :
    (s : BootMem)
    → s.boot_mem_alloc_start % 4096 ≡ 0
    → s.boot_mem_alloc_start + 4096 < s.boot_mem_total
    → s.boot_mem_total ≤ 2 ^ 46
    → boot_mm_alloc s page_size
      ≡ (s.boot_mem_alloc_start, record s { boot_mem_alloc_start = s.boot_mem_alloc_start + 4096 })
unfolding boot_mm_alloc
boot_mm_alloc-page s whole fits bound = ground (arith, whole, fits, bound)

pub boot_mm_alloc-IsPageSource :
    (total : ℕ) → IsPageSource (λ s. some (boot_mm_alloc s page_size)) (HasPages total)
boot_mm_alloc-IsPageSource total = record {
  less = λ n s level h. record {
    whole = h.whole;
    fits = omega (arith, h.fits);
    bound = h.bound;
    all = h.all;
    no_table = h.no_table;
  };
  gives = λ n s level h. (
    s.boot_mem_alloc_start,
    record s { boot_mem_alloc_start = s.boot_mem_alloc_start + 4096 },
    rw (boot_mm_alloc-page s h.whole (omega (arith, h.fits)) h.bound) refl,
    (h.whole, omega (arith, h.fits, h.bound)),
    h.no_table s.boot_mem_alloc_start (omega arith),
    λ l. record {
      whole = omega (arith, h.whole);
      fits = omega (arith, h.fits);
      bound = h.bound;
      all = h.all;
      no_table = λ q le. ground (arith, le, h.no_table q (omega (arith, le)));
    },
  );
}

boot_map_range-step :
    (left pgtable va pa attr : ℕ) (s s' : BootMem) (word word' : Words)
    → boot_pgtable_map pgtable va pa attr s word ≡ some (s', word')
    → boot_map_range (suc left) pgtable va pa attr s word
      ≡ boot_map_range left pgtable (va + page_size) (pa + page_size) attr s' word'
unfolding boot_map_range
boot_map_range-step left pgtable va pa attr s s' word word' e = rw (e, boot_map_range) refl

-- In memory with three pages for each page to be mapped, mapping a row of pages returns: the walks
-- then find each of them at its address, the walks of the addresses in other pages end as before, and
-- the page table is well formed again. The attributes are not all clear and lie below the address of
-- a page; the first page has address 0 only at the two addresses where the walk accepts that.
pub boot_map_range-IsRange :
    (left total : ℕ) (level : ℕ → ℕ) (word : Words) (pgtable va pa attr n : ℕ) (s : BootMem)
    → IsTree 0 level word
    → level pgtable ≡ 4
    → pa % 4096 ≡ 0
    → (pa ≢ 0) ⊎ (kernel_va_is_phys_zero va ≡ true)
    → attr < 4096
    → attr ≢ 0
    → left < 2 ^ 36
    → HasPages total (3 * left + n) s level
    → (s' : BootMem) × (word' : Words) × (level' : ℕ → ℕ) × (boot_map_range left pgtable va pa attr
          s word
        ≡ some (s', word'))
      × IsRange 0 level word pgtable va pa left level' word'
      × HasPages total n s' level'
unfolding boot_pgtable_map
boot_map_range-IsRange zero total level word pgtable va pa attr n s tree root whole ok small
      some_bit low pages =
    let e : 3 * 0 + n ≡ n = omega arith in
    (
      s,
      word,
      level,
      unfold boot_map_range in refl,
      IsRange-nil 0 word pgtable va pa level tree root,
      rw e at pages,
    )
boot_map_range-IsRange (suc left) total level word pgtable va pa attr n s tree root whole ok small
      some_bit low pages =
    let e : 3 * suc left + n ≡ suc (suc (suc (3 * left + n))) = omega arith in
    let (s1, w1, l1, runs, m, pages1) =
      map_page-whole (boot_mm_alloc-IsPageSource total) 0 (omega arith) level word pgtable va pa
        attr (3 * left + n) s tree root whole ok small some_bit (rw e at pages) in
    let (s2, w2, l2, runs', r, pages2) =
      boot_map_range-IsRange left total l1 w1 pgtable (va + 4096) (pa + 4096) attr n s1 m.tree
        m.root (omega arith) (inl (omega arith)) small some_bit (omega arith) pages1 in
    (
      s2,
      w2,
      l2,
      boot_map_range-step left pgtable va pa attr s s1 word w1 runs ∙ runs',
      IsRange-cons 0 word w1 w2 pgtable va pa left level l1 l2 m r (omega arith) whole,
      pages2,
    )
