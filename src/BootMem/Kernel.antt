-- ===== src/BootMem/Kernel.antt =====
-- The first page table of the kernel: the image and the direct mapping area are where they belong.
use sumi_os.Base.{
  ℕ, ◌+◌, ◌-◌, ◌*◌, ◌^◌, ◌%◌, ◌<◌, ◌≤◌, ◌≡◌, refl, ◌≢◌, true, ◌⊎◌, inl, inr, some, arith, update,
  ◌∙◌, bit_or,
}
use native.Mathlib.Decide.{dec_lt}
use sumi_os.Layout.{page_size, kernel_base_addr, kernel_direct_mapping_area, kernel_va_is_phys_zero}
use sumi_os.PageTable.{Words, zero_page, entry_in}
use sumi_os.PageTable.Walk.{index, walk}
use sumi_os.PageTable.Tree.{IsTree, IsPage}
use sumi_os.PageTable.Range.{IsRange, page_of, found-IsRange}
use sumi_os.PageTable.Write.{walk-update}
use sumi_os.BootMem.{BootMem, boot_mm_alloc, boot_map_range, pages_to, boot_mm_pgtable_init}
use sumi_os.PageTable.Map.{KeepsRoots-trans}
use sumi_os.BootMem.Built.{IsBuilt, rooted, rooted-IsTree, rooted-KeepsRoots}
use sumi_os.BootMem.Source.{HasPages, boot_mm_alloc-page, boot_map_range-IsRange}

-- What the walks of the finished page table find: the pages of the image from `kernel_base_addr` on,
-- and the first ten megabytes through the direct mapping area.
pub record IsKernelMap (image_pages table : ℕ) (word : Words) : Type 0 where
  pub image :
      (i : ℕ) → i < image_pages → walk 0 3 word table (kernel_base_addr + 4096 * i) ≡ 4096 * i
  pub direct :
      (i : ℕ) → i < 2560 → walk 0 3 word table (kernel_direct_mapping_area + 4096 * i) ≡ 4096 * i

module _ (table ro more : ℕ) (l0 l1 l2 l3 : ℕ → ℕ) (w0 w1 w2 w3 : Words) (pud : ℕ)
    (r1 : IsRange 0 l0 w0 table kernel_base_addr 0 ro l1 w1)
    (r2 : IsRange 0 l1 w1 table (kernel_base_addr + 4096 * ro) (4096 * ro) more l2 w2)
    (r3 : IsRange 0 l2 w2 table kernel_direct_mapping_area 0 2560 l3 w3)
    (fits : kernel_base_addr + 4096 * (ro + more) ≤ 2 ^ 64) where
  image_apart :
      (i j : ℕ)
      → i < ro + more
      → j < 2560
      → page_of (kernel_base_addr + 4096 * i) ≢ page_of (kernel_direct_mapping_area + 4096 * j)
  image_apart i j lt lt' e = omega (arith, fits, lt, lt', e)

  image_found : (i : ℕ) → i < ro + more → walk 0 3 w2 table (kernel_base_addr + 4096 * i) ≡ 4096 * i
  image_found i lt = elim (dec_lt i ro) [
    | yes below ↦
        found-IsRange 0 w1 w2 table (kernel_base_addr + 4096 * ro) (4096 * ro) more
          (kernel_base_addr + 4096 * i) (4096 * i) l1 l2 r2 (λ e. omega (arith, e, fits, lt))
          (λ j lt' e. omega (arith, e, fits, below, lt')) (r1.found i below ∙ omega arith)
    | no above ↦
        let e : kernel_base_addr + 4096 * i ≡ kernel_base_addr + 4096 * ro + 4096 * (i - ro) =
          omega arith in
        let e' : 4096 * i ≡ 4096 * ro + 4096 * (i - ro) = omega arith in
        rw (e, e') (r2.found (i - ro) (omega arith))
  ]

  -- The last write goes to the first entry of the root, through which none of these walks come.
  finished-IsKernelMap : IsKernelMap (ro + more) table (update w3 table pud)
  finished-IsKernelMap = record {
    image = λ i lt.
        unless_first (kernel_base_addr + 4096 * i) (λ e. omega (arith, e, fits, lt))
        ∙ found-IsRange 0 w2 w3 table kernel_direct_mapping_area 0 2560
            (kernel_base_addr + 4096 * i) (4096 * i) l2 l3 r3 (λ e. omega (arith, e, fits, lt))
            (λ j lt'. image_apart i j lt lt') (image_found i lt);
    direct = λ i lt.
        unless_first (kernel_direct_mapping_area + 4096 * i) (λ e. omega (arith, e, lt))
        ∙ r3.found i lt
        ∙ omega arith;
  }
    where
      unless_first :
          (va : ℕ) → index 3 va ≢ 0 → walk 0 3 (update w3 table pud) table va ≡ walk 0 3 w3 table va
      unless_first va ne =
          let low = r3.tree.tables table (ground (arith, r3.root)) in
          let e : entry_in 0 table 0 ≡ table = omega (arith, low) in
          rw e at (
            walk-update 0 l3 w3 table 0 pud 3 va (omega arith) r3.tree r3.root (omega arith) ne 3
              table r3.root)

-- The pages of the image that are mapped without the write bit, and those with it.
abbrev pub read_only : (roseg_end : ℕ) → ℕ
read_only roseg_end = pages_to kernel_base_addr roseg_end

abbrev pub writable : (roseg_end kernel_end : ℕ) → ℕ
writable roseg_end kernel_end =
    pages_to (kernel_base_addr + page_size * read_only roseg_end) kernel_end

module _ (roseg_end kernel_end boot_page_table_pud : ℕ) where
  abbrev ro : ℕ
  ro = read_only roseg_end

  abbrev more : ℕ
  more = writable roseg_end kernel_end

  steps :
      (s s1 s2 s3 : BootMem) (word w1 w2 w3 : Words)
      → let (table, s0) = boot_mm_alloc s page_size in
        boot_map_range ro table kernel_base_addr 0 1 s0 (zero_page word table) ≡ some (s1, w1)
        → boot_map_range more table (kernel_base_addr + page_size * ro) (page_size * ro) 3 s1 w1
          ≡ some (s2, w2)
        → boot_map_range 2560 table kernel_direct_mapping_area 0 3 s2 w2 ≡ some (s3, w3)
        → boot_mm_pgtable_init roseg_end kernel_end boot_page_table_pud s word
          ≡ some (table, s3, update w3 table (bit_or boot_page_table_pud 3))
  unfolding boot_mm_pgtable_init
  steps s s1 s2 s3 word w1 w2 w3 e1 e2 e3 =
      rw (e1, boot_mm_pgtable_init)
        (rw (e2, boot_mm_pgtable_init) (rw (e3, boot_mm_pgtable_init) refl))

  -- In memory with a page for the root and three for each page to be mapped, beside tables that are
  -- well formed and lie below, the making of the kernel's page table returns the table at the first
  -- chunk; its walks find the pages of the image, which ends below the last page of the address
  -- space, from `kernel_base_addr` on and the first ten megabytes through the direct mapping area.
  -- But for the first entry of its root the tables are well formed, and the other roots stay as
  -- they were.
  pub boot_mm_pgtable_init-IsKernelMap :
      (level : ℕ → ℕ) (n : ℕ) (s : BootMem) (word : Words)
      → IsTree 0 level word
      → ((q : ℕ) → s.boot_mem_alloc_start ≤ q → level q ≡ 0)
      → s.boot_mem_alloc_start % 4096 ≡ 0
      → s.boot_mem_alloc_start + 4096 * (1 + 3 * (ro + (more + 2560)) + n) < s.boot_mem_total
      → s.boot_mem_total ≤ 2 ^ 46
      → roseg_end ≤ kernel_end
      → kernel_end + 4096 ≤ 2 ^ 64
      → (s' : BootMem) × (word' : Words) × (boot_mm_pgtable_init roseg_end kernel_end
            boot_page_table_pud s word
          ≡ some (s.boot_mem_alloc_start, s', word'))
        × IsKernelMap (ro + more) s.boot_mem_alloc_start word'
        × IsBuilt level word s.boot_mem_total s.boot_mem_alloc_start n boot_page_table_pud s' word'
  boot_mm_pgtable_init-IsKernelMap level n s word tree no_table whole fits bound ordered top =
      let table = s.boot_mem_alloc_start in
      let fresh = no_table table (omega arith) in
      let page : IsPage table = (whole, omega (arith, fits, bound)) in
      let l0 = rooted level word tree table fresh page in
      let e = boot_mm_alloc-page s whole (omega (arith, fits)) bound in
      let s0 : BootMem = record s { boot_mem_alloc_start = table + 4096 } in
      let (s1, w1, l1, e1, r1, h1) =
        boot_map_range-IsRange ro s.boot_mem_total l0 (zero_page word table) table kernel_base_addr
          0 1 (3 * more + (3 * 2560 + n)) s0 (rooted-IsTree level word tree table fresh page)
          (ground arith) (omega arith) (inr (ground arith)) (omega arith) (omega arith)
          (omega arith) (first_pages level n s no_table whole fits bound) in
      let (s2, w2, l2, e2, r2, h2) =
        boot_map_range-IsRange more s.boot_mem_total l1 w1 table (kernel_base_addr + 4096 * ro)
          (4096 * ro) 3 (3 * 2560 + n) s1 r1.tree r1.root (omega arith) from_zero (omega arith)
          (omega arith) (omega arith) h1 in
      let (s3, w3, l3, e3, r3, h3) =
        boot_map_range-IsRange 2560 s.boot_mem_total l2 w2 table kernel_direct_mapping_area 0 3 n s2
          r2.tree r2.root (omega arith) (inr refl) (omega arith) (omega arith) (omega arith) h2 in
      (
        s3,
        update w3 table (bit_or boot_page_table_pud 3),
        rw e at (steps s s1 s2 s3 word w1 w2 w3 (rw e e1) (rw e e2) (rw e e3)),
        finished-IsKernelMap table ro more l0 l1 l2 l3 _ w1 w2 w3 _ r1 r2 r3
            (omega (arith, ordered, top)),
        record {
          grown = w3;
          level' = l3;
          tree = r3.tree;
          root = r3.root;
          roots =
              KeepsRoots-trans
                (KeepsRoots-trans
                  (KeepsRoots-trans (rooted-KeepsRoots level word tree table fresh page) r1.roots)
                  r2.roots)
                r3.roots;
          pages = h3;
          last = refl;
        },
      )
    where
      from_zero : (4096 * ro ≢ 0) ⊎ (kernel_va_is_phys_zero (kernel_base_addr + 4096 * ro) ≡ true)
      from_zero = elim (dec_lt 0 ro) [
        | yes some_page ↦ inl (λ z. omega (arith, z))
        | no none_there ↦ inr (ground (arith, none_there))
      ]

      first_pages :
          (level : ℕ → ℕ) (n : ℕ) (s : BootMem)
          → ((q : ℕ) → s.boot_mem_alloc_start ≤ q → level q ≡ 0)
          → s.boot_mem_alloc_start % 4096 ≡ 0
          → s.boot_mem_alloc_start + 4096 * (1 + 3 * (ro + (more + 2560)) + n) < s.boot_mem_total
          → s.boot_mem_total ≤ 2 ^ 46
          → HasPages s.boot_mem_total
              (3 * ro + (3 * more + (3 * 2560 + n)))
              (record s { boot_mem_alloc_start = s.boot_mem_alloc_start + 4096 })
              (update level s.boot_mem_alloc_start 4)
      first_pages level n s no_table whole fits bound = record {
        whole = omega (arith, whole);
        fits = omega (arith, fits);
        bound = bound;
        all = refl;
        no_table = λ q le. ground (arith, le, no_table q (omega (arith, le)));
      }
