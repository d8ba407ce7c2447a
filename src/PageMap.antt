-- ===== src/PageMap.antt =====
-- mm/pgtable.c: the mapping of a page with tables from the buddy allocator.
pub mod Source
pub mod Map
mod Tests
use sumi_os.Base.{ℕ, Option, none, some}
use sumi_os.Layout.{page_size, kernel_direct_mapping_area}
use sumi_os.PageTable.{map_page}
use sumi_os.PageAlloc.{Zone, mm_phys_alloc}

unfoldable pub mm_pgtable_map : (pgtable va pa attr : ℕ) → Zone → Option Zone
mm_pgtable_map pgtable va pa attr z =
    elim (map_page kernel_direct_mapping_area (λ z. mm_phys_alloc z page_size) pgtable va pa attr z
      z.word) [ none ↦ none | some (z', word) ↦ some (record z' { word = word }) ]
