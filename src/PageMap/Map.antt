-- ===== src/PageMap/Map.antt =====
-- mm/pgtable.c: a mapping made with tables from the buddy allocator.
use sumi_os.Base.{ℕ, suc, ◌<◌, ◌≡◌, refl, ◌≢◌, true, ◌⊎◌, some, arith}
use sumi_os.Layout.{page_size, page_mask, kernel_direct_mapping_area, kernel_va_is_phys_zero}
use sumi_os.PageTable.{Words, map_page}
use sumi_os.PageTable.Tree.{IsTree}
use sumi_os.PageTable.Map.{IsMapped, map_page-IsMapped}
use sumi_os.PageAlloc.{Zone, mm_phys_alloc}
use sumi_os.PageMap.{mm_pgtable_map}
use sumi_os.PageMap.Source.{HasPages, fewer, mm_phys_alloc-IsPageSource}

mm_pgtable_map-returns :
    (pgtable va pa attr : ℕ) (z z' : Zone) (word : Words)
    → map_page kernel_direct_mapping_area
        (λ z. mm_phys_alloc z page_size)
        pgtable
        va
        pa
        attr
        z
        z.word
      ≡ some (z', word)
    → mm_pgtable_map pgtable va pa attr z ≡ some (record z' { word = word })
unfolding mm_pgtable_map
mm_pgtable_map-returns pgtable va pa attr z z' word e = rw (e, mm_pgtable_map) refl

-- In a zone with three free pages at least, whose page table is well formed and has no free page
-- among its tables, mapping a page returns: the walk from then on finds the page at its address;
-- the walks of addresses in other pages end as before, but for KERNEL_BASE_ADDR and the start of
-- the direct mapping area, of which this is shown only where they were mapped before (while they
-- are not, their walk may end at 0 where it ended at -1); the page table and the free lists are
-- well formed again, other page tables keep their roots, and at most three pages have left the free
-- ones. The address may lie inside the page, and the attributes are not all clear and lie below the
-- page's address, which is 0 only for the two addresses where the walk accepts that.
pub mm_pgtable_map-IsMapped :
    (z : Zone) (level : ℕ → ℕ) (pgtable va pa attr n : ℕ)
    → IsTree kernel_direct_mapping_area level z.word
    → level pgtable ≡ 4
    → (page_mask pa ≢ 0) ⊎ (kernel_va_is_phys_zero va ≡ true)
    → attr < 4096
    → attr ≢ 0
    → HasPages (suc (suc (suc n))) z level
    → (z' : Zone) × (level' : ℕ → ℕ) × (mm_pgtable_map pgtable va pa attr z ≡ some z')
      × IsMapped kernel_direct_mapping_area level z.word pgtable va (page_mask pa) level' z'.word
      × HasPages n z' level'
mm_pgtable_map-IsMapped z level pgtable va pa attr n tree root ok small some_bit pages =
    let (z', word', level', returns, mapped, left) =
      map_page-IsMapped mm_phys_alloc-IsPageSource kernel_direct_mapping_area (omega arith) level
        z.word pgtable va pa attr n z tree root ok small some_bit pages in
    (
      record z' { word = word' },
      level',
      mm_pgtable_map-returns pgtable va pa attr z z' word' returns,
      mapped,
      fewer (omega arith) refl refl refl left,
    )
