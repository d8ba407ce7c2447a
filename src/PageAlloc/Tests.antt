-- ===== src/PageAlloc/Tests.antt =====
-- The theorems about the buddy allocator at concrete zones, and runs of it.
use sumi_os.Base.{
  ℕ, ◌+◌, ◌-◌, ◌*◌, ◌^◌, ◌≤◌, ◌<◌, ◌≡◌, refl, true, false, ◌⊎◌, some, arith, update, minus_one,
  if◌then◌else◌, ◌==◌,
}
use sumi_os.Layout.{page_to_phys, page_size}
use sumi_os.Links.{list_add_next, list_del, list_empty}
use sumi_os.PageTable.{mm_pgtable_get_va_pte}
use sumi_os.PageAlloc.{
  Zone, freelist_init, free_pages, free_pages_unlocked, mm_phys_alloc, alloc_pages_unlocked,
  alloc_page_direct, find_block, put_halves, take_pages, merge_loop, put_block, is_free_head,
  next_page_by_order, prev_page_by_order,
}
use sumi_os.PageAlloc.Blocks.{size, inside}
use sumi_os.PageAlloc.Rep.{IsZone}
use sumi_os.PageAlloc.Init.{no_blocks}
use sumi_os.PageAlloc.Merge.{Matches}
use sumi_os.PageAlloc.Free.{IsFreed}
use sumi_os.PageAlloc.Entry.{
  IsAllocated, alloc_pages-IsAllocated, free_pages-IsFreed, mm_phys_alloc-IsAllocated,
}
use sumi_os.PageAlloc.Overlap.{free_pages_unlocked-overlap}
use sumi_os.PageAlloc.Fixtures.{
  no_page, blank, first, second, held_second, one_block, one_free, one_free-IsZone,
}

-- The allocation of one page splits the free block of 512 pages.
alloc_pages-IsAllocated_example :
    (p : ℕ) × (z' : Zone) × IsAllocated one_free one_block held_second 0 p z'
unfolding freelist_init
alloc_pages-IsAllocated_example =
    alloc_pages-IsAllocated one_free one_block held_second 0 one_free-IsZone refl (omega arith)

mm_phys_alloc-IsAllocated_example :
    (order p : ℕ) × (z' : Zone) × IsAllocated one_free one_block held_second order p z'
    × (mm_phys_alloc one_free 9000 ≡ some ((if p == 0 then minus_one else page_to_phys p), z'))
    × (9000 ≤ page_size * 2 ^ order)
    × ((order ≡ 0) ⊎ (page_size * 2 ^ (order - 1) < 9000))
unfolding freelist_init
mm_phys_alloc-IsAllocated_example =
    mm_phys_alloc-IsAllocated one_free one_block held_second 9000 one_free-IsZone refl (omega arith)

-- The free of the second block merges it with the first.
merges_back : Matches 1 second 9 (record one_free { freelist_lock = 1 }) one_block
unfolding is_free_head mm_pgtable_get_va_pte freelist_init next_page_by_order prev_page_by_order
merges_back = (λ h. cc, λ h g. (refl, tt))

free_pages-IsFreed_example :
    (z' : Zone) × (free_pages one_free second 9 ≡ some z')
    × (z'.freelist_lock ≡ 0)
    × IsFreed z'.links one_free.freelist one_block (λ a. 0) second 9
unfolding freelist_init
free_pages-IsFreed_example =
    free_pages-IsFreed one_free second 9 one_block (λ a. 0) one_free-IsZone refl (omega arith)
      merges_back

-- Here the second block is free at order 0 only, and the page behind it belongs to somebody else.
abbrev one_page_free : Zone
one_page_free = record (freelist_init blank) {
  page = update (λ a. no_page) second (record no_page { is_free = true; is_head = true });
}

free_pages_unlocked-overlap_example :
    ¬ IsZone
      (free_pages_unlocked one_page_free first 9).links
      one_page_free.freelist
      no_blocks
      (inside (second + 64) 64)
unfolding freelist_init is_free_head mm_pgtable_get_va_pte next_page_by_order inside size
free_pages_unlocked-overlap_example =
    free_pages_unlocked-overlap one_page_free first (second + 64) (inside (second + 64) 64)
      no_blocks (λ h. absurd (omega arith)) refl (λ h. absurd (omega arith)) refl (omega arith)

-- A run in which the code's own calls lead there: two pages and then one and one are handed out;
-- when the third page comes back alone and then the first two, the free list of order 2 holds a
-- block of four pages, the last of which is still in use.
abbrev four_pages : Zone
four_pages = record (freelist_init blank) {
  links = list_add_next (freelist_init blank).links (blank.freelist + 32) first;
  page = update (λ a. no_page) first (record no_page { is_free = true; is_head = true });
}

run_to_overlap : Zone
run_to_overlap =
    let z1 = (alloc_pages_unlocked four_pages 1).1 in
    let z2 = (alloc_pages_unlocked z1 0).1 in
    let z3 = (alloc_pages_unlocked z2 0).1 in
    let z4 = free_pages_unlocked z3 (first + 128) 0 in free_pages_unlocked z4 first 1

reachable_overlap :
    (run_to_overlap.links.next (four_pages.freelist + 32) ≡ first)
    × ((run_to_overlap.page (first + 192)).is_free ≡ false)
    × ((run_to_overlap.page (first + 192)).ref_count ≡ 1)
unfolding run_to_overlap alloc_pages_unlocked alloc_page_direct find_block put_halves take_pages
    free_pages_unlocked merge_loop put_block is_free_head mm_pgtable_get_va_pte freelist_init
    next_page_by_order prev_page_by_order list_add_next list_del list_empty
reachable_overlap = (refl, refl, refl)
