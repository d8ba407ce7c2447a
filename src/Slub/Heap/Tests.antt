-- ===== src/Slub/Heap/Tests.antt =====
-- The theorems about the heap at a concrete state: the caches over one free block of order 9.
use sumi_os.PageAlloc.{max_page_order}
use sumi_os.PageAlloc.Alloc.{AllEmpty}
use sumi_os.Base.{◌<◌, ◌⊎◌, ℕ, ◌+◌, ◌≤◌, ◌≡◌, refl, List, [], ◌∷◌, some}
use sumi_os.PageAlloc.{freelist_init}
use sumi_os.PageAlloc.Fixtures.{one_block, held_second, one_free-IsZone}
use sumi_os.Slub.{kmalloc, Slubs, kmem_cache_init}
use sumi_os.Slub.Heap.{Object, uses, IsHeap}
use sumi_os.Slub.Heap.Init.{kmem_cache_init-IsHeap}
use sumi_os.Slub.Heap.Client.{SomeHeap, Answers, kmallocs, kmalloc-Answers, kmallocs-apart}
use sumi_os.Slub.Fixtures.{before, in_array}
use sumi_os.Slub.Heap.Fixtures.{
  lists-IsPlaced, one_block-AllAligned, ready, ready-IsHeap, ready-SomeHeap,
}

kmem_cache_init-IsHeap_example :
    IsHeap (kmem_cache_init before) one_block held_second (λ _. []) (λ _. 0) []
unfolding freelist_init
kmem_cache_init-IsHeap_example =
    kmem_cache_init-IsHeap before one_block held_second one_free-IsZone in_array lists-IsPlaced
      one_block-AllAligned refl (λ i lt. refl)

-- Two small objects, a page, and a request that no cache serves.
kmallocs-apart_example :
    (objs : List Object) × (s' : Slubs) × (outs' : List Object) × (kmallocs
        (16 ∷ 100 ∷ 4096 ∷ 10000 ∷ [])
        ready
      ≡ some (objs, s'))
    × SomeHeap s' held_second outs'
    × ((m : ℕ) → uses objs m + uses [] m ≤ 1)
kmallocs-apart_example = kmallocs-apart (16 ∷ 100 ∷ 4096 ∷ 10000 ∷ []) ready [] ready-SomeHeap

-- A request of 100 bytes to the cache of 128 bytes, which has none.
kmalloc-Answers_example :
    (n : ℕ) × (100 ≤ n)
    × Answers
        (kmalloc 2 100 ready)
        ((8192 < 100) ⊎ AllEmpty one_block 2 max_page_order)
        held_second
        n
        []
kmalloc-Answers_example = kmalloc-Answers ready-IsHeap 100
