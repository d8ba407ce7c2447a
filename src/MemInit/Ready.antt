-- ===== src/MemInit/Ready.antt =====
-- `mm_init` as a whole: from what the boot stage leaves to the heap of the kernel.
use sumi_os.Base.{ℕ, ◌*◌, ◌<◌, ◌≡◌, refl, some, List, [], ◌∷◌, ◌++◌}
use sumi_os.Lock.{lock_free}
use sumi_os.PageAlloc.{max_page_order}
use sumi_os.PageAlloc.Blocks.{Blocks, inside, cover}
use sumi_os.Slub.{Slubs, kmem_cache_init}
use sumi_os.Slub.Heap.{IsPlaced, IsHeap}
use sumi_os.Slub.Heap.Init.{kmem_cache_init-IsHeap}
use sumi_os.MemInit.{
  MmapEntry, rounds, Tag, find_mmap, add_areas, Linear, Init, page_at, mm_pages_allocator_init,
  mm_init,
}
use sumi_os.MemInit.Works.{Works}
use sumi_os.MemInit.Passes.{need}
use sumi_os.MemInit.Stocked.{started, IsMemory, IsFresh, mm_pages_allocator_init-IsStocked}

mm_init-runs :
    (root boot : ℕ) (tags : List Tag) (linear : Linear) (s : Slubs) (i : Init)
    → mm_pages_allocator_init root boot tags (record { linear = linear; zone = s.zone }) ≡ some i
    → mm_init root boot tags linear s
      ≡ some (i.linear, kmem_cache_init (record s { zone = i.zone }))
unfolding mm_init
mm_init-runs root boot tags linear s i e = rw (e, mm_init) refl

-- What `mm_init` leaves: a well-formed heap in which no object is handed out, over the `n` pages from
-- the struct page `from` on.
pub record IsStart (s' : Slubs) (from n : ℕ) : Type 0 where
  pub blocks : Blocks
  pub kept : (a : ℕ) → cover max_page_order blocks a ≡ inside from (64 * n) a
  pub heap : IsHeap s' blocks (λ _. 0) (λ _. []) (λ _. 0) []

-- Conditions. The memory map: its entries lie in the first 64 terabytes, and none begins inside the
-- first page; its available entries, with those already in the array of the areas, are at most 32,
-- so that the pass that collects them returns; one available entry lies behind the area that the
-- boot stage has begun, and all others end before the end of that area, which has memory for the
-- tables and the struct pages of the whole map. The page table is well formed, with no table in the
-- rest of that area; no struct page outside the memory map is marked free, in memory that the code
-- does not clear; the caches are unlocked; and the free lists and the lists of the caches lie
-- behind the array of the struct pages, apart from each other. Then `mm_init` returns: it leaves a
-- well-formed heap, in which no object is handed out, over the pages of the available entry behind
-- the area that the boot stage has begun.
pub mm_init-IsStart :
    (root boot end : ℕ) (tags : List Tag) (before after : List MmapEntry) (e : MmapEntry)
    (level : ℕ → ℕ) (linear areas : Linear) (s : Slubs)
    → find_mmap tags ≡ some (before ++ e ∷ after)
    → add_areas boot (before ++ e ∷ after) linear ≡ some areas
    → IsMemory end before after e
    → IsFresh (before ++ e ∷ after) s.zone
    → IsPlaced s
    → ((i : ℕ) → i < 10 → (s.cache i).lock ≡ lock_free)
    → Works end
        (need (before ++ e ∷ after))
        level
        (started root areas (record { linear = linear; zone = s.zone }))
    → (linear' : Linear) × (s' : Slubs) × (mm_init root boot tags linear s ≡ some (linear', s'))
      × IsStart s' (page_at e.addr) (rounds e)
mm_init-IsStart root boot end tags before after e level linear areas s found collects m fresh placed
      unlocked w =
    let (i, runs, k, space) =
      mm_pages_allocator_init-IsStocked root boot end tags before after e level areas
        (record { linear = linear; zone = s.zone }) found collects m fresh w in
    let s1 : Slubs = record s { zone = i.zone } in
    let placed' : IsPlaced s1 = record {
      behind = placed.behind;
      free_lists = rw k.base placed.free_lists;
      apart = rw k.base placed.apart;
    } in
    (
      i.linear,
      kmem_cache_init s1,
      mm_init-runs root boot tags linear s i runs,
      record {
        blocks = k.blocks;
        kept = k.kept;
        heap =
            kmem_cache_init-IsHeap s1 k.blocks (λ _. 0) (rw k.base k.zone) k.array placed' k.aligned
              k.unlocked unlocked;
      },
    )
