-- ===== src/Slub/Tests.antt =====
-- The theorems about the object caches at a concrete state.
use sumi_os.Base.{ℕ, ◌-◌, ◌*◌, ◌^◌, ◌≤◌, ◌<◌, ◌≡◌, refl, ◌⊎◌, inr, [], some, arith}
use sumi_os.Links.{list_add_next}
use sumi_os.Lock.{lock_used}
use sumi_os.PageAlloc.{freelist_init}
use sumi_os.PageAlloc.Blocks.{cover, spans, inside, size}
use sumi_os.PageAlloc.Frame.{Elsewhere}
use sumi_os.PageAlloc.Fixtures.{second, one_block, held_second, one_free-IsZone}
use sumi_os.Slub.{Slubs, nr_kobject_size_type, kmem_cache_alloc, kmalloc}
use sumi_os.Slub.Fixtures.{before, in_array}
use sumi_os.Slub.Sizes.{kmalloc-cache}
use sumi_os.Slub.Shelve.{HasLists}
use sumi_os.Slub.Take.{with_lock}
use sumi_os.Slub.Serve.{IsServed}
use sumi_os.Slub.Full.{IsApart, IsShelved, kmem_cache_alloc-IsShelved}

-- Cache 8 serves pages; it has no object left, and its slub is the held block.
abbrev with_pages : Slubs
with_pages = record before {
  cache = λ i. record { lock = 0; obj_size = 4096; slub = second; freelist = 0 };
}

lists : HasLists with_pages 8 one_block []
unfolding freelist_init list_add_next
lists = record {
  partial = record { chain = (refl, refl); distinct = (refl, tt) };
  full = record { chain = (refl, refl); distinct = (refl, tt) };
  fresh = refl;
  partial_apart = refl;
  blocks_apart = λ k a lt m. ground arith;
}

elsewhere :
    (a : ℕ)
    → (a ≡ second) ⊎ (0xffff_ffff_8102_0000 ≤ a)
    → Elsewhere with_pages.zone.freelist one_block a
unfolding freelist_init cover spans inside size
elsewhere a o = record { out = ground (arith, o); no_head = λ k lt. ground (arith, o, lt) }

lists-IsApart : IsApart with_pages 8 one_block []
lists-IsApart = record {
  full = λ a there. elsewhere a (ground (arith, there));
  partial = elsewhere _ (inr (omega arith));
}

kmem_cache_alloc-IsShelved_example :
    (obj : ℕ) × (s' : Slubs) × (kmem_cache_alloc 2 8 with_pages ≡ some (obj, s'))
    × ((s'.cache 8).lock ≡ 0)
    × IsServed (with_lock 8 lock_used with_pages) 8 one_block held_second 0 obj s'
    × IsShelved with_pages 8 [] s'
unfolding freelist_init
kmem_cache_alloc-IsShelved_example =
    kmem_cache_alloc-IsShelved 0 8 with_pages one_block held_second [] 0 refl one_free-IsZone
      in_array refl (record { pos = omega arith; order = omega arith; fills = refl }) lists
      lists-IsApart refl

abbrev one_object : Slubs
one_object = record before {
  cache = λ i. record { lock = 0; obj_size = 16; slub = 0; freelist = 0xffff_8880_0000_0010 };
}

kmalloc-cache_example :
    ((8192 < 100) × (kmalloc 2 100 one_object ≡ some (0, one_object)))
    ⊎ ((100 ≤ 8192)
        × ((i : ℕ) × (i < nr_kobject_size_type)
            × (100 ≤ 16 * 2 ^ i)
            × ((i ≡ 0) ⊎ (16 * 2 ^ (i - 1) < 100))
            × (kmalloc 2 100 one_object ≡ kmem_cache_alloc 2 i one_object)))
kmalloc-cache_example = kmalloc-cache 2 100 one_object
