-- ===== src/MemInit/Tests.antt =====
-- The linear allocator over two areas, and the passes over a memory map.
use sumi_os.Base.{ℕ, ◌+◌, ◌<◌, ◌≡◌, refl, ◌≢◌, some, [], ◌∷◌, arith, true, false, ◌*◌}
use sumi_os.PageAlloc.{Zone, max_page_order, alloc_pages}
use sumi_os.PageAlloc.Fixtures.{blank}
use sumi_os.PageTable.{mm_pgtable_get_va_pte}
use sumi_os.PageAlloc.{is_free_head}
use sumi_os.PageAlloc.Row.Carry.{is_mapped}
use sumi_os.Slub.{Slubs}
use sumi_os.MemInit.Fixtures.{
  available, reserved, upper, entries, tags, unused, unused_state, fresh_caches, only_root,
  entries-IsMemory, empty-IsFresh, fresh_caches-IsPlaced, entries-Works, after_boot, collected,
  add_areas-collected,
}
use sumi_os.MemInit.Backing.{IsPassed}
use sumi_os.MemInit.Passes.{need, need_direct, need_structs, AllListed, init_pages_all-AllListed}
use sumi_os.MemInit.Released.{IsReleased, release_zone-IsReleased}
use sumi_os.MemInit.Stocked.{IsStocked, IsKernelSpace, mm_pages_allocator_init-IsStocked}
use sumi_os.MemInit.Ready.{IsStart, mm_init-IsStart}
use sumi_os.MemInit.Release.{release_zone-nothing}
use sumi_os.MemInit.{
  Area, Linear, next_area, mm_init_phys_alloc_linear, Init, release_zone, mm_pages_allocator_init,
  init_pages_all, page_at, mm_init, find_mmap,
}
use sumi_os.MemInit.Chunks.{IsCurrent, IsChunk, mm_init_phys_alloc_linear-IsChunk}

abbrev low : Area
low = record { start = 0x1000; end = 0x3000 }

abbrev high : Area
high = record { start = 0x8000; end = 0xa000 }

abbrev two_areas : Linear
two_areas = record {
  mm_alloc_start = 0x2000;
  mm_alloc_end = 0x3000;
  phys_mm_area_arr = low ∷ high ∷ [];
  phys_mm_area_idx = 0;
}

two_areas-IsCurrent : IsCurrent two_areas
two_areas-IsCurrent = record { index = 0; area = low; listed = refl; from = omega arith; to = refl }

two_areas_served : (mm_init_phys_alloc_linear two_areas 10).0 ≢ 0
unfolding mm_init_phys_alloc_linear next_area
two_areas_served = omega arith

-- The first area is used up, and the allocator moves to the second.
mm_init_phys_alloc_linear-IsChunk_example :
    IsChunk two_areas 10
      (mm_init_phys_alloc_linear two_areas 10).0
      (mm_init_phys_alloc_linear two_areas 10).1
mm_init_phys_alloc_linear-IsChunk_example =
    mm_init_phys_alloc_linear-IsChunk two_areas 10 two_areas-IsCurrent (omega arith) (omega arith)
      (omega arith) two_areas_served

abbrev one_area : Linear
one_area = record two_areas { phys_mm_area_arr = low ∷ [] }

-- The chunk that uses up the last area is not returned.
last_chunk : (mm_init_phys_alloc_linear one_area 10).0 ≡ 0
unfolding mm_init_phys_alloc_linear next_area
last_chunk = refl

blank-is_mapped : (a : ℕ) → is_mapped blank a ≡ true
unfolding mm_pgtable_get_va_pte
blank-is_mapped a = refl

blank-is_free_head : (a : ℕ) → is_free_head blank a ≡ false
unfolding is_free_head
blank-is_free_head a = ground arith

release_zone-nothing_example :
    (z' : Zone) × (release_zone (available ∷ reserved ∷ []) 0x4000000 blank ≡ some z')
    × ((order : ℕ) → order < max_page_order → (z'' : Zone) × (alloc_pages z' order ≡ some (0, z'')))
release_zone-nothing_example =
    release_zone-nothing (available ∷ reserved ∷ []) 0x4000000 blank
      (λ e. omega arith, (λ e. absurd (omega (arith, e)), tt))

-- The struct pages of the two areas and of the reserved pages between them.
init_pages_all-AllListed_example :
    (s' : Init) × (init_pages_all entries after_boot ≡ some s')
    × IsPassed 0x4000000 (need_direct entries) after_boot s'
    × AllListed s' entries
init_pages_all-AllListed_example =
    init_pages_all-AllListed entries 0x4000000 (need_direct entries) only_root after_boot
      entries-IsMemory.low
      (entries-Works (need_structs entries + need_direct entries) (omega arith))

-- In `blank` each address is mapped.
release_zone-IsReleased_example :
    (z' : Zone) × (release_zone entries 0x4000000 blank ≡ some z')
    × IsReleased blank (page_at 0x4020000) 0x400 z'
release_zone-IsReleased_example =
    release_zone-IsReleased (available ∷ reserved ∷ []) [] upper 0x4000000 blank
      entries-IsMemory.skips entries-IsMemory.skips_after entries-IsMemory.released
      (record { behind = omega arith; fits = omega arith })
      (λ j lt. blank-is_mapped (page_at 0x4020000 + 64 * j)) blank-is_free_head

mm_pages_allocator_init-IsStocked_example :
    (s' : Init) × (mm_pages_allocator_init 0x200000 0x400000 tags unused_state ≡ some s')
    × IsStocked 0xffff_ffff_8101_0000 (page_at 0x4020000) 0x400 s'.zone
    × IsKernelSpace 0x4000000 0x200000 entries s'
unfolding find_mmap
mm_pages_allocator_init-IsStocked_example =
    mm_pages_allocator_init-IsStocked 0x200000 0x400000 0x4000000 tags (available ∷ reserved ∷ [])
      [] upper only_root collected unused_state refl add_areas-collected entries-IsMemory
      empty-IsFresh (entries-Works (need entries) (omega arith))

mm_init-IsStart_example :
    (linear' : Linear) × (s' : Slubs) × (mm_init 0x200000 0x400000 tags unused fresh_caches
      ≡ some (linear', s'))
    × IsStart s' (page_at 0x4020000) 0x400
unfolding find_mmap
mm_init-IsStart_example =
    mm_init-IsStart 0x200000 0x400000 0x4000000 tags (available ∷ reserved ∷ []) [] upper only_root
      unused collected fresh_caches refl add_areas-collected entries-IsMemory empty-IsFresh
      fresh_caches-IsPlaced (λ i lt. refl) (entries-Works (need entries) (omega arith))
