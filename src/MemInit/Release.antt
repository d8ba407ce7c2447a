-- ===== src/MemInit/Release.antt =====
-- The last pass of mm/mm_init.c, which gives pages to the buddy allocator.
use sumi_os.Base.{
  ℕ, zero, suc, ◌+◌, ◌*◌, ◌<◌, ◌≤◌, ◌≡◌, refl, false, inl, inr, some, List, [], ◌∷◌, arith, leb,
  ◌==◌, ◌&&◌,
}
use sumi_os.Lock.{lock_free, spin_lock_init}
use sumi_os.PageAlloc.{Zone, max_page_order, freelist_init, freelist_init_loop, alloc_pages}
use sumi_os.PageAlloc.Blocks.{size, size-pos, inside_self}
use sumi_os.PageAlloc.Rep.{IsZone}
use sumi_os.PageAlloc.Init.{no_blocks, cover-no_blocks, freelist_init-IsZone}
use sumi_os.PageAlloc.Entry.{alloc_pages-IsAllocated}
use sumi_os.MemInit.{
  MmapEntry, multiboot_memory_available, rounds, release, release_all, release_zone,
}

-- Each available entry ends at or before the end of the linear allocator's memory.
abbrev pub EndsBefore : (mm_alloc_end : ℕ) → List MmapEntry → Type 0
EndsBefore mm_alloc_end [] = Unit {0}
EndsBefore mm_alloc_end (e ∷ entries) =
    (e.kind ≡ multiboot_memory_available → e.addr + e.len ≤ mm_alloc_end)
    × EndsBefore mm_alloc_end entries

pub release-nothing :
    (left start mm_alloc_end kind : ℕ) (z : Zone)
    → (kind ≡ multiboot_memory_available → start + 4096 * left < mm_alloc_end + 4096)
    → release left start mm_alloc_end kind z ≡ some z
unfolding release
release-nothing zero start mm_alloc_end kind z before = refl
release-nothing (suc left) start mm_alloc_end kind z before =
    let skips : (leb mm_alloc_end start && (kind == multiboot_memory_available)) ≡ false =
      ground (arith, before) in
    rw (skips, release)
      (release-nothing left (start + 4096) mm_alloc_end kind z (λ e. omega (arith, before e)))

pub release_all-nothing :
    (entries : List MmapEntry) (mm_alloc_end : ℕ) (z : Zone)
    → EndsBefore mm_alloc_end entries
    → release_all entries mm_alloc_end z ≡ some z
unfolding release_all
release_all-nothing [] mm_alloc_end z before = refl
release_all-nothing (e ∷ entries) mm_alloc_end z before =
    rw
      (
        release-nothing (rounds e) e.addr mm_alloc_end e.kind z
            (λ available. omega (arith, before.0 available)),
        release_all,
      )
      (release_all-nothing entries mm_alloc_end z before.1)

pub freelist_init_loop-freelist :
    (left i : ℕ) (z : Zone) → (freelist_init_loop left i z).freelist ≡ z.freelist
unfolding freelist_init_loop
freelist_init_loop-freelist zero i z = refl
freelist_init_loop-freelist (suc left) i z = freelist_init_loop-freelist left (i + 1) _

-- A zone in which nothing is free gives nothing.
no_blocks-nothing :
    (z : Zone) (order : ℕ)
    → IsZone z.links z.freelist no_blocks (λ a. 0)
    → z.freelist_lock ≡ lock_free
    → order < max_page_order
    → (z' : Zone) × (alloc_pages z order ≡ some (0, z'))
no_blocks-nothing z order v free lt =
    let (p, z', a) = alloc_pages-IsAllocated z no_blocks (λ a. 0) order v free lt in
    elim a.block [
      | inl (null, _, _) ↦ (z', rw null at a.returns)
      | inr (ne, t) ↦ absurd (
          omega (
            arith,
            t.kept p,
            cover-no_blocks max_page_order p,
            inside_self p (size order) (size-pos order),
          ))
    ]

-- Where each available entry of the memory map ends at or before the end of the memory that the
-- linear allocator works in, as on a machine with one available entry, the pass gives no page to the
-- buddy allocator: it returns with empty free lists, and each allocation finds nothing.
pub release_zone-nothing :
    (entries : List MmapEntry) (mm_alloc_end : ℕ) (z : Zone)
    → EndsBefore mm_alloc_end entries
    → (z' : Zone) × (release_zone entries mm_alloc_end z ≡ some z')
      × ((order : ℕ)
          → order < max_page_order
          → (z'' : Zone) × (alloc_pages z' order ≡ some (0, z'')))
unfolding release_zone freelist_init spin_lock_init
release_zone-nothing entries mm_alloc_end z before =
    let z' = record (freelist_init z) { freelist_lock = lock_free } in
    (
      z',
      release_all-nothing entries mm_alloc_end z' before,
      λ order lt.
          no_blocks-nothing z' order
            (rw (freelist_init_loop-freelist max_page_order 0 z) (
              freelist_init-IsZone z (λ a. 0) (λ a. omega arith) (λ k lt. refl) refl (λ a h. refl)))
            refl lt,
    )
