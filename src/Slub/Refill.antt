-- ===== src/Slub/Refill.antt =====
-- `slub_alloc`: a block of the buddy allocator becomes a chain of objects that fill it.
use sumi_os.Base.{
  ap, ◌⊎◌, ℕ, zero, suc, ◌+◌, ◌*◌, ◌^◌, ◌≤◌, ◌<◌, ◌≡◌, refl, ◌≢◌, false, inl, inr, some, none,
  arith, update, ◌>>◌, ◌==◌, ◌∙◌,
}
use sumi_os.Layout.{page_size, page_shift, page_to_phys, phys_to_kernel_direct_mapping_addr}
use sumi_os.Lock.{lock_free}
use sumi_os.PageAlloc.{Zone, max_page_order, alloc_pages}
use sumi_os.PageAlloc.Blocks.{Blocks, size, inside, cover}
use sumi_os.PageAlloc.Array.{InArray, block-in-array}
use sumi_os.PageAlloc.Rep.{IsZone}
use sumi_os.PageAlloc.Alloc.{Allocated, IsTaken}
use sumi_os.PageAlloc.Entry.{IsAllocated, alloc_pages-IsAllocated}
use sumi_os.Slub.{Slubs, nr_kobject_size_type, slub_alloc, alloc_size, trim, trim_slub}
use sumi_os.PageTable.{Words}
use sumi_os.Slub.Trim.{spaced, Chain, le-spaced, trim-Chain}

-- The virtual address of the memory of a page.
abbrev pub memory_of : ℕ → ℕ
memory_of p = phys_to_kernel_direct_mapping_addr (page_to_phys p)

-- A block out of such lists has its memory below the top of the address space.
memory-fits :
    (b : Blocks) (p order : ℕ)
    → InArray b
    → ((a : ℕ) → inside p (size order) a ≤ cover max_page_order b a)
    → (memory_of p + page_size * 2 ^ order < 2 ^ 64) × (0 < memory_of p)
unfolding page_to_phys size
memory-fits b p order r le = let (lo, hi) = block-in-array b p order r le in omega arith

-- How the objects of a cache fill its block: the size of an object divides that of the block, and at
-- least two objects fit.
pub record IsFilled (obj_size more : ℕ) : Type 0 where
  pub pos : 0 < obj_size
  pub order : obj_size >> page_shift < max_page_order
  pub fills : spaced obj_size (suc (suc more)) ≡ page_size * 2 ^ (obj_size >> page_shift)

-- The objects of each of the ten caches fill its block.
pub cache-IsFilled : (i : ℕ) → i < nr_kobject_size_type → (more : ℕ) × IsFilled (16 * 2 ^ i) more
cache-IsFilled zero lt = (254, record { pos = omega arith; order = omega arith; fills = refl })
cache-IsFilled (suc zero) lt =
    (126, record { pos = omega arith; order = omega arith; fills = refl })
cache-IsFilled (suc (suc zero)) lt =
    (62, record { pos = omega arith; order = omega arith; fills = refl })
cache-IsFilled (suc (suc (suc zero))) lt =
    (30, record { pos = omega arith; order = omega arith; fills = refl })
cache-IsFilled (suc (suc (suc (suc zero)))) lt =
    (14, record { pos = omega arith; order = omega arith; fills = refl })
cache-IsFilled (suc (suc (suc (suc (suc zero))))) lt =
    (6, record { pos = omega arith; order = omega arith; fills = refl })
cache-IsFilled (suc (suc (suc (suc (suc (suc zero)))))) lt =
    (2, record { pos = omega arith; order = omega arith; fills = refl })
cache-IsFilled (suc (suc (suc (suc (suc (suc (suc zero))))))) lt =
    (0, record { pos = omega arith; order = omega arith; fills = refl })
cache-IsFilled (suc (suc (suc (suc (suc (suc (suc (suc zero)))))))) lt =
    (0, record { pos = omega arith; order = omega arith; fills = refl })
cache-IsFilled (suc (suc (suc (suc (suc (suc (suc (suc (suc zero))))))))) lt =
    (0, record { pos = omega arith; order = omega arith; fills = refl })
cache-IsFilled (suc (suc (suc (suc (suc (suc (suc (suc (suc (suc n)))))))))) lt =
    absurd (omega arith)

-- What `slub_alloc` comes back with: nothing, where the buddy allocator has no block, or a page whose
-- free list is a chain of objects that fill the block.
pub record IsRefilled (s : Slubs) (i : ℕ) (b : Blocks) (held : ℕ → ℕ) (more p : ℕ) (s' : Slubs)
    : Type 0 where
  pub middle : Zone
  pub returns : slub_alloc s i ≡ some (p, s')
  pub block : IsAllocated s.zone b held ((s.cache i).obj_size >> page_shift) p middle
  pub unlocked : s'.zone.freelist_lock ≡ lock_free
  pub links : s'.zone.links ≡ middle.links
  pub cache : s'.cache ≡ s.cache
  pub place : s'.kmem_cache_list ≡ s.kmem_cache_list
  pub list : p ≢ 0 → (s'.zone.page p).freelist ≡ memory_of p
  pub nonnull : p ≢ 0 → memory_of p ≢ 0
  pub chain : p ≢ 0 → Chain s'.zone.word (memory_of p) (s.cache i).obj_size (suc (suc more))
  pub base : s'.zone.freelist ≡ middle.freelist
  pub words :
      (a : ℕ)
      → (p ≢ 0
          → (a < memory_of p) ⊎ (memory_of p + spaced (s.cache i).obj_size (suc (suc more)) ≤ a))
      → s'.zone.word a ≡ s.zone.word a

module _ (s : Slubs) (i : ℕ) (b : Blocks) (held : ℕ → ℕ) (more : ℕ)
    (v : IsZone s.zone.links s.zone.freelist b held) (r : InArray b)
    (free : s.zone.freelist_lock ≡ lock_free) (f : IsFilled (s.cache i).obj_size more) where
  abbrev obj_size : ℕ
  obj_size = (s.cache i).obj_size

  slub_alloc-returns :
      {p : ℕ} {z : Zone}
      → alloc_pages s.zone (obj_size >> page_shift) ≡ some (p, z)
      → slub_alloc s i ≡ trim_slub s i p z
  unfolding slub_alloc
  slub_alloc-returns e = ground (arith, e)

  no_block :
      (z : Zone)
      → IsAllocated s.zone b held (obj_size >> page_shift) 0 z
      → IsRefilled s i b held more 0 (record s { zone = z })
  no_block z a = record {
    middle = z;
    returns = slub_alloc-returns a.returns ∙ unfold trim_slub in refl;
    block = a;
    unlocked = a.unlocked;
    links = refl;
    cache = refl;
    place = refl;
    list = λ ne. absurd (ne refl);
    nonnull = λ ne. absurd (ne refl);
    chain = λ ne. absurd (ne refl);
    base = refl;
    words = λ x out. ap (λ (w : Words). w x) a.memory;
  }

  trimmed : (p : ℕ) → Zone → Words → Slubs
  trimmed p z word = record s {
    zone = record z {
      word = word;
      page = update z.page p (record (z.page p) { freelist = memory_of p });
    };
  }

  trim_slub-returns :
      (p : ℕ) (z : Zone) (w : Words)
      → p ≢ 0
      → trim
          (alloc_size obj_size + 1)
          (memory_of p)
          obj_size
          (alloc_size obj_size)
          obj_size
          none
          z.word
        ≡ some w
      → trim_slub s i p z ≡ some (p, trimmed p z w)
  unfolding trim_slub trimmed
  trim_slub-returns p z w ne e =
      let found : (p == 0) ≡ false = ground arith in rw found (ground (arith, e))

  a_block :
      (p : ℕ) (z : Zone)
      → IsAllocated s.zone b held (obj_size >> page_shift) p z
      → p ≢ 0
      → IsTaken z.links s.zone.freelist b held p (obj_size >> page_shift)
      → (s' : Slubs) × IsRefilled s i b held more p s'
  unfolding trimmed
  a_block p z a ne t =
      let (fits, nonnull) =
        memory-fits b p (obj_size >> page_shift) r (λ x. omega (arith, t.kept x)) in
      let bytes : alloc_size obj_size ≡ page_size * 2 ^ (obj_size >> page_shift) = omega arith in
      let (w, runs, chain, same) =
        trim-Chain (alloc_size obj_size + 1) (suc more) (memory_of p) obj_size (alloc_size obj_size)
          obj_size (memory_of p) none z.word f.pos (omega (arith, f.fills)) (omega arith)
          (omega arith) (omega (arith, f.fills, le-spaced obj_size (suc more) f.pos))
          (λ e. absurd (omega arith)) in
      (
        trimmed p z w,
        record {
          middle = z;
          returns = slub_alloc-returns a.returns ∙ trim_slub-returns p z w ne runs;
          block = a;
          unlocked = a.unlocked;
          links = refl;
          cache = refl;
          place = refl;
          list = λ _. ground arith;
          nonnull = λ _ e. absurd (omega arith);
          chain = λ _. chain;
          base = refl;
          words =
              λ x out. same x (ground (arith, out ne, f.fills)) ∙ ap (λ (w : Words). w x) a.memory;
        },
      )

  -- Under a free lock of a well-formed zone whose blocks have their struct pages in the array, and
  -- for a cache whose objects fill its block, `slub_alloc` returns; where it returns a page, the
  -- objects of its free list lie side by side in the block that the buddy allocator gave, and fill
  -- it.
  pub slub_alloc-IsRefilled : (p : ℕ) × (s' : Slubs) × IsRefilled s i b held more p s'
  slub_alloc-IsRefilled =
      let (p, z, a) =
        alloc_pages-IsAllocated s.zone b held (obj_size >> page_shift) v free f.order in
      split p z a a.block
    where
      split :
          (p : ℕ) (z : Zone)
          → IsAllocated s.zone b held (obj_size >> page_shift) p z
          → Allocated s.zone b held (obj_size >> page_shift) p z.links
          → (p : ℕ) × (s' : Slubs) × IsRefilled s i b held more p s'
      split p z a (inl (null, _, _)) = (0, record s { zone = z }, no_block z (rw null at a))
      split p z a (inr (ne, t)) = let (s', m) = a_block p z a ne t in (p, s', m)
