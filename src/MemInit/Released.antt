-- ===== src/MemInit/Released.antt =====
-- The end of `mm_pages_allocator_init`: the zone that the passes leave to the buddy allocator.
use sumi_os.Base.{
  ℕ, zero, suc, ◌+◌, ◌*◌, ◌%◌, ◌^◌, ◌<◌, ◌≤◌, ◌≡◌, refl, true, false, some, List, [], ◌∷◌, ◌++◌,
  arith, ◌∙◌, ap,
}
use sumi_os.Layout.{kernel_page_array}
use sumi_os.Lock.{lock_free, spin_lock_init}
use sumi_os.PageAlloc.{Zone, max_page_order, freelist_init, freelist_init_loop, is_free_head}
use sumi_os.PageAlloc.Blocks.{Blocks, inside, cover}
use sumi_os.PageAlloc.Aligned.{AllAligned, cons-aligned, size-aligned}
use sumi_os.PageAlloc.Array.{InArray}
use sumi_os.PageAlloc.Rep.{IsZone}
use sumi_os.PageAlloc.Init.{freelist_init-IsZone}
use sumi_os.PageAlloc.Row.{Block, Stacked, listed, listed-cover}
use sumi_os.PageAlloc.Row.Carry.{is_mapped}
use sumi_os.PageAlloc.Row.Free.{IsRow, IsLonger}
use sumi_os.MemInit.{
  MmapEntry, multiboot_memory_available, rounds, page_at, release, release_all, release_zone,
}
use sumi_os.MemInit.Release.{
  EndsBefore, release-nothing, release_all-nothing, freelist_init_loop-freelist,
}
use sumi_os.MemInit.Row.{release-IsLonger}

-- The entries in front of the released one give nothing.
release_all-skip :
    (before entries : List MmapEntry) (mm_alloc_end : ℕ) (z : Zone)
    → EndsBefore mm_alloc_end before
    → release_all (before ++ entries) mm_alloc_end z ≡ release_all entries mm_alloc_end z
unfolding release_all
release_all-skip [] entries mm_alloc_end z skips = refl
release_all-skip (e ∷ before) entries mm_alloc_end z skips =
    rw
      (
        release-nothing (rounds e) e.addr mm_alloc_end e.kind z
            (λ available. omega (arith, skips.0 available)),
        release_all,
      )
      (release_all-skip before entries mm_alloc_end z skips.1)

release_all-one :
    (e : MmapEntry) (after : List MmapEntry) (mm_alloc_end : ℕ) (z z' : Zone)
    → release (rounds e) e.addr mm_alloc_end e.kind z ≡ some z'
    → EndsBefore mm_alloc_end after
    → release_all (e ∷ after) mm_alloc_end z ≡ some z'
unfolding release_all
release_all-one e after mm_alloc_end z z' runs skips =
    rw (runs, release_all) (release_all-nothing after mm_alloc_end z' skips)

freelist_init_loop-page : (left i : ℕ) (z : Zone) → (freelist_init_loop left i z).page ≡ z.page
unfolding freelist_init_loop
freelist_init_loop-page zero i z = refl
freelist_init_loop-page (suc left) i z = freelist_init_loop-page left (i + 1) _

freelist_init_loop-word : (left i : ℕ) (z : Zone) → (freelist_init_loop left i z).word ≡ z.word
unfolding freelist_init_loop
freelist_init_loop-word zero i z = refl
freelist_init_loop-word (suc left) i z = freelist_init_loop-word left (i + 1) _

freelist_init_loop-table :
    (left i : ℕ) (z : Zone) → (freelist_init_loop left i z).kern_pgtable ≡ z.kern_pgtable
unfolding freelist_init_loop
freelist_init_loop-table zero i z = refl
freelist_init_loop-table (suc left) i z = freelist_init_loop-table left (i + 1) _

-- The blocks of a row begin at the start of a struct page.
listed-AllAligned :
    (from : ℕ) (row : List Block) (end : ℕ)
    → from % 64 ≡ 0
    → Stacked from row end
    → AllAligned (listed row) × (end % 64 ≡ 0)
listed-AllAligned from [] end at s = (λ k x lt m. cc, omega (arith, at, s))
listed-AllAligned from (x ∷ xs) end at (e, _, _, s) =
    let (all, here) = listed-AllAligned from xs x.at at s in
    (cons-aligned (listed xs) x.order x.at all here, omega (arith, here, e, size-aligned x.order))

-- What the last pass leaves: a well-formed zone whose free pages are the `n` from `from` on.
pub record IsReleased (z : Zone) (from n : ℕ) (z' : Zone) : Type 0 where
  pub blocks : Blocks
  pub zone : IsZone z'.links z.freelist blocks (λ _. 0)
  pub kept : (a : ℕ) → cover max_page_order blocks a ≡ inside from (64 * n) a
  pub aligned : AllAligned blocks
  pub array : InArray blocks
  pub unlocked : z'.freelist_lock ≡ lock_free
  pub base : z'.freelist ≡ z.freelist
  pub word : z'.word ≡ z.word
  pub table : z'.kern_pgtable ≡ z.kern_pgtable

-- The zone before the pages are freed.
abbrev start : Zone → Zone
start z = record (freelist_init z) { freelist_lock = lock_free }

start-is_mapped : (z : Zone) (a : ℕ) → is_mapped z a ≡ true → is_mapped (start z) a ≡ true
unfolding freelist_init
start-is_mapped z a m =
    rw (freelist_init_loop-word max_page_order 0 z, freelist_init_loop-table max_page_order 0 z) m

module _ (z : Zone) (from n : ℕ) (lo : kernel_page_array ≤ from)
    (hi : from + 64 * n ≤ kernel_page_array + 2 ^ 40) (at : from % 64 ≡ 0) where
  covers-InArray :
      (b : Blocks) → ((a : ℕ) → cover max_page_order b a ≡ inside from (64 * n) a) → InArray b
  unfolding inside
  covers-InArray b kept = record {
    from = λ a low. ground (arith, kept a, low);
    upto = λ a high. ground (arith, kept a, high);
  }

  -- The free lists are empty, and the struct pages that will be freed are held.
  start-IsRow :
      kernel_page_array + 2 ^ 40 ≤ z.freelist
      → z.freelist + 176 ≤ 2 ^ 64
      → ((a : ℕ) → is_free_head z a ≡ false)
      → IsRow (start z) from (λ a. 0 + inside from (64 * n) a) [] from
  unfolding freelist_init is_free_head inside
  start-IsRow apart fits none_free = record {
    zone = rw (freelist_init_loop-freelist max_page_order 0 z) (
        freelist_init-IsZone z (λ a. 0 + inside from (64 * n) a) (λ a. ground arith)
          (λ k lt. ground (arith, lt)) (ground arith) (λ a high. ground (arith, high)));
    stacked = refl;
    heads = λ a.
        rw
          (
            freelist_init_loop-page max_page_order 0 z,
            freelist_init_loop-word max_page_order 0 z,
            freelist_init_loop-table max_page_order 0 z,
          )
          (none_free a);
  }

  longer-IsReleased :
      {z' : Zone}
      → IsLonger (start z) from (λ _. 0) (from + 64 * n) z'
      → z'.freelist_lock ≡ lock_free
      → IsReleased z from n z'
  unfolding freelist_init
  longer-IsReleased {z'} l unlocked =
      let same : z'.freelist ≡ z.freelist =
        l.base ∙ freelist_init_loop-freelist max_page_order 0 z in
      let kept : (a : ℕ) → cover max_page_order (listed l.blocks) a ≡ inside from (64 * n) a = λ a.
        listed-cover from l.blocks (from + 64 * n) a l.row.stacked
        ∙ ap (λ q. inside from q a) (omega arith) in
      record {
        blocks = listed l.blocks;
        zone = rw same at l.row.zone;
        kept = kept;
        aligned = (listed-AllAligned from l.blocks (from + 64 * n) at l.row.stacked).0;
        array = covers-InArray (listed l.blocks) kept;
        unlocked = unlocked;
        base = same;
        word = l.word ∙ freelist_init_loop-word max_page_order 0 z;
        table = l.table ∙ freelist_init_loop-table max_page_order 0 z;
      }

-- The linker put the heads of the free lists behind the array of the struct pages.
pub record IsApart (z : Zone) : Type 0 where
  pub behind : kernel_page_array + 2 ^ 40 ≤ z.freelist
  pub fits : z.freelist + 176 ≤ 2 ^ 64

-- Entry `e` of the memory map is the one to release: it is available, begins behind the linear
-- allocator's memory, and ends in the first 64 terabytes.
pub record IsBehind (mm_alloc_end : ℕ) (e : MmapEntry) : Type 0 where
  pub available : e.kind ≡ multiboot_memory_available
  pub behind : mm_alloc_end ≤ e.addr
  pub fits : e.addr + e.len + 4096 ≤ 2 ^ 46

-- Where one available entry lies behind the end of the linear allocator's memory, each of its pages
-- has a struct page, no page is marked as the head of a free block, and all other available entries
-- end before, the last pass returns: the zone is well formed and unlocked, holds nothing, and its free
-- pages are exactly those of the entry.
pub release_zone-IsReleased :
    (before after : List MmapEntry) (e : MmapEntry) (mm_alloc_end : ℕ) (z : Zone)
    → EndsBefore mm_alloc_end before
    → EndsBefore mm_alloc_end after
    → IsBehind mm_alloc_end e
    → IsApart z
    → ((j : ℕ) → j < rounds e → is_mapped z (page_at e.addr + 64 * j) ≡ true)
    → ((a : ℕ) → is_free_head z a ≡ false)
    → (z' : Zone) × (release_zone (before ++ e ∷ after) mm_alloc_end z ≡ some z')
      × IsReleased z (page_at e.addr) (rounds e) z'
unfolding release_zone spin_lock_init
release_zone-IsReleased before after e mm_alloc_end z skips skips' b apart mapped none_free =
    let lo : kernel_page_array ≤ page_at e.addr = omega (arith, b.fits) in
    let hi : page_at e.addr + 64 * rounds e ≤ kernel_page_array + 2 ^ 40 = omega (arith, b.fits) in
    let at : page_at e.addr % 64 ≡ 0 = omega arith in
    let (z', runs, unlocked, l) =
      release-IsLonger (rounds e) e.addr (page_at e.addr) mm_alloc_end (page_at e.addr) (λ _. 0) []
        (start z) b.behind refl (omega (arith, lo)) (omega (arith, hi))
        (start-IsRow z (page_at e.addr) (rounds e) lo hi at apart.behind apart.fits none_free) refl
        (λ j lt. start-is_mapped z (page_at e.addr + 64 * j) (mapped j lt)) in
    (
      z',
      release_all-skip before (e ∷ after) mm_alloc_end (start z) skips
          ∙ release_all-one e after mm_alloc_end (start z) z' (rw b.available runs) skips',
      longer-IsReleased z (page_at e.addr) (rounds e) lo hi at l unlocked,
    )
