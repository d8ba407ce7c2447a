-- ===== src/MemInit/Stocked.antt =====
-- `mm_pages_allocator_init` as a whole: from what the boot stage leaves to the zone of the buddy
-- allocator and the kernel's page table.
use sumi_os.Base.{
  inl, inr, ◌⊎◌, ℕ, ◌+◌, ◌*◌, ◌^◌, ◌<◌, ◌≤◌, ◌≡◌, refl, ◌≢◌, true, false, some, arith, ◌∙◌, sym, ap,
  List, ◌∷◌, ◌++◌, minus_one,
}
use sumi_os.Layout.{kernel_direct_mapping_area}
use sumi_os.Lock.{lock_free}
use sumi_os.PageTable.Tree.{IsTree}
use sumi_os.MemInit.Finished.{finished, finished-IsTree, finished-low, finished-AllShown}
use sumi_os.PageTable.Walk.{mm_pgtable_get_va_pte-walk}
use sumi_os.PageAlloc.{Zone, max_page_order, is_free_head}
use sumi_os.PageAlloc.Blocks.{Blocks, inside, cover}
use sumi_os.PageAlloc.Aligned.{AllAligned}
use sumi_os.PageAlloc.Array.{InArray}
use sumi_os.PageAlloc.Rep.{IsZone}
use sumi_os.PageAlloc.Row.Carry.{is_mapped}
use sumi_os.MemInit.{
  MmapEntry, Linear, rounds, Tag, find_mmap, add_areas, Init, map_direct_all, init_pages_all,
  release_zone, page_at, mm_pages_allocator_init,
}
use sumi_os.MemInit.Release.{EndsBefore}
use sumi_os.MemInit.Released.{IsReleased, IsApart, IsBehind, release_zone-IsReleased}
use sumi_os.MemInit.Works.{walk_in, Works}
use sumi_os.MemInit.Passes.{
  AllLow, AllShown, AllShown-kept, need_structs, need, map_direct_all-AllShown, AllListed-at,
  AllListed-HasStruct, InMap, init_pages_all-AllListed,
}

-- The state in front of the passes.
abbrev pub started : (boot_kern_pgtable : ℕ) → (linear : Linear) → Init → Init
started boot_kern_pgtable linear s = record {
  linear = linear;
  zone = record (s.zone) { kern_pgtable = boot_kern_pgtable };
}

-- Where the memory map has the entry to release between `before` and `after`: all entries are low,
-- and the available ones but `e` end before the end of the memory of the linear allocator.
pub record IsMemory (end : ℕ) (before after : List MmapEntry) (e : MmapEntry) : Type 0 where
  pub low : AllLow (before ++ e ∷ after)
  pub skips : EndsBefore end before
  pub skips_after : EndsBefore end after
  pub released : IsBehind end e

-- What the passes find: lists behind the array of the struct pages, and no page that is marked free
-- but those of the memory map, which the passes set themselves. The code does not clear the memory
-- that the struct pages lie in, and so relies on that for the others in it.
pub record IsFresh (entries : List MmapEntry) (z : Zone) : Type 0 where
  pub apart : IsApart z
  pub none_free : (a : ℕ) → InMap entries a ⊎ ((z.page a).is_free ≡ false)

-- The zone that the buddy allocator starts with: well formed and unlocked, with the pages of `n`
-- struct pages from `from` on free and no other.
pub record IsStocked (freelist from n : ℕ) (z : Zone) : Type 0 where
  pub blocks : Blocks
  pub zone : IsZone z.links freelist blocks (λ _. 0)
  pub kept : (a : ℕ) → cover max_page_order blocks a ≡ inside from (64 * n) a
  pub aligned : AllAligned blocks
  pub array : InArray blocks
  pub unlocked : z.freelist_lock ≡ lock_free
  pub base : z.freelist ≡ freelist

-- The kernel's page table at the end: well formed, with each page of each entry at its place in the
-- direct mapping area, and nothing in the lowest 512 gigabytes, where the identity mapping of the
-- boot stage was. No page from the end of the linear allocator's memory on is a table.
pub record IsKernelSpace (end root : ℕ) (entries : List MmapEntry) (s : Init) : Type 0 where
  pub level : ℕ → ℕ
  pub tree : IsTree kernel_direct_mapping_area level s.zone.word
  pub top : level root ≡ 4
  pub table : s.zone.kern_pgtable ≡ root
  pub no_table : (q : ℕ) → end ≤ q → level q ≡ 0
  pub shown : AllShown s entries
  pub low : (va : ℕ) → va < 2 ^ 39 → walk_in s va ≡ minus_one

mm_pages_allocator_init-runs :
    (root boot : ℕ) (tags : List Tag) (entries : List MmapEntry) (linear : Linear) (s s2 s3 : Init)
    (z : Zone)
    → find_mmap tags ≡ some entries
    → add_areas boot entries s.linear ≡ some linear
    → map_direct_all entries (started root linear s) ≡ some s2
    → init_pages_all entries s2 ≡ some s3
    → release_zone entries s3.linear.mm_alloc_end s3.zone ≡ some z
    → mm_pages_allocator_init root boot tags s ≡ some (finished root s3 z)
unfolding mm_pages_allocator_init
mm_pages_allocator_init-runs root boot tags entries linear s s2 s3 z e e0 e1 e2 e3 =
    rw (e, mm_pages_allocator_init)
      (rw (e0, mm_pages_allocator_init)
        (rw (e1, mm_pages_allocator_init)
          (rw (e2, mm_pages_allocator_init) (rw (e3, mm_pages_allocator_init) refl))))

released-IsStocked :
    (freelist from n root : ℕ) (s : Init) (z : Zone)
    → s.zone.freelist ≡ freelist
    → IsReleased s.zone from n z
    → IsStocked freelist from n (finished root s z).zone
released-IsStocked freelist from n root s z base r = record {
  blocks = r.blocks;
  zone = rw base at r.zone;
  kept = r.kept;
  aligned = r.aligned;
  array = r.array;
  unlocked = r.unlocked;
  base = r.base ∙ base;
}

plus_none : (n : ℕ) → n + 0 ≡ n
plus_none n = omega arith

there-is_mapped : (s : Init) (p : ℕ) → walk_in s p ≢ minus_one → is_mapped s.zone p ≡ true
there-is_mapped s p there = rw (mm_pgtable_get_va_pte-walk) (ground (arith, there))

not_free : (z : Zone) (a : ℕ) → (z.page a).is_free ≡ false → is_free_head z a ≡ false
unfolding is_free_head
not_free z a e = ground (arith, e)

-- Conditions. The memory map: its entries lie in the first 64 terabytes, and none begins inside the
-- first page; its available entries, with those already in the array of the areas, are at most 32,
-- so that the pass that collects them returns; one available entry lies behind the area that the
-- boot stage has begun, and all others end before the end of that area, which has memory for the
-- tables and the struct pages of the whole map. The page table is well formed, with no table in the
-- rest of that area; no struct page outside the memory map is marked free, in memory that the code
-- does not clear; and the free lists lie behind the array of the struct pages. Then
-- `mm_pages_allocator_init` returns: the zone is well formed and unlocked, and its free pages are
-- exactly those of the entry behind that area; the page table is well formed and shows each page of
-- the memory map in the direct mapping area; nothing is mapped in the lowest 512 gigabytes, and no
-- free page is a table.
pub mm_pages_allocator_init-IsStocked :
    (root boot end : ℕ) (tags : List Tag) (before after : List MmapEntry) (e : MmapEntry)
    (level : ℕ → ℕ) (linear : Linear) (s : Init)
    → find_mmap tags ≡ some (before ++ e ∷ after)
    → add_areas boot (before ++ e ∷ after) s.linear ≡ some linear
    → IsMemory end before after e
    → IsFresh (before ++ e ∷ after) s.zone
    → Works end (need (before ++ e ∷ after)) level (started root linear s)
    → (s' : Init) × (mm_pages_allocator_init root boot tags s ≡ some s')
      × IsStocked s.zone.freelist (page_at e.addr) (rounds e) s'.zone
      × IsKernelSpace end root (before ++ e ∷ after) s'
mm_pages_allocator_init-IsStocked root boot end tags before after e level linear s found areas m
      fresh w =
    let entries = before ++ e ∷ after in
    let (s2, e1, d, shown) =
      map_direct_all-AllShown entries end (need_structs entries) level (started root linear s) m.low
        w in
    let (s3, e2, p, listed) =
      init_pages_all-AllListed entries end 0 d.level s2 m.low
        (rw (plus_none (need_structs entries)) d.works) in
    let ends : s3.linear.mm_alloc_end ≡ end = p.works.pages.ends in
    let base : s3.zone.freelist ≡ s.zone.freelist = p.like.base ∙ d.like.base in
    let table : s3.zone.kern_pgtable ≡ root = p.like.table ∙ d.like.table in
    let there = AllListed-at before after e s3 listed in
    let (z, e3, r) =
      release_zone-IsReleased before after e s3.linear.mm_alloc_end s3.zone (rw ends m.skips)
        (rw ends m.skips_after) (rw ends m.released)
        (record { behind = rw base fresh.apart.behind; fits = rw base fresh.apart.fits })
        (λ j lt. there-is_mapped s3 (page_at e.addr + 64 * j) (there j lt).0)
        (λ a. not_free s3.zone a (elim (fresh.none_free a) [
          | inl mapped ↦ (AllListed-HasStruct entries s3 a listed mapped).1
          | inr held ↦ p.like.free a (d.like.free a held)
        ])) in
    let top : p.level root ≡ 4 = ap p.level (sym table) ∙ p.works.root in
    (
      finished root s3 z,
      mm_pages_allocator_init-runs root boot tags entries linear s s2 s3 z found areas e1 e2 e3,
      released-IsStocked s.zone.freelist (page_at e.addr) (rounds e) root s3 z base r,
      record {
        level = p.level;
        tree = finished-IsTree root s3 z p.level p.works.tree top table r.word r.table;
        top = top;
        table = r.table ∙ table;
        no_table = λ q le. p.works.pages.no_table q (omega (arith, le, ends, p.works.pages.fits));
        shown =
            finished-AllShown root s3 z p.level p.works.tree top table r.word r.table entries m.low
              (AllShown-kept entries s2 s3 m.low p.keeps shown);
        low = finished-low root s3 z p.level p.works.tree top table r.word r.table;
      },
    )
