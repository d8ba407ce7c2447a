-- ===== src/PageAlloc.antt =====
-- mm/page_alloc.c: the buddy allocator. A zone is the state that it reads and changes: the links of
-- the free lists and of the pages, the fields of the struct pages by their address, the lock, and
-- the page table through which it asks whether a struct page exists.
pub mod Blocks
pub mod Aligned
pub mod Array
pub mod Rep
pub mod Alloc
pub mod Frame
pub mod Merge
pub mod Free
pub mod Init
pub mod Entry
pub mod Row
pub mod Pages
pub mod Overlap
pub mod Fixtures
mod Tests
use sumi_os.Base.{
  ℕ, zero, suc, ◌+◌, ◌-◌, ◌*◌, ◌^◌, Bool, true, false, Option, none, some, List, ◌∷◌, ◌&&◌, not,
  ◌==◌, leb, ltb, if◌then◌else◌, update, u32, u64, minus_one, ◌<<◌,
}
use sumi_os.Layout.{page_size, page_struct_size, page_to_phys, phys_to_kernel_direct_mapping_addr}
use sumi_os.Links.{Links, list_add_next, list_del, list_head_init, list_empty}
use sumi_os.Lock.{spin_lock, spin_unlock}
use sumi_os.PageTable.{Words, mm_pgtable_get_va_pte}

abbrev pub max_page_order : ℕ
max_page_order = 11

-- struct page, less its links. The two counts are `int`s, kept as 32-bit patterns.
pub record Page : Type 0 where
  pub kind : ℕ
  pub is_free : Bool
  pub is_head : Bool
  pub ref_count : ℕ
  pub map_count : ℕ
  pub freelist : ℕ

-- What the allocator prints.
pub data Report : Type 0 where
  invalid_allocation : ℕ → Report
  invalid_free : ℕ → Report

pub record Zone : Type 0 where
  pub links : Links
  pub page : ℕ → Page
  pub freelist : ℕ  -- where the linker put the array `freelist`
  pub freelist_lock : ℕ
  pub word : Words
  pub kern_pgtable : ℕ
  pub printed : List Report

-- `&freelist[order]`
abbrev pub freelist_at : Zone → ℕ → ℕ
freelist_at z order = z.freelist + 16 * order

-- The rounds left of the loop of `freelist_init`, and its counter.
unfoldable pub freelist_init_loop : ℕ → ℕ → Zone → Zone
freelist_init_loop zero i z = z
freelist_init_loop (suc left) i z =
    freelist_init_loop left (i + 1) (record z { links = list_head_init z.links (freelist_at z i) })

unfoldable pub freelist_init : Zone → Zone
unfolding freelist_init_loop list_head_init
freelist_init z = freelist_init_loop max_page_order 0 z

unfoldable pub next_page_by_order : ℕ → ℕ → ℕ
next_page_by_order p order =
    if leb max_page_order order then 0 else u64 (p + page_struct_size * (1 << order))

unfoldable pub prev_page_by_order : ℕ → ℕ → ℕ
prev_page_by_order p order =
    if leb max_page_order order then 0 else u64 (p + 2 ^ 64 - page_struct_size * (1 << order))

-- What the search of `__alloc_page_direct` ends with: the page, the order of the list that it came
-- from, and the links without it.
pub record Found : Type 0 where
  pub p : ℕ
  pub from : ℕ
  pub links : Links

-- The search loop: `left` rounds are left until `from` reaches `max_page_order`.
unfoldable pub find_block : Zone → (left from : ℕ) → Found
find_block z zero from = record { p = 0; from = from; links = z.links }
find_block z (suc left) from =
    let rest = find_block z left (from + 1) in
    let p = z.links.next (freelist_at z from) in
    if not (list_empty z.links (freelist_at z from))
    then record { p = p; from = from; links = list_del z.links p }
    else rest

-- The loop that puts the upper halves back, from order `order + n - 1` down to `order`.
unfoldable pub put_halves : Zone → (p order n : ℕ) → Links → Links
put_halves z p order zero links = links
put_halves z p order (suc n) links =
    put_halves z p order n
      (list_add_next links (freelist_at z (order + n)) (next_page_by_order p (order + n)))

-- The end of `__alloc_page_direct`, from the search's result on.
unfoldable pub split_block : Zone → ℕ → Found → ℕ × Zone
split_block z order found =
    if found.p == 0
    then (0, record z { links = found.links })
    else (found.p, record z { links = put_halves z found.p order (found.from - order) found.links })

unfoldable pub alloc_page_direct : Zone → ℕ → ℕ × Zone
unfolding split_block
alloc_page_direct z order = split_block z order (find_block z (max_page_order - order) order)

-- `p[i].ref_count++; p[i].is_free = false;` for `left` pages from index `i` on.
unfoldable pub take_pages : (left p i : ℕ) → (ℕ → Page) → ℕ → Page
take_pages zero p i page = page
take_pages (suc left) p i page =
    let a = p + page_struct_size * i in
    take_pages left p (i + 1) (
      update page a (record (page a) { ref_count = u32 ((page a).ref_count + 1); is_free = false }))

-- `__alloc_pages`; `__reclaim_memory` does nothing.
unfoldable pub alloc_pages_unlocked : Zone → ℕ → ℕ × Zone
alloc_pages_unlocked z order =
    let (p, z') = alloc_page_direct z order in
    if leb max_page_order order
    then (0, record z { printed = invalid_allocation order ∷ z.printed })
    else if p == 0
    then (0, z')
    else (p, record z' { page = take_pages (1 << order) p 0 z'.page })

-- Is there a struct page at the address, and is it the head of a free block?
unfoldable pub is_free_head : Zone → ℕ → Bool
is_free_head z p =
    not (mm_pgtable_get_va_pte z.word z.kern_pgtable p == minus_one)
    && ((z.page p).is_free && (z.page p).is_head)

-- The merging loop of `__free_pages`: the block, its order and the zone at its end. `left` rounds
-- are left until the order reaches `max_page_order - 1`.
unfoldable pub merge_loop : (left : ℕ) → ℕ → ℕ → Zone → ℕ × ℕ × Zone
merge_loop zero p order z = (p, order, z)
merge_loop (suc left) p order z =
    let next = next_page_by_order p order in
    let prev = prev_page_by_order p order in
    let forward = merge_loop left p (order + 1) (record z {
      links = list_del z.links next;
      page = update z.page next (record (z.page next) { is_head = false });
    }) in
    let backward = merge_loop left prev (order + 1) (record z {
      links = list_del z.links prev;
      page = update z.page p (record (z.page p) { is_head = false; is_free = true });
    }) in
    if is_free_head z next then forward else if is_free_head z prev then backward else (p, order, z)

-- The end of `__free_pages`: the block goes to the front of its list.
unfoldable pub put_block : ℕ → ℕ → Zone → Zone
put_block p order z = record z {
  links = list_add_next z.links (freelist_at z order) p;
  page = update z.page p (record (z.page p) {
    ref_count = u32 (2 ^ 32 - 1);
    map_count = u32 (2 ^ 32 - 1);
    is_free = true;
    is_head = true;
  });
}

unfoldable pub free_pages_unlocked : Zone → ℕ → ℕ → Zone
free_pages_unlocked z p order =
    let merged = merge_loop (max_page_order - 1 - order) p order z in
    if p == 0
    then z
    else if leb max_page_order order
    then record z { printed = invalid_free order ∷ z.printed }
    else put_block merged.0 merged.1 merged.2

-- The entry points take the lock round the work; `none` is a call that spins for ever.
unfoldable pub alloc_pages : Zone → ℕ → Option (ℕ × Zone)
alloc_pages z order = elim (spin_lock z.freelist_lock) [
  | none ↦ none
  | some l ↦
      let (p, z') = alloc_pages_unlocked (record z { freelist_lock = l }) order in
      elim (spin_unlock z'.freelist_lock) [
        | none ↦ none
        | some l' ↦ some (p, record z' { freelist_lock = l' })
      ]
]

unfoldable pub free_pages : Zone → ℕ → ℕ → Option Zone
free_pages z p order = elim (spin_lock z.freelist_lock) [
  | none ↦ none
  | some l ↦
      let z' = free_pages_unlocked (record z { freelist_lock = l }) p order in
      elim (spin_unlock z'.freelist_lock) [
        | none ↦ none
        | some l' ↦ some (record z' { freelist_lock = l' })
      ]
]

-- The least order whose block holds `sz` bytes, by the loop of `mm_phys_alloc`: from order 52 on
-- the 64-bit shift is 0 and the loop has no end, `none`.
unfoldable pub order_for : (left order sz : ℕ) → Option ℕ
order_for zero order sz = none
order_for (suc left) order sz =
    let rest = order_for left (order + 1) sz in
    if ltb (u64 (page_size << order)) sz then rest else some order

unfoldable pub mm_phys_alloc : Zone → ℕ → Option (ℕ × Zone)
mm_phys_alloc z sz = elim (order_for 52 0 sz) [
  | none ↦ none
  | some order ↦ elim (alloc_pages z order) [
    | none ↦ none
    | some (p, z') ↦ some ((if p == 0 then minus_one else page_to_phys p), z')
  ]
]

unfoldable pub mm_alloc : Zone → ℕ → Option (ℕ × Zone)
mm_alloc z sz = elim (mm_phys_alloc z sz) [
  | none ↦ none
  | some (physm, z') ↦
      some ((if physm == minus_one then 0 else phys_to_kernel_direct_mapping_addr physm), z')
]
