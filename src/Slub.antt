-- ===== src/Slub.antt =====
-- mm/slub.c: caches of equal-sized objects over the buddy allocator. A cache keeps its free objects
-- in a list that runs through their first words; the list heads of the caches live in the links
-- of the zone, at the addresses of the array `kmem_cache_list`.
pub mod Trim
pub mod Refill
pub mod Shelve
pub mod Take
pub mod Serve
pub mod Full
pub mod Heap
pub mod Sizes
pub mod Fixtures
mod Tests
use sumi_os.Base.{
  ℕ, zero, suc, ◌+◌, ◌-◌, ◌*◌, ◌^◌, Bool, true, false, Option, none, some, not, ◌==◌, leb, ltb,
  if◌then◌else◌, update, u64, ◌<<◌, ◌>>◌,
}
use sumi_os.Layout.{page_size, page_shift, page_to_phys, phys_to_kernel_direct_mapping_addr}
use sumi_os.Links.{Links, list_add_next, list_del, list_head_init, list_empty}
use sumi_os.Lock.{spin_lock, spin_unlock}
use sumi_os.PageTable.{Words}
use sumi_os.PageAlloc.{Page, Zone, alloc_pages}

-- struct kmem_cache, less its three list heads.
pub record Cache : Type 0 where
  pub lock : ℕ
  pub obj_size : ℕ
  pub slub : ℕ
  pub freelist : ℕ

pub record Slubs : Type 0 where
  pub zone : Zone
  pub cache : ℕ → Cache
  pub kmem_cache_list : ℕ  -- where the linker put the array

-- sizeof(struct kmem_cache), and the addresses of the list heads of cache `i`.
abbrev pub kmem_cache_size : ℕ
kmem_cache_size = 80

abbrev pub full_at : Slubs → ℕ → ℕ
full_at s i = s.kmem_cache_list + kmem_cache_size * i + 16

abbrev pub partial_at : Slubs → ℕ → ℕ
partial_at s i = s.kmem_cache_list + kmem_cache_size * i + 32

abbrev pub list_at : Slubs → ℕ → ℕ
list_at s i = s.kmem_cache_list + kmem_cache_size * i + 48

abbrev pub nr_kobject_size_type : ℕ
nr_kobject_size_type = 10

abbrev pub kmalloc_max_cache_size : ℕ
kmalloc_max_cache_size = page_size << 1

abbrev pub with_links : Slubs → Links → Slubs
with_links s l = record s { zone = record (s.zone) { links = l } }

abbrev pub with_cache : Slubs → ℕ → Cache → Slubs
with_cache s i c = record s { cache = update s.cache i c }

-- The loop of `kmem_cache_init`: `left` rounds from cache `i` on, with the size `orig_sz`.
unfoldable pub kmem_cache_init_loop : (left i orig_sz : ℕ) → Slubs → Slubs
kmem_cache_init_loop zero i orig_sz s = s
kmem_cache_init_loop (suc left) i orig_sz s =
    let l1 = list_head_init s.zone.links (partial_at s i) in
    let l2 = list_head_init l1 (full_at s i) in
    let l3 = list_head_init l2 (list_at s i) in
    kmem_cache_init_loop left (i + 1) (u64 (orig_sz * 2)) (
      with_cache (with_links s l3) i
        (record (s.cache i) { freelist = 0; slub = 0; obj_size = orig_sz }))

unfoldable pub kmem_cache_init : Slubs → Slubs
unfolding kmem_cache_init_loop list_head_init
kmem_cache_init s = kmem_cache_init_loop nr_kobject_size_type 0 16 s

-- `none` is the -1 of the code.
unfoldable pub slub_index : ℕ → Option ℕ
slub_index sz =
    if leb sz 16
    then some 0
    else if leb sz 32
    then some 1
    else if leb sz 64
    then some 2
    else if leb sz 128
    then some 3
    else if leb sz 256
    then some 4
    else if leb sz 512
    then some 5
    else if leb sz 1024
    then some 6
    else if leb sz 2048
    then some 7
    else if leb sz 4096
    then some 8
    else if leb sz 8192
    then some 9
    else none

-- The loop that trims a slub into objects, and the write behind it. `next_obj` is the variable of
-- the code, `none` until its first assignment; `none` as result is a loop that does not end within
-- its fuel, or the use of a variable that has no value.
unfoldable pub trim : (fuel slub_addr obj_size alloc_size va : ℕ) → Option ℕ → Words → Option Words
trim zero slub_addr obj_size alloc_size va next_obj word = none
trim (suc fuel) slub_addr obj_size alloc_size va next_obj word =
    let next = u64 (slub_addr + va) in
    let rest =
      trim fuel slub_addr obj_size alloc_size (u64 (va + obj_size)) (some next)
        (update word (u64 (next + 2 ^ 64 - obj_size)) next) in
    let done : Option Words = elim next_obj [ none ↦ none | some n ↦ some (update word n 0) ] in
    if ltb va alloc_size then rest else done

-- `alloc_size`: the bytes of the block that a slub of the cache takes.
abbrev pub alloc_size : ℕ → ℕ
alloc_size obj_size = u64 (page_size << (obj_size >> page_shift))

-- `slub_alloc` from the return of `alloc_pages` on: the page of the new slub, or 0.
unfoldable pub trim_slub : Slubs → (i new_slub : ℕ) → Zone → Option (ℕ × Slubs)
trim_slub s i new_slub z =
    let obj_size = (s.cache i).obj_size in
    let slub_addr = phys_to_kernel_direct_mapping_addr (page_to_phys new_slub) in
    let page = update z.page new_slub (record (z.page new_slub) { freelist = slub_addr }) in
    let trimmed : Option (ℕ × Slubs) =
      elim (trim (alloc_size obj_size + 1) slub_addr obj_size (alloc_size obj_size) obj_size none
        z.word) [
          | none ↦ none
          | some word ↦ some (new_slub, record s { zone = record z { word = word; page = page } })
        ] in
    if new_slub == 0 then some (0, record s { zone = z }) else trimmed

-- `none` is a call that does not return.
unfoldable pub slub_alloc : Slubs → ℕ → Option (ℕ × Slubs)
slub_alloc s i = elim (alloc_pages s.zone ((s.cache i).obj_size >> page_shift)) [
  | none ↦ none
  | some (new_slub, z) ↦ trim_slub s i new_slub z
]

-- The slub with no object left goes to the full list.
unfoldable pub shelve : ℕ → Slubs → Slubs
shelve i s =
    let c = s.cache i in
    if not (c.slub == 0)
    then with_cache (with_links s (list_add_next s.zone.links (full_at s i) c.slub)) i
        (record c { slub = 0 })
    else s

-- The first slub of the partial list becomes the current one.
unfoldable pub take_partial : ℕ → Slubs → Slubs
take_partial i s =
    let page = s.zone.links.next (partial_at s i) in
    with_cache (with_links s (list_del s.zone.links page)) i
      (record (s.cache i) { slub = page; freelist = (s.zone.page page).freelist })

-- `kc->slub = p`, and `kc->freelist = kc->slub->freelist`.
abbrev pub set_slub : ℕ → ℕ → Slubs → Slubs
set_slub i p s = with_cache s i (record (s.cache i) { slub = p })

abbrev pub load_slub : ℕ → ℕ → Slubs → Slubs
load_slub i p s =
    with_cache s i (record (s.cache i) { slub = p; freelist = (s.zone.page p).freelist })

-- The body of `kmem_cache_alloc` from the label `redo` on, under the cache's lock.
unfoldable pub redo : (fuel i : ℕ) → Slubs → Option (ℕ × Slubs)
redo zero i s = none
redo (suc fuel) i s =
    let c = s.cache i in
    let s1 = shelve i s in
    let from_partial = redo fuel i (take_partial i s1) in
    let from_buddy : Option (ℕ × Slubs) = elim (slub_alloc s1 i) [
      | none ↦ none
      | some (new_slub, s2) ↦
          let again = redo fuel i (load_slub i new_slub s2) in
          if not (new_slub == 0) then again else some (0, set_slub i 0 s2)
    ] in
    if not (c.freelist == 0)
    then some (c.freelist, with_cache s i (record c { freelist = s.zone.word c.freelist }))
    else if not (list_empty s1.zone.links (partial_at s1 i))
    then from_partial
    else from_buddy

unfoldable pub kmem_cache_alloc : (fuel i : ℕ) → Slubs → Option (ℕ × Slubs)
kmem_cache_alloc fuel i s = elim (spin_lock (s.cache i).lock) [
  | none ↦ none
  | some l ↦ elim (redo fuel i (with_cache s i (record (s.cache i) { lock = l }))) [
    | none ↦ none
    | some (obj, s') ↦ elim (spin_unlock (s'.cache i).lock) [
      | none ↦ none
      | some l' ↦ some (obj, with_cache s' i (record (s'.cache i) { lock = l' }))
    ]
  ]
]

-- `kmalloc`, with `__kmalloc` and `__kmalloc_large` in it; `none` also where the code would return
-- the variable `obj` that it has not set.
unfoldable pub kmalloc : (fuel sz : ℕ) → Slubs → Option (ℕ × Slubs)
kmalloc fuel sz s =
    let small : Option (ℕ × Slubs) = elim (slub_index sz) [
      | none ↦ none
      | some index ↦ kmem_cache_alloc fuel index s
    ] in
    if ltb kmalloc_max_cache_size sz then some (0, s) else small
