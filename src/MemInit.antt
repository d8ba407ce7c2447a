-- ===== src/MemInit.antt =====
-- mm/mm_init.c: the linear allocator that serves until the buddy allocator is set up, the page table
-- that it feeds, and the passes over the memory map of the Multiboot information that fill the buddy
-- allocator. The messages of these functions are left out.
pub mod Chunks
pub mod Source
pub mod Direct
pub mod Works
pub mod Shown
pub mod Backing
pub mod Structs
pub mod Passes
pub mod Release
pub mod Row
pub mod Released
pub mod Areas
pub mod Finished
pub mod Stocked
pub mod Ready
pub mod Fixtures
mod Tests
use sumi_os.Base.{
  ℕ, zero, suc, ◌+◌, ◌-◌, ◌*◌, ◌/◌, Bool, false, Option, none, some, List, [], ◌∷◌, ◌++◌, ◌&&◌,
  ◌==◌, leb, ltb, if◌then◌else◌, length, get_elem?, update, u64, u32, u8, minus_one,
}
use sumi_os.Layout.{
  page_size, align_page, page_struct_size, kernel_page_array, kernel_direct_mapping_area,
  phys_to_kernel_direct_mapping_addr,
}
use sumi_os.Links.{list_head_init}
use sumi_os.Lock.{spin_lock_init}
use sumi_os.PageTable.{Words, entry_at, map_page, mm_pgtable_get_va_pte}
use sumi_os.PageAlloc.{Page, Zone, freelist_init, free_pages}
use sumi_os.Slub.{Slubs, kmem_cache_init}

-- struct phys_mm_area.
pub record Area : Type 0 where
  pub start : ℕ
  pub end : ℕ

abbrev pub phys_mm_segs_num_max : ℕ
phys_mm_segs_num_max = 0x20

-- The state of the linear allocator. The array of the areas is the list of its first
-- `phys_mm_area_num` entries, of which it has room for 32.
pub record Linear : Type 0 where
  pub mm_alloc_start : ℕ
  pub mm_alloc_end : ℕ
  pub phys_mm_area_arr : List Area
  pub phys_mm_area_idx : ℕ

-- The loop that slides to the next area, of at most `left` rounds.
unfoldable pub next_area : (left : ℕ) → Linear → Linear
next_area zero s = s
next_area (suc left) s =
    let on = next_area left (record s { phys_mm_area_idx = s.phys_mm_area_idx + 1 }) in
    elim (get_elem? s.phys_mm_area_arr s.phys_mm_area_idx) [
      | none ↦ s
      | some a ↦
          let taken = record s { mm_alloc_start = a.start; mm_alloc_end = a.end } in
          if leb s.mm_alloc_end a.start then taken else on
    ]

-- The chunk, or 0.
unfoldable pub mm_init_phys_alloc_linear : Linear → ℕ → ℕ × Linear
mm_init_phys_alloc_linear s sz =
    let size = align_page sz in
    let taken = record s { mm_alloc_start = u64 (s.mm_alloc_start + size) } in
    let slid = next_area (length s.phys_mm_area_arr - s.phys_mm_area_idx) taken in
    if sz == 0
    then (0, s)
    else if ltb s.mm_alloc_end (u64 (size + s.mm_alloc_start))
    then (0, s)
    else if ltb taken.mm_alloc_start s.mm_alloc_end
    then (s.mm_alloc_start, taken)
    else if slid.phys_mm_area_idx == length s.phys_mm_area_arr
    then (0, slid)
    else (s.mm_alloc_start, slid)

-- The copy of `mm_pgtable_get_va_pte`.
unfoldable pub mm_init_pgtable_get_pa : Words → ℕ → ℕ → ℕ
mm_init_pgtable_get_pa word pgtable va = mm_pgtable_get_va_pte word pgtable va

unfoldable pub mm_init_pgtable_map :
    (pgtable va pa attr : ℕ) → Linear → Words → Option (Linear × Words)
mm_init_pgtable_map pgtable va pa attr s word =
    map_page kernel_direct_mapping_area (λ s. some (mm_init_phys_alloc_linear s page_size)) pgtable
      va pa attr s word

-- An entry of the memory map, with its type.
pub record MmapEntry : Type 0 where
  pub addr : ℕ
  pub len : ℕ
  pub kind : ℕ

abbrev pub multiboot_memory_available : ℕ
multiboot_memory_available = 1

-- The tags up to the end tag: a memory map, or another one.
pub data Tag : Type 0 where
  mmap : List MmapEntry → Tag
  other : Tag

-- The first memory map; without one the code halts.
unfoldable pub find_mmap : List Tag → Option (List MmapEntry)
find_mmap [] = none
find_mmap (mmap entries ∷ tags) = some entries
find_mmap (other ∷ tags) = find_mmap tags

-- The pass that collects the available areas; the one that holds the end of the boot stage's
-- allocations becomes the current one. The code does not test the bound of the array: what it does
-- with an area more than the array holds is undefined, and there the result is `none`.
unfoldable pub add_areas : (boot_mem_alloc_start : ℕ) → List MmapEntry → Linear → Option Linear
add_areas boot [] s = some s
add_areas boot (e ∷ entries) s =
    let a : Area = record { start = e.addr; end = u64 (e.addr + e.len) } in
    let added = record s { phys_mm_area_arr = s.phys_mm_area_arr ++ a ∷ [] } in
    let current = record added { mm_alloc_start = boot; mm_alloc_end = a.end } in
    let inside = leb a.start boot && ltb boot a.end in
    let s' = if inside then current else added in
    let full = leb phys_mm_segs_num_max (length s.phys_mm_area_arr) in
    let available = e.kind == multiboot_memory_available in
    let rest = add_areas boot entries (if available then s' else s) in
    if available && full then none else rest

-- The pages of an entry: the rounds of the loops `start = addr; start < addr + len`.
abbrev pub rounds : MmapEntry → ℕ
rounds e = (e.len + (page_size - 1)) / page_size

pub record Init : Type 0 where
  pub linear : Linear
  pub zone : Zone

abbrev pub with_map : Init → Option (Linear × Words) → Option Init
with_map s none = none
with_map s (some (linear, word)) =
    some (record { linear = linear; zone = record (s.zone) { word = word } })

abbrev pub map_in : (va pa : ℕ) → Init → Option Init
map_in va pa s = with_map s (mm_init_pgtable_map s.zone.kern_pgtable va pa 3 s.linear s.zone.word)

-- The direct mapping of `left` pages from `pa` on.
unfoldable pub map_direct : (left pa : ℕ) → Init → Option Init
map_direct zero pa s = some s
map_direct (suc left) pa s = elim (map_in (phys_to_kernel_direct_mapping_addr pa) pa s) [
  | none ↦ none
  | some s' ↦ map_direct left (pa + page_size) s'
]

unfoldable pub map_direct_all : List MmapEntry → Init → Option Init
map_direct_all [] s = some s
map_direct_all (e ∷ entries) s = elim (map_direct (rounds e) e.addr s) [
  | none ↦ none
  | some s' ↦ map_direct_all entries s'
]

abbrev pub page_at : ℕ → ℕ
page_at start = u64 (kernel_page_array + page_struct_size * (start / page_size))

-- `phys_addr_t s = mm_init_phys_alloc_linear(PAGE_SIZE); mm_init_pgtable_map(..., p, s, ...)` where
-- the struct page has no memory yet.
unfoldable pub back_page : (p : ℕ) → Init → Option Init
back_page p s =
    let (pa, linear) = mm_init_phys_alloc_linear s.linear page_size in
    let backed = map_in p pa (record s { linear = linear }) in
    if mm_init_pgtable_get_pa s.zone.word s.zone.kern_pgtable p == minus_one then backed else some s

-- The type is a bit-field of eight bits.
unfoldable pub init_page : (p kind : ℕ) → Zone → Zone
init_page p kind z = record z {
  links = list_head_init z.links p;
  page = update z.page p (record (z.page p) { ref_count = 0; kind = u8 kind; is_free = false });
}

-- The struct pages of `left` pages from `start` on.
unfoldable pub init_pages : (left start kind : ℕ) → Init → Option Init
init_pages zero start kind s = some s
init_pages (suc left) start kind s = elim (back_page (page_at start) s) [
  | none ↦ none
  | some s' ↦
      init_pages left (start + page_size) kind
        (record s' { zone = init_page (page_at start) kind s'.zone })
]

unfoldable pub init_pages_all : List MmapEntry → Init → Option Init
init_pages_all [] s = some s
init_pages_all (e ∷ entries) s = elim (init_pages (rounds e) e.addr e.kind s) [
  | none ↦ none
  | some s' ↦ init_pages_all entries s'
]

-- Frees each page, of the `left` from `start` on, that lies behind the linear allocator's memory.
unfoldable pub release : (left start mm_alloc_end kind : ℕ) → Zone → Option Zone
release zero start mm_alloc_end kind z = some z
release (suc left) start mm_alloc_end kind z =
    let freed =
      if leb mm_alloc_end start && (kind == multiboot_memory_available)
      then free_pages z (page_at start) 0
      else some z in
    elim freed [ none ↦ none | some z' ↦ release left (start + page_size) mm_alloc_end kind z' ]

unfoldable pub release_all : List MmapEntry → (mm_alloc_end : ℕ) → Zone → Option Zone
release_all [] mm_alloc_end z = some z
release_all (e ∷ entries) mm_alloc_end z = elim (release (rounds e) e.addr mm_alloc_end e.kind z) [
  | none ↦ none
  | some z' ↦ release_all entries mm_alloc_end z'
]

-- The zone ready for use: empty free lists, a free lock, and then the pages that are left.
unfoldable pub release_zone : List MmapEntry → (mm_alloc_end : ℕ) → Zone → Option Zone
release_zone entries mm_alloc_end z =
    let z' = freelist_init z in
    release_all entries mm_alloc_end (record z' { freelist_lock = spin_lock_init z'.freelist_lock })

-- The last statement clears the entry of the identity mapping, through that mapping itself; the memory
-- of the model has the table where the direct mapping area shows it.
unfoldable pub mm_pages_allocator_init :
    (boot_kern_pgtable boot_mem_alloc_start : ℕ) → List Tag → Init → Option Init
mm_pages_allocator_init boot_kern_pgtable boot_mem_alloc_start tags s = elim (find_mmap tags) [
  | none ↦ none
  | some entries ↦ elim (add_areas boot_mem_alloc_start entries s.linear) [
    | none ↦ none
    | some linear ↦
        let zone = record (s.zone) { kern_pgtable = boot_kern_pgtable } in
        elim (map_direct_all entries (record { linear = linear; zone = zone })) [
          | none ↦ none
          | some s2 ↦ elim (init_pages_all entries s2) [
            | none ↦ none
            | some s3 ↦ elim (release_zone entries s3.linear.mm_alloc_end s3.zone) [
              | none ↦ none
              | some z ↦ some (record s3 {
                zone = record z { word = update z.word (entry_at boot_kern_pgtable 0) 0 };
              })
            ]
          ]
        ]
  ]
]

unfoldable pub mm_init :
    (boot_kern_pgtable boot_mem_alloc_start : ℕ)
    → List Tag
    → Linear
    → Slubs
    → Option (Linear × Slubs)
mm_init boot_kern_pgtable boot_mem_alloc_start tags linear s =
    elim (mm_pages_allocator_init boot_kern_pgtable boot_mem_alloc_start tags
      (record { linear = linear; zone = s.zone })) [
        | none ↦ none
        | some i ↦ some (i.linear, kmem_cache_init (record s { zone = i.zone }))
      ]
