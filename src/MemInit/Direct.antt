-- ===== src/MemInit/Direct.antt =====
-- The pass of mm/mm_init.c that maps an entry of the memory map into the direct mapping area. The
-- pages of two megabytes share their tables, so that the pass needs few pages.
use sumi_os.Base.{
  ℕ, zero, suc, ◌+◌, ◌*◌, ◌^◌, ◌%◌, ◌≤◌, ◌≡◌, refl, ◌≢◌, true, ◌⊎◌, inl, inr, some, arith, ◌∙◌, ◌/◌,
  ◌-◌, sym,
}
use mathlib.Core.Path.{subst}
use native.Mathlib.Decide.{dec_lt}
use sumi_os.Layout.{
  page_size, page_mask, kernel_va_is_phys_zero, kernel_direct_mapping_area,
  phys_to_kernel_direct_mapping_addr,
}
use sumi_os.PageTable.{Words}
use sumi_os.PageTable.Tree.{IsTree}
use sumi_os.PageTable.Map.{IsMapped, HasPath, map_page-IsMapped}
use sumi_os.PageTable.Near.{HasPath-near, map_page-there}
use sumi_os.PageTable.Range.{IsRange, IsRange-nil, IsRange-cons}
use sumi_os.MemInit.{Linear, mm_init_phys_alloc_linear, mm_init_pgtable_map, Init, map_direct}
use sumi_os.MemInit.Source.{HasPages, HasPages-less, mm_init_phys_alloc_linear-IsPageSource}

-- The state with another linear allocator and memory.
abbrev pub moved : Init → Linear → Words → Init
moved s linear word = record { linear = linear; zone = record (s.zone) { word = word } }

map_direct-step :
    (left pa va : ℕ) (s : Init) (linear : Linear) (word : Words)
    → phys_to_kernel_direct_mapping_addr pa ≡ va
    → mm_init_pgtable_map s.zone.kern_pgtable va pa 3 s.linear s.zone.word ≡ some (linear, word)
    → map_direct (suc left) pa s ≡ map_direct left (pa + page_size) (moved s linear word)
unfolding map_direct
map_direct-step left pa va s linear word at e = rw (at, map_direct) (rw (e, map_direct) refl)

-- How many stretches of two megabytes the `left` pages from `pa` on lie in.
abbrev pub stretches : (pa left : ℕ) → ℕ
stretches pa left = (pa / 4096 % 512 + left + 511) / 512

-- The tables of the first stretch are there (`r` is 1), or not.
abbrev Ready : Words → (pgtable pa r : ℕ) → Type 0
Ready word pgtable pa r =
    (r ≡ 0)
    ⊎ ((r ≡ 1) × HasPath kernel_direct_mapping_area word pgtable (kernel_direct_mapping_area + pa))

-- An address that is in the first page is 0.
abbrev pub StartsWell : (pa : ℕ) → Type 0
StartsWell pa = (pa ≡ 0) ⊎ (4096 ≤ pa)

from_zero :
    (pa : ℕ)
    → StartsWell pa
    → (page_mask pa ≢ 0) ⊎ (kernel_va_is_phys_zero (kernel_direct_mapping_area + pa) ≡ true)
from_zero pa (inl zero_page) = inr (ground (arith, zero_page))
from_zero pa (inr some_page) = inl (λ z. omega (arith, z, some_page))

-- One page of the direct mapping: its tables take three pages at most, and none if they are there.
map_here :
    (end left : ℕ) (level : ℕ → ℕ) (pa n r : ℕ) (s : Init)
    → IsTree kernel_direct_mapping_area level s.zone.word
    → level s.zone.kern_pgtable ≡ 4
    → StartsWell pa
    → Ready s.zone.word s.zone.kern_pgtable pa r
    → HasPages end (3 * (stretches pa (suc left) - r) + n) s.linear level
    → (linear : Linear) × (word : Words) × (level' : ℕ → ℕ) × (mm_init_pgtable_map
          s.zone.kern_pgtable
          (kernel_direct_mapping_area + pa)
          pa
          3
          s.linear
          s.zone.word
        ≡ some (linear, word))
      × IsMapped kernel_direct_mapping_area level s.zone.word s.zone.kern_pgtable
          (kernel_direct_mapping_area + pa)
          (page_mask pa)
          level'
          word
      × HasPages end (3 * (stretches pa (suc left) - 1) + n) linear level'
unfolding mm_init_pgtable_map
map_here end left level pa n r s tree root well (inl none_there) pages =
    let e : 3 * (stretches pa (suc left) - r) + n
        ≡ suc (suc (suc (3 * (stretches pa (suc left) - 1) + n))) =
      omega (arith, none_there) in
    map_page-IsMapped (mm_init_phys_alloc_linear-IsPageSource end) kernel_direct_mapping_area
      (omega arith) level s.zone.word s.zone.kern_pgtable (kernel_direct_mapping_area + pa) pa 3
      (3 * (stretches pa (suc left) - 1) + n) s.linear tree root (from_zero pa well) (omega arith)
      (omega arith) (rw e at pages)
map_here end left level pa n r s tree root well (inr (there, path)) pages =
    let (word, runs, m) =
      map_page-there (λ s. some (mm_init_phys_alloc_linear s page_size)) kernel_direct_mapping_area
        (omega arith) level s.zone.word s.zone.kern_pgtable (kernel_direct_mapping_area + pa) pa 3
        s.linear tree root (from_zero pa well) (omega arith) path in
    (s.linear, word, level, runs, m, rw there at pages)

-- The next page is in the same stretch, or begins another one.
next-Ready :
    (left pa : ℕ) (word : Words) (pgtable : ℕ)
    → HasPath kernel_direct_mapping_area word pgtable (kernel_direct_mapping_area + pa)
    → (r : ℕ) × Ready word pgtable (pa + 4096) r
      × (stretches (pa + 4096) left - r ≡ stretches pa (suc left) - 1)
next-Ready left pa word pgtable path = elim (dec_lt (pa / 4096 % 512) 511) [
  | yes inside ↦ (
    1,
    inr (
      refl,
      HasPath-near kernel_direct_mapping_area word pgtable (kernel_direct_mapping_area + pa)
          (kernel_direct_mapping_area + (pa + 4096)) (omega (arith, inside)) path,
    ),
    omega (arith, inside),
  )
  | no last ↦ (0, inl refl, omega (arith, last))
]

IsRange-next :
    (pgtable pa left : ℕ) (level1 : ℕ → ℕ) (w1 : Words) (level2 : ℕ → ℕ) (w2 : Words)
    → IsRange kernel_direct_mapping_area level1 w1 pgtable
        (kernel_direct_mapping_area + (pa + 4096))
        (page_mask (pa + 4096))
        left
        level2
        w2
    → IsRange kernel_direct_mapping_area level1 w1 pgtable
        (kernel_direct_mapping_area + pa + 4096)
        (page_mask pa + 4096)
        left
        level2
        w2
IsRange-next pgtable pa left level1 w1 level2 w2 r =
    let next : kernel_direct_mapping_area + (pa + 4096) ≡ kernel_direct_mapping_area + pa + 4096 =
      omega arith in
    let page : page_mask (pa + 4096) ≡ page_mask pa + 4096 = omega arith in
    subst
      (λ va.
        IsRange kernel_direct_mapping_area level1 w1 pgtable va (page_mask pa + 4096) left level2
          w2)
      next
      (subst
        (λ q.
          IsRange kernel_direct_mapping_area level1 w1 pgtable
            (kernel_direct_mapping_area + (pa + 4096)) q left level2 w2)
        page r)

map_direct-from :
    (end left : ℕ) (level : ℕ → ℕ) (pa n r : ℕ) (s : Init)
    → IsTree kernel_direct_mapping_area level s.zone.word
    → level s.zone.kern_pgtable ≡ 4
    → StartsWell pa
    → pa + 4096 * left ≤ 2 ^ 46
    → Ready s.zone.word s.zone.kern_pgtable pa r
    → HasPages end (3 * (stretches pa left - r) + n) s.linear level
    → (linear : Linear) × (word : Words) × (level' : ℕ → ℕ) × (map_direct left pa s
        ≡ some (moved s linear word))
      × IsRange kernel_direct_mapping_area level s.zone.word s.zone.kern_pgtable
          (kernel_direct_mapping_area + pa)
          (page_mask pa)
          left
          level'
          word
      × HasPages end n linear level'
map_direct-from end zero level pa n r s tree root well low ready pages = (
  s.linear,
  s.zone.word,
  level,
  unfold map_direct in refl,
  IsRange-nil kernel_direct_mapping_area s.zone.word s.zone.kern_pgtable _ (page_mask pa) level tree
      root,
  HasPages-less (3 * (stretches pa 0 - r)) n pages,
)
map_direct-from end (suc left) level pa n r s tree root well low ready pages =
    let va : phys_to_kernel_direct_mapping_addr pa ≡ kernel_direct_mapping_area + pa =
      omega (arith, low) in
    let (l1, w1, level1, runs, m, pages1) =
      map_here end left level pa n r s tree root well ready pages in
    let (r', ready', e) = next-Ready left pa w1 s.zone.kern_pgtable m.path in
    let (l2, w2, level2, runs', range, pages2) =
      map_direct-from end left level1 (pa + 4096) n r' (moved s l1 w1) m.tree m.root
        (inr (omega arith)) (omega (arith, low)) ready' (rw (sym e) at pages1) in
    (
      l2,
      w2,
      level2,
      map_direct-step left pa (kernel_direct_mapping_area + pa) s l1 w1 va runs ∙ runs',
      IsRange-cons kernel_direct_mapping_area s.zone.word w1 w2 s.zone.kern_pgtable
          (kernel_direct_mapping_area + pa) (page_mask pa) left level level1 level2 m
          (IsRange-next s.zone.kern_pgtable pa left level1 w1 level2 w2 range) (omega (arith, low))
          (omega arith),
      pages2,
    )

-- While the current memory has three pages for each stretch of two megabytes to be mapped, the pass
-- over an entry of the memory map returns: the walks then find its pages at their places in the direct
-- mapping area, the walks of the addresses in other pages end as before, and the page table is well
-- formed again. The entry lies in the first 64 terabytes; it
-- may begin inside a page, but not inside the first one.
pub map_direct-IsRange :
    (end left : ℕ) (level : ℕ → ℕ) (pa n : ℕ) (s : Init)
    → IsTree kernel_direct_mapping_area level s.zone.word
    → level s.zone.kern_pgtable ≡ 4
    → StartsWell pa
    → pa + 4096 * left ≤ 2 ^ 46
    → HasPages end (3 * stretches pa left + n) s.linear level
    → (linear : Linear) × (word : Words) × (level' : ℕ → ℕ) × (map_direct left pa s
        ≡ some (moved s linear word))
      × IsRange kernel_direct_mapping_area level s.zone.word s.zone.kern_pgtable
          (kernel_direct_mapping_area + pa)
          (page_mask pa)
          left
          level'
          word
      × HasPages end n linear level'
map_direct-IsRange end left level pa n s tree root well low pages =
    let e : stretches pa left - 0 ≡ stretches pa left = omega arith in
    map_direct-from end left level pa n 0 s tree root well low (inl refl) (rw e pages)
