-- ===== src/MemInit/Passes.antt =====
-- The passes of mm/mm_init.c over the whole memory map: how many pages of memory they take, and what
-- they leave.
use sumi_os.Base.{ℕ, ◌+◌, ◌*◌, ◌^◌, ◌<◌, ◌≤◌, ◌≡◌, refl, some, arith, ◌∙◌, List, [], ◌∷◌, ◌++◌}
use mathlib.Core.Path.{subst}
use sumi_os.MemInit.{
  MmapEntry, rounds, Init, map_direct, map_direct_all, init_pages, init_pages_all, page_at,
}
use sumi_os.MemInit.Works.{Works, Works-less, IsLike, IsLike-refl, Keeps}
use sumi_os.MemInit.Shown.{Shows, Shows-kept, StartsWell-next, range-Shows, range-Shows_kept}
use sumi_os.MemInit.Direct.{stretches, moved, StartsWell, map_direct-IsRange}
use sumi_os.MemInit.Backing.{backing, IsPassed, IsPassed-trans}
use sumi_os.MemInit.Structs.{AllThere, HasStruct, HasStruct-kept, init_pages-IsPassed}

-- The entries lie in the first 64 terabytes, and none begins inside the first page.
abbrev pub AllLow : List MmapEntry → Type 0
AllLow [] = Unit {0}
AllLow (e ∷ entries) = StartsWell e.addr × (e.addr + e.len + 4096 ≤ 2 ^ 46) × AllLow entries

-- How many pages of memory each pass takes at most.
abbrev pub need_direct : List MmapEntry → ℕ
need_direct [] = 0
need_direct (e ∷ entries) = 3 * stretches e.addr (rounds e) + need_direct entries

abbrev pub need_structs : List MmapEntry → ℕ
need_structs [] = 0
need_structs (e ∷ entries) = 4 * backing (page_at e.addr) (rounds e) + need_structs entries

abbrev pub need : List MmapEntry → ℕ
need entries = need_direct entries + need_structs entries

-- Each page of each entry is found at its place in the direct mapping area.
abbrev pub AllShown : Init → List MmapEntry → Type 0
AllShown s [] = Unit {0}
AllShown s (e ∷ entries) =
    ((i : ℕ) → i < rounds e → Shows s (e.addr + 4096 * i)) × AllShown s entries

pub AllShown-kept :
    (entries : List MmapEntry) (s s' : Init)
    → AllLow entries
    → Keeps s s'
    → AllShown s entries
    → AllShown s' entries
AllShown-kept [] s s' low keeps shown = tt
AllShown-kept (e ∷ entries) s s' (well, fits, low) keeps (here, shown) = (
  λ i lt. Shows-kept (e.addr + 4096 * i) s s' (omega (arith, fits, lt)) keeps (here i lt),
  AllShown-kept entries s s' low keeps shown,
)

-- What the pass of the direct mapping does to a state.
pub record IsDirect (end n : ℕ) (s s' : Init) : Type 0 where
  pub level : ℕ → ℕ
  pub works : Works end n level s'
  pub like : IsLike s s'
  pub kept : (a : ℕ) → a < 2 ^ 46 → StartsWell a → Shows s a → Shows s' a

map_direct_all-step :
    (e : MmapEntry) (entries : List MmapEntry) (s s' : Init)
    → map_direct (rounds e) e.addr s ≡ some s'
    → map_direct_all (e ∷ entries) s ≡ map_direct_all entries s'
unfolding map_direct_all
map_direct_all-step e entries s s' runs = rw (runs, map_direct_all) refl

pub map_direct_all-AllShown :
    (entries : List MmapEntry) (end n : ℕ) (level : ℕ → ℕ) (s : Init)
    → AllLow entries
    → Works end (need_direct entries + n) level s
    → (s' : Init) × (map_direct_all entries s ≡ some s') × IsDirect end n s s' × AllShown s' entries
unfolding map_direct_all
map_direct_all-AllShown [] end n level s low w = (
  s,
  refl,
  record {
    level = level;
    works = Works-less 0 n w;
    like = IsLike-refl s;
    kept = λ a small well shown. shown;
  },
  tt,
)
map_direct_all-AllShown (e ∷ entries) end n level s (well, fits, low) w =
    let sum : 3 * stretches e.addr (rounds e) + need_direct entries + n
        ≡ 3 * stretches e.addr (rounds e) + (need_direct entries + n) =
      omega arith in
    let top : e.addr + 4096 * rounds e ≤ 2 ^ 46 = omega (arith, fits) in
    let (linear, word, level1, runs, range, pages) =
      map_direct-IsRange end (rounds e) level e.addr (need_direct entries + n) s w.tree w.root well
        top (rw sum at w.pages) in
    let s1 = moved s linear word in
    let (s2, later, d, shown) =
      map_direct_all-AllShown entries end n level1 s1 low
        (record { tree = range.tree; root = range.root; pages = pages }) in
    (
      s2,
      map_direct_all-step e entries s s1 runs ∙ later,
      record {
        level = d.level;
        works = d.works;
        like = record { free = d.like.free; base = d.like.base; table = d.like.table };
        kept = λ a small well' here. d.kept a small well' (
            range-Shows_kept (rounds e) e.addr s s1 level level1 well top refl range a small well'
              here);
      },
      (
        λ i lt.
            d.kept (e.addr + 4096 * i) (omega (arith, top, lt)) (StartsWell-next e.addr i well)
              (range-Shows (rounds e) e.addr s s1 level level1 well top refl range i lt),
        shown,
      ),
    )

-- Each page of each entry has a struct page that is not marked free.
abbrev pub AllListed : Init → List MmapEntry → Type 0
AllListed s [] = Unit {0}
AllListed s (e ∷ entries) = AllThere s (page_at e.addr) (rounds e) × AllListed s entries

AllThere-kept :
    (p left : ℕ) (s s' : Init) → Keeps s s' → IsLike s s' → AllThere s p left → AllThere s' p left
AllThere-kept p left s s' keeps like there j lt =
    HasStruct-kept (p + 64 * j) s s' keeps like (there j lt)

pub AllListed-at :
    (before after : List MmapEntry) (e : MmapEntry) (s : Init)
    → AllListed s (before ++ e ∷ after)
    → AllThere s (page_at e.addr) (rounds e)
AllListed-at [] after e s listed = listed.0
AllListed-at (x ∷ before) after e s listed = AllListed-at before after e s listed.1

-- Address `a` is the struct page of a page of the memory map.
pub data InMap : List MmapEntry → ℕ → Type 0 where
  first_entry :
      (e : MmapEntry) (entries : List MmapEntry) (j a : ℕ)
      → j < rounds e
      → page_at e.addr + 64 * j ≡ a
      → InMap (e ∷ entries) a
  later_entry :
      (e : MmapEntry) (entries : List MmapEntry) (a : ℕ) → InMap entries a → InMap (e ∷ entries) a

pub AllListed-HasStruct :
    (entries : List MmapEntry) (s : Init) (a : ℕ)
    → AllListed s entries
    → InMap entries a
    → HasStruct s a
AllListed-HasStruct _ s _ listed (first_entry e rest j a lt at) =
    subst (HasStruct s) at (listed.0 j lt)
AllListed-HasStruct _ s _ listed (later_entry e rest a m) = AllListed-HasStruct rest s a listed.1 m

init_pages_all-step :
    (e : MmapEntry) (entries : List MmapEntry) (s s' : Init)
    → init_pages (rounds e) e.addr e.kind s ≡ some s'
    → init_pages_all (e ∷ entries) s ≡ init_pages_all entries s'
unfolding init_pages_all
init_pages_all-step e entries s s' runs = rw (runs, init_pages_all) refl

-- While the current memory has the pages for it, the pass returns, and gives each page of each
-- entry a struct page that is not marked free; no other page becomes free, mapped addresses stay
-- where they are, and the page table is well formed again. The entries lie in the first 64
-- terabytes.
pub init_pages_all-AllListed :
    (entries : List MmapEntry) (end n : ℕ) (level : ℕ → ℕ) (s : Init)
    → AllLow entries
    → Works end (need_structs entries + n) level s
    → (s' : Init) × (init_pages_all entries s ≡ some s')
      × IsPassed end n s s'
      × AllListed s' entries
unfolding init_pages_all
init_pages_all-AllListed [] end n level s low w = (
  s,
  refl,
  record {
    level = level;
    works = Works-less 0 n w;
    like = IsLike-refl s;
    keeps = λ va some_va. refl;
  },
  tt,
)
init_pages_all-AllListed (e ∷ entries) end n level s (well, fits, low) w =
    let k : ℕ = need_structs entries + n in
    let sum : 4 * backing (page_at e.addr) (rounds e) + need_structs entries + n
        ≡ 4 * backing (page_at e.addr) (rounds e) + k =
      omega arith in
    let (s1, runs, m, there) =
      init_pages-IsPassed end (rounds e) e.addr e.kind k level s (omega (arith, fits))
        (rw sum at w) in
    let (s2, later, l, listed) = init_pages_all-AllListed entries end n m.level s1 low m.works in
    (
      s2,
      init_pages_all-step e entries s s1 runs ∙ later,
      IsPassed-trans end n k s s1 s2 m l,
      (AllThere-kept (page_at e.addr) (rounds e) s1 s2 l.keeps l.like there, listed),
    )
