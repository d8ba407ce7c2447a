-- ===== src/MemInit/Backing.antt =====
-- A struct page of mm/mm_init.c that is initialized, with a page of memory for it where it has none.
use sumi_os.Base.{
  ℕ, suc, ◌+◌, ◌-◌, ◌*◌, ◌/◌, ◌%◌, ◌≡◌, refl, ◌≢◌, true, false, inl, inr, some, arith, ◌∙◌, ◌==◌,
  Bool-cases, minus_one, ◌⊎◌,
}
use native.Mathlib.Decide.{dec_lt}
use sumi_os.Layout.{page_size, kernel_direct_mapping_area}
use sumi_os.PageTable.{Words}
use sumi_os.PageTable.Walk.{mm_pgtable_get_va_pte-walk}
use sumi_os.PageTable.Map.{map_page-whole}
use sumi_os.MemInit.{
  Init, Linear, mm_init_phys_alloc_linear, mm_init_pgtable_get_pa, mm_init_pgtable_map, back_page,
  init_page,
}
use sumi_os.MemInit.Source.{
  HasPages, mm_init_phys_alloc_linear-page, mm_init_phys_alloc_linear-IsPageSource,
}
use sumi_os.MemInit.Direct.{moved}
use sumi_os.MemInit.Works.{
  walk_in, Works, Works-less, IsLike, IsLike-refl, IsLike-trans, Keeps, Keeps-trans, IsStruct,
  walk-struct, mapped-apart,
}

-- How many pages of memory the structs of `left` pages from `p` on lie in.
abbrev pub backing : (p left : ℕ) → ℕ
backing p left = (p / 64 % 64 + left + 63) / 64

back_page-there : (p : ℕ) (s : Init) → walk_in s p ≢ minus_one → back_page p s ≡ some s
unfolding back_page mm_init_pgtable_get_pa
back_page-there p s some_page =
    let there : (walk_in s p == minus_one) ≡ false = ground (arith, some_page) in
    rw (mm_pgtable_get_va_pte-walk, there) refl

back_page-new :
    (p pa : ℕ) (s : Init) (l1 linear : Linear) (word : Words)
    → walk_in s p ≡ minus_one
    → mm_init_phys_alloc_linear s.linear page_size ≡ (pa, l1)
    → mm_init_pgtable_map s.zone.kern_pgtable p pa 3 l1 s.zone.word ≡ some (linear, word)
    → back_page p s ≡ some (moved s linear word)
unfolding back_page mm_init_pgtable_get_pa
back_page-new p pa s l1 linear word gone e runs =
    let there : (walk_in s p == minus_one) ≡ true = ground (arith, gone) in
    rw (mm_pgtable_get_va_pte-walk, there) (rw e (rw runs refl))

-- What the passes do to a state: it works on with `n` pages, keeps what is mapped, and frees nothing.
pub record IsPassed (end n : ℕ) (s s' : Init) : Type 0 where
  pub level : ℕ → ℕ
  pub works : Works end n level s'
  pub like : IsLike s s'
  pub keeps : Keeps s s'

-- The page that holds a struct page is there afterwards, for four pages of memory at most.
back_page-IsPassed :
    (end p n : ℕ) (level : ℕ → ℕ) (s : Init)
    → IsStruct p
    → Works end (4 + n) level s
    → (s' : Init) × (back_page p s ≡ some s') × IsPassed end n s s' × (walk_in s' p ≢ minus_one)
unfolding mm_init_pgtable_map
back_page-IsPassed end p n level s at w = elim (Bool-cases (walk_in s p == minus_one)) [
  | inr there ↦
      let some_page : walk_in s p ≢ minus_one = λ gone. ground (arith, there, gone) in
      (
        s,
        back_page-there p s some_page,
        record {
          level = level;
          works = Works-less 4 n w;
          like = IsLike-refl s;
          keeps = λ va some_va. refl;
        },
        some_page,
      )
  | inl gone ↦
      let h = w.pages in
      let pa : ℕ = s.linear.mm_alloc_start in
      let l1 : Linear = record (s.linear) { mm_alloc_start = pa + 4096 } in
      let pages : HasPages end (suc (suc (suc n))) l1 level = record {
        some_start = λ e. omega (arith, e);
        whole = omega (arith, h.whole);
        fits = omega (arith, h.fits);
        bound = h.bound;
        ends = h.ends;
        no_table = λ q le. h.no_table q (omega (arith, le));
      } in
      let (linear, word, level', runs, m, pages') =
        map_page-whole (mm_init_phys_alloc_linear-IsPageSource end) kernel_direct_mapping_area
          (omega arith) level s.zone.word s.zone.kern_pgtable p pa 3 n l1 w.tree w.root h.whole
          (inl h.some_start) (omega arith) (omega arith) pages in
      let none_there : walk_in s p ≡ minus_one = ground (arith, gone) in
      (
        moved s linear word,
        back_page-new p pa s l1 linear word none_there
            (mm_init_phys_alloc_linear-page s.linear h.whole (omega (arith, h.fits)) h.bound) runs,
        record {
          level = level';
          works = record { tree = m.tree; root = m.root; pages = pages' };
          like = record { free = λ a e. e; base = refl; table = refl };
          keeps =
              λ va some_va. m.others va (inr some_va) (mapped-apart s p va at none_there some_va);
        },
        λ e. omega (arith, e, m.found, h.fits, h.bound),
      )
]

-- Initializing the struct page itself.
unfoldable pub after_page : (p kind : ℕ) → Init → Init
after_page p kind s = record s { zone = init_page p kind s.zone }

pub after_page-IsPassed :
    (end p kind n : ℕ) (s s' : Init) → IsPassed end n s s' → IsPassed end n s (after_page p kind s')
unfolding after_page init_page
after_page-IsPassed end p kind n s s' m = record {
  level = m.level;
  works = record { tree = m.works.tree; root = m.works.root; pages = m.works.pages };
  like = record {
    free = λ a e. ground (arith, m.like.free a e);
    base = m.like.base;
    table = m.like.table;
  };
  keeps = m.keeps;
}

-- The page that holds the struct page at `p` is there (`r` is 1), or not.
abbrev pub Have : Init → (p r : ℕ) → Type 0
Have s p r = (r ≡ 0) ⊎ ((r ≡ 1) × (walk_in s p ≢ minus_one))

pub one_struct :
    (end left p n r : ℕ) (level : ℕ → ℕ) (s : Init)
    → IsStruct p
    → Have s p r
    → Works end (4 * (backing p (suc left) - r) + n) level s
    → (s' : Init) × (back_page p s ≡ some s')
      × IsPassed end (4 * (backing p (suc left) - 1) + n) s s'
      × (walk_in s' p ≢ minus_one)
one_struct end left p n r level s at (inl none_there) w =
    let e : 4 * (backing p (suc left) - r) + n ≡ 4 + (4 * (backing p (suc left) - 1) + n) =
      omega (arith, none_there) in
    back_page-IsPassed end p (4 * (backing p (suc left) - 1) + n) level s at (rw e at w)
one_struct end left p n r level s at (inr (there, some_page)) w = (
  s,
  back_page-there p s some_page,
  record { level = level; works = rw there at w; like = IsLike-refl s; keeps = λ va some_va. refl },
  some_page,
)

-- The next struct page is in the same page, or begins another one.
pub next-Have :
    (left p : ℕ) (s : Init)
    → IsStruct p
    → p % 64 ≡ 0
    → walk_in s p ≢ minus_one
    → (r : ℕ) × Have s (p + 64) r × (backing (p + 64) left - r ≡ backing p (suc left) - 1)
next-Have left p s at whole some_page = elim (dec_lt (p / 64 % 64) 63) [
  | yes inside ↦ (
    1,
    inr (
      refl,
      λ gone. some_page (
          walk-struct s p (p + 64) at
            (omega (arith, at, whole, inside), omega (arith, at, whole, inside))
            (omega (arith, whole, inside))
          ∙ gone),
    ),
    omega (arith, whole, inside),
  )
  | no last ↦ (0, inl refl, omega (arith, whole, last))
]

pub IsPassed-trans :
    (end n k : ℕ) (s t u : Init) → IsPassed end k s t → IsPassed end n t u → IsPassed end n s u
IsPassed-trans end n k s t u m l = record {
  level = l.level;
  works = l.works;
  like = IsLike-trans m.like l.like;
  keeps = Keeps-trans s t u m.keeps l.keeps;
}
