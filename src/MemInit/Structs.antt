-- ===== src/MemInit/Structs.antt =====
-- The pass of mm/mm_init.c that initializes the struct pages of an entry of the memory map; a page of
-- memory is mapped for 64 of them at a time.
use sumi_os.Base.{
  false, ℕ, zero, suc, ◌+◌, ◌-◌, ◌*◌, ◌%◌, ◌^◌, ◌<◌, ◌≤◌, ◌≡◌, refl, ◌≢◌, inl, some, arith, ◌∙◌,
  sym, minus_one,
}
use mathlib.Core.Path.{subst}
use sumi_os.Layout.{page_size, kernel_page_array}
use sumi_os.MemInit.{Init, page_at, back_page, init_page, init_pages}
use sumi_os.MemInit.Works.{IsLike, walk_in, Works, Works-less, IsLike-refl, Keeps}
use sumi_os.MemInit.Backing.{
  backing, IsPassed, IsPassed-trans, after_page, after_page-IsPassed, Have, one_struct, next-Have,
}

init_pages-step :
    (left start p kind : ℕ) (s s' : Init)
    → page_at start ≡ p
    → back_page p s ≡ some s'
    → init_pages (suc left) start kind s
      ≡ init_pages left (start + page_size) kind (after_page p kind s')
unfolding init_pages after_page
init_pages-step left start p kind s s' at runs =
    let here : back_page (page_at start) s ≡ some s' = rw (sym at) at runs in
    subst
      (λ q.
        init_pages (suc left) start kind s
        ≡ init_pages left (start + page_size) kind (after_page q kind s'))
      at (rw (here, init_pages) refl)

after_page-walk : (p kind : ℕ) (s : Init) (va : ℕ) → walk_in (after_page p kind s) va ≡ walk_in s va
unfolding after_page init_page
after_page-walk p kind s va = refl

after_page-free : (p kind : ℕ) (s : Init) → ((after_page p kind s).zone.page p).is_free ≡ false
unfolding after_page init_page
after_page-free p kind s = ground arith

-- The struct page at `q` is there, and not marked free.
abbrev pub HasStruct : Init → (q : ℕ) → Type 0
HasStruct s q = (walk_in s q ≢ minus_one) × ((s.zone.page q).is_free ≡ false)

pub HasStruct-kept :
    (q : ℕ) (s s' : Init) → Keeps s s' → IsLike s s' → HasStruct s q → HasStruct s' q
HasStruct-kept q s s' keeps like (there, held) =
    (λ gone. there (sym (keeps q there) ∙ gone), like.free q held)

-- The struct pages from `p` on are.
abbrev pub AllThere : Init → (p left : ℕ) → Type 0
AllThere s p left = (j : ℕ) → j < left → HasStruct s (p + 64 * j)

AllThere-cons :
    (p left : ℕ) (s : Init) → HasStruct s p → AllThere s (p + 64) left → AllThere s p (suc left)
AllThere-cons p left s here rest zero lt = subst (HasStruct s) (omega arith) here
AllThere-cons p left s here rest (suc j) lt =
    subst (λ q. HasStruct s q) (omega arith) (rest j (omega (arith, lt)))

init_pages-from :
    (end left start p kind n r : ℕ) (level : ℕ → ℕ) (s : Init)
    → page_at start ≡ p
    → kernel_page_array ≤ p
    → p + 64 * left ≤ kernel_page_array + 2 ^ 40
    → p % 64 ≡ 0
    → Have s p r
    → Works end (4 * (backing p left - r) + n) level s
    → (s' : Init) × (init_pages left start kind s ≡ some s')
      × IsPassed end n s s'
      × AllThere s' p left
unfolding init_pages
init_pages-from end zero start p kind n r level s at lo hi whole have w = (
  s,
  refl,
  record {
    level = level;
    works = Works-less (4 * (backing p 0 - r)) n w;
    like = IsLike-refl s;
    keeps = λ va some_va. refl;
  },
  λ j lt. absurd (omega (arith, lt)),
)
init_pages-from end (suc left) start p kind n r level s at lo hi whole have w =
    let (s1, runs, m, some_page) =
      one_struct end left p n r level s (lo, omega (arith, hi)) have w in
    let m' = after_page-IsPassed end p kind (4 * (backing p (suc left) - 1) + n) s s1 m in
    let s1' = after_page p kind s1 in
    let some_page' : walk_in s1' p ≢ minus_one =
      λ gone. some_page (sym (after_page-walk p kind s1 p) ∙ gone) in
    let step : init_pages (suc left) start kind s ≡ init_pages left (start + page_size) kind s1' =
      init_pages-step left start p kind s s1 at runs in
    let (r', have', e) = next-Have left p s1' (lo, omega (arith, hi)) whole some_page' in
    let (s2, later, l, there) =
      init_pages-from end left (start + page_size) (p + 64) kind n r' m'.level s1'
        (omega (arith, at, hi)) (omega (arith, lo)) (omega (arith, hi)) (omega (arith, whole)) have'
        (rw (sym e) at m'.works) in
    (
      s2,
      step ∙ later,
      IsPassed-trans end n (4 * (backing p (suc left) - 1) + n) s s1' s2 m' l,
      AllThere-cons p left s2
          (HasStruct-kept p s1' s2 l.keeps l.like (some_page', after_page-free p kind s1)) there,
    )

-- While the current memory has four pages for each page of struct pages, the pass over an entry of
-- the memory map returns: the struct pages of the entry are there and not marked free, no other
-- page becomes free, and mapped addresses stay where they are.
pub init_pages-IsPassed :
    (end left start kind n : ℕ) (level : ℕ → ℕ) (s : Init)
    → start + 4096 * left ≤ 2 ^ 46
    → Works end (4 * backing (page_at start) left + n) level s
    → (s' : Init) × (init_pages left start kind s ≡ some s')
      × IsPassed end n s s'
      × AllThere s' (page_at start) left
init_pages-IsPassed end left start kind n level s low w =
    let e : backing (page_at start) left - 0 ≡ backing (page_at start) left = omega arith in
    init_pages-from end left start (page_at start) kind n 0 level s refl (omega (arith, low))
      (omega (arith, low)) (omega (arith, low)) (inl refl) (rw e w)
