-- ===== src/PageTable/Range.antt =====
-- Pages that are mapped one after the other.
use sumi_os.Base.{
  ℕ, zero, suc, ◌+◌, ◌*◌, ◌%◌, ◌/◌, ◌^◌, ◌<◌, ◌≡◌, refl, ◌≢◌, inr, arith, ◌∙◌, sym, minus_one,
}
use sumi_os.PageTable.{Words}
use sumi_os.PageTable.Walk.{walk}
use sumi_os.PageTable.Tree.{IsTree}
use sumi_os.PageTable.Frame.{IsSettled, IsSettled-same}
use sumi_os.PageTable.Map.{IsMapped, KeepsRoots, KeepsRoots-trans}

-- The page that `va` lies in, as the page table sees it.
abbrev pub page_of : ℕ → ℕ
page_of va = va / 4096 % 2 ^ 36

-- What the mapping of `left` pages, from `va` to `pa` on, does to the walks.
pub record IsRange (base : ℕ) (level : ℕ → ℕ) (word : Words) (pgtable va pa left : ℕ)
    (level' : ℕ → ℕ) (word' : Words) : Type 0 where
  pub tree : IsTree base level' word'
  pub root : level' pgtable ≡ 4
  pub found : (i : ℕ) → i < left → walk base 3 word' pgtable (va + 4096 * i) ≡ pa + 4096 * i
  pub others :
      (va' : ℕ)
      → IsSettled base 3 word pgtable va'
      → ((i : ℕ) → i < left → page_of va' ≢ page_of (va + 4096 * i))
      → walk base 3 word' pgtable va' ≡ walk base 3 word pgtable va'
  pub roots : KeepsRoots base level word pgtable level' word'

pub IsRange-nil :
    (base : ℕ) (word : Words) (pgtable va pa : ℕ) (level : ℕ → ℕ)
    → IsTree base level word
    → level pgtable ≡ 4
    → IsRange base level word pgtable va pa 0 level word
IsRange-nil base word pgtable va pa level tree root = record {
  tree = tree;
  root = root;
  found = λ i lt. absurd (omega (arith, lt));
  others = λ va' settled away. refl;
  roots = record { kept = λ u at ne. (at, λ j lt. refl) };
}

module _ (base : ℕ) (word w1 w2 : Words) (pgtable va pa left : ℕ) (level l1 l2 : ℕ → ℕ)
    (first : IsMapped base level word pgtable va pa l1 w1)
    (rest : IsRange base l1 w1 pgtable (va + 4096) (pa + 4096) left l2 w2) (low : left < 2 ^ 36)
    (whole : pa % 4096 ≡ 0) where
  pages_apart : (i : ℕ) → i < left → page_of va ≢ page_of (va + 4096 + 4096 * i)
  pages_apart i lt e = omega (arith, low, lt, e)

  first_found : walk base 3 w2 pgtable va ≡ pa
  first_found =
      rest.others va (inr (λ gone. ground (arith, whole, first.found, gone))) pages_apart
      ∙ first.found

  pub IsRange-cons : IsRange base level word pgtable va pa (suc left) l2 w2
  IsRange-cons = record {
    tree = rest.tree;
    root = rest.root;
    found = found';
    others = λ va' settled away.
        let e = first.others va' settled (λ same. away 0 (omega arith) (omega (arith, same))) in
        rest.others va' (IsSettled-same base 3 word w1 pgtable va' e settled)
          (λ i lt same. away (suc i) (omega (arith, lt)) (omega (arith, same)))
        ∙ e;
    roots = KeepsRoots-trans first.roots rest.roots;
  }
    where
      found' : (i : ℕ) → i < suc left → walk base 3 w2 pgtable (va + 4096 * i) ≡ pa + 4096 * i
      found' zero lt =
          let e : va + 4096 * 0 ≡ va = omega arith in
          let e' : pa + 4096 * 0 ≡ pa = omega arith in rw (e, e') first_found
      found' (suc i) lt =
          let e : va + 4096 * suc i ≡ va + 4096 + 4096 * i = omega arith in
          let e' : pa + 4096 * suc i ≡ pa + 4096 + 4096 * i = omega arith in
          rw (e, e') (rest.found i (omega arith))

-- A page that was found before other pages were mapped is found there afterwards.
pub found-IsRange :
    (base : ℕ) (word w1 : Words) (pgtable va pa left va' x : ℕ) (level l1 : ℕ → ℕ)
    → IsRange base level word pgtable va pa left l1 w1
    → x ≢ minus_one
    → ((i : ℕ) → i < left → page_of va' ≢ page_of (va + 4096 * i))
    → walk base 3 word pgtable va' ≡ x
    → walk base 3 w1 pgtable va' ≡ x
found-IsRange base word w1 pgtable va pa left va' x level l1 r some_page away e =
    r.others va' (inr (λ gone. some_page (sym e ∙ gone))) away ∙ e
