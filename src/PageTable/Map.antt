-- ===== src/PageTable/Map.antt =====
-- A mapped page is found again, and all other pages are where they were.
use sumi_os.Base.{
  ℕ, suc, ◌%◌, ◌/◌, ◌^◌, ◌<◌, ◌≡◌, refl, ◌≢◌, true, ◌⊎◌, Option, some, arith, ◌∙◌, sym, ap, update,
  bit_or, bit_or-page,
}
use mathlib.Core.Path.{subst}
use sumi_os.Layout.{page_mask, kernel_va_is_phys_zero, pte_entry, pmd_entry, pud_entry, pgd_entry}
use sumi_os.PageTable.{Words, entry_in, descend, map_page}
use sumi_os.PageTable.Walk.{walk}
use sumi_os.PageTable.Tree.{HasRoom, IsTree, same_entry}
use sumi_os.PageTable.Grow.{IsDescent}
use sumi_os.PageTable.Descend.{IsPageSource, Descends, descend-Descends}
use sumi_os.PageTable.Frame.{Leads, IsSettled, IsSettled-same, away, walk-IsDescent}
use sumi_os.PageTable.Leaf.{Leads-leaf, leaf-IsTree, leaf-walk_here, leaf-walk_others}

-- The walk of `va` leads to a last table.
abbrev pub HasPath : (base : ℕ) → Words → (pgtable va : ℕ) → Type 0
HasPath base word pgtable va = (l : ℕ) × Leads base 3 word pgtable va l

-- The root tables other than `pgtable` stay as they are.
pub record KeepsRoots (base : ℕ) (level : ℕ → ℕ) (word : Words) (pgtable : ℕ) (level' : ℕ → ℕ)
    (word' : Words) : Type 0 where
  pub kept :
      (u : ℕ)
      → level u ≡ 4
      → u ≢ pgtable
      → (level' u ≡ 4) × ((j : ℕ) → j < 512 → word' (entry_in base u j) ≡ word (entry_in base u j))

pub KeepsRoots-trans :
    {base : ℕ} {level l1 l2 : ℕ → ℕ} {word w1 w2 : Words} {pgtable : ℕ}
    → KeepsRoots base level word pgtable l1 w1
    → KeepsRoots base l1 w1 pgtable l2 w2
    → KeepsRoots base level word pgtable l2 w2
KeepsRoots-trans k l = record {
  kept = λ u at ne.
      let (at', same) = k.kept u at ne in
      let (at'', same') = l.kept u at' ne in (at'', λ j lt. same' j lt ∙ same j lt);
}

-- What the mapping of `va` to `pa` does to the walks, and to other page tables.
pub record IsMapped (base : ℕ) (level : ℕ → ℕ) (word : Words) (pgtable va pa : ℕ) (level' : ℕ → ℕ)
    (word' : Words) : Type 0 where
  pub tree : IsTree base level' word'
  pub root : level' pgtable ≡ 4
  pub path : HasPath base word' pgtable va
  pub found : walk base 3 word' pgtable va ≡ pa
  pub others :
      (va' : ℕ)
      → IsSettled base 3 word pgtable va'
      → va' / 4096 % 2 ^ 36 ≢ va / 4096 % 2 ^ 36
      → walk base 3 word' pgtable va' ≡ walk base 3 word pgtable va'
  pub roots : KeepsRoots base level word pgtable level' word'

pub steps :
    {A : Type 0} (base : ℕ) (alloc : A → Option (ℕ × A)) (pgtable va pa attr pud pmd pte : ℕ)
    (s s1 s2 s3 : A) (word w1 w2 w3 : Words)
    → descend base alloc attr pgtable (pgd_entry va) s word ≡ some (pud, s1, w1)
    → descend base alloc attr pud (pud_entry va) s1 w1 ≡ some (pmd, s2, w2)
    → descend base alloc attr pmd (pmd_entry va) s2 w2 ≡ some (pte, s3, w3)
    → map_page base alloc pgtable va pa attr s word
      ≡ some (s3, update w3 (entry_in base pte (pte_entry va)) (bit_or pa attr))
unfolding map_page
steps base alloc pgtable va pa attr pud pmd pte s s1 s2 s3 word w1 w2 w3 e1 e2 e3 =
    rw (e1, map_page) (rw (e2, map_page) (rw (e3, map_page) refl))

-- The three levels of the mapping one after the other.
module _ (base : ℕ) (room : HasRoom base) (pgtable va pud pmd pte : ℕ) (level l1 l2 l3 : ℕ → ℕ)
    (word w1 w2 w3 : Words) (tree : IsTree base level word) (root : level pgtable ≡ 4)
    (d1 : IsDescent base level word pgtable (pgd_entry va) pud l1 w1) (at1 : l1 pud ≡ 3)
    (d2 : IsDescent base l1 w1 pud (pud_entry va) pmd l2 w2) (at2 : l2 pmd ≡ 2)
    (d3 : IsDescent base l2 w2 pmd (pmd_entry va) pte l3 w3) (at3 : l3 pte ≡ 1) where
  root1 : l1 pgtable ≡ 4
  root1 = d1.keeps_tables pgtable (ground (arith, root)) ∙ root

  root2 : l2 pgtable ≡ 4
  root2 = d2.keeps_tables pgtable (ground (arith, root1)) ∙ root1

  root3 : l3 pgtable ≡ 4
  root3 = d3.keeps_tables pgtable (ground (arith, root2)) ∙ root2

  pud2 : l2 pud ≡ 3
  pud2 = d2.keeps_tables pud (ground (arith, at1)) ∙ at1

  first : w3 (entry_in base pgtable (pgd_entry va)) ≡ w1 (entry_in base pgtable (pgd_entry va))
  first =
      d3.others pgtable (pgd_entry va) (ground (arith, root2)) (omega arith) (
        away base room l2 w2 d2.tree pmd (pmd_entry va) pgtable (pgd_entry va) (ground (arith, at2))
          (ground (arith, root2)) (ground (arith, at2, root2)) (omega arith) (omega arith))
      ∙ d2.others pgtable (pgd_entry va) (ground (arith, root1)) (omega arith) (
          away base room l1 w1 d1.tree pud (pud_entry va) pgtable (pgd_entry va)
            (ground (arith, at1)) (ground (arith, root1)) (ground (arith, at1, root1)) (omega arith)
            (omega arith))

  second : w3 (entry_in base pud (pud_entry va)) ≡ w2 (entry_in base pud (pud_entry va))
  second = d3.others pud (pud_entry va) (ground (arith, pud2)) (omega arith) (
      away base room l2 w2 d2.tree pmd (pmd_entry va) pud (pud_entry va) (ground (arith, at2))
        (ground (arith, pud2)) (ground (arith, at2, pud2)) (omega arith) (omega arith))

  path : Leads base 3 w3 pgtable va pte
  path = (
    pud,
    λ e. d1.in_use (sym first ∙ e),
    ap page_mask first ∙ d1.leads,
    (
      pmd,
      λ e. d2.in_use (sym second ∙ e),
      ap page_mask second ∙ d2.leads,
      (pte, d3.in_use, d3.leads, refl),
    ),
  )

  unchanged :
      (va' : ℕ)
      → IsSettled base 3 word pgtable va'
      → walk base 3 w3 pgtable va' ≡ walk base 3 word pgtable va'
  unchanged va' settled =
      let e1 =
        walk-IsDescent base room level word tree pgtable (pgd_entry va) pud l1 w1 d1
          (ground (arith, root)) (omega arith) 3 pgtable va' root settled in
      let e2 =
        walk-IsDescent base room l1 w1 d1.tree pud (pud_entry va) pmd l2 w2 d2 (ground (arith, at1))
          (omega arith) 3 pgtable va' root1
          (IsSettled-same base 3 word w1 pgtable va' e1 settled) in
      let e3 =
        walk-IsDescent base room l2 w2 d2.tree pmd (pmd_entry va) pte l3 w3 d3 (ground (arith, at2))
          (omega arith) 3 pgtable va' root2
          (IsSettled-same base 3 word w2 pgtable va' (e2 ∙ e1) settled) in
      e3 ∙ e2 ∙ e1

  other_roots :
      (v u : ℕ)
      → level u ≡ 4
      → u ≢ pgtable
      → (l3 u ≡ 4)
        × ((j : ℕ)
            → j < 512
            → update w3 (entry_in base pte (pte_entry va)) v (entry_in base u j)
              ≡ word (entry_in base u j))
  other_roots v u at ne =
      let k1 : l1 u ≡ 4 = d1.keeps_tables u (ground (arith, at)) ∙ at in
      let k2 : l2 u ≡ 4 = d2.keeps_tables u (ground (arith, k1)) ∙ k1 in
      let k3 : l3 u ≡ 4 = d3.keeps_tables u (ground (arith, k2)) ∙ k2 in
      (
        k3,
        λ j lt.
            let last : entry_in base u j ≢ entry_in base pte (pte_entry va) =
              away base room l3 w3 d3.tree pte (pte_entry va) u j (ground (arith, at3))
                (ground (arith, k3)) (ground (arith, at3, k3)) (omega arith) lt in
            let e3 = d3.others u j (ground (arith, k2)) lt (
              away base room l2 w2 d2.tree pmd (pmd_entry va) u j (ground (arith, at2))
                (ground (arith, k2)) (ground (arith, at2, k2)) (omega arith) lt) in
            let e2 = d2.others u j (ground (arith, k1)) lt (
              away base room l1 w1 d1.tree pud (pud_entry va) u j (ground (arith, at1))
                (ground (arith, k1)) (ground (arith, at1, k1)) (omega arith) lt) in
            let e1 = d1.others u j (ground (arith, at)) lt (λ e.
              ne
                (same_entry base u j pgtable (pgd_entry va) room
                  (tree.tables u (ground (arith, at))) (tree.tables pgtable (ground (arith, root)))
                  lt (omega arith) e).0) in
            ground (arith, last) ∙ (e3 ∙ (e2 ∙ e1)),
      )

  leaf-IsMapped :
      (pa v : ℕ)
      → page_mask v ≡ pa
      → (pa ≢ 0) ⊎ (kernel_va_is_phys_zero va ≡ true)
      → IsMapped base level word pgtable va pa l3 (update w3 (entry_in base pte (pte_entry va)) v)
  leaf-IsMapped pa v mask ok = record {
    tree = leaf-IsTree base room l3 w3 d3.tree pte (pte_entry va) v at3 (omega arith);
    root = root3;
    path = (
      pte,
      Leads-leaf base room l3 w3 d3.tree pte (pte_entry va) v at3 (omega arith) 3 pgtable va pte
          root3 path,
    );
    found =
        leaf-walk_here base room l3 w3 d3.tree pte (pte_entry va) v at3 (omega arith) 3 pgtable va
          pa root3 path refl mask (ground (arith, mask, ok));
    others = λ va' mapped other.
        leaf-walk_others base room l3 w3 d3.tree pte (pte_entry va) v at3 (omega arith) pgtable va
          va' root3 path refl other
        ∙ unchanged va' mapped;
    roots = record { kept = other_roots v };
  }

pub leaf_mask : (pa attr : ℕ) → attr < 4096 → page_mask (bit_or pa attr) ≡ page_mask pa
leaf_mask pa attr small = omega (arith, bit_or-page pa attr small)

module _ {A : Type 0} {alloc : A → Option (ℕ × A)} {Owns : ℕ → A → (ℕ → ℕ) → Type 0}
    (source : IsPageSource alloc Owns) (base : ℕ) (room : HasRoom base) where
  -- With an allocator that can give three more pages, mapping a page into a well-formed page table
  -- returns; the walk then finds the page at that address; the walks of the addresses in other pages
  -- end as before, but for KERNEL_BASE_ADDR and the start of the direct mapping area, of which this is
  -- shown only where they were mapped before (while they are not, their walk may end at 0 where it
  -- ended at -1); the page table is well formed again, and other page tables keep their roots. The
  -- address may lie inside the page, and the attributes are not all clear and lie below
  -- the page's address, which is 0 only for the two addresses where the walk accepts that.
  pub map_page-IsMapped :
      (level : ℕ → ℕ) (word : Words) (pgtable va pa attr n : ℕ) (s : A)
      → IsTree base level word
      → level pgtable ≡ 4
      → (page_mask pa ≢ 0) ⊎ (kernel_va_is_phys_zero va ≡ true)
      → attr < 4096
      → attr ≢ 0
      → Owns (suc (suc (suc n))) s level
      → (s' : A) × (word' : Words) × (level' : ℕ → ℕ) × (map_page base alloc pgtable va pa attr s
            word
          ≡ some (s', word'))
        × IsMapped base level word pgtable va (page_mask pa) level' word'
        × Owns n s' level'
  unfolding Descends
  map_page-IsMapped level word pgtable va pa attr n s tree root ok small some_bit owns =
      let (pud, s1, w1, l1, e1, d1, at1, o1) =
        descend-Descends source base room level word attr pgtable (pgd_entry va) 2 (suc (suc n)) s
          tree root (omega arith) small some_bit owns in
      let (pmd, s2, w2, l2, e2, d2, at2, o2) =
        descend-Descends source base room l1 w1 attr pud (pud_entry va) 1 (suc n) s1 d1.tree at1
          (omega arith) small some_bit o1 in
      let (pte, s3, w3, l3, e3, d3, at3, o3) =
        descend-Descends source base room l2 w2 attr pmd (pmd_entry va) 0 n s2 d2.tree at2
          (omega arith) small some_bit o2 in
      (
        s3,
        update w3 (entry_in base pte (pte_entry va)) (bit_or pa attr),
        l3,
        steps base alloc pgtable va pa attr pud pmd pte s s1 s2 s3 word w1 w2 w3 e1 e2 e3,
        leaf-IsMapped base room pgtable va pud pmd pte level l1 l2 l3 word w1 w2 w3 tree root d1 at1
            d2 at2 d3 at3 (page_mask pa) (bit_or pa attr) (leaf_mask pa attr small) ok,
        o3,
      )

  pub map_page-whole :
      (level : ℕ → ℕ) (word : Words) (pgtable va pa attr n : ℕ) (s : A)
      → IsTree base level word
      → level pgtable ≡ 4
      → pa % 4096 ≡ 0
      → (pa ≢ 0) ⊎ (kernel_va_is_phys_zero va ≡ true)
      → attr < 4096
      → attr ≢ 0
      → Owns (suc (suc (suc n))) s level
      → (s' : A) × (word' : Words) × (level' : ℕ → ℕ) × (map_page base alloc pgtable va pa attr s
            word
          ≡ some (s', word'))
        × IsMapped base level word pgtable va pa level' word'
        × Owns n s' level'
  map_page-whole level word pgtable va pa attr n s tree root whole ok small some_bit owns =
      let page : page_mask pa ≡ pa = omega (arith, whole) in
      let (s', word', level', runs, m, owns') =
        map_page-IsMapped level word pgtable va pa attr n s tree root (rw page ok) small some_bit
          owns in
      (
        s',
        word',
        level',
        runs,
        subst (λ q. IsMapped base level word pgtable va q level' word') page m,
        owns',
      )
