-- ===== src/PageTable/Near.antt =====
-- A page whose tables are there already: mapping it takes no page, and the pages of the same two
-- megabytes share the tables.
use sumi_os.Base.{
  ℕ, suc, ◌/◌, ◌^◌, ◌<◌, ◌≡◌, refl, ◌≢◌, true, false, ◌⊎◌, Option, some, arith, ◌∙◌, sym, ap,
  update, bit_or, ◌==◌,
}
use sumi_os.Layout.{page_mask, kernel_va_is_phys_zero, pte_entry, pmd_entry, pud_entry, pgd_entry}
use sumi_os.PageTable.{Words, entry_in, descend, map_page}
use sumi_os.PageTable.Walk.{index}
use sumi_os.PageTable.Tree.{HasRoom, IsTree}
use sumi_os.PageTable.Frame.{Leads, away}
use sumi_os.PageTable.Leaf.{below, leaf-IsTree, leaf-walk_here, leaf-walk_others, Leads-leaf}
use sumi_os.PageTable.Map.{IsMapped, HasPath, steps, leaf_mask}

Leads-next :
    (base levels : ℕ) (word : Words) (t va va' c l : ℕ)
    → index (suc levels) va ≡ index (suc levels) va'
    → word (entry_in base t (index (suc levels) va)) ≢ 0
    → page_mask (word (entry_in base t (index (suc levels) va))) ≡ c
    → Leads base levels word c va' l
    → Leads base (suc levels) word t va' l
Leads-next base levels word t va va' c l same used mask leads = (
  c,
  λ z. used (ap (λ j. word (entry_in base t j)) same ∙ z),
  ap (λ j. page_mask (word (entry_in base t j))) (sym same) ∙ mask,
  leads,
)

descend-there :
    {A : Type 0} (base : ℕ) (alloc : A → Option (ℕ × A)) (attr t i c : ℕ) (s : A) (word : Words)
    → word (entry_in base t i) ≢ 0
    → page_mask (word (entry_in base t i)) ≡ c
    → descend base alloc attr t i s word ≡ some (c, s, word)
unfolding descend
descend-there base alloc attr t i c s word used mask =
    let there : (word (entry_in base t i) == 0) ≡ false = ground arith in rw (there, mask) refl

-- Pages of the same two megabytes.
pub HasPath-near :
    (base : ℕ) (word : Words) (pgtable va va' : ℕ)
    → va / 2 ^ 21 ≡ va' / 2 ^ 21
    → HasPath base word pgtable va
    → HasPath base word pgtable va'
HasPath-near base word pgtable va va' near (l, (c1, u1, m1, (c2, u2, m2, (c3, u3, m3, e)))) =
    let i3 : index 3 va ≡ index 3 va' = omega (arith, near) in
    let i2 : index 2 va ≡ index 2 va' = omega (arith, near) in
    let i1 : index 1 va ≡ index 1 va' = omega (arith, near) in
    (
      l,
      Leads-next base 2 word pgtable va va' c1 l i3 u1 m1 (
          Leads-next base 1 word c1 va va' c2 l i2 u2 m2
            (Leads-next base 0 word c2 va va' c3 l i1 u3 m3 e)),
    )

module _ {A : Type 0} (alloc : A → Option (ℕ × A)) (base : ℕ) (room : HasRoom base) where
  -- Where the tables are there, mapping a page takes nothing from the allocator.
  pub map_page-there :
      (level : ℕ → ℕ) (word : Words) (pgtable va pa attr : ℕ) (s : A)
      → IsTree base level word
      → level pgtable ≡ 4
      → (page_mask pa ≢ 0) ⊎ (kernel_va_is_phys_zero va ≡ true)
      → attr < 4096
      → HasPath base word pgtable va
      → (word' : Words) × (map_page base alloc pgtable va pa attr s word ≡ some (s, word'))
        × IsMapped base level word pgtable va (page_mask pa) level word'
  map_page-there level word pgtable va pa attr s tree root ok small
        (pte, (c1, u1, m1, (c2, u2, m2, (c3, u3, m3, e)))) =
      let path : Leads base 3 word pgtable va pte = (c1, u1, m1, (c2, u2, m2, (c3, u3, m3, e))) in
      let at1 = below base room level word tree 2 pgtable va c1 root u1 m1 in
      let at2 = below base room level word tree 1 c1 va c2 at1 u2 m2 in
      let at3 = ap level (sym e) ∙ below base room level word tree 0 c2 va c3 at2 u3 m3 in
      let v = bit_or pa attr in
      let mask = leaf_mask pa attr small in
      (
        update word (entry_in base pte (pte_entry va)) v,
        steps base alloc pgtable va pa attr c1 c2 pte s s s s word word word word
            (descend-there base alloc attr pgtable (pgd_entry va) c1 s word u1 m1)
            (descend-there base alloc attr c1 (pud_entry va) c2 s word u2 m2)
            (descend-there base alloc attr c2 (pmd_entry va) pte s word u3 (m3 ∙ e)),
        record {
          tree = leaf-IsTree base room level word tree pte (pte_entry va) v at3 (omega arith);
          root = root;
          path = (
            pte,
            Leads-leaf base room level word tree pte (pte_entry va) v at3 (omega arith) 3 pgtable va
                pte root path,
          );
          found =
              leaf-walk_here base room level word tree pte (pte_entry va) v at3 (omega arith) 3
                pgtable va (page_mask pa) root path refl mask (ground (arith, mask, ok));
          others = λ va' settled other.
              leaf-walk_others base room level word tree pte (pte_entry va) v at3 (omega arith)
                pgtable va va' root path refl other;
          roots = record {
            kept = λ u at ne. (
              at,
              λ j lt.
                  let last : entry_in base u j ≢ entry_in base pte (pte_entry va) =
                    away base room level word tree pte (pte_entry va) u j (ground (arith, at3))
                      (ground (arith, at)) (ground (arith, at3, at)) (omega arith) lt in
                  ground (arith, last),
            );
          };
        },
      )
