-- ===== src/BootMem/Handover.antt =====
-- What the boot stage hands over: its last write gives the first entry of the new root to the
-- tables of the boot code, which are then below the new root and not below that of the boot code
-- any more.
use sumi_os.Base.{
  ℕ, ◌+◌, ◌-◌, ◌<◌, ◌≤◌, ◌≡◌, refl, ◌≢◌, inl, inr, arith, ◌∙◌, sym, ap, ◌==◌, if◌then◌else◌,
  Bool-cases, ◌⊎◌, ltb,
}
use sumi_os.Layout.{page_mask, kernel_direct_mapping_area}
use sumi_os.PageTable.{Words, entry_in}
use sumi_os.PageTable.Tree.{IsTree, IsPage, same_entry}
use sumi_os.PageTable.Map.{leaf_mask}
use sumi_os.BootMem.{BootMem}
use sumi_os.BootMem.Built.{IsBuilt}

-- The page table of the boot code: a root whose first entry leads to `pud`.
pub record IsBootTable (level : ℕ → ℕ) (word : Words) (pgd pud : ℕ) : Type 0 where
  pub tree : IsTree 0 level word
  pub root : level pgd ≡ 4
  pub used : word (entry_in 0 pgd 0) ≢ 0
  pub leads : page_mask (word (entry_in 0 pgd 0)) ≡ pud

module _ (level : ℕ → ℕ) (word : Words) (total table n pgd pud : ℕ) (s' : BootMem) (word' : Words)
    (b : IsBuilt level word total table n pud s' word') (o : IsBootTable level word pgd pud)
    (apart : pgd ≢ table) where
  -- The levels without the root of the boot code, and without what could lie above that.
  abbrev pub handed_levels : ℕ → ℕ
  handed_levels u = if u == pgd then 0 else if ltb 4 (b.level' u) then 0 else b.level' u

  levels-some :
      (u : ℕ) → handed_levels u ≢ 0 → (handed_levels u ≡ b.level' u) × (u ≢ pgd) × (b.level' u ≤ 4)
  levels-some u ne = (ground (arith, ne), (λ e. ground (arith, ne, e)), ground (arith, ne))

  levels-low : (u : ℕ) → u ≢ pgd → b.level' u ≤ 4 → handed_levels u ≡ b.level' u
  levels-low u ne le = ground (arith, ne, le)

  old_root : b.level' pgd ≡ 4
  old_root = (b.roots.kept pgd o.root apart).0

  old_entry : b.grown (entry_in 0 pgd 0) ≡ word (entry_in 0 pgd 0)
  old_entry = (b.roots.kept pgd o.root apart).1 0 (omega arith)

  table-IsPage : IsPage table
  table-IsPage = b.tree.tables table (λ e. omega (arith, b.root, e))

  first_entry : entry_in 0 table 0 ≡ table
  first_entry = omega (arith, table-IsPage)

  pud_whole : page_mask pud ≡ pud
  pud_whole = omega (arith, o.leads)

  new_entry : page_mask (word' (entry_in 0 table 0)) ≡ pud
  new_entry =
      ap page_mask (ap word' first_entry ∙ (ap (λ w. w table) b.last ∙ ground arith))
      ∙ (leaf_mask pud 3 (omega arith) ∙ pud_whole)

  -- The entry that an entry in use has come from.
  record Source (t i : ℕ) : Type 0 where
    pub table_before : ℕ
    pub index_before : ℕ
    pub small : index_before < 512
    pub same_level : b.level' table_before ≡ handed_levels t
    pub used : b.grown (entry_in 0 table_before index_before) ≢ 0
    pub leads :
        page_mask (word' (entry_in 0 t i))
        ≡ page_mask (b.grown (entry_in 0 table_before index_before))
    pub from :
        ((table_before ≡ pgd) × (t ≡ table) × (i ≡ 0)) ⊎ ((table_before ≡ t) × (index_before ≡ i))

  kept-entry :
      (t i : ℕ)
      → entry_in 0 t i ≢ entry_in 0 table 0
      → word' (entry_in 0 t i) ≡ b.grown (entry_in 0 t i)
  kept-entry t i ne =
      let ne' : table ≢ entry_in 0 t i = λ e. ne (sym e ∙ sym first_entry) in
      ap (λ w. w (entry_in 0 t i)) b.last ∙ ground (arith, ne')

  source : (t i : ℕ) → i < 512 → 1 < handed_levels t → word' (entry_in 0 t i) ≢ 0 → Source t i
  source t i lt high used =
      let (same, other, le) = levels-some t (λ e. omega (arith, e, high)) in
      elim (Bool-cases (entry_in 0 t i == entry_in 0 table 0)) [
        | inl here ↦
            let e : entry_in 0 t i ≡ entry_in 0 table 0 = ground (arith, here) in
            let (at, first) =
              same_entry 0 t i table 0 (omega arith)
                (b.tree.tables t (λ e. omega (arith, e, same, high))) table-IsPage lt (omega arith)
                e in
            record {
              table_before = pgd;
              index_before = 0;
              small = omega arith;
              same_level = old_root ∙ sym (same ∙ (ap b.level' at ∙ b.root));
              used = λ e. o.used (sym old_entry ∙ e);
              leads =
                  ap (λ a. page_mask (word' a)) e
                  ∙ (new_entry ∙ sym (ap page_mask old_entry ∙ o.leads));
              from = inl (refl, at, first);
            }
        | inr away ↦
            let kept = kept-entry t i (λ e. ground (arith, away, e)) in
            record {
              table_before = t;
              index_before = i;
              small = lt;
              same_level = sym same;
              used = λ e. used (kept ∙ e);
              leads = ap page_mask kept;
              from = inr (refl, refl);
            }
      ]

  same-Source :
      (t i u j : ℕ)
      → handed_levels t ≢ 0
      → handed_levels u ≢ 0
      → (x : Source t i) → (y : Source u j) → x.table_before ≡ y.table_before
      → x.index_before ≡ y.index_before
      → (t ≡ u) × (i ≡ j)
  same-Source t i u j some_t some_u x y e e' = elim x.from [
    | inl (at, here, first) ↦ elim y.from [
      | inl (at', here', first') ↦ (here ∙ sym here', first ∙ sym first')
      | inr (same, _) ↦ absurd ((levels-some u some_u).1 (sym same ∙ (sym e ∙ at)))
    ]
    | inr (same, same_i) ↦ elim y.from [
      | inl (at', here', first') ↦ absurd ((levels-some t some_t).1 (sym same ∙ (e ∙ at')))
      | inr (same', same_j) ↦ (sym same ∙ (e ∙ same'), sym same_i ∙ (e' ∙ same_j))
    ]
  ]

  -- The tables below the new root are well formed, with those of the boot code under its first entry.
  pub handed-IsTree : IsTree 0 handed_levels word'
  handed-IsTree = record {
    tables = λ t ne. b.tree.tables t (λ e. ne ((levels-some t ne).0 ∙ e));
    child = λ t i lt high used.
        let x = source t i lt high used in
        let c = page_mask (b.grown (entry_in 0 x.table_before x.index_before)) in
        let le = (levels-some t (λ e. omega (arith, e, high))) in
        let down : b.level' c + 1 ≡ b.level' x.table_before =
          b.tree.child x.table_before x.index_before x.small (omega (arith, x.same_level, high))
            x.used in
        let low : b.level' c ≤ 3 = omega (arith, down, x.same_level, le.0, le.2) in
        ap (λ c. handed_levels c + 1) x.leads
        ∙ (ap (λ l. l + 1)
              (levels-low c (λ e. omega (arith, low, ap b.level' e, old_root)) (omega (arith, low)))
            ∙ (down ∙ x.same_level));
    sole = λ t i u j lt lt' high high' used used' same.
        let x = source t i lt high used in
        let y = source u j lt' high' used' in
        let (e, e') =
          b.tree.sole x.table_before x.index_before y.table_before y.index_before x.small y.small
            (omega (arith, x.same_level, high)) (omega (arith, y.same_level, high')) x.used y.used
            (sym x.leads ∙ (same ∙ y.leads)) in
        same-Source t i u j (λ e. omega (arith, e, high)) (λ e. omega (arith, e, high')) x y e e';
  }

  pub handed-root : handed_levels table ≡ 4
  handed-root = levels-low table (λ e. apart (sym e)) (omega (arith, b.root)) ∙ b.root

  pub handed-none : (q : ℕ) → b.level' q ≡ 0 → handed_levels q ≡ 0
  handed-none q e = ground (arith, e)

-- Physical memory as the direct mapping area shows it.
abbrev pub seen : Words → Words
seen word a = word (a - kernel_direct_mapping_area)

seen-entry :
    (word : Words) (t i : ℕ)
    → IsPage t
    → i < 512
    → seen word (entry_in kernel_direct_mapping_area t i) ≡ word (entry_in 0 t i)
seen-entry word t i page lt = ap word (omega (arith, page, lt))

pub seen-IsTree :
    (level : ℕ → ℕ) (word : Words)
    → IsTree 0 level word
    → IsTree kernel_direct_mapping_area level (seen word)
seen-IsTree level word tree = record {
  tables = tree.tables;
  child = λ t i lt high used.
      let e = seen-entry word t i (tree.tables t (λ e. omega (arith, e, high))) lt in
      ap (λ w. level (page_mask w) + 1) e ∙ tree.child t i lt high (λ z. used (e ∙ z));
  sole = λ t i u j lt lt' high high' used used' same.
      let e = seen-entry word t i (tree.tables t (λ e. omega (arith, e, high))) lt in
      let e' = seen-entry word u j (tree.tables u (λ e. omega (arith, e, high'))) lt' in
      tree.sole t i u j lt lt' high high' (λ z. used (e ∙ z)) (λ z. used' (e' ∙ z))
        (sym (ap page_mask e) ∙ (same ∙ ap page_mask e'));
}
