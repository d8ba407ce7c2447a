-- ===== src/BootMem/Built.antt =====
-- The kernel's first page table beside those that are there already, as the ones of the boot code.
use sumi_os.Base.{
  ℕ, ◌+◌, ◌<◌, ◌≡◌, ◌≢◌, inl, inr, arith, update, ◌∙◌, sym, ap, bit_or, ◌==◌, Bool-cases,
}
use sumi_os.Layout.{page_mask}
use sumi_os.PageTable.{Words, zero_page, entry_in}
use sumi_os.PageTable.Tree.{IsTree, IsPage}
use sumi_os.PageTable.Map.{KeepsRoots}
use sumi_os.BootMem.{BootMem}
use sumi_os.BootMem.Source.{HasPages}

-- What the making of the page table at `table` leaves: the tables as they were before the last write,
-- which gives the first entry of the root to `pud`; `n` pages of the `total` bytes are left.
pub record IsBuilt (level : ℕ → ℕ) (word : Words) (total table n pud : ℕ) (s' : BootMem)
    (word' : Words) : Type 0 where
  pub grown : Words
  pub level' : ℕ → ℕ
  pub tree : IsTree 0 level' grown
  pub root : level' table ≡ 4
  pub roots : KeepsRoots 0 level word table level' grown
  pub pages : HasPages total n s' level'
  pub last : word' ≡ update grown table (bit_or pud 3)

module _ (level : ℕ → ℕ) (word : Words) (tree : IsTree 0 level word) (table : ℕ)
    (fresh : level table ≡ 0) (page : IsPage table) where
  -- The levels with a new root.
  abbrev pub rooted : ℕ → ℕ
  rooted = update level table 4

  zeroed : (j : ℕ) → j < 512 → zero_page word table (entry_in 0 table j) ≡ 0
  unfolding zero_page
  zeroed j lt = ground (arith, page, lt)

  unzeroed :
      (u j : ℕ)
      → IsPage u
      → u ≢ table
      → j < 512
      → zero_page word table (entry_in 0 u j) ≡ word (entry_in 0 u j)
  unfolding zero_page
  unzeroed u j at ne lt = ground (arith, page, at, ne, lt)

  rooted-else : (u : ℕ) → u ≢ table → rooted u ≡ level u
  rooted-else u ne = ground (arith, ne)

  -- An entry in use belongs to a table that was there.
  older :
      (t i : ℕ)
      → i < 512
      → 1 < rooted t
      → zero_page word table (entry_in 0 t i) ≢ 0
      → (t ≢ table)
        × (level t ≡ rooted t)
        × (zero_page word table (entry_in 0 t i) ≡ word (entry_in 0 t i))
  older t i lt high used = elim (Bool-cases (t == table)) [
    | inl same ↦
        let e : t ≡ table = ground (arith, same) in
        absurd (used (ap (λ t. zero_page word table (entry_in 0 t i)) e ∙ zeroed i lt))
    | inr other ↦
        let ne : t ≢ table = λ e. ground (arith, other, e) in
        let same = rooted-else t ne in
        (ne, sym same, unzeroed t i (tree.tables t (λ e. omega (arith, high, same, e))) ne lt)
  ]

  pub rooted-IsTree : IsTree 0 rooted (zero_page word table)
  rooted-IsTree = record {
    tables = λ t ne. elim (Bool-cases (t == table)) [
      | inl same ↦ (ground (arith, same, page), ground (arith, same, page))
      | inr other ↦ tree.tables t (λ e. ground (arith, ne, other, e))
    ];
    child = λ t i lt high used.
        let (ne, same, kept) = older t i lt high used in
        let used' : word (entry_in 0 t i) ≢ 0 = λ e. used (kept ∙ e) in
        let c = page_mask (word (entry_in 0 t i)) in
        let down : level c + 1 ≡ level t = tree.child t i lt (rw same high) used' in
        let c_else : c ≢ table = λ e. omega (arith, down, ap level e, fresh, high, same) in
        ap (λ w. rooted (page_mask w) + 1) kept
        ∙ (ap (λ l. l + 1) (rooted-else c c_else) ∙ (down ∙ same));
    sole = λ t i u j lt lt' high high' used used' same.
        let (ne, up, kept) = older t i lt high used in
        let (ne', up', kept') = older u j lt' high' used' in
        tree.sole t i u j lt lt' (rw up high) (rw up' high') (λ e. used (kept ∙ e))
          (λ e. used' (kept' ∙ e)) (ap page_mask (sym kept) ∙ (same ∙ ap page_mask kept'));
  }

  pub rooted-KeepsRoots : KeepsRoots 0 level word table rooted (zero_page word table)
  rooted-KeepsRoots = record {
    kept = λ u at ne. (
      rooted-else u ne ∙ at,
      λ j lt. unzeroed u j (tree.tables u (λ e. omega (arith, at, e))) ne lt,
    );
  }
