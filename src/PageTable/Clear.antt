-- ===== src/PageTable/Clear.antt =====
-- An entry of the root that is cleared: what is below it is not mapped any more.
use sumi_os.Base.{
  ℕ, ◌+◌, ◌<◌, ◌≡◌, ◌≢◌, inl, inr, arith, ◌∙◌, sym, ap, update, ◌==◌, minus_one, Bool-cases,
}
use sumi_os.Layout.{page_mask}
use sumi_os.PageTable.{Words, entry_in}
use sumi_os.PageTable.Walk.{index, walk}
use sumi_os.PageTable.Tree.{HasRoom, IsTree}
use sumi_os.PageTable.Write.{walk-update}

in_use : (word : Words) (e a : ℕ) → update word e 0 a ≢ 0 → word a ≡ update word e 0 a
in_use word e a used = elim (Bool-cases (e == a)) [
  | inl here ↦ absurd (used (ground (arith, here)))
  | inr other ↦ ground (arith, other)
]

module _ (base : ℕ) (room : HasRoom base) (level : ℕ → ℕ) (word : Words)
    (tree : IsTree base level word) (root i : ℕ) (at : level root ≡ 4) (lt : i < 512) where
  abbrev cleared : Words
  cleared = update word (entry_in base root i) 0

  was_used : (t j : ℕ) → cleared (entry_in base t j) ≢ 0 → word (entry_in base t j) ≢ 0
  was_used t j used = λ none_there.
      used (sym (in_use word (entry_in base root i) (entry_in base t j) used) ∙ none_there)

  pub cleared-IsTree : IsTree base level cleared
  cleared-IsTree = record {
    tables = tree.tables;
    child = λ t j lt' high used.
        ap (λ e. level (page_mask e) + 1)
          (sym (in_use word (entry_in base root i) (entry_in base t j) used))
        ∙ tree.child t j lt' high (was_used t j used);
    sole = λ t j u k lt' lt'' high high' used used' same.
        let e = in_use word (entry_in base root i) (entry_in base t j) used in
        let e' = in_use word (entry_in base root i) (entry_in base u k) used' in
        tree.sole t j u k lt' lt'' high high' (was_used t j used) (was_used u k used')
          (ap page_mask e ∙ (same ∙ ap page_mask (sym e')));
  }

  pub cleared-walk :
      (va : ℕ) → index 3 va ≢ i → walk base 3 cleared root va ≡ walk base 3 word root va
  cleared-walk va misses =
      walk-update base level word root i 0 3 va room tree at lt misses 3 root at

  pub cleared-gone : (va : ℕ) → index 3 va ≡ i → walk base 3 cleared root va ≡ minus_one
  cleared-gone va here =
      let e : cleared (entry_in base root (index 3 va)) ≡ 0 = rw here (ground arith) in
      ground (arith, e)
