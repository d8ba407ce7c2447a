-- ===== src/PageTable/Write.antt =====
-- A write to one entry of a table, and the walks that do not come through it.
use sumi_os.Base.{
  ◌∙◌, ℕ, zero, suc, ◌<◌, ◌≡◌, ◌≢◌, arith, ap, sym, update, ◌&&◌, not, ◌==◌, if◌then◌else◌,
  minus_one,
}
use sumi_os.Layout.{page_mask, kernel_va_is_phys_zero}
use sumi_os.PageTable.{Words, entry_in}
use sumi_os.PageTable.Walk.{index, walk}
use sumi_os.PageTable.Tree.{HasRoom, IsTree, same_entry}
use sumi_os.PageTable.Frame.{walk_step}

module _ (base : ℕ) (level : ℕ → ℕ) (word : Words) (t i v l va : ℕ) (room : HasRoom base)
    (tree : IsTree base level word) (at : level t ≡ suc l) (small : i < 512)
    (misses : index l va ≢ i) where
  entry_apart :
      (levels u : ℕ) → level u ≡ suc levels → entry_in base u (index levels va) ≢ entry_in base t i
  entry_apart levels u at' e =
      let (same, same_index) =
        same_entry base u (index levels va) t i room (tree.tables u (ground (arith, at')))
          (tree.tables t (ground (arith, at))) (omega arith) small e in
      let levels_same : levels ≡ l = ground (arith, at, at', ap level same) in
      misses (ap (λ k. index k va) (sym levels_same) ∙ same_index)

  kept :
      (levels u : ℕ)
      → level u ≡ suc levels
      → update word (entry_in base t i) v (entry_in base u (index levels va))
        ≡ word (entry_in base u (index levels va))
  kept levels u at' = ground (arith, entry_apart levels u at')

  -- The walk of an address whose index at that level is another one.
  pub walk-update :
      (levels u : ℕ)
      → level u ≡ suc levels
      → walk base levels (update word (entry_in base t i) v) u va ≡ walk base levels word u va
  walk-update zero u at' =
      ap
        (λ e.
          if (page_mask e == 0) && not (kernel_va_is_phys_zero va) then minus_one else page_mask e)
        (kept 0 u at')
  walk-update (suc levels) u at' =
      let e = entry_in base u (index (suc levels) va) in
      walk_step base levels word (update word (entry_in base t i) v) u va (kept (suc levels) u at')
        (λ used. walk-update levels (page_mask (word e)) (
          ground (
            arith,
            at',
            tree.child u (index (suc levels) va) (omega arith) (ground (arith, at')) used,
          )))
