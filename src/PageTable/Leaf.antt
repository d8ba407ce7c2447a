-- ===== src/PageTable/Leaf.antt =====
-- A write to an entry of a last table changes the walk of one page and no other.
use sumi_os.Base.{
  ℕ, zero, suc, ◌+◌, ◌%◌, ◌/◌, ◌^◌, ◌<◌, ◌≡◌, refl, ◌≢◌, false, arith, ◌&&◌, not, ◌==◌,
  if◌then◌else◌, ◌∙◌, sym, ap, update, minus_one,
}
use sumi_os.Layout.{page_mask, kernel_va_is_phys_zero}
use sumi_os.PageTable.{Words, entry_in}
use sumi_os.PageTable.Walk.{index, walk}
use sumi_os.PageTable.Tree.{HasRoom, IsTree, same_entry}
use sumi_os.PageTable.Frame.{Leads, away, walk_step}

update_else : (word : Words) (a b v : ℕ) → b ≢ a → update word a v b ≡ word b
update_else word a b v ne = ground (arith, λ (e : a ≡ b). ne (sym e))

update_here : (word : Words) (a v : ℕ) → update word a v a ≡ v
update_here word a v = ground arith

-- The walk along a path is the last step at its end.
pub walk_along :
    (base levels : ℕ) (word : Words) (t va l : ℕ)
    → Leads base levels word t va l
    → walk base levels word t va ≡ walk base 0 word l va
walk_along base zero word t va l leads = ap (λ t. walk base 0 word t va) leads
walk_along base (suc levels) word t va l (c, used, mask, leads) = ground (
  arith,
  used,
  ap (λ c. walk base levels word c va) mask,
  walk_along base levels word c va l leads,
)

module _ (base : ℕ) (room : HasRoom base) (level : ℕ → ℕ) (word : Words)
    (tree : IsTree base level word) where
  SamePath : (levels va va' : ℕ) → Type 0
  SamePath zero va va' = Unit {0}
  SamePath (suc levels) va va' =
      (index (suc levels) va ≡ index (suc levels) va') × SamePath levels va va'

  pub below :
      (levels t va c : ℕ)
      → level t ≡ suc (suc levels)
      → word (entry_in base t (index (suc levels) va)) ≢ 0
      → page_mask (word (entry_in base t (index (suc levels) va))) ≡ c
      → level c ≡ suc levels
  below levels t va c at used mask = ground (
    arith,
    at,
    tree.child t (index (suc levels) va) (omega arith) (ground (arith, at)) used,
    ap level mask,
  )

  -- Two walks that lead to one last table are the same down to it.
  sole_path :
      (levels t u va va' l : ℕ)
      → level t ≡ suc levels
      → level u ≡ suc levels
      → Leads base levels word t va l
      → Leads base levels word u va' l
      → (t ≡ u) × SamePath levels va va'
  unfolding SamePath
  sole_path zero t u va va' l at at' leads leads' = (leads ∙ sym leads', tt)
  sole_path (suc levels) t u va va' l at at' (c, used, mask, leads) (c', used', mask', leads') =
      let i = index (suc levels) va in
      let j = index (suc levels) va' in
      let down =
        sole_path levels c c' va va' l (below levels t va c at used mask)
          (below levels u va' c' at' used' mask') leads leads' in
      let up =
        tree.sole t i u j (omega arith) (omega arith) (ground (arith, at)) (ground (arith, at'))
          used used' (mask ∙ down.0 ∙ sym mask') in
      (up.0, (up.1, down.1))

  module _ (l i v : ℕ) (last : level l ≡ 1) (lt : i < 512) where
    still :
        (u j : ℕ)
        → 1 < level u
        → j < 512
        → update word (entry_in base l i) v (entry_in base u j) ≡ word (entry_in base u j)
    still u j high lt' = update_else word (entry_in base l i) (entry_in base u j) v (
        away base room level word tree l i u j (ground (arith, last)) (ground (arith, high))
          (ground (arith, last, high)) lt lt')

    pub leaf-IsTree : IsTree base level (update word (entry_in base l i) v)
    leaf-IsTree = record {
      tables = tree.tables;
      child = λ u j lt' high used.
          ap (λ w. level (page_mask w) + 1) (still u j high lt')
          ∙ tree.child u j lt' high (λ e. used (still u j high lt' ∙ e));
      sole = λ t j u k lt1 lt2 h1 h2 used1 used2 e.
          tree.sole t j u k lt1 lt2 h1 h2 (λ z. used1 (still t j h1 lt1 ∙ z))
            (λ z. used2 (still u k h2 lt2 ∙ z))
            (ap page_mask (sym (still t j h1 lt1)) ∙ e ∙ ap page_mask (still u k h2 lt2));
    }

    -- A path into the last table stays one.
    pub Leads-leaf :
        (levels t va m : ℕ)
        → level t ≡ suc levels
        → Leads base levels word t va m
        → Leads base levels (update word (entry_in base l i) v) t va m
    Leads-leaf zero t va m at leads = leads
    Leads-leaf (suc levels) t va m at (c, used, mask, leads) =
        let e = still t (index (suc levels) va) (ground (arith, at)) (omega arith) in
        (
          c,
          λ z. used (sym e ∙ z),
          ap page_mask e ∙ mask,
          Leads-leaf levels c va m (below levels t va c at used mask) leads,
        )

    -- The walk of an address whose path does not end in the entry.
    leaf-walk :
        (levels t va : ℕ)
        → level t ≡ suc levels
        → (Leads base levels word t va l → index 0 va ≢ i)
        → walk base levels (update word (entry_in base l i) v) t va ≡ walk base levels word t va
    leaf-walk zero t va at misses =
        ap
          (λ e.
            if (page_mask e == 0) && not (kernel_va_is_phys_zero va)
            then minus_one
            else page_mask e)
          (update_else word (entry_in base l i) (entry_in base t (index 0 va)) v (λ e.
            (let s =
                same_entry base t (index 0 va) l i room (tree.tables t (ground (arith, at)))
                  (tree.tables l (ground (arith, last))) (omega arith) lt e in
              misses s.0 s.1)))
    leaf-walk (suc levels) t va at misses =
        walk_step base levels word (update word (entry_in base l i) v) t va
          (still t (index (suc levels) va) (ground (arith, at)) (omega arith))
          (λ used.
            leaf-walk levels (page_mask (word (entry_in base t (index (suc levels) va)))) va
              (below levels t va _ at used refl) (λ leads. misses (_, used, refl, leads)))

    -- The page that the entry maps, where the path ends in it.
    pub leaf-walk_here :
        (levels t va pa : ℕ)
        → level t ≡ suc levels
        → Leads base levels word t va l
        → index 0 va ≡ i
        → page_mask v ≡ pa
        → ((page_mask v == 0) && not (kernel_va_is_phys_zero va)) ≡ false
        → walk base levels (update word (entry_in base l i) v) t va ≡ pa
    leaf-walk_here levels t va pa at leads here mask mapped =
        walk_along base levels (update word (entry_in base l i) v) t va l
          (Leads-leaf levels t va l at leads)
        ∙ ap
            (λ e.
              if (page_mask e == 0) && not (kernel_va_is_phys_zero va)
              then minus_one
              else page_mask e)
            (ap (λ j. update word (entry_in base l i) v (entry_in base l j)) here
              ∙ update_here word (entry_in base l i) v)
        ∙ ground (arith, mask, mapped)

    -- The walks of all other pages are as before.
    pub leaf-walk_others :
        (t va va' : ℕ)
        → level t ≡ 4
        → Leads base 3 word t va l
        → index 0 va ≡ i
        → va' / 4096 % 2 ^ 36 ≢ va / 4096 % 2 ^ 36
        → walk base 3 (update word (entry_in base l i) v) t va' ≡ walk base 3 word t va'
    unfolding SamePath
    leaf-walk_others t va va' at leads here other = leaf-walk 3 t va' at (λ leads' here'.
        (let (e, (i3, (i2, (i1, end)))) = sole_path 3 t t va va' l at at leads leads' in
          other (omega (arith, i3, i2, i1, here, here'))))
