-- ===== src/PageTable/Frame.antt =====
-- What the mapping of a page leaves of the walks of other addresses.
use sumi_os.Base.{
  ℕ, zero, suc, ◌<◌, ◌≡◌, ◌≢◌, ◌⊎◌, false, inl, inr, arith, ◌&&◌, not, ◌==◌, ==_iff, if◌then◌else◌,
  Bool-cases, ◌∙◌, sym, ap, minus_one,
}
use sumi_os.Layout.{page_mask, kernel_va_is_phys_zero}
use sumi_os.PageTable.{Words, entry_in}
use sumi_os.PageTable.Walk.{index, walk}
use sumi_os.PageTable.Tree.{HasRoom, IsTree, same_entry}
use sumi_os.PageTable.Grow.{IsDescent}

-- The walk of `va` leads from `t` to the last table `l`.
abbrev pub Leads : (base levels : ℕ) → Words → (t va l : ℕ) → Type 0
Leads base zero word t va l = t ≡ l
Leads base (suc levels) word t va l =
    (c : ℕ) × (word (entry_in base t (index (suc levels) va)) ≢ 0)
    × (page_mask (word (entry_in base t (index (suc levels) va))) ≡ c)
    × Leads base levels word c va l

pub walk_step :
    (base levels : ℕ) (word word' : Words) (t va : ℕ)
    → word' (entry_in base t (index (suc levels) va))
      ≡ word (entry_in base t (index (suc levels) va))
    → (word (entry_in base t (index (suc levels) va)) ≢ 0
        → walk base levels word' (page_mask (word (entry_in base t (index (suc levels) va)))) va
          ≡ walk base levels word (page_mask (word (entry_in base t (index (suc levels) va)))) va)
    → walk base (suc levels) word' t va ≡ walk base (suc levels) word t va
walk_step base levels word word' t va e rest =
    elim (Bool-cases (word (entry_in base t (index (suc levels) va)) == 0)) [
      | inl empty ↦ ground (arith, e, empty)
      | inr used ↦ ground (
        arith,
        e,
        used,
        rest (ground (arith, used)),
        ap (λ w. walk base levels word' (page_mask w) va) e,
      )
    ]

walk_empty :
    (base levels : ℕ) (word : Words) (t va : ℕ)
    → kernel_va_is_phys_zero va ≡ false
    → ((j : ℕ) → j < 512 → word (entry_in base t j) ≡ 0)
    → walk base levels word t va ≡ minus_one
walk_empty base zero word t va mapped empty =
    ground (arith, mapped, empty (index 0 va) (omega arith))
walk_empty base (suc levels) word t va mapped empty =
    ground (arith, empty (index (suc levels) va) (omega arith))

-- The walk of `va` finds a page, or `va` is not one of the two addresses that may be mapped to 0.
abbrev pub IsSettled : (base levels : ℕ) → Words → (t va : ℕ) → Type 0
IsSettled base levels word t va =
    (kernel_va_is_phys_zero va ≡ false) ⊎ (walk base levels word t va ≢ minus_one)

pub IsSettled-same :
    (base levels : ℕ) (word word' : Words) (t va : ℕ)
    → walk base levels word' t va ≡ walk base levels word t va
    → IsSettled base levels word t va
    → IsSettled base levels word' t va
IsSettled-same base levels word word' t va e (inl usual) = inl usual
IsSettled-same base levels word word' t va e (inr mapped) = inr (λ gone. mapped (sym e ∙ gone))

deeper-IsSettled :
    (base levels : ℕ) (word : Words) (t va : ℕ)
    → word (entry_in base t (index (suc levels) va)) ≢ 0
    → IsSettled base (suc levels) word t va
    → IsSettled base levels word (page_mask (word (entry_in base t (index (suc levels) va)))) va
deeper-IsSettled base levels word t va used (inl usual) = inl usual
deeper-IsSettled base levels word t va used (inr mapped) =
    inr (λ e. mapped (ground (arith, used, e)))

empty-IsSettled :
    (base levels : ℕ) (word : Words) (t va : ℕ)
    → word (entry_in base t (index (suc levels) va)) ≡ 0
    → IsSettled base (suc levels) word t va
    → kernel_va_is_phys_zero va ≡ false
empty-IsSettled base levels word t va empty (inl usual) = usual
empty-IsSettled base levels word t va empty (inr mapped) = absurd (mapped (ground (arith, empty)))

module _ (base : ℕ) (room : HasRoom base) (level : ℕ → ℕ) (word : Words)
    (tree : IsTree base level word) where
  pub away :
      (t i u j : ℕ)
      → level t ≢ 0
      → level u ≢ 0
      → level u ≢ level t
      → i < 512
      → j < 512
      → entry_in base u j ≢ entry_in base t i
  away t i u j a b ne lt lt' e =
      ne (ap level (same_entry base u j t i room (tree.tables u b) (tree.tables t a) lt' lt e).0)

  -- The walk through the entry that the new table stands in.
  through :
      (t i next : ℕ) (level' : ℕ → ℕ) (word' : Words)
      → IsDescent base level word t i next level' word'
      → (levels u va : ℕ) → IsSettled base (suc levels) word u va
      → entry_in base u (index (suc levels) va) ≡ entry_in base t i
      → (word (entry_in base u (index (suc levels) va)) ≢ 0
          → walk base levels word' (page_mask (word (entry_in base u (index (suc levels) va)))) va
            ≡ walk base levels word (page_mask (word (entry_in base u (index (suc levels) va)))) va)
      → walk base (suc levels) word' u va ≡ walk base (suc levels) word u va
  through t i next level' word' d levels u va mapped here deeper =
      elim (Bool-cases (word (entry_in base t i) == 0)) [
        | inl none_yet ↦
            let end =
              walk_empty base levels word'
                (page_mask (word' (entry_in base u (index (suc levels) va)))) va
                (empty-IsSettled base levels word u va (ap word here ∙ (==_iff _ _).0 none_yet)
                  mapped)
                (λ j lt.
                  ap (λ q. word' (entry_in base q j)) (ap (λ x. page_mask (word' x)) here ∙ d.leads)
                  ∙ d.empty ((==_iff _ _).0 none_yet) j lt) in
            ground (arith, end, none_yet, ap word here)
        | inr used ↦
            walk_step base levels word word' u va
              (ap word' here ∙ d.same (ground (arith, used)) ∙ ap word (sym here)) deeper
      ]

  -- A new table in an empty entry changes no walk.
  pub walk-IsDescent :
      (t i next : ℕ) (level' : ℕ → ℕ) (word' : Words)
      → IsDescent base level word t i next level' word'
      → 1 < level t
      → i < 512
      → (levels u va : ℕ) → level u ≡ suc levels
      → IsSettled base levels word u va
      → walk base levels word' u va ≡ walk base levels word u va
  walk-IsDescent t i next level' word' d high lt zero u va at mapped =
      ap
        (λ e.
          if (page_mask e == 0) && not (kernel_va_is_phys_zero va) then minus_one else page_mask e)
        (d.others u (index 0 va) (ground (arith, at)) (omega arith) (
          away t i u (index 0 va) (ground (arith, high)) (ground (arith, at))
            (ground (arith, at, high)) lt (omega arith)))
  walk-IsDescent t i next level' word' d high lt (suc levels) u va at mapped =
      let e = entry_in base u (index (suc levels) va) in
      let deeper : word e ≢ 0
          → walk base levels word' (page_mask (word e)) va
            ≡ walk base levels word (page_mask (word e)) va =
        λ used.
          walk-IsDescent t i next level' word' d high lt levels (page_mask (word e)) va
            (ground (
              arith,
              at,
              tree.child u (index (suc levels) va) (omega arith) (ground (arith, at)) used,
            ))
            (deeper-IsSettled base levels word u va used mapped) in
      elim (Bool-cases (e == entry_in base t i)) [
        | inl here ↦ through t i next level' word' d levels u va mapped ((==_iff _ _).0 here) deeper
        | inr away' ↦
            walk_step base levels word word' u va
              (d.others u (index (suc levels) va) (ground (arith, at)) (omega arith)
                (λ q. ground (arith, away', q)))
              deeper
      ]
