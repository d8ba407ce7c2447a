-- ===== src/PageTable/Walk.antt =====
-- The walk of the page table by recursion on the levels left, as the processor makes it; and the walk
-- of mm/pgtable.c, which has the four levels written out.
use sumi_os.Base.{
  ℕ, zero, suc, ◌+◌, ◌*◌, ◌%◌, ◌≡◌, refl, ◌&&◌, not, ◌==◌, if◌then◌else◌, minus_one, ◌>>◌,
}
use sumi_os.Layout.{page_mask, kernel_va_is_phys_zero, kernel_direct_mapping_area}
use sumi_os.PageTable.{Words, entry_in, mm_pgtable_get_va_pte}

-- The nine bits of `va` that choose the entry where `levels` more tables follow.
abbrev pub index : (levels va : ℕ) → ℕ
index levels va = (va >> (12 + 9 * levels)) % 512

-- The address of the page that `va` is mapped to, from the table `t` on; an empty entry ends the walk
-- with -1, as does a page at 0, but for the two addresses that are mapped there.
abbrev pub walk : (base levels : ℕ) → Words → (t va : ℕ) → ℕ
walk base zero word t va =
    let e = word (entry_in base t (index 0 va)) in
    if (page_mask e == 0) && not (kernel_va_is_phys_zero va) then minus_one else page_mask e
walk base (suc levels) word t va =
    let e = word (entry_in base t (index (suc levels) va)) in
    let rest = walk base levels word (page_mask e) va in if e == 0 then minus_one else rest

-- The walk that is written out is the one by recursion, through the direct mapping area.
pub mm_pgtable_get_va_pte-walk :
    (word : Words) (pgtable va : ℕ)
    → mm_pgtable_get_va_pte word pgtable va ≡ walk kernel_direct_mapping_area 3 word pgtable va
unfolding mm_pgtable_get_va_pte
mm_pgtable_get_va_pte-walk word pgtable va = refl
