-- ===== src/PageTable.antt =====
-- mm/pgtable.c: the walk of the four-level page table that `mm_pgtable_get_va_pte` makes, and the
-- mapping of one page. Memory is its 8-byte words by virtual address, and the tables are reached
-- through the direct mapping area. mm/mm_init.c and arch/x86/boot/mm_boot.c have copies of the
-- mapping with other allocators, the latter with the tables at their physical addresses.
pub mod Walk
pub mod Tree
pub mod Grow
pub mod Descend
pub mod Frame
pub mod Leaf
pub mod Write
pub mod Clear
pub mod Map
pub mod Near
pub mod Range
mod Tests
use sumi_os.Base.{
  ℕ, ◌+◌, ◌*◌, ◌%◌, ◌&&◌, not, ◌==◌, leb, ltb, if◌then◌else◌, Option, none, some, minus_one, u64,
  update, bit_or,
}
use sumi_os.Layout.{
  page_size, page_mask, kernel_va_is_phys_zero, kernel_direct_mapping_area, pte_entry, pmd_entry,
  pud_entry, pgd_entry,
}

abbrev pub Words : Type 0
Words = ℕ → ℕ

-- The address of entry `i` of the table at physical address `table`, where physical memory is seen
-- from `base` on.
abbrev pub entry_in : (base table i : ℕ) → ℕ
entry_in base table i = u64 (u64 (table + base) + 8 * i)

abbrev pub entry_at : ℕ → ℕ → ℕ
entry_at table i = entry_in kernel_direct_mapping_area table i

unfoldable pub mm_pgtable_get_va_pte : Words → ℕ → ℕ → ℕ
mm_pgtable_get_va_pte word pgtable va =
    let pgd = word (entry_at pgtable (pgd_entry va)) in
    let pud = word (entry_at (page_mask pgd) (pud_entry va)) in
    let pmd = word (entry_at (page_mask pud) (pmd_entry va)) in
    let pte = word (entry_at (page_mask pmd) (pte_entry va)) in
    if pgd == 0
    then minus_one
    else if pud == 0
    then minus_one
    else if pmd == 0
    then minus_one
    else if (page_mask pte == 0) && not (kernel_va_is_phys_zero va)
    then minus_one
    else page_mask pte

-- `memset(va, 0, PAGE_SIZE)` on the words of the page at `va`.
unfoldable pub zero_page : Words → ℕ → Words
zero_page word va a = if leb va a && ltb a (va + page_size) then 0 else word a

module _ {A : Type 0} (base : ℕ) (alloc : A → Option (ℕ × A)) where
  -- One level of the mapping: the next table, which is made where the entry is empty. `none` is an
  -- allocation that does not return, or that returns no page's address, as the -1 of a failure, which
  -- the code does not test: it goes on to write through that number.
  unfoldable pub descend : (attr table i : ℕ) → A → Words → Option (ℕ × A × Words)
  descend attr table i s word =
      let e = entry_in base table i in
      let made : Option (ℕ × A × Words) = elim (alloc s) [
        | none ↦ none
        | some (p, s') ↦
            let word' = zero_page (update word e p) (u64 (p + base)) in
            let word'' = update word' e (bit_or (word' e) attr) in
            if p % page_size == 0 then some (page_mask (word'' e), s', word'') else none
      ] in
      if word e == 0 then made else some (page_mask (word e), s, word)

  unfoldable pub map_page : (pgtable va pa attr : ℕ) → A → Words → Option (A × Words)
  map_page pgtable va pa attr s word = elim (descend attr pgtable (pgd_entry va) s word) [
    | none ↦ none
    | some (pud, s1, w1) ↦ elim (descend attr pud (pud_entry va) s1 w1) [
      | none ↦ none
      | some (pmd, s2, w2) ↦ elim (descend attr pmd (pmd_entry va) s2 w2) [
        | none ↦ none
        | some (pte, s3, w3) ↦
            some (s3, update w3 (entry_in base pte (pte_entry va)) (bit_or pa attr))
      ]
    ]
  ]
