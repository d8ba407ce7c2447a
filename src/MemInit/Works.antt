-- ===== src/MemInit/Works.antt =====
-- What the passes of mm/mm_init.c over the memory map keep: a well-formed page table, and a linear
-- allocator with pages left.
use sumi_os.Base.{
  ℕ, ◌+◌, ◌/◌, ◌^◌, ◌<◌, ◌≤◌, ◌≡◌, refl, ◌≢◌, true, false, inl, inr, arith, ◌∙◌, sym, Bool-cases,
  minus_one, ◌⊎◌,
}
use sumi_os.Layout.{
  kernel_va_is_phys_zero, kernel_direct_mapping_area, kernel_page_array, kernel_base_addr,
}
use sumi_os.PageTable.{Words}
use sumi_os.PageTable.Walk.{index, walk}
use sumi_os.PageTable.Tree.{IsTree}
use sumi_os.PageTable.Range.{page_of}
use sumi_os.MemInit.{Init}
use sumi_os.MemInit.Source.{HasPages, HasPages-less}

-- The walk through the kernel's page table.
abbrev pub walk_in : Init → ℕ → ℕ
walk_in s va = walk kernel_direct_mapping_area 3 s.zone.word s.zone.kern_pgtable va

-- The page table is well formed, and the linear allocator, whose memory ends at `end`, has `n` pages
-- that are no tables.
pub record Works (end n : ℕ) (level : ℕ → ℕ) (s : Init) : Type 0 where
  pub tree : IsTree kernel_direct_mapping_area level s.zone.word
  pub root : level s.zone.kern_pgtable ≡ 4
  pub pages : HasPages end n s.linear level

pub Works-less :
    (k n : ℕ) {end : ℕ} {level : ℕ → ℕ} {s : Init} → Works end (k + n) level s → Works end n level s
Works-less k n w = record { tree = w.tree; root = w.root; pages = HasPages-less k n w.pages }

-- No page has become free, and the zone's places are the same.
pub record IsLike (s s' : Init) : Type 0 where
  pub free : (a : ℕ) → (s.zone.page a).is_free ≡ false → (s'.zone.page a).is_free ≡ false
  pub base : s'.zone.freelist ≡ s.zone.freelist
  pub table : s'.zone.kern_pgtable ≡ s.zone.kern_pgtable

pub IsLike-refl : (s : Init) → IsLike s s
IsLike-refl s = record { free = λ a e. e; base = refl; table = refl }

pub IsLike-trans : {s t u : Init} → IsLike s t → IsLike t u → IsLike s u
IsLike-trans k l = record {
  free = λ a e. l.free a (k.free a e);
  base = l.base ∙ k.base;
  table = l.table ∙ k.table;
}

-- Mapped addresses stay where they are.
abbrev pub Keeps : Init → Init → Type 0
Keeps s s' = (va : ℕ) → walk_in s va ≢ minus_one → walk_in s' va ≡ walk_in s va

pub Keeps-trans : (s t u : Init) → Keeps s t → Keeps t u → Keeps s u
Keeps-trans s t u k l va some_page =
    l va (λ gone. some_page (sym (k va some_page) ∙ gone)) ∙ k va some_page

-- The walk sees the page of an address only, but for the two addresses that may be mapped to 0.
pub walk-page :
    (base : ℕ) (word : Words) (t va va' : ℕ)
    → page_of va ≡ page_of va'
    → kernel_va_is_phys_zero va ≡ kernel_va_is_phys_zero va'
    → walk base 3 word t va ≡ walk base 3 word t va'
walk-page base word t va va' same usual =
    let i0 : index 0 va ≡ index 0 va' = omega (arith, same) in
    let i1 : index 1 va ≡ index 1 va' = omega (arith, same) in
    let i2 : index 2 va ≡ index 2 va' = omega (arith, same) in
    let i3 : index 3 va ≡ index 3 va' = omega (arith, same) in rw (i0, i1, i2, i3, usual) refl

-- The struct pages lie in the first terabyte of the array.
abbrev pub IsStruct : ℕ → Type 0
IsStruct p = (kernel_page_array ≤ p) × (p < kernel_page_array + 2 ^ 40)

pub struct-usual : (p : ℕ) → IsStruct p → kernel_va_is_phys_zero p ≡ false
struct-usual p at = ground (arith, at)

pub walk-struct :
    (s : Init) (p q : ℕ) → IsStruct p → IsStruct q → p / 4096 ≡ q / 4096 → walk_in s p ≡ walk_in s q
walk-struct s p q at at' same =
    walk-page kernel_direct_mapping_area s.zone.word s.zone.kern_pgtable p q (omega (arith, same))
      (struct-usual p at ∙ sym (struct-usual q at'))

special_addresses :
    (va : ℕ)
    → kernel_va_is_phys_zero va ≡ true
    → (va ≡ kernel_direct_mapping_area) ⊎ (va ≡ kernel_base_addr)
special_addresses va special = ground (arith, special)

special-apart : (p va : ℕ) → IsStruct p → kernel_va_is_phys_zero va ≡ true → page_of va ≢ page_of p
special-apart p va at special same = elim (special_addresses va special) [
  | inl area ↦ omega (arith, at, same, area)
  | inr base ↦ omega (arith, at, same, base)
]

-- An address that is mapped is not in the page of a struct page that is not.
pub mapped-apart :
    (s : Init) (p va : ℕ)
    → IsStruct p
    → walk_in s p ≡ minus_one
    → walk_in s va ≢ minus_one
    → page_of va ≢ page_of p
mapped-apart s p va at gone some_page same = elim (Bool-cases (kernel_va_is_phys_zero va)) [
  | inl special ↦ special-apart p va at special same
  | inr usual ↦ some_page (
      walk-page kernel_direct_mapping_area s.zone.word s.zone.kern_pgtable va p same
        (usual ∙ sym (struct-usual p at))
      ∙ gone)
]
