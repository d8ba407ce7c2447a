-- ===== src/BootMem.antt =====
-- arch/x86/boot/mm_boot.c: the memory size from the CMOS, the linear allocator of the boot stage, and
-- the first page table of the kernel. The messages are left out. Tables are reached at their physical
-- addresses.
pub mod Chunks
pub mod Source
pub mod Built
pub mod Kernel
pub mod Boot
pub mod Handover
mod Tests
use sumi_os.Base.{
  ℕ, zero, suc, ◌+◌, ◌-◌, ◌*◌, ◌/◌, Bool, Option, none, some, List, [], ◌∷◌, ◌==◌, leb, ltb,
  if◌then◌else◌, update, u8, u64, bit_or, ◌<<◌, minus_one,
}
use sumi_os.Layout.{
  page_size, align_page, page_attr_p, page_attr_rw, kernel_base_addr, kernel_direct_mapping_area,
  pgd_entry, pud_entry, pmd_entry, pte_entry,
}
use sumi_os.PageTable.{Words, zero_page, map_page}

-- `cmos r` is the byte in register `r` of the CMOS.
unfoldable pub nvram_read : (cmos : ℕ → ℕ) → ℕ → ℕ
nvram_read cmos r = bit_or (u8 (cmos r)) (u8 (cmos (r + 1)) << 8)

-- The memory in bytes: above 16 megabytes in units of 64 kilobytes, above one megabyte in kilobytes,
-- or the base memory.
unfoldable pub boot_mm_detect : (cmos : ℕ → ℕ) → ℕ
boot_mm_detect cmos =
    let mem_base = nvram_read cmos 0x15 in
    let mem_ext = nvram_read cmos 0x17 in
    let mem_ext16 = nvram_read cmos 0x34 * 64 in
    let kilobytes =
      if ltb 0 mem_ext16
      then 16 * 1024 + mem_ext16
      else if ltb 0 mem_ext
      then 1024 + mem_ext
      else mem_base in
    kilobytes * 1024

pub record BootMem : Type 0 where
  pub boot_mem_total : ℕ
  pub boot_mem_alloc_start : ℕ

-- The chunk, or 0.
unfoldable pub boot_mm_alloc : BootMem → ℕ → ℕ × BootMem
boot_mm_alloc s sz =
    let size = align_page sz in
    let taken = record s { boot_mem_alloc_start = u64 (s.boot_mem_alloc_start + size) } in
    if sz == 0
    then (0, s)
    else if leb s.boot_mem_total (u64 (size + s.boot_mem_alloc_start))
    then (0, s)
    else (s.boot_mem_alloc_start, taken)

-- The entries are followed with their attribute bits.
unfoldable pub boot_get_pgtable_map_pa : Words → (pgtable va : ℕ) → ℕ
boot_get_pgtable_map_pa word pgtable va =
    let pud = word (u64 (pgtable + 8 * pgd_entry va)) in
    let pmd = word (u64 (pud + 8 * pud_entry va)) in
    let pte = word (u64 (pmd + 8 * pmd_entry va)) in
    if pud == 0
    then minus_one
    else if pmd == 0
    then minus_one
    else if pte == 0
    then minus_one
    else word (u64 (pte + 8 * pte_entry va))

unfoldable pub boot_pgtable_map :
    (pgtable va pa attr : ℕ) → BootMem → Words → Option (BootMem × Words)
boot_pgtable_map pgtable va pa attr s word =
    map_page 0 (λ s. some (boot_mm_alloc s page_size)) pgtable va pa attr s word

-- The loops that map `left` pages in a row.
unfoldable pub boot_map_range :
    (left pgtable va pa attr : ℕ) → BootMem → Words → Option (BootMem × Words)
boot_map_range zero pgtable va pa attr s word = some (s, word)
boot_map_range (suc left) pgtable va pa attr s word =
    elim (boot_pgtable_map pgtable va pa attr s word) [
      | none ↦ none
      | some (s', word') ↦
          boot_map_range left pgtable (va + page_size) (pa + page_size) attr s' word'
    ]

abbrev pub pages_to : (va end : ℕ) → ℕ
pages_to va end = (end - va + (page_size - 1)) / page_size

-- The page table's address, and the state after it. The linker sets `roseg_end` and `kernel_end`, and
-- the boot code `boot_page_table_pud`.
unfoldable pub boot_mm_pgtable_init :
    (roseg_end kernel_end boot_page_table_pud : ℕ) → BootMem → Words → Option (ℕ × BootMem × Words)
boot_mm_pgtable_init roseg_end kernel_end boot_page_table_pud s word =
    let (table, s0) = boot_mm_alloc s page_size in
    let w0 = zero_page word table in
    let read_only = pages_to kernel_base_addr roseg_end in
    let va = kernel_base_addr + page_size * read_only in
    let rw = page_attr_p + page_attr_rw in
    elim (boot_map_range read_only table kernel_base_addr 0 page_attr_p s0 w0) [
      | none ↦ none
      | some (s1, w1) ↦
          elim (boot_map_range (pages_to va kernel_end) table va (page_size * read_only) rw s1 w1) [
            | none ↦ none
            | some (s2, w2) ↦
                elim (boot_map_range 2560 table kernel_direct_mapping_area 0 rw s2 w2) [
                  | none ↦ none
                  | some (s3, w3) ↦
                      some (table, s3, update w3 table (bit_or boot_page_table_pud rw))
                ]
          ]
    ]

-- `boot_mm_init`: the first chunk lies a page behind the image, whose end the linker places
-- `kernel_base_addr` higher.
unfoldable pub boot_mm_init :
    (cmos : ℕ → ℕ)
    → (boot_start roseg_end kernel_end boot_page_table_pud : ℕ) → Words
    → Option (ℕ × BootMem × Words)
boot_mm_init cmos boot_start roseg_end kernel_end boot_page_table_pud word =
    let kernel_size = kernel_end - boot_start - kernel_base_addr in
    let s : BootMem = record {
      boot_mem_total = boot_mm_detect cmos;
      boot_mem_alloc_start = align_page (boot_start + kernel_size + page_size);
    } in
    boot_mm_pgtable_init roseg_end kernel_end boot_page_table_pud s word
