-- ===== src/BootMem/Boot.antt =====
-- `boot_mm_init`: from the memory size by the CMOS to the kernel's page table.
use sumi_os.Base.{ℕ, ◌+◌, ◌-◌, ◌*◌, ◌^◌, ◌<◌, ◌≤◌, ◌≡◌, some, arith, bit_or-le, u8, ◌<<◌}
use sumi_os.Layout.{align_page, page_size, kernel_base_addr}
use sumi_os.PageTable.{Words}
use sumi_os.BootMem.{BootMem, boot_mm_init, boot_mm_detect, nvram_read}
use sumi_os.PageTable.Tree.{IsTree}
use sumi_os.BootMem.Built.{IsBuilt}
use sumi_os.BootMem.Kernel.{IsKernelMap, read_only, writable, boot_mm_pgtable_init-IsKernelMap}

pub nvram_read-bound : (cmos : ℕ → ℕ) (r : ℕ) → nvram_read cmos r < 2 ^ 17
unfolding nvram_read
nvram_read-bound cmos r = omega (arith, bit_or-le (u8 (cmos r)) (u8 (cmos (r + 1)) << 8))

-- The memory that the boot stage sees is below eight gigabytes and a little.
pub boot_mm_detect-bound : (cmos : ℕ → ℕ) → boot_mm_detect cmos ≤ 2 ^ 34
unfolding boot_mm_detect
boot_mm_detect-bound cmos =
    ground
      (arith, nvram_read-bound cmos 0x15, nvram_read-bound cmos 0x17, nvram_read-bound cmos 0x34)

-- With enough memory by the CMOS, and tables that are well formed and lie below the end of the
-- image, the boot stage returns with a page table behind the image, whose walks find the pages of
-- the image from `kernel_base_addr` on and the first ten megabytes through the direct mapping area.
-- But for the first entry of its root the tables are well formed, the other roots are as they were,
-- and `n` pages are left. The image ends below the last page of the address space.
pub boot_mm_init-IsKernelMap :
    (cmos : ℕ → ℕ) (boot_start roseg_end kernel_end boot_page_table_pud : ℕ) (word : Words)
    (level : ℕ → ℕ) (n : ℕ)
    → IsTree 0 level word
    → ((q : ℕ) → kernel_end - kernel_base_addr + 4096 ≤ q → level q ≡ 0)
    → boot_start + kernel_base_addr ≤ kernel_end
    → roseg_end ≤ kernel_end
    → kernel_end + 4096 ≤ 2 ^ 64
    → let ro = read_only roseg_end in
      let more = writable roseg_end kernel_end in
      kernel_end - kernel_base_addr + 4096 * (3 + 3 * (ro + (more + 2560)) + n)
        ≤ boot_mm_detect cmos
      → (table : ℕ) × (s' : BootMem) × (word' : Words) × (boot_mm_init cmos boot_start roseg_end
            kernel_end boot_page_table_pud word
          ≡ some (table, s', word'))
        × (kernel_end - kernel_base_addr + 4096 ≤ table)
        × IsKernelMap (ro + more) table word'
        × IsBuilt level word (boot_mm_detect cmos) table n boot_page_table_pud s' word'
unfolding boot_mm_init
boot_mm_init-IsKernelMap cmos boot_start roseg_end kernel_end boot_page_table_pud word level n tree
      no_table above ordered top enough =
    let size = boot_start + (kernel_end - boot_start - kernel_base_addr) + page_size in
    let s : BootMem = record {
      boot_mem_total = boot_mm_detect cmos;
      boot_mem_alloc_start = align_page size;
    } in
    let low = boot_mm_detect-bound cmos in
    let (s', word', runs, m, b) =
      boot_mm_pgtable_init-IsKernelMap roseg_end kernel_end boot_page_table_pud level n s word tree
        (λ q le. no_table q (omega (arith, le, above, top))) (omega arith)
        (omega (arith, enough, low, above)) (omega (arith, low)) ordered top in
    (align_page size, s', word', runs, omega (arith, above, top), m, b)
