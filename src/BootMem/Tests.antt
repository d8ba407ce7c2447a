-- ===== src/BootMem/Tests.antt =====
-- The boot stage's allocator on a small memory.
use sumi_os.Base.{refl, ◌-◌, some, ◌==◌, if◌then◌else◌, ℕ, ◌+◌, ◌*◌, ◌≤◌, ◌<◌, ◌≡◌, ◌≢◌, ◌⊎◌, arith}
use sumi_os.Layout.{kernel_base_addr}
use sumi_os.BootMem.{BootMem, boot_mm_alloc, boot_mm_init, boot_mm_detect, nvram_read}
use sumi_os.PageTable.{Words}
use sumi_os.PageTable.Tree.{IsTree}
use sumi_os.BootMem.Built.{IsBuilt}
use sumi_os.BootMem.Kernel.{IsKernelMap, read_only, writable}
use sumi_os.BootMem.Boot.{boot_mm_init-IsKernelMap}
use sumi_os.BootMem.Chunks.{Gives, boot_mm_alloc-least}

abbrev small : BootMem
small = record { boot_mem_total = 0x8000; boot_mem_alloc_start = 0x5000 }

abbrev size : ℕ
size = 100

boot_mm_alloc-least_example :
    ((size ≢ 0)
      × ((n : ℕ) × (size ≤ 4096 * n)
          × ((k : ℕ) → size ≤ 4096 * k → n ≤ k)
          × (0x5000 + 4096 * n < 0x8000)
          × Gives small size n))
    ⊎ (((k : ℕ) → size ≢ 0 → size ≤ 4096 * k → 0x8000 ≤ 0x5000 + 4096 * k)
        × (boot_mm_alloc small size ≡ (0, small)))
boot_mm_alloc-least_example = boot_mm_alloc-least small size (omega arith) (omega arith)

-- A machine with 128 megabytes, and an image of 1200 kilobytes from the first megabyte on.
abbrev cmos : ℕ → ℕ
cmos r = if r == 0x35 then 7 else 0

abbrev image_end : ℕ
image_end = kernel_base_addr + 0x22c000

no_tables : IsTree 0 (λ _. 0) (λ a. 0)
no_tables = record {
  tables = λ t ne. absurd (ne refl);
  child = λ t i lt high used. absurd (used refl);
  sole = λ t i u j lt lt' high high' used used' same. absurd (used refl);
}

boot_mm_init-IsKernelMap_example :
    (table : ℕ) × (s' : BootMem) × (word' : Words) × (boot_mm_init cmos 0x100000
        (kernel_base_addr + 0x210000)
        image_end
        0x109000
        (λ a. 0)
      ≡ some (table, s', word'))
    × (image_end - kernel_base_addr + 4096 ≤ table)
    × IsKernelMap
        (read_only (kernel_base_addr + 0x210000) + writable (kernel_base_addr + 0x210000) image_end)
        table
        word'
    × IsBuilt (λ _. 0) (λ a. 0) (boot_mm_detect cmos) table 1000 0x109000 s' word'
unfolding boot_mm_detect nvram_read
boot_mm_init-IsKernelMap_example =
    boot_mm_init-IsKernelMap cmos 0x100000 (kernel_base_addr + 0x210000) image_end 0x109000 (λ a. 0)
      (λ _. 0) 1000 no_tables (λ q le. refl) (omega arith) (omega arith) (omega arith) (omega arith)
