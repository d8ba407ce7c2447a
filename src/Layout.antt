-- ===== src/Layout.antt =====
-- include/mm/layout.h, page_types.h, page_table.h and page.h: the addresses of the kernel's memory
-- layout, the fields of a virtual address, and struct page by its address. Addresses are 64-bit.
use sumi_os.Base.{ℕ, ◌+◌, ◌-◌, ◌*◌, ◌/◌, ◌%◌, Bool, ◌||◌, ◌==◌, u64, ◌>>◌}

abbrev pub page_shift : ℕ
page_shift = 12

abbrev pub page_size : ℕ
page_size = 4096

abbrev pub page_attr_p : ℕ
page_attr_p = 1

abbrev pub page_attr_rw : ℕ
page_attr_rw = 2

abbrev pub kernel_page_array : ℕ
kernel_page_array = 0xffff_8000_0000_0000

abbrev pub kernel_direct_mapping_area : ℕ
kernel_direct_mapping_area = 0xffff_8880_0000_0000

abbrev pub kernel_base_addr : ℕ
kernel_base_addr = 0xffff_ffff_8100_0000

-- `sizeof(struct page)`: two links, the flags, two counts, one pointer and three unused words.
abbrev pub page_struct_size : ℕ
page_struct_size = 64

-- `x & PAGE_MASK` on a 64-bit word, which clears the low twelve bits.
abbrev pub page_mask : ℕ → ℕ
page_mask x = x - x % page_size

-- `ALIGN(x, PAGE_SIZE)`, in 64 bits.
abbrev pub align_page : ℕ → ℕ
align_page x = page_mask (u64 (x + (page_size - 1)))

abbrev pub kernel_va_is_phys_zero : ℕ → Bool
kernel_va_is_phys_zero va = (va == kernel_direct_mapping_area) || (va == kernel_base_addr)

abbrev pub phys_to_kernel_direct_mapping_addr : ℕ → ℕ
phys_to_kernel_direct_mapping_addr x = u64 (x + kernel_direct_mapping_area)

-- `(addr >> OFFSET) & PT_ENTRY_MASK`, a mask of nine ones.
abbrev pub pte_entry : ℕ → ℕ
pte_entry addr = (addr >> 12) % 512

abbrev pub pmd_entry : ℕ → ℕ
pmd_entry addr = (addr >> 21) % 512

abbrev pub pud_entry : ℕ → ℕ
pud_entry addr = (addr >> 30) % 512

abbrev pub pgd_entry : ℕ → ℕ
pgd_entry addr = (addr >> 39) % 512

-- The frame number that a struct page of the array stands for, times the page size; the array ends
-- below the top of memory, so that the difference of the pointers is not negative.
unfoldable pub page_to_phys : ℕ → ℕ
page_to_phys p = u64 ((p - kernel_page_array) / page_struct_size * page_size)

unfoldable pub phys_to_page : ℕ → ℕ
phys_to_page pa = u64 (kernel_page_array + pa / page_size * page_struct_size)
