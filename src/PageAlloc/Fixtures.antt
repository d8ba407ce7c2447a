-- ===== src/PageAlloc/Fixtures.antt =====
-- Concrete zones for the tests: nothing free, one free block of order 9, and its neighbour in use.
use sumi_os.Base.{ℕ, ◌+◌, refl, true, false, [], ◌∷◌, arith, update}
use sumi_os.Layout.{kernel_page_array}
use sumi_os.Links.{list_add_next}
use sumi_os.PageAlloc.{Page, Zone, freelist_init}
use sumi_os.PageAlloc.Blocks.{Blocks, size, inside}
use sumi_os.PageAlloc.Rep.{IsZone, list_add_next-IsZone}
use sumi_os.PageAlloc.Init.{no_blocks, freelist_init-IsZone}

abbrev pub no_page : Page
no_page = record {
  kind = 0;
  is_free = false;
  is_head = false;
  ref_count = 0;
  map_count = 0;
  freelist = 0;
}

-- Every address is mapped and is a list head with no other node, and the free lists stand at
-- 0xffffffff81010000.
abbrev pub blank : Zone
blank = record {
  links = record { next = λ a. a; prev = λ a. a };
  page = λ a. no_page;
  freelist = 0xffff_ffff_8101_0000;
  freelist_lock = 0;
  word = λ a. 0x1003;
  kern_pgtable = 0x200000;
  printed = [];
}

abbrev pub first : ℕ
first = kernel_page_array

-- The second block of order 9; the first is free, and the second held by its caller.
abbrev pub second : ℕ
second = kernel_page_array + 0x8000

abbrev pub held_second : ℕ → ℕ
held_second a = 0 + inside second (size 9) a

abbrev pub one_block : Blocks
one_block = update no_blocks 9 (first ∷ [])

abbrev pub one_free : Zone
one_free = record (freelist_init blank) {
  links = list_add_next (freelist_init blank).links (blank.freelist + 144) first;
  page = update (λ a. no_page) first (record no_page { is_free = true; is_head = true });
}

pub one_free-IsZone : IsZone one_free.links one_free.freelist one_block held_second
unfolding inside size freelist_init
one_free-IsZone =
    list_add_next-IsZone
      (freelist_init-IsZone blank (λ a. held_second a + inside first (size 9) a) (λ a. ground arith)
        (λ k h. ground arith) (omega arith) (λ a h. ground arith))
      9 first held_second (omega arith) (λ a. refl)
