-- ===== src/PageMap/Tests.antt =====
-- The mapping of mm/pgtable.c on a machine with four free pages.
use sumi_os.Base.{ℕ, ◌+◌, ◌≡◌, refl, inl, [], ◌∷◌, some, arith, update, ◌==◌, if◌then◌else◌}
use sumi_os.Layout.{kernel_direct_mapping_area, page_to_phys, kernel_page_array}
use sumi_os.PageTable.Tree.{IsTree}
use sumi_os.PageTable.Map.{IsMapped}
use sumi_os.Links.{list_add_next}
use sumi_os.PageAlloc.{Zone, freelist_init, max_page_order}
use sumi_os.PageAlloc.Blocks.{Blocks, size, inside, spans, cover}
use sumi_os.PageAlloc.Rep.{IsZone, list_add_next-IsZone}
use sumi_os.PageAlloc.Init.{no_blocks, freelist_init-IsZone}
use sumi_os.PageAlloc.Fixtures.{blank}
use sumi_os.PageMap.{mm_pgtable_map}
use sumi_os.PageMap.Source.{HasPages}
use sumi_os.PageMap.Map.{mm_pgtable_map-IsMapped}

-- The pages of the frames 0x10 to 0x13 are a free block of order 2.
abbrev block : ℕ
block = kernel_page_array + 0x400

abbrev one_block : Blocks
one_block = update no_blocks 2 (block ∷ [])

abbrev four_pages : Zone
four_pages = record (freelist_init blank) {
  word = λ a. 0;
  links = list_add_next (freelist_init blank).links (blank.freelist + 32) block;
}

four_pages-IsZone : IsZone four_pages.links four_pages.freelist one_block (λ a. 0)
unfolding inside size freelist_init
four_pages-IsZone =
    list_add_next-IsZone
      (freelist_init-IsZone blank (λ a. 0 + inside block (size 2) a) (λ a. ground arith)
        (λ k h. ground arith) (omega arith) (λ a h. ground arith))
      2 block (λ a. 0) (omega arith) (λ a. refl)

cover-one_block : (a : ℕ) → cover max_page_order one_block a ≡ inside block 256 a
unfolding cover spans size
cover-one_block a = omega arith

abbrev only_root : ℕ → ℕ
only_root t = if t == 0x1000 then 4 else 0

no_entries-IsTree : IsTree kernel_direct_mapping_area only_root (λ a. 0)
no_entries-IsTree = record {
  tables = λ t ne. (ground (arith, ne), ground (arith, ne));
  child = λ t i lt high used. absurd (used refl);
  sole = λ t i u j lt1 lt2 h1 h2 used. absurd (used refl);
}

four_pages-HasPages : HasPages 4 four_pages only_root
unfolding freelist_init inside page_to_phys
four_pages-HasPages = record {
  blocks = one_block;
  held = λ a. 0;
  zone = four_pages-IsZone;
  unlocked = refl;
  array = record {
    from = λ a h. ground (arith, cover-one_block a);
    upto = λ a h. ground (arith, cover-one_block a);
  };
  aligned = λ k x lt m. ground (arith, m);
  reserve = block ∷ (block + 64) ∷ (block + 128) ∷ (block + 192) ∷ [];
  enough = omega arith;
  distinct = (refl, (refl, (refl, (refl, tt))));
  listed = λ a m. (ground (arith, m), ground (arith, m, cover-one_block a));
  no_table = λ a c. ground (arith, c, cover-one_block a);
}

mm_pgtable_map-IsMapped_example :
    (z' : Zone) × (level' : ℕ → ℕ) × (mm_pgtable_map 0x1000 0xffff_ffff_8100_3000 0x3480 3
        four_pages
      ≡ some z')
    × IsMapped kernel_direct_mapping_area only_root four_pages.word 0x1000 0xffff_ffff_8100_3000
        0x3000 level' z'.word
    × HasPages 1 z' level'
mm_pgtable_map-IsMapped_example =
    mm_pgtable_map-IsMapped four_pages only_root 0x1000 0xffff_ffff_8100_3000 0x3480 3 1
      no_entries-IsTree refl (inl (omega arith)) (omega arith) (omega arith) four_pages-HasPages
