-- ===== src/PageTable/Tests.antt =====
-- A page mapped into an empty page table, with tables from an allocator that goes up page by page.
use sumi_os.Base.{
  ℕ, ◌+◌, ◌*◌, ◌^◌, ◌%◌, ◌≤◌, ◌≡◌, refl, inl, Option, some, arith, if◌then◌else◌, ◌==◌,
}
use sumi_os.Layout.{kernel_direct_mapping_area}
use sumi_os.PageTable.{Words, map_page}
use sumi_os.PageTable.Tree.{IsTree}
use sumi_os.PageTable.Descend.{IsPageSource}
use sumi_os.PageTable.Map.{IsMapped, map_page-IsMapped}

abbrev go_up : ℕ → Option (ℕ × ℕ)
go_up s = some (s, s + 4096)

-- All pages from `s` on are no tables, and `n` of them are shown by the direct mapping area.
abbrev Above : ℕ → ℕ → (ℕ → ℕ) → Type 0
Above n s level = (s % 4096 ≡ 0) × (s + 4096 * n ≤ 2 ^ 46) × ((q : ℕ) → s ≤ q → level q ≡ 0)

go_up-IsPageSource : IsPageSource go_up Above
go_up-IsPageSource = record {
  less = λ n s level above. (above.0, omega (arith, above.1), above.2);
  gives = λ n s level above. (
    s,
    s + 4096,
    refl,
    (above.0, omega (arith, above.1)),
    above.2 s (omega arith),
    λ l. (
      omega (arith, above.0),
      omega (arith, above.1),
      λ q le. ground (arith, le, above.2 q (omega (arith, le))),
    ),
  );
}

abbrev only_root : ℕ → ℕ
only_root t = if t == 0x1000 then 4 else 0

abbrev empty : Words
empty a = 0

empty-IsTree : IsTree kernel_direct_mapping_area only_root empty
empty-IsTree = record {
  tables = λ t ne. (ground (arith, ne), ground (arith, ne));
  child = λ t i lt high used. absurd (used refl);
  sole = λ t i u j lt1 lt2 h1 h2 used. absurd (used refl);
}

map_page-IsMapped_example :
    (s' : ℕ) × (word' : Words) × (level' : ℕ → ℕ) × (map_page kernel_direct_mapping_area go_up
        0x1000 0xffff_ffff_8100_3000 0x3480 3 0x2000 empty
      ≡ some (s', word'))
    × IsMapped kernel_direct_mapping_area only_root empty 0x1000 0xffff_ffff_8100_3000 0x3000 level'
        word'
    × Above 7 s' level'
map_page-IsMapped_example =
    map_page-IsMapped go_up-IsPageSource kernel_direct_mapping_area (omega arith) only_root empty
      0x1000 0xffff_ffff_8100_3000 0x3480 3 7 0x2000 empty-IsTree refl (inl (omega arith))
      (omega arith) (omega arith) (refl, omega arith, λ q le. ground (arith, le))
