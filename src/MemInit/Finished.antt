-- ===== src/MemInit/Finished.antt =====
-- The last statement of `mm_pages_allocator_init`, which takes the identity mapping of the boot stage
-- away.
use sumi_os.Base.{ℕ, ◌+◌, ◌*◌, ◌^◌, ◌<◌, ◌≡◌, ◌≢◌, arith, ◌∙◌, List, [], ◌∷◌, minus_one, update}
use sumi_os.Layout.{kernel_direct_mapping_area}
use sumi_os.PageTable.{entry_at}
use sumi_os.PageTable.Tree.{IsTree}
use sumi_os.PageTable.Clear.{cleared-IsTree, cleared-walk, cleared-gone}
use sumi_os.PageTable.Walk.{index}
use sumi_os.PageAlloc.{Zone}
use sumi_os.MemInit.{MmapEntry, Init}
use sumi_os.MemInit.Works.{walk_in}
use sumi_os.MemInit.Passes.{AllLow, AllShown}

-- The state at the end, with the zone `z` that the last pass leaves.
abbrev pub finished : (root : ℕ) → Init → Zone → Init
finished root s z = record s { zone = record z { word = update z.word (entry_at root 0) 0 } }

module _ (root : ℕ) (s : Init) (z : Zone) (level : ℕ → ℕ)
    (tree : IsTree kernel_direct_mapping_area level s.zone.word) (top : level root ≡ 4)
    (table : s.zone.kern_pgtable ≡ root) (word : z.word ≡ s.zone.word)
    (same : z.kern_pgtable ≡ s.zone.kern_pgtable) where
  pub finished-IsTree : IsTree kernel_direct_mapping_area level (finished root s z).zone.word
  finished-IsTree = rw word (
      cleared-IsTree kernel_direct_mapping_area (omega arith) level s.zone.word tree root 0 top
        (omega arith))

  finished-walk : (va : ℕ) → index 3 va ≢ 0 → walk_in (finished root s z) va ≡ walk_in s va
  finished-walk va high =
      rw (word, same, table)
        (cleared-walk kernel_direct_mapping_area (omega arith) level s.zone.word tree root 0 top
          (omega arith) va high)

  pub finished-low : (va : ℕ) → va < 2 ^ 39 → walk_in (finished root s z) va ≡ minus_one
  finished-low va lt =
      rw (word, same, table)
        (cleared-gone kernel_direct_mapping_area (omega arith) level s.zone.word tree root 0 top
          (omega arith) va (omega (arith, lt)))

  pub finished-AllShown :
      (entries : List MmapEntry)
      → AllLow entries
      → AllShown s entries
      → AllShown (finished root s z) entries
  finished-AllShown [] low shown = tt
  finished-AllShown (e ∷ entries) (well, fits, low) (here, shown) = (
    λ i lt.
        finished-walk (kernel_direct_mapping_area + (e.addr + 4096 * i)) (omega (arith, fits, lt))
        ∙ here i lt,
    finished-AllShown entries low shown,
  )
