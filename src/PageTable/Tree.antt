-- ===== src/PageTable/Tree.antt =====
-- The tables of mm/pgtable.c as a tree, and the memory with one more table. Physical memory is seen
-- from `base` on: the direct mapping area, or 0 at boot.
use sumi_os.Base.{ℕ, ◌+◌, ◌-◌, ◌^◌, ◌%◌, ◌<◌, ◌≤◌, ◌≡◌, ◌≢◌, arith, update, u64, bit_or, bit_or_add}
use sumi_os.Layout.{page_mask}
use sumi_os.PageTable.{Words, entry_in, zero_page}

-- The address of a page among the first 64 terabytes.
abbrev pub IsPage : ℕ → Type 0
IsPage p = (p % 4096 ≡ 0) × (p < 2 ^ 46)

-- From `base` on there is room for these.
abbrev pub HasRoom : ℕ → Type 0
HasRoom base = base ≤ 2 ^ 64 - 2 ^ 46

-- `level t` is 4 for the root, 3 to 1 for the tables below it, and 0 for a page that is no table: an
-- entry in use of a table above the last level points to a table one level down, and no other entry
-- points to that.
pub record IsTree (base : ℕ) (level : ℕ → ℕ) (word : Words) : Type 0 where
  pub tables : (t : ℕ) → level t ≢ 0 → IsPage t
  pub child :
      (t i : ℕ)
      → i < 512
      → 1 < level t
      → word (entry_in base t i) ≢ 0
      → level (page_mask (word (entry_in base t i))) + 1 ≡ level t
  pub sole :
      (t i u j : ℕ)
      → i < 512
      → j < 512
      → 1 < level t
      → 1 < level u
      → word (entry_in base t i) ≢ 0
      → word (entry_in base u j) ≢ 0
      → page_mask (word (entry_in base t i)) ≡ page_mask (word (entry_in base u j))
      → (t ≡ u) × (i ≡ j)

pub same_entry :
    (base t i u j : ℕ)
    → HasRoom base
    → IsPage t
    → IsPage u
    → i < 512
    → j < 512
    → entry_in base t i ≡ entry_in base u j
    → (t ≡ u) × (i ≡ j)
same_entry base t i u j room a b lt lt' e =
    (omega (arith, room, a, b, lt, lt', e), omega (arith, room, a, b, lt, lt', e))

-- Memory with the page `p` zeroed and put into the entry at `e`.
unfoldable pub with_table : (base : ℕ) → Words → (attr e p : ℕ) → Words
with_table base word attr e p =
    let word' = zero_page (update word e p) (u64 (p + base)) in
    update word' e (bit_or (word' e) attr)

module _ (base : ℕ) (word : Words) (attr t i p : ℕ) (room : HasRoom base) (table : IsPage t)
    (lt : i < 512) (page : IsPage p) (apart : t ≢ p) where
  pub with_table-entry :
      attr < 4096 → with_table base word attr (entry_in base t i) p (entry_in base t i) ≡ p + attr
  unfolding with_table zero_page
  with_table-entry small = ground (arith, room, table, page, lt, bit_or_add p attr page.0 small)

  pub with_table-page :
      (j : ℕ) → j < 512 → with_table base word attr (entry_in base t i) p (entry_in base p j) ≡ 0
  unfolding with_table zero_page
  with_table-page j lt' = ground (arith, room, table, page, lt, lt')

  pub with_table-others :
      (u j : ℕ)
      → IsPage u
      → j < 512
      → u ≢ p
      → entry_in base u j ≢ entry_in base t i
      → with_table base word attr (entry_in base t i) p (entry_in base u j)
        ≡ word (entry_in base u j)
  unfolding with_table zero_page
  with_table-others u j a lt' ne away = ground (arith, room, table, page, lt, lt', a, away)
