-- ===== src/PageAlloc/Entry.antt =====
-- The entry points `alloc_pages` and `free_pages`, with their lock, and `mm_alloc` above them.
use sumi_os.Base.{
  ℕ, zero, suc, ◌+◌, ◌-◌, ◌*◌, ◌^◌, ◌≤◌, ◌<◌, ◌≡◌, refl, ◌≢◌, false, ◌⊎◌, inl, inr, some, arith,
  Bool-cases, leb, ◌∙◌, ◌==◌, ap, if◌then◌else◌, minus_one, ◌∷◌,
}
use native.Mathlib.Decide.{dec_lt}
use native.Mathlib.Nat.{pow-le-pow_right}
use sumi_os.Layout.{page_size, page_to_phys}
use sumi_os.Lock.{spin_lock, spin_unlock, lock_free, lock_used}
use sumi_os.PageAlloc.{
  max_page_order, mm_phys_alloc, order_for, Page, Zone, invalid_allocation, alloc_page_direct,
  alloc_pages_unlocked, alloc_pages, merge_loop, put_block, free_pages_unlocked, free_pages,
  take_pages, is_free_head, next_page_by_order, prev_page_by_order,
}
use sumi_os.PageAlloc.Pages.{page_at, order_for-least, taken, take_pages-inside}
use sumi_os.PageAlloc.Blocks.{Blocks, size, inside}
use sumi_os.PageAlloc.Rep.{IsZone}
use sumi_os.Links.Frame.{SameAt}
use sumi_os.PageAlloc.Frame.{Elsewhere, alloc_page_direct-SameAt}
use sumi_os.PageAlloc.Alloc.{Allocated, alloc_page_direct-Allocated}
use sumi_os.PageAlloc.Merge.{forward, backward, Matches}
use sumi_os.PageAlloc.Free.{IsFreed, free_pages_unlocked-IsFreed}

alloc_pages_unlocked-lock :
    (z : Zone) (order : ℕ) → (alloc_pages_unlocked z order).1.freelist_lock ≡ z.freelist_lock
unfolding alloc_pages_unlocked alloc_page_direct
alloc_pages_unlocked-lock z order = ground arith

alloc_pages_unlocked-freelist :
    (z : Zone) (order : ℕ) → (alloc_pages_unlocked z order).1.freelist ≡ z.freelist
unfolding alloc_pages_unlocked alloc_page_direct
alloc_pages_unlocked-freelist z order = ground arith

alloc_pages_unlocked-word : (z : Zone) (order : ℕ) → (alloc_pages_unlocked z order).1.word ≡ z.word
unfolding alloc_pages_unlocked alloc_page_direct
alloc_pages_unlocked-word z order = ground arith

merge_loop-lock :
    (left p order : ℕ) (z : Zone) → (merge_loop left p order z).2.freelist_lock ≡ z.freelist_lock
unfolding merge_loop
merge_loop-lock zero p order z = refl
merge_loop-lock (suc left) p order z =
    elim (Bool-cases (is_free_head z (next_page_by_order p order))) [
      | inl next ↦ rw next (merge_loop-lock left p (order + 1) (forward p order z))
      | inr no_next ↦ elim (Bool-cases (is_free_head z (prev_page_by_order p order))) [
        | inl prev ↦
            rw (no_next, prev)
              (merge_loop-lock left (prev_page_by_order p order) (order + 1) (backward p order z))
        | inr no_prev ↦ rw (no_next, no_prev)
      ]
    ]

free_pages_unlocked-lock :
    (z : Zone) (p order : ℕ) → (free_pages_unlocked z p order).freelist_lock ≡ z.freelist_lock
unfolding free_pages_unlocked put_block
free_pages_unlocked-lock z p order =
    ground (arith, merge_loop-lock (max_page_order - 1 - order) p order z)

-- With the lock free the call returns, and leaves the lock free.
alloc_pages-returns :
    (z : Zone) (order : ℕ)
    → z.freelist_lock ≡ lock_free
    → let r = alloc_pages_unlocked (record z { freelist_lock = lock_used }) order in
      alloc_pages z order ≡ some (r.0, record (r.1) { freelist_lock = lock_free })
unfolding alloc_pages spin_lock spin_unlock
alloc_pages-returns z order free =
    ground (arith, alloc_pages_unlocked-lock (record z { freelist_lock = lock_used }) order)

pub free_pages-returns :
    (z : Zone) (p order : ℕ)
    → z.freelist_lock ≡ lock_free
    → free_pages z p order
      ≡ some (record (free_pages_unlocked (record z { freelist_lock = lock_used }) p order) {
        freelist_lock = lock_free;
      })
unfolding free_pages spin_lock spin_unlock
free_pages-returns z p order free =
    ground (arith, free_pages_unlocked-lock (record z { freelist_lock = lock_used }) p order)

-- The links and the pages that the unlocked allocation leaves, from those of the direct one.
module _ (z : Zone) (order : ℕ) (lt : order < max_page_order) where
  alloc_pages_unlocked-direct :
      ((alloc_pages_unlocked z order).0 ≡ (alloc_page_direct z order).0)
      × ((alloc_pages_unlocked z order).1.links ≡ (alloc_page_direct z order).1.links)
  unfolding alloc_pages_unlocked
  alloc_pages_unlocked-direct = ground arith

  alloc_page_direct-page : (alloc_page_direct z order).1.page ≡ z.page
  unfolding alloc_page_direct
  alloc_page_direct-page = ground arith

  alloc_pages_unlocked-page :
      (alloc_page_direct z order).0 ≢ 0
      → (alloc_pages_unlocked z order).1.page
        ≡ take_pages (2 ^ order) (alloc_page_direct z order).0 0 z.page
  unfolding alloc_pages_unlocked
  alloc_pages_unlocked-page some_block =
      let valid : leb max_page_order order ≡ false = ground arith in
      let found : ((alloc_page_direct z order).0 == 0) ≡ false = ground arith in
      let once : 1 * 2 ^ order ≡ 2 ^ order = omega arith in
      rw (valid, found, once)
        (ap (take_pages (2 ^ order) (alloc_page_direct z order).0 0) alloc_page_direct-page)

-- What a call of `alloc_pages` comes back with.
pub record IsAllocated (z : Zone) (b : Blocks) (held : ℕ → ℕ) (order p : ℕ) (z' : Zone)
    : Type 0 where
  pub returns : alloc_pages z order ≡ some (p, z')
  pub unlocked : z'.freelist_lock ≡ lock_free
  pub place : z'.freelist ≡ z.freelist
  pub memory : z'.word ≡ z.word
  pub others : (a : ℕ) → Elsewhere z.freelist b a → SameAt z.links z'.links a
  pub block : Allocated z b held order p z'.links
  pub pages : p ≢ 0 → (j : ℕ) → j < 2 ^ order → z'.page (page_at p j) ≡ taken (z.page (page_at p j))

-- In a well-formed zone, under a free lock and for an order below `max_page_order`, an allocation
-- returns and frees the lock; it finds nothing only where no list from its order on has a block;
-- otherwise the block is taken from the listed ones and held, no other address changes sides, and
-- each of its pages has one reference more and is not free. No word of memory changes, and no link
-- outside the free blocks and the list heads.
pub alloc_pages-IsAllocated :
    (z : Zone) (b : Blocks) (held : ℕ → ℕ) (order : ℕ)
    → IsZone z.links z.freelist b held
    → z.freelist_lock ≡ lock_free
    → order < max_page_order
    → (p : ℕ) × (z' : Zone) × IsAllocated z b held order p z'
alloc_pages-IsAllocated z b held order v free lt = (
  (alloc_pages_unlocked locked order).0,
  record ((alloc_pages_unlocked locked order).1) { freelist_lock = lock_free },
  record {
    returns = alloc_pages-returns z order free;
    unlocked = refl;
    place = alloc_pages_unlocked-freelist locked order;
    memory = alloc_pages_unlocked-word locked order;
    others =
        rw (alloc_pages_unlocked-direct locked order lt).1
          (alloc_page_direct-SameAt locked b held order v lt);
    block =
        rw
          (
            (alloc_pages_unlocked-direct locked order lt).0,
            (alloc_pages_unlocked-direct locked order lt).1,
          )
          (alloc_page_direct-Allocated locked b held order v lt);
    pages = λ ne j below.
        ap (λ (f : ℕ → Page). f (page_at (alloc_pages_unlocked locked order).0 j))
          (alloc_pages_unlocked-page locked order lt
            (rw (alloc_pages_unlocked-direct locked order lt).0 at ne))
        ∙ rw (alloc_pages_unlocked-direct locked order lt).0
            (take_pages-inside (2 ^ order) _ 0 j z.page (omega arith) (omega arith));
  },
)
  where
    locked : Zone
    locked = record z { freelist_lock = lock_used }

-- An order out of range is reported, and nothing is allocated.
pub alloc_pages-out_of_range :
    (z : Zone) (order : ℕ)
    → z.freelist_lock ≡ lock_free
    → max_page_order ≤ order
    → alloc_pages z order
      ≡ some (
        0,
        record z { freelist_lock = lock_free; printed = invalid_allocation order ∷ z.printed },
      )
unfolding alloc_pages_unlocked
alloc_pages-out_of_range z order free h = alloc_pages-returns z order free ∙ ground arith

-- Freeing a held block of a well-formed zone, under a free lock and for an order below
-- `max_page_order`, returns and frees the lock, and the block goes from the held ones to the
-- listed ones, if each neighbour that it merges with is a free block of the order of the merge.
pub free_pages-IsFreed :
    (z : Zone) (p order : ℕ) (b : Blocks) (rest : ℕ → ℕ)
    → IsZone z.links z.freelist b (λ a. rest a + inside p (size order) a)
    → z.freelist_lock ≡ lock_free
    → order < max_page_order
    → Matches (max_page_order - 1 - order) p order (record z { freelist_lock = lock_used }) b
    → (z' : Zone) × (free_pages z p order ≡ some z')
      × (z'.freelist_lock ≡ lock_free)
      × IsFreed z'.links z.freelist b rest p order
free_pages-IsFreed z p order b rest v free lt m = (
  record (free_pages_unlocked (record z { freelist_lock = lock_used }) p order) {
    freelist_lock = lock_free;
  },
  free_pages-returns z p order free,
  refl,
  free_pages_unlocked-IsFreed (record z { freelist_lock = lock_used }) p order b rest v lt m,
)

mm_phys_alloc-returns :
    (z : Zone) (sz : ℕ) {z' : Zone} {k p : ℕ}
    → order_for 52 0 sz ≡ some k
    → alloc_pages z k ≡ some (p, z')
    → mm_phys_alloc z sz ≡ some ((if p == 0 then minus_one else page_to_phys p), z')
unfolding mm_phys_alloc
mm_phys_alloc-returns z sz e f = ground (arith, e, f)

-- In a well-formed zone and under a free lock, a size of at most the largest block is asked for at
-- the least order whose block holds it, and the call returns what `alloc_pages` gives for that
-- order: the physical address of its page, or -1 where there is none.
pub mm_phys_alloc-IsAllocated :
    (z : Zone) (b : Blocks) (held : ℕ → ℕ) (sz : ℕ)
    → IsZone z.links z.freelist b held
    → z.freelist_lock ≡ lock_free
    → sz ≤ page_size * 2 ^ 10
    → (order p : ℕ) × (z' : Zone) × IsAllocated z b held order p z'
      × (mm_phys_alloc z sz ≡ some ((if p == 0 then minus_one else page_to_phys p), z'))
      × (sz ≤ page_size * 2 ^ order)
      × ((order ≡ 0) ⊎ (page_size * 2 ^ (order - 1) < sz))
mm_phys_alloc-IsAllocated z b held sz v free fits =
    let (k, runs, lo, hi, enough, least) =
      order_for-least 52 0 sz (omega arith) (omega arith) (omega arith) in
    let (p, z', a) = alloc_pages-IsAllocated z b held k v free (small k least) in
    (k, p, z', a, mm_phys_alloc-returns z sz runs a.returns, enough, least)
  where
    small : (k : ℕ) → (k ≡ 0) ⊎ (page_size * 2 ^ (k - 1) < sz) → k < max_page_order
    small k least = elim (dec_lt k max_page_order) [
      | yes below ↦ below
      | no above ↦ absurd (
          ground (
            arith,
            least,
            pow-le-pow_right {n = 2} (omega arith) {i = 10} {j = k - 1} (omega arith),
          ))
    ]
