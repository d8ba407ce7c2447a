-- ===== src/PageAlloc/Row/Carry.antt =====
-- The merging loop on a page behind a row of free blocks: the row and the page count in binary.
use sumi_os.Base.{
  ℕ, zero, suc, ◌+◌, ◌^◌, ◌≤◌, ◌<◌, ◌≡◌, refl, ◌≢◌, Bool, true, false, inl, inr, List, [], ◌∷◌,
  arith, ◌==◌, Bool-cases, sym, ◌∙◌, not, minus_one,
}
use mathlib.Core.Path.{subst}
use sumi_os.Links.{list_del}
use sumi_os.PageTable.{mm_pgtable_get_va_pte}
use sumi_os.PageAlloc.{
  max_page_order, Zone, next_page_by_order, prev_page_by_order, is_free_head, merge_loop,
}
use sumi_os.PageAlloc.Blocks.{size, size-pos, size-suc, inside}
use sumi_os.PageAlloc.Rep.{IsZone, IsZone-ext, list_del-IsZone}
use sumi_os.PageAlloc.Alloc.{next_page_by_order-size}
use sumi_os.PageAlloc.Merge.{backward, join, prev_page_by_order-mod}
use sumi_os.PageAlloc.Row.{
  Block, Under, AtMost, Stacked, listed, begins, size_mono, size-le, begins-lt, begins-prev,
  listed-remove,
}

-- The struct page at `a` is there.
abbrev pub is_mapped : Zone → ℕ → Bool
is_mapped z a = not (mm_pgtable_get_va_pte z.word z.kern_pgtable a == minus_one)

-- The block of order `k` at `p` is in hand, behind the row `xs`; it ends at `end`. Other than at `p`,
-- the heads of free blocks are those of the row.
pub record InHand (z : Zone) (from : ℕ) (rest : ℕ → ℕ) (xs : List Block) (p k end : ℕ)
    : Type 0 where
  pub zone : IsZone z.links z.freelist (listed xs) (λ a. rest a + inside p (size k) a)
  pub stacked : Stacked from xs p
  pub at_most : AtMost k xs
  pub heads : (a : ℕ) → a ≢ p → is_free_head z a ≡ begins xs a
  pub ends : p + size k ≡ end
  pub fits : end < 2 ^ 64
  pub mapped : is_mapped z p ≡ true
  pub order : k < max_page_order

-- The loop ends with a block in hand that no block of the row can be merged with.
pub record IsCarried (z : Zone) (from : ℕ) (rest : ℕ → ℕ) (end : ℕ) (r : ℕ × ℕ × Zone)
    : Type 0 where
  pub row : List Block
  pub in_hand : InHand r.2 from rest row r.0 r.1 end
  pub under : Under r.1 row
  pub base : r.2.freelist ≡ z.freelist
  pub word : r.2.word ≡ z.word
  pub table : r.2.kern_pgtable ≡ z.kern_pgtable

prev-ne : (p k : ℕ) → k < max_page_order → p < 2 ^ 64 → prev_page_by_order p k ≢ p
prev-ne p k lt fits e =
    omega (arith, e, prev_page_by_order-mod p k lt, size-pos k, size-le k lt, fits)

AtMost-suc : (k : ℕ) (xs : List Block) → Under k xs → k < 10 → AtMost (k + 1) xs
AtMost-suc k [] u lt = tt
AtMost-suc k (x ∷ xs) u lt = ground (arith, u)

module _ {z : Zone} {from : ℕ} {rest : ℕ → ℕ} {p k end : ℕ} where
  no_next :
      {xs : List Block}
      → InHand z from rest xs p k end
      → is_free_head z (next_page_by_order p k) ≡ false
  no_next {xs} h =
      let e : next_page_by_order p k ≡ p + size k =
        next_page_by_order-size p k h.order (omega (arith, h.ends, h.fits)) in
      let ne : next_page_by_order p k ≢ p = λ q. omega (arith, q, e, size-pos k) in
      h.heads _ ne ∙ (elim (Bool-cases (begins xs (next_page_by_order p k))) [
        | inl m ↦ absurd (omega (arith, begins-lt from xs p _ h.stacked m, e))
        | inr m ↦ m
      ])

  in-hand_fits : {xs : List Block} → InHand z from rest xs p k end → p < 2 ^ 64
  in-hand_fits h = omega (arith, h.ends, h.fits)

  no_prev : InHand z from rest [] p k end → is_free_head z (prev_page_by_order p k) ≡ false
  no_prev h = h.heads _ (prev-ne p k h.order (in-hand_fits h))

  module _ {x : Block} {xs : List Block} (h : InHand z from rest (x ∷ xs) p k end) where
    prev-at : prev_page_by_order p k + size k ≡ p
    prev-at =
        let larger : size k ≤ size x.order = size_mono k x.order h.at_most in
        omega (
          arith,
          h.stacked.0,
          larger,
          prev_page_by_order-mod p k h.order,
          size-le k h.order,
          h.ends,
          h.fits,
        )

    prev-head : is_free_head z (prev_page_by_order p k) ≡ (k == x.order)
    prev-head =
        h.heads _ (prev-ne p k h.order (in-hand_fits h))
        ∙ begins-prev from x xs p k _ h.stacked h.at_most prev-at

    last-at : k ≡ x.order → prev_page_by_order p k ≡ x.at
    last-at same = ground (arith, same, h.stacked.0, prev-at)

    carry-IsZone :
        k ≡ x.order
        → IsZone
            (list_del z.links (prev_page_by_order p k))
            z.freelist
            (listed xs)
            (λ a. rest a + inside (prev_page_by_order p k) (size (k + 1)) a)
    carry-IsZone same =
        let w = list_del-IsZone h.zone x.order x.at (ground (arith, h.stacked.1)) (ground arith) in
        let w' =
          subst
            (λ b.
              IsZone (list_del z.links x.at) z.freelist b
                (λ a. rest a + inside p (size k) a + inside x.at (size x.order) a))
            (listed-remove x xs) w in
        rw (last-at same) (
          IsZone-ext {held = λ a. rest a + inside p (size k) a + inside x.at (size x.order) a}
            (λ a. ground (arith, same, join rest x.at p k (ground (arith, same, h.stacked.0)) a))
            w')

    carry-mapped : k ≡ x.order → is_mapped (backward p k z) (prev_page_by_order p k) ≡ true
    unfolding is_free_head
    carry-mapped same = ground (arith, prev-head, same)

    carry-heads :
        k ≡ x.order
        → (a : ℕ) → a ≢ prev_page_by_order p k
        → is_free_head (backward p k z) a ≡ begins xs a
    unfolding is_free_head
    carry-heads same a ne = elim (Bool-cases (a == p)) [
      | inl here ↦ elim (Bool-cases (begins xs a)) [
        | inl m ↦ absurd (
            ground
              (arith, here, begins-lt from xs x.at a h.stacked.3 m, h.stacked.0, size-pos x.order))
        | inr m ↦ ground (arith, here, m)
      ]
      | inr there ↦ ground (arith, there, last-at same, h.heads a (λ e. ground (arith, there, e)))
    ]

    -- A round of the loop: the last block of the row joins the one in hand.
    carry :
        k ≡ x.order
        → k < 10
        → InHand (backward p k z) from rest xs (prev_page_by_order p k) (k + 1) end
    carry same lt = record {
      zone = carry-IsZone same;
      stacked = rw (last-at same) h.stacked.3;
      at_most = AtMost-suc k xs (rw (sym same) at h.stacked.2) lt;
      heads = carry-heads same;
      ends = ground (arith, size-suc k, prev-at, h.ends);
      fits = h.fits;
      mapped = carry-mapped same;
      order = omega arith;
    }

Under-full : (k : ℕ) (xs : List Block) → k ≡ 10 → Under k xs
Under-full k [] e = tt
Under-full k (x ∷ xs) e = inr e

stopped :
    {z : Zone} {from : ℕ} {rest : ℕ → ℕ} {p k end : ℕ} (xs : List Block)
    → InHand z from rest xs p k end
    → Under k xs
    → IsCarried z from rest end (p, k, z)
stopped xs h u = record { row = xs; in_hand = h; under = u; base = refl; word = refl; table = refl }

-- The loop, with `left` rounds left.
pub merge_loop-IsCarried :
    (left : ℕ) {from : ℕ} {rest : ℕ → ℕ} {end : ℕ} (p k : ℕ) (z : Zone) (xs : List Block)
    → k + left ≡ 10
    → InHand z from rest xs p k end
    → IsCarried z from rest end (merge_loop left p k z)
unfolding merge_loop
merge_loop-IsCarried zero p k z xs e h = stopped xs h (Under-full k xs (omega arith))
merge_loop-IsCarried (suc left) p k z [] e h =
    let next = no_next h in let prev = no_prev h in rw (next, prev) (stopped [] h tt)
merge_loop-IsCarried (suc left) p k z (x ∷ xs) e h = elim (Bool-cases (k == x.order)) [
  | inl same ↦
      let next = no_next h in
      let prev : is_free_head z (prev_page_by_order p k) ≡ true = prev-head h ∙ same in
      let r =
        merge_loop-IsCarried left (prev_page_by_order p k) (k + 1) (backward p k z) xs (omega arith)
          (carry h (ground (arith, same)) (omega arith)) in
      rw (next, prev)
        (record {
          row = r.row;
          in_hand = r.in_hand;
          under = r.under;
          base = r.base;
          word = r.word;
          table = r.table;
        })
  | inr other ↦
      let next = no_next h in
      let prev : is_free_head z (prev_page_by_order p k) ≡ false = prev-head h ∙ other in
      rw (next, prev) (stopped (x ∷ xs) h (inl (ground (arith, other, h.at_most))))
]
