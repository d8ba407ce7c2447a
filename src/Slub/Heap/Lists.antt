-- ===== src/Slub/Heap/Lists.antt =====
-- The lists of the caches share no node with each other and with the free lists of the buddy
-- allocator.
use sumi_os.Base.{
  ℕ, ◌+◌, ◌^◌, ◌≤◌, ◌<◌, ◌≡◌, ◌≢◌, true, false, inl, inr, List, ◌∷◌, arith, has, ◌==◌, Bool-cases,
  ap, le-sum, add-le-sum,
}
use native.Mathlib.Decide.{dec_lt}
use sumi_os.Layout.{kernel_page_array}
use sumi_os.PageAlloc.{max_page_order}
use sumi_os.PageAlloc.Blocks.{
  Blocks, size, size-pos, inside_self, spans, spans-has, spans-cons, spans-le-cover, cover,
}
use sumi_os.PageAlloc.Rep.{head_at, cover_of_has}
use sumi_os.PageAlloc.Frame.{Elsewhere}
use sumi_os.Slub.{Slubs, full_at, partial_at}
use sumi_os.Slub.Shelve.{HasLists, shelved, shelved-some}
use sumi_os.Slub.Heap.{Object, order_of, owned, owners, IsHeap, has-owners, not-owned}

module _ {s : Slubs} {b : Blocks} {rest : ℕ → ℕ} {full : ℕ → List ℕ} {left : ℕ → ℕ}
    {outs : List Object} (h : IsHeap s b rest full left outs) where
  owners-once : (x : ℕ) → owners s full x ≤ 1
  owners-once x = omega (arith, h.zone.apart x)

  pub owned-in_array :
      (i x : ℕ)
      → i < 10
      → has x (owned s full i) ≡ true
      → (kernel_page_array ≤ x) × (x < kernel_page_array + 2 ^ 40)
  owned-in_array i x lt m = (
    elim (dec_lt x kernel_page_array) [
      | yes low ↦ absurd (omega (arith, h.below x low, has-owners s full i x lt m))
      | no high ↦ omega arith
    ],
    elim (dec_lt x (kernel_page_array + 2 ^ 40)) [
      | yes low ↦ low
      | no high ↦ absurd (omega (arith, h.above x (omega arith), has-owners s full i x lt m))
    ],
  )

  -- A slub is in one cache only, and there once.
  pub owned-apart :
      (i j x : ℕ)
      → i < 10
      → j < 10
      → i ≢ j
      → has x (owned s full i) ≡ true
      → has x (owned s full j) ≡ false
  owned-apart i j x lt lt' ne m = elim (Bool-cases (has x (owned s full j))) [
    | inl m' ↦ absurd (
        omega (
          arith,
          owners-once x,
          add-le-sum 10 i j (λ i. spans (size (order_of i)) (owned s full i) x) lt lt' ne,
          spans-has (size (order_of i)) (owned s full i) x x m,
          inside_self x (size (order_of i)) (size-pos (order_of i)),
          spans-has (size (order_of j)) (owned s full j) x x m',
          inside_self x (size (order_of j)) (size-pos (order_of j)),
        ))
    | inr m' ↦ m'
  ]

  slub-not_full : (i : ℕ) → i < 10 → (s.cache i).slub ≢ 0 → has (s.cache i).slub (full i) ≡ false
  slub-not_full i lt some_slub = elim (Bool-cases (has (s.cache i).slub (full i))) [
    | inl m ↦
        let c = (s.cache i).slub in
        let e : owned s full i ≡ c ∷ full i = shelved-some c (full i) some_slub in
        absurd (
          omega (
            arith,
            owners-once c,
            le-sum 10 i (λ i. spans (size (order_of i)) (owned s full i) c) lt,
            ap (λ xs. spans (size (order_of i)) xs c) e,
            spans-cons (size (order_of i)) (full i) c c,
            spans-has (size (order_of i)) (full i) c c m,
            inside_self c (size (order_of i)) (size-pos (order_of i)),
          ))
    | inr m ↦ m
  ]

  -- A node that no slub of cache `i` is, is none of its list.
  pub not-node :
      (i a : ℕ)
      → i < 10
      → a ≢ 0
      → a ≢ full_at s i
      → has a (owned s full i) ≡ false
      → has a (full_at s i ∷ (s.cache i).slub ∷ full i) ≡ false
  not-node i a lt ne ne' m = elim (Bool-cases ((s.cache i).slub == 0)) [
    | inl none_there ↦ ground (arith, m, none_there)
    | inr there ↦ ground (arith, m, there)
  ]

  pub head-not_owned :
      (i x : ℕ) → i < 10 → kernel_page_array + 2 ^ 40 ≤ x → has x (owned s full i) ≡ false
  head-not_owned i x lt high = not-owned h i x lt (h.above x high)

  -- A node of a free list is no slub, and no head of a cache.
  free-node :
      (k a : ℕ)
      → k < max_page_order
      → has a (head_at s.zone.freelist k ∷ b k) ≡ true
      → (a ≢ 0)
        × (owners s full a ≡ 0)
        × ((i : ℕ) → i < 10 → (a ≢ full_at s i) × (a ≢ partial_at s i))
  free-node k a lt m = elim (Bool-cases (a == head_at s.zone.freelist k)) [
    | inl head ↦
        let e : a ≡ head_at s.zone.freelist k = ground arith in
        (
          λ z. omega (arith, e, z, h.placed.free_lists),
          rw e (omega (arith, h.zone.heads k lt)),
          λ i lt'.
              (λ q. omega (arith, q, e, h.placed.apart), λ q. omega (arith, q, e, h.placed.apart)),
        )
    | inr listed ↦
        let m' : has a (b k) ≡ true = ground (arith, m, listed) in
        let counted : 1 ≤ cover max_page_order b a =
          omega (arith, cover_of_has h.zone k a lt m', spans-le-cover max_page_order b k a lt) in
        (
          λ z. absurd (omega (arith, counted, h.zone.null, ap (cover max_page_order b) z)),
          omega (arith, counted, h.zone.apart a),
          λ i lt'. (
            λ q. omega (arith, q, counted, h.array.upto a (omega (arith, q, h.placed.behind))),
            λ q. omega (arith, q, counted, h.array.upto a (omega (arith, q, h.placed.behind))),
          ),
        )
  ]

  pub heap-HasLists : (i : ℕ) → i < 10 → HasLists s i b (full i)
  heap-HasLists i lt = record {
    partial = (h.cache i lt).partial;
    full = (h.cache i lt).ring;
    fresh = elim (Bool-cases ((s.cache i).slub == 0)) [
      | inl none_there ↦
          let e : (s.cache i).slub ≡ 0 = ground arith in
          let m = not-owned h i 0 lt (omega (arith, h.zone.null)) in
          ground (arith, e, h.placed.behind, ap (λ c. has 0 (shelved c (full i))) e, m)
      | inr there ↦
          let ne : (s.cache i).slub ≢ 0 = ground arith in
          let (lo, hi) = owned-in_array i (s.cache i).slub lt (ground (arith, there)) in
          ground (arith, hi, h.placed.behind, slub-not_full i lt ne)
    ];
    partial_apart =
        not-node i (partial_at s i) lt (λ z. omega (arith, z, h.placed.behind))
          (λ q. omega (arith, q))
          (head-not_owned i (partial_at s i) lt (omega (arith, h.placed.behind)));
    blocks_apart = λ k a lt' m.
        let (ne, unowned, no_head) = free-node k a lt' m in
        not-node i a lt ne (no_head i lt).0 (not-owned h i a lt unowned);
  }

  -- A node of a cache is outside the free lists.
  pub owned-Elsewhere :
      (i x : ℕ) → i < 10 → has x (owned s full i) ≡ true → Elsewhere s.zone.freelist b x
  owned-Elsewhere i x lt m = record {
    out = omega (arith, h.zone.apart x, has-owners s full i x lt m);
    no_head = λ k lt' e.
        absurd
          (omega (arith, has-owners s full i x lt m, h.zone.heads k lt', ap (owners s full) e));
  }

  pub head-Elsewhere :
      (i x : ℕ)
      → i < 10
      → kernel_page_array + 2 ^ 40 ≤ x
      → ((k : ℕ) → k < max_page_order → x ≢ head_at s.zone.freelist k)
      → Elsewhere s.zone.freelist b x
  head-Elsewhere i x lt high other = record { out = h.array.upto x high; no_head = other }
