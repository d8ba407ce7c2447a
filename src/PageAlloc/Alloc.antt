-- ===== src/PageAlloc/Alloc.antt =====
-- `__alloc_page_direct`: the block comes from the least order that has one, its upper halves go back
-- to the lists below, and what is listed and what is held stay apart.
use sumi_os.Base.{
  ℕ, zero, suc, ◌+◌, ◌-◌, ◌^◌, ◌%◌, ◌≤◌, ◌<◌, ◌≡◌, refl, ◌≢◌, true, false, [], ◌∷◌, arith, ◌==◌,
  update, has, Bool-cases, inl, inr, ◌⊎◌, List-cases, ap,
}
use native.Mathlib.Decide.{dec_lt}
use sumi_os.Links.{Links, list_empty, list_del}
use sumi_os.Links.Ring.{IsRing}
use sumi_os.Links.Laws.{list_empty-nil, remove}
use sumi_os.PageAlloc.{
  max_page_order, Zone, freelist_at, Found, find_block, next_page_by_order, put_halves, split_block,
  alloc_page_direct,
}
use sumi_os.PageAlloc.Blocks.{
  Blocks, size, size-pos, inside, inside_self, inside-halves, cover, cover-cons, cover-remove,
  spans-le-cover,
}
use sumi_os.PageAlloc.Aligned.{AllAligned, size-aligned, cons-aligned, remove-aligned, head_aligned}
use sumi_os.PageAlloc.Rep.{IsZone, cover_of_has, list_del-IsZone, list_add_next-IsZone}

-- No list of the orders from `from` on has a block.
abbrev pub AllEmpty : Blocks → (from upto : ℕ) → Type 0
AllEmpty b from upto = (k : ℕ) → from ≤ k → k < upto → b k ≡ []

-- What the search finds: nothing, or a block of the least order that has one.
abbrev pub Search : Zone → Blocks → ℕ → Found → Type 0
Search z b order f =
    ((f.p ≡ 0) × (f.links ≡ z.links) × AllEmpty b order max_page_order)
    ⊎ ((f.p ≢ 0)
        × (order ≤ f.from)
        × (f.from < max_page_order)
        × (has f.p (b f.from) ≡ true)
        × (f.links ≡ list_del z.links f.p)
        × AllEmpty b order f.from)

module _ (z : Zone) (b : Blocks) (held : ℕ → ℕ) (v : IsZone z.links z.freelist b held) where
  pub find_block-Search :
      (left from : ℕ) → from + left ≡ max_page_order → Search z b from (find_block z left from)
  unfolding find_block
  find_block-Search zero from e = inl (refl, refl, λ k h g. absurd (omega arith))
  find_block-Search (suc left) from e = elim (List-cases (b from)) [
    | inl nothing ↦
        let empty : list_empty z.links (freelist_at z from) ≡ true =
          list_empty-nil [] (rw nothing at (v.ring from (omega arith))) in
        rw empty (elim (find_block-Search left (from + 1) (omega arith)) [
          | inl (p, same, rest) ↦ inl (
            p,
            same,
            λ k h g. elim (Bool-cases (from == k)) [
              | inl this ↦ ground (arith, nothing)
              | inr later ↦ rest k (ground arith) g
            ],
          )
          | inr (p, lo, hi, m, links, rest) ↦ inr (
            p,
            omega arith,
            hi,
            m,
            links,
            λ k h g. elim (Bool-cases (from == k)) [
              | inl this ↦ ground (arith, nothing)
              | inr later ↦ rest k (ground arith) g
            ],
          )
        ])
    | inr (x, xs, some_block) ↦
        let r : IsRing z.links (freelist_at z from) (x ∷ xs) =
          rw some_block at (v.ring from (omega arith)) in
        let full : list_empty z.links (freelist_at z from) ≡ false = list_empty-nil (x ∷ xs) r in
        let m : has (z.links.next (freelist_at z from)) (b from) ≡ true =
          rw some_block (ground (arith, r.chain.0)) in
        rw full (
          inr (
            λ null. absurd (
                omega (
                  arith,
                  cover_of_has v from 0 (omega arith) (rw null at m),
                  spans-le-cover max_page_order b from 0 (omega arith),
                  v.null,
                )),
            omega arith,
            omega arith,
            m,
            refl,
            λ k h g. absurd (omega arith),
          ))
  ]

-- The pointer arithmetic of `next_page_by_order` where it stays in the address space.
pub next_page_by_order-size :
    (p order : ℕ)
    → order < max_page_order
    → p + size order < 2 ^ 64
    → next_page_by_order p order ≡ p + size order
unfolding next_page_by_order size
next_page_by_order-size p order lt fits = ground arith

-- The upper half of a held block begins below the top of the address space.
pub half-fits :
    {links : Links} {base : ℕ} {b : Blocks} (p level : ℕ) (rest : ℕ → ℕ)
    → IsZone links base b (λ a. rest a + inside p (size (suc level)) a)
    → p + size level < 2 ^ 64
half-fits p level rest v = elim (dec_lt (p + size level) (2 ^ 64)) [
  | yes below ↦ below
  | no above ↦ absurd (
      omega (
        arith,
        v.top (p + size level) (omega arith),
        inside-halves p level (p + size level),
        inside_self (p + size level) (size level) (size-pos level),
      ))
]

-- Putting the upper halves back leaves the lowest block of order `order` in hand.
pub put_halves-IsZone :
    (z : Zone) (p order n : ℕ) (links : Links) (b : Blocks) (rest : ℕ → ℕ)
    → order + n < max_page_order
    → IsZone links z.freelist b (λ a. rest a + inside p (size (order + n)) a)
    → (b' : Blocks) × IsZone
        (put_halves z p order n links)
        z.freelist
        b'
        (λ a. rest a + inside p (size order) a)
      × ((a : ℕ)
          → cover max_page_order b' a + inside p (size order) a
            ≡ cover max_page_order b a + inside p (size (order + n)) a)
      × (AllAligned b → p % 64 ≡ 0 → AllAligned b')
unfolding put_halves
put_halves-IsZone z p order zero links b rest lt v =
    let e : order + 0 ≡ order = omega arith in (b, rw e at v, λ a. rw e, λ all at. all)
put_halves-IsZone z p order (suc n) links b rest lt v =
    let level : ℕ = order + n in
    let e : order + suc n ≡ suc level = omega arith in
    let up = inside-halves p level in
    let fits = half-fits p level rest (rw e at v) in
    let w =
      list_add_next-IsZone v level (p + size level) (λ a. rest a + inside p (size level) a)
        (omega arith) (λ a. rw e (omega (arith, up a))) in
    let (b', v', moved, aligned) = put_halves-IsZone z p order n _ _ rest (omega arith) w in
    (
      b',
      rw (next_page_by_order-size p level (omega arith) fits) v',
      λ a. rw e (
          omega (
            arith,
            up a,
            moved a,
            cover-cons max_page_order b level (p + size level) a (omega arith),
          )),
      λ all at.
          aligned
            (cons-aligned b level (p + size level) all (omega (arith, at, size-aligned level))) at,
    )

-- What an allocation of `order` does to a zone: no list from `order` on has a block and nothing
-- changes, or a block leaves the lists, and nothing else does.
pub record IsTaken (links : Links) (base : ℕ) (b : Blocks) (held : ℕ → ℕ) (p order : ℕ)
    : Type 0 where
  pub blocks : Blocks
  pub zone : IsZone links base blocks (λ a. held a + inside p (size order) a)
  pub kept :
      (a : ℕ) → cover max_page_order blocks a + inside p (size order) a ≡ cover max_page_order b a
  pub aligned : AllAligned b → AllAligned blocks × (p % 64 ≡ 0)

abbrev pub Allocated : Zone → Blocks → (ℕ → ℕ) → ℕ → ℕ → Links → Type 0
Allocated z b held order p links =
    ((p ≡ 0) × (links ≡ z.links) × AllEmpty b order max_page_order)
    ⊎ ((p ≢ 0) × IsTaken links z.freelist b held p order)

module _ (z : Zone) (b : Blocks) (held : ℕ → ℕ) (order : ℕ)
    (v : IsZone z.links z.freelist b held) where
  split_block-Allocated :
      (f : Found)
      → Search z b order f
      → Allocated z b held order (split_block z order f).0 (split_block z order f).1.links
  unfolding split_block
  split_block-Allocated f (inl (null, same, nothing)) = rw null (inl (refl, same, nothing))
  split_block-Allocated f (inr (some_block, lo, hi, m, links, below)) =
      let e : order + (f.from - order) ≡ f.from = omega arith in
      let w = list_del-IsZone v f.from f.p hi m in
      let (b', v', moved, aligned) =
        put_halves-IsZone z f.p order (f.from - order) (list_del z.links f.p)
          (update b f.from (remove f.p (b f.from))) held (omega arith) (rw e w) in
      let found : (f.p == 0) ≡ false = ground arith in
      rw (found, links)
        (inr (
          some_block,
          record {
            blocks = b';
            zone = v';
            kept = λ a. omega (
              arith,
              moved a,
              ap (λ (n : ℕ). inside f.p (size n) a) e,
              cover-remove max_page_order b f.from f.p a hi m,
            );
            aligned = λ all.
                let at = head_aligned b f.from f.p all hi m in
                (aligned (remove-aligned b f.from f.p all) at, at);
          },
        ))

  pub alloc_page_direct-Allocated :
      order < max_page_order
      → Allocated z b held order (alloc_page_direct z order).0 (alloc_page_direct z order).1.links
  unfolding alloc_page_direct
  alloc_page_direct-Allocated lt =
      split_block-Allocated _
        (find_block-Search z b held v (max_page_order - order) order (omega arith))
