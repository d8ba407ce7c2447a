-- ===== src/PageAlloc/Merge.antt =====
-- The merging loop of `__free_pages` takes free neighbours out of their lists.
use sumi_os.Base.{
  ℕ, zero, suc, ◌+◌, ◌-◌, ◌^◌, ◌≤◌, ◌<◌, ◌≡◌, refl, ◌≢◌, true, false, arith, update, has,
  Bool-cases, inl, inr, ap, sym, ◌∙◌, ◌%◌,
}
use mathlib.Core.Path.{subst}
use native.Mathlib.Decide.{dec_lt}
use sumi_os.Links.{Links, list_del}
use sumi_os.Links.Laws.{remove}
use sumi_os.PageAlloc.{
  max_page_order, Zone, next_page_by_order, prev_page_by_order, is_free_head, merge_loop,
}
use sumi_os.PageAlloc.Blocks.{
  Blocks, size, size-pos, inside, inside_self, inside-last, inside-halves, cover, cover-remove,
  spans-le-cover,
}
use sumi_os.PageAlloc.Rep.{IsZone, has-fits, IsZone-ext, cover_of_has, list_del-IsZone}
use sumi_os.PageAlloc.Alloc.{next_page_by_order-size}

-- The zone after one round that merges forward, and after one that merges backward.
abbrev pub forward : ℕ → ℕ → Zone → Zone
forward p order z = record z {
  links = list_del z.links (next_page_by_order p order);
  page =
      update z.page (next_page_by_order p order)
        (record (z.page (next_page_by_order p order)) { is_head = false });
}

abbrev pub backward : ℕ → ℕ → Zone → Zone
backward p order z = record z {
  links = list_del z.links (prev_page_by_order p order);
  page = update z.page p (record (z.page p) { is_head = false; is_free = true });
}

-- Each round of the loop that merges finds a neighbour that is a free block of the very order: the
-- code asks only whether it is the head of some free block.
abbrev pub Matches : (left p order : ℕ) → Zone → Blocks → Type 0
Matches zero p order z b = Unit {0}
Matches (suc left) p order z b =
    (is_free_head z (next_page_by_order p order) ≡ true
      → (has (next_page_by_order p order) (b order) ≡ true)
        × Matches left p (order + 1) (forward p order z)
            (update b order (remove (next_page_by_order p order) (b order))))
    × (is_free_head z (next_page_by_order p order) ≡ false
        → is_free_head z (prev_page_by_order p order) ≡ true
        → (has (prev_page_by_order p order) (b order) ≡ true)
          × Matches left (prev_page_by_order p order) (order + 1) (backward p order z)
              (update b order (remove (prev_page_by_order p order) (b order))))

-- The loop ends with one block in hand that is the freed one and the blocks that it took out.
pub record IsMerged (z : Zone) (b : Blocks) (rest : ℕ → ℕ) (p order : ℕ) (r : ℕ × ℕ × Zone)
    : Type 0 where
  pub blocks : Blocks
  pub in_range : r.1 < max_page_order
  pub base : r.2.freelist ≡ z.freelist
  pub zone : IsZone r.2.links z.freelist blocks (λ a. rest a + inside r.0 (size r.1) a)
  pub kept :
      (a : ℕ)
      → cover max_page_order blocks a + inside r.0 (size r.1) a
        ≡ cover max_page_order b a + inside p (size order) a

-- The pointer arithmetic of `prev_page_by_order`.
pub prev_page_by_order-mod :
    (p order : ℕ)
    → order < max_page_order
    → prev_page_by_order p order ≡ (p + 2 ^ 64 - size order) % 2 ^ 64
unfolding prev_page_by_order size
prev_page_by_order-mod p order lt = ground arith

module _ {links : Links} {base : ℕ} {b : Blocks} (rest : ℕ → ℕ) (p order : ℕ)
    (v : IsZone links base b (λ a. rest a + inside p (size order) a))
    (lt : order < max_page_order) where
  -- A block that is held ends below the top of the address space, and is not at the null pointer.
  held-fits : p + size order ≤ 2 ^ 64
  held-fits = elim (dec_lt (2 ^ 64) (p + size order)) [
    | yes above ↦ absurd (
        omega (
          arith,
          v.top (p + size order - 1) (omega arith),
          inside-last p (size order) (size-pos order),
        ))
    | no below ↦ omega arith
  ]

  pub held-ne-null : p ≢ 0
  held-ne-null e = absurd (
      omega (
        arith,
        v.null,
        ap (λ (q : ℕ). inside q (size order) 0) e,
        inside_self 0 (size order) (size-pos order),
      ))

  -- A listed block at the next, or the previous, page of the order is the adjacent one.
  next-adjacent :
      has (next_page_by_order p order) (b order) ≡ true
      → next_page_by_order p order ≡ p + size order
  next-adjacent m = elim (dec_lt (p + size order) (2 ^ 64)) [
    | yes below ↦ next_page_by_order-size p order lt below
    | no above ↦
        let wraps : next_page_by_order p order ≡ 0 = wrapped (omega (arith, held-fits)) in
        absurd (
          omega (
            arith,
            v.null,
            cover_of_has v order 0 lt (rw wraps at m),
            spans-le-cover max_page_order b order 0 lt,
          ))
  ]
    where
      wrapped : p + size order ≡ 2 ^ 64 → next_page_by_order p order ≡ 0
      wrapped e = unfold next_page_by_order size in ground arith

  prev-adjacent :
      has (prev_page_by_order p order) (b order) ≡ true
      → prev_page_by_order p order + size order ≡ p
  prev-adjacent m = ground (
    arith,
    held-fits,
    held-ne-null,
    has-fits v order (prev_page_by_order p order) lt m,
    prev_page_by_order-mod p order lt,
    size-pos order,
  )

-- Two adjacent blocks of an order are one of the next.
pub join :
    (rest : ℕ → ℕ) (x y order : ℕ)
    → x + size order ≡ y
    → (a : ℕ)
    → rest a + inside x (size order) a + inside y (size order) a
      ≡ rest a + inside x (size (order + 1)) a
join rest x y order e a = ground (arith, inside-halves x order a)

-- One round of merging, for the rounds that follow.
IsMerged-round :
    {z z' : Zone} {b b' : Blocks} {rest : ℕ → ℕ} {p p' order : ℕ} {r : ℕ × ℕ × Zone}
    → z'.freelist ≡ z.freelist
    → ((a : ℕ)
        → cover max_page_order b' a + inside p' (size (order + 1)) a
          ≡ cover max_page_order b a + inside p (size order) a)
    → IsMerged z' b' rest p' (order + 1) r
    → IsMerged z b rest p order r
IsMerged-round {z} {z'} {rest} {r} same kept m = record {
  blocks = m.blocks;
  in_range = m.in_range;
  base = m.base ∙ same;
  zone =
      subst (λ f. IsZone r.2.links f m.blocks (λ a. rest a + inside r.0 (size r.1) a)) same m.zone;
  kept = λ a. m.kept a ∙ kept a;
}

pub merge_loop-IsMerged :
    (left p order : ℕ) (z : Zone) (b : Blocks) (rest : ℕ → ℕ)
    → order + left < max_page_order
    → IsZone z.links z.freelist b (λ a. rest a + inside p (size order) a)
    → Matches left p order z b
    → IsMerged z b rest p order (merge_loop left p order z)
unfolding merge_loop
merge_loop-IsMerged zero p order z b rest lt v m = record {
  blocks = b;
  in_range = omega arith;
  base = refl;
  zone = v;
  kept = λ a. refl;
}
merge_loop-IsMerged (suc left) p order z b rest lt v m =
    elim (Bool-cases (is_free_head z (next_page_by_order p order))) [
      | inl yes_next ↦
          let (listed, later) = m.0 yes_next in
          let n : ℕ = next_page_by_order p order in
          let at : p + size order ≡ n = sym (next-adjacent rest p order v below listed) in
          let b' : Blocks = update b order (remove n (b order)) in
          let w : IsZone (list_del z.links n) z.freelist b'
              (λ a. rest a + inside p (size (order + 1)) a) =
            IsZone-ext (join rest p n order at) (list_del-IsZone v order n below listed) in
          rw yes_next (
            IsMerged-round refl
              (λ a. omega (
                arith,
                join (λ _. 0) p n order at a,
                cover-remove max_page_order b order n a below listed,
              ))
              (merge_loop-IsMerged left p (order + 1) (forward p order z) b' rest (omega arith) w
                later))
      | inr no_next ↦ elim (Bool-cases (is_free_head z (prev_page_by_order p order))) [
        | inl yes_prev ↦
            let (listed, later) = m.1 no_next yes_prev in
            let n : ℕ = prev_page_by_order p order in
            let at : n + size order ≡ p = prev-adjacent rest p order v below listed in
            let b' : Blocks = update b order (remove n (b order)) in
            let w : IsZone (list_del z.links n) z.freelist b'
                (λ a. rest a + inside n (size (order + 1)) a) =
              IsZone-ext (λ a. omega (arith, join rest n p order at a))
                (list_del-IsZone v order n below listed) in
            rw (no_next, yes_prev)
              (IsMerged-round refl
                (λ a. omega (
                  arith,
                  join (λ _. 0) n p order at a,
                  cover-remove max_page_order b order n a below listed,
                ))
                (merge_loop-IsMerged left n (order + 1) (backward p order z) b' rest (omega arith) w
                  later))
        | inr no_prev ↦
            rw (no_next, no_prev)
              (record { blocks = b; in_range = below; base = refl; zone = v; kept = λ a. refl })
      ]
    ]
  where
    below : order < max_page_order
    below = omega arith
