-- ===== src/PageAlloc/Frame.antt =====
-- An allocation writes to the links of free blocks and of the list heads only.
use sumi_os.Base.{
  ℕ, zero, suc, ◌+◌, ◌-◌, ◌<◌, ◌≡◌, refl, ◌≢◌, false, inl, inr, ◌∷◌, arith, ◌==◌, ap, ◌∙◌, has,
  update,
}
use sumi_os.Links.{Links, list_add_next, list_del}
use sumi_os.Links.Laws.{remove}
use sumi_os.Links.Frame.{SameAt, list_add_next-SameAt, list_del-SameAt}
use sumi_os.PageAlloc.{max_page_order, Zone, Found, put_halves, split_block, alloc_page_direct}
use sumi_os.PageAlloc.Blocks.{
  Blocks, size, size-pos, inside, inside_self, inside-halves, cover, cover-cons, cover-remove,
}
use sumi_os.PageAlloc.Rep.{IsZone, head_at, not-has_of_cover, list_del-IsZone, list_add_next-IsZone}
use sumi_os.PageAlloc.Alloc.{Search, find_block-Search, next_page_by_order-size, half-fits}

-- An address outside the free blocks that is no list head.
pub record Elsewhere (base : ℕ) (b : Blocks) (a : ℕ) : Type 0 where
  pub out : cover max_page_order b a ≡ 0
  pub no_head : (k : ℕ) → k < max_page_order → a ≢ head_at base k

not-listed :
    {links : Links} {base : ℕ} {b : Blocks} {held : ℕ → ℕ}
    → IsZone links base b held
    → (a k : ℕ) → k < max_page_order
    → Elsewhere base b a
    → has a (head_at base k ∷ b k) ≡ false
not-listed v a k lt else = ground (arith, not-has_of_cover v k a lt else.out, else.no_head k lt)

put_halves-SameAt :
    (z : Zone) (p order n : ℕ) (links : Links) (b : Blocks) (rest : ℕ → ℕ)
    → order + n < max_page_order
    → IsZone links z.freelist b (λ a. rest a + inside p (size (order + n)) a)
    → (a : ℕ) → Elsewhere z.freelist b a
    → inside p (size (order + n)) a ≡ 0
    → SameAt links (put_halves z p order n links) a
unfolding put_halves
put_halves-SameAt z p order zero links b rest lt v a else out = (refl, refl)
put_halves-SameAt z p order (suc n) links b rest lt v a else out =
    let level : ℕ = order + n in
    let e : order + suc n ≡ suc level = omega arith in
    let up = inside-halves p level a in
    let none_there : inside p (size (suc level)) a ≡ 0 = rw e at out in
    let fits = half-fits p level rest (rw e at v) in
    let w =
      list_add_next-IsZone v level (p + size level) (λ a. rest a + inside p (size level) a)
        (omega arith) (λ a. rw e (omega (arith, inside-halves p level a))) in
    let first : SameAt links (list_add_next links (head_at z.freelist level) (p + size level)) a =
      list_add_next-SameAt (p + size level) a (v.ring level (omega arith))
        (not-listed v a level (omega arith) else)
        (λ same. omega (
          arith,
          up,
          none_there,
          ap (λ (q : ℕ). inside (p + size level) (size level) q) same,
          inside_self (p + size level) (size level) (size-pos level),
        )) in
    let later =
      put_halves-SameAt z p order n _ _ rest (omega arith) w a
        (record {
          out = omega (
            arith,
            up,
            none_there,
            else.out,
            cover-cons max_page_order b level (p + size level) a (omega arith),
          );
          no_head = else.no_head;
        })
        (omega (arith, up, none_there)) in
    rw (next_page_by_order-size p level (omega arith) fits, put_halves)
      (later.0 ∙ first.0, later.1 ∙ first.1)

module _ (z : Zone) (b : Blocks) (held : ℕ → ℕ) (order : ℕ)
    (v : IsZone z.links z.freelist b held) where
  split_block-SameAt :
      (f : Found)
      → Search z b order f
      → (a : ℕ) → Elsewhere z.freelist b a
      → SameAt z.links (split_block z order f).1.links a
  unfolding split_block
  split_block-SameAt f (inl (null, same, nothing)) a else = rw (null, same) (refl, refl)
  split_block-SameAt f (inr (some_block, lo, hi, m, links, below)) a else =
      let e : order + (f.from - order) ≡ f.from = omega arith in
      let w = list_del-IsZone v f.from f.p hi m in
      let count = cover-remove max_page_order b f.from f.p a hi m in
      let first = list_del-SameAt f.p a (v.ring f.from hi) m (not-listed v a f.from hi else) in
      let later =
        put_halves-SameAt z f.p order (f.from - order) (list_del z.links f.p)
          (update b f.from (remove f.p (b f.from))) held (omega arith) (rw e w) a
          (record { out = omega (arith, count, else.out); no_head = else.no_head })
          (rw e (omega (arith, count, else.out))) in
      let found : (f.p == 0) ≡ false = ground arith in
      rw (found, links) (later.0 ∙ first.0, later.1 ∙ first.1)

  pub alloc_page_direct-SameAt :
      order < max_page_order
      → (a : ℕ) → Elsewhere z.freelist b a
      → SameAt z.links (alloc_page_direct z order).1.links a
  unfolding alloc_page_direct
  alloc_page_direct-SameAt lt a else =
      split_block-SameAt _
        (find_block-Search z b held v (max_page_order - order) order (omega arith)) a else
