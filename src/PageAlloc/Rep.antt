-- ===== src/PageAlloc/Rep.antt =====
-- When a zone stands for a family of free blocks, and what taking a block out of its list and
-- putting one in do to that. `held a` counts the blocks at `a` that are in no list: those handed
-- out, and those that an operation has in its hands.
use sumi_os.Base.{
  ℕ, ◌+◌, ◌-◌, ◌*◌, ◌^◌, ◌≤◌, ◌<◌, ◌≡◌, ◌≢◌, true, false, ◌∷◌, arith, ◌==◌, update, has, Bool-cases,
  inl, inr, fun_ext,
}
use mathlib.Core.Path.{subst}
use native.Mathlib.Decide.{dec_lt}
use sumi_os.Links.{Links, list_add_next, list_del}
use sumi_os.Links.Ring.{IsRing}
use sumi_os.Links.Laws.{remove, list_add_next-cons, list_del-remove}
use sumi_os.Links.Frame.{IsRing-frame, list_add_next-SameAt, list_del-SameAt}
use sumi_os.PageAlloc.{max_page_order}
use sumi_os.PageAlloc.Blocks.{
  Blocks, size, size-pos, inside, inside_self, inside-last, spans, cover, cover-cons, cover-remove,
  spans-has, spans-le-cover, spans-add-spans-le-cover,
}

-- The address of the head of a free list.
abbrev pub head_at : ℕ → ℕ → ℕ
head_at base order = base + 16 * order

-- Each free list is a circular list of its blocks; no two blocks overlap, listed or held; no block
-- holds a list head or the null pointer, and none reaches the top of the address space.
pub record IsZone (links : Links) (base : ℕ) (b : Blocks) (held : ℕ → ℕ) : Type 0 where
  pub ring : (k : ℕ) → k < max_page_order → IsRing links (head_at base k) (b k)
  pub apart : (a : ℕ) → cover max_page_order b a + held a ≤ 1
  pub heads :
      (k : ℕ)
      → k < max_page_order
      → cover max_page_order b (head_at base k) + held (head_at base k) ≡ 0
  pub null : cover max_page_order b 0 + held 0 ≡ 0
  pub top : (a : ℕ) → 2 ^ 64 ≤ a → cover max_page_order b a + held a ≡ 0

pub IsZone-ext :
    {links : Links} {base : ℕ} {b : Blocks} {held held' : ℕ → ℕ}
    → ((a : ℕ) → held a ≡ held' a)
    → IsZone links base b held
    → IsZone links base b held'
IsZone-ext {links} {base} {b} e v = subst (IsZone links base b) (fun_ext e) v

module _ {links : Links} {base : ℕ} {b : Blocks} {held : ℕ → ℕ} (v : IsZone links base b held) where
  pub cover_of_has :
      (j x : ℕ) → j < max_page_order → has x (b j) ≡ true → 1 ≤ spans (size j) (b j) x
  cover_of_has j x lt m =
      omega (arith, spans-has (size j) (b j) x x m, inside_self x (size j) (size-pos j))

  -- A block that is listed at order `j` lies below the top.
  pub has-fits : (j x : ℕ) → j < max_page_order → has x (b j) ≡ true → x + size j ≤ 2 ^ 64
  has-fits j x lt m = elim (dec_lt (2 ^ 64) (x + size j)) [
    | yes above ↦ absurd (
        omega (
          arith,
          v.top (x + size j - 1) (omega arith),
          spans-has (size j) (b j) x (x + size j - 1) m,
          spans-le-cover max_page_order b j (x + size j - 1) lt,
          inside-last x (size j) (size-pos j),
        ))
    | no below ↦ omega arith
  ]

  -- An address that no listed block holds is in no list.
  pub not-has_of_cover :
      (j x : ℕ) → j < max_page_order → cover max_page_order b x ≡ 0 → has x (b j) ≡ false
  not-has_of_cover j x lt h = elim (Bool-cases (has x (b j))) [
    | inl m ↦ absurd (omega (arith, cover_of_has j x lt m, spans-le-cover max_page_order b j x lt))
    | inr m ↦ m
  ]

  -- Two free lists share no node.
  rings-apart :
      (j k a : ℕ)
      → j < max_page_order
      → k < max_page_order
      → j ≢ k
      → has a (head_at base k ∷ b k) ≡ true
      → has a (head_at base j ∷ b j) ≡ false
  rings-apart j k a lj lk ne m = elim (Bool-cases (has a (b j))) [
    | inl here ↦ elim (Bool-cases (has a (b k))) [
      | inl there ↦ absurd (
          omega (
            arith,
            cover_of_has j a lj here,
            cover_of_has k a lk there,
            spans-add-spans-le-cover max_page_order b j k a lj lk ne,
            v.apart a,
          ))
      | inr no_k ↦
          ground (arith, not-has_of_cover j (head_at base k) lj (omega (arith, v.heads k lk)))
    ]
    | inr no_j ↦
        ground (arith, not-has_of_cover k (head_at base j) lk (omega (arith, v.heads j lj)))
  ]

  -- `list_del` of a free block: from then on it is held.
  pub list_del-IsZone :
      (j x : ℕ)
      → j < max_page_order
      → has x (b j) ≡ true
      → IsZone
          (list_del links x)
          base
          (update b j (remove x (b j)))
          (λ a. held a + inside x (size j) a)
  list_del-IsZone j x lt m = record {
    ring = λ k lk. elim (Bool-cases (j == k)) [
      | inl same ↦ ground (arith, list_del-remove x (b j) (v.ring j lt) m)
      | inr other ↦ rw other (
          IsRing-frame (v.ring k lk)
            λ a i. list_del-SameAt x a (v.ring j lt) m (rings-apart j k a lt lk (ground arith) i))
    ];
    apart = λ a. omega (arith, moved a, v.apart a);
    heads = λ k lk. omega (arith, moved (head_at base k), v.heads k lk);
    null = omega (arith, moved 0, v.null);
    top = λ a h. omega (arith, moved a, v.top a h);
  }
    where
      moved :
          (a : ℕ)
          → cover max_page_order (update b j (remove x (b j))) a + inside x (size j) a
            ≡ cover max_page_order b a
      moved a = cover-remove max_page_order b j x a lt m

  -- `list_add_next` of a held block: from then on it is listed.
  pub list_add_next-IsZone :
      (j x : ℕ) (rest : ℕ → ℕ)
      → j < max_page_order
      → ((a : ℕ) → held a ≡ rest a + inside x (size j) a)
      → IsZone (list_add_next links (head_at base j) x) base (update b j (x ∷ b j)) rest
  list_add_next-IsZone j x rest lt was = record {
    ring = λ k lk. elim (Bool-cases (j == k)) [
      | inl same ↦ ground (arith, list_add_next-cons x (b j) (v.ring j lt) (fresh j lt))
      | inr other ↦ rw other (
          IsRing-frame (v.ring k lk) λ a i.
            list_add_next-SameAt x a (v.ring j lt) (rings-apart j k a lt lk (ground arith) i)
              (λ e. ground (arith, fresh k lk)))
    ];
    apart = λ a. omega (arith, moved a, v.apart a, was a);
    heads = λ k lk. omega (arith, moved (head_at base k), v.heads k lk, was (head_at base k));
    null = omega (arith, moved 0, v.null, was 0);
    top = λ a h. omega (arith, moved a, v.top a h, was a);
  }
    where
      moved :
          (a : ℕ)
          → cover max_page_order (update b j (x ∷ b j)) a
            ≡ cover max_page_order b a + inside x (size j) a
      moved a = cover-cons max_page_order b j x a lt

      self : inside x (size j) x ≡ 1
      self = inside_self x (size j) (size-pos j)

      fresh : (k : ℕ) → k < max_page_order → has x (head_at base k ∷ b k) ≡ false
      fresh k lk = ground (
        arith,
        not-has_of_cover k x lk (omega (arith, v.apart x, was x, self)),
        v.heads k lk,
        was x,
        self,
      )
