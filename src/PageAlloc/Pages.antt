-- ===== src/PageAlloc/Pages.antt =====
-- The fields of the pages that an allocation hands out, and the order that a size asks for.
use sumi_os.Base.{
  ℕ, zero, suc, ◌+◌, ◌-◌, ◌*◌, ◌^◌, ◌≤◌, ◌<◌, ◌≡◌, refl, ◌≢◌, false, ◌⊎◌, inl, inr, some, arith,
  u32, u64, Bool-cases, ltb, ◌<<◌, ◌∙◌, ◌==◌, ap,
}
use native.Mathlib.Decide.{dec_lt}
use native.Mathlib.Nat.{pow-le-pow_right}
use sumi_os.Layout.{page_struct_size, page_size}
use sumi_os.PageAlloc.{Page, take_pages, order_for}

-- The page struct `j` places behind `p`.
abbrev pub page_at : ℕ → ℕ → ℕ
page_at p j = p + page_struct_size * j

-- A page that is handed out: one reference more, and not free.
abbrev pub taken : Page → Page
taken g = record g { ref_count = u32 (g.ref_count + 1); is_free = false }

pub take_pages-outside :
    (left p i : ℕ) (page : ℕ → Page) (a : ℕ)
    → ((j : ℕ) → i ≤ j → j < i + left → a ≢ page_at p j)
    → take_pages left p i page a ≡ page a
unfolding take_pages
take_pages-outside zero p i page a out = refl
take_pages-outside (suc left) p i page a out =
    take_pages-outside left p (i + 1) _ a (λ j h g. out j (omega arith) (omega arith))
    ∙ ground (arith, out i)

-- Each page of the block is taken, once.
pub take_pages-inside :
    (left p i j : ℕ) (page : ℕ → Page)
    → i ≤ j
    → j < i + left
    → take_pages left p i page (page_at p j) ≡ taken (page (page_at p j))
unfolding take_pages
take_pages-inside zero p i j page h g = absurd (omega arith)
take_pages-inside (suc left) p i j page h g = elim (Bool-cases (i == j)) [
  | inl this ↦
      take_pages-outside left p (i + 1) _ (page_at p j) (λ k lo hi e. absurd (ground arith))
      ∙ ground arith
  | inr later ↦ take_pages-inside left p (i + 1) j _ (ground arith) (omega arith) ∙ ground arith
]

-- The loop of `mm_phys_alloc` ends with an order whose block is large enough, and no smaller one is.
pub order_for-least :
    (left order sz : ℕ)
    → order + left ≡ 52
    → sz ≤ 2 ^ 63
    → 0 < left
    → (k : ℕ) × (order_for left order sz ≡ some k)
      × (order ≤ k)
      × (k < 52)
      × (sz ≤ page_size * 2 ^ k)
      × ((k ≡ order) ⊎ (page_size * 2 ^ (k - 1) < sz))
unfolding order_for
order_for-least zero order sz e small pos = absurd (omega arith)
order_for-least (suc left) order sz e small pos =
    rw shift (elim (Bool-cases (ltb (page_size * 2 ^ order) sz)) [
      | inl more ↦
          let below : page_size * 2 ^ order < sz = ground arith in
          let (k, runs, lo, hi, fits, least) =
            order_for-least left (order + 1) sz (omega arith) small (not_last below) in
          rw more (k, runs, omega arith, hi, fits, inr (step k below least))
      | inr enough ↦ rw enough (order, refl, omega arith, omega arith, ground arith, inl refl)
    ])
  where
    shift : u64 (page_size << order) ≡ page_size * 2 ^ order
    shift = omega (arith, pow-le-pow_right {n = 2} (omega arith) {i = order} {j = 51} (omega arith))

    not_last : page_size * 2 ^ order < sz → 0 < left
    not_last below = elim (dec_lt 0 left) [
      | yes h ↦ h
      | no h ↦
          let last : order ≡ 51 = omega arith in absurd (omega (arith, ap (λ (k : ℕ). 2 ^ k) last))
    ]

    step :
        (k : ℕ)
        → page_size * 2 ^ order < sz
        → (k ≡ order + 1) ⊎ (page_size * 2 ^ (k - 1) < sz)
        → page_size * 2 ^ (k - 1) < sz
    step k below (inl e') = let e'' : k - 1 ≡ order = omega arith in rw e'' below
    step k below (inr h) = h
