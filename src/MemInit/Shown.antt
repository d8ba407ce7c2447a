-- ===== src/MemInit/Shown.antt =====
-- Which pages the direct mapping area shows while mm/mm_init.c maps the memory into it.
use sumi_os.Base.{
  ℕ, zero, suc, ◌+◌, ◌-◌, ◌*◌, ◌/◌, ◌^◌, ◌<◌, ◌≤◌, ◌≡◌, inl, inr, arith, ◌∙◌, sym, ap, ◌⊎◌, ◌==◌,
}
use native.Mathlib.Decide.{dec_lt}
use sumi_os.Layout.{page_mask, kernel_va_is_phys_zero, kernel_direct_mapping_area}
use sumi_os.PageTable.Range.{IsRange}
use sumi_os.MemInit.{Init}
use sumi_os.MemInit.Works.{walk_in, walk-page, Keeps}
use sumi_os.MemInit.Direct.{StartsWell}

-- Address `a` is found at its place in the direct mapping area.
abbrev pub Shows : Init → ℕ → Type 0
Shows s a = walk_in s (kernel_direct_mapping_area + a) ≡ page_mask a

pub Shows-kept : (a : ℕ) (s s' : Init) → a < 2 ^ 46 → Keeps s s' → Shows s a → Shows s' a
Shows-kept a s s' low keeps shown =
    keeps (kernel_direct_mapping_area + a) (λ gone. omega (arith, low, shown, gone)) ∙ shown

direct-special :
    (a : ℕ)
    → a < 2 ^ 46
    → StartsWell a
    → kernel_va_is_phys_zero (kernel_direct_mapping_area + a) ≡ (a / 4096 == 0)
direct-special a low (inl zero_page) = ground (arith, zero_page)
direct-special a low (inr some_page) = ground (arith, low, some_page)

direct-same :
    (a b : ℕ)
    → a < 2 ^ 46
    → b < 2 ^ 46
    → StartsWell a
    → StartsWell b
    → a / 4096 ≡ b / 4096
    → (s : Init)
    → walk_in s (kernel_direct_mapping_area + a) ≡ walk_in s (kernel_direct_mapping_area + b)
direct-same a b low low' well well' same s =
    walk-page kernel_direct_mapping_area s.zone.word s.zone.kern_pgtable
      (kernel_direct_mapping_area + a) (kernel_direct_mapping_area + b) (omega (arith, same))
      (direct-special a low well ∙ (ap (λ q. q == 0) same ∙ sym (direct-special b low' well')))

pub StartsWell-next : (pa i : ℕ) → StartsWell pa → StartsWell (pa + 4096 * i)
StartsWell-next pa zero (inl zero_page) = inl (omega (arith, zero_page))
StartsWell-next pa (suc i) (inl zero_page) = inr (omega arith)
StartsWell-next pa i (inr some_page) = inr (omega (arith, some_page))

module _ (left pa : ℕ) (s s' : Init) (level level' : ℕ → ℕ) (well : StartsWell pa)
    (low : pa + 4096 * left ≤ 2 ^ 46) (root : s'.zone.kern_pgtable ≡ s.zone.kern_pgtable)
    (r : IsRange kernel_direct_mapping_area level s.zone.word s.zone.kern_pgtable
      (kernel_direct_mapping_area + pa)
      (page_mask pa)
      left
      level'
      s'.zone.word) where
  -- The pages of the range are shown.
  pub range-Shows : (i : ℕ) → i < left → Shows s' (pa + 4096 * i)
  range-Shows i lt =
      let e : kernel_direct_mapping_area + (pa + 4096 * i)
          ≡ kernel_direct_mapping_area + pa + 4096 * i =
        omega arith in
      let e' : page_mask (pa + 4096 * i) ≡ page_mask pa + 4096 * i = omega arith in
      rw (e, e', root) (r.found i lt)

  others-Shows :
      (a : ℕ)
      → a < 2 ^ 46
      → (a / 4096 < pa / 4096) ⊎ (pa / 4096 + left ≤ a / 4096)
      → Shows s a
      → Shows s' a
  others-Shows a low' out shown = rw root (
      r.others (kernel_direct_mapping_area + a) (inr (λ gone. omega (arith, low', shown, gone)))
        (λ i lt same. omega (arith, low, low', out, lt, same))
      ∙ shown)

  -- A page that was shown before is shown afterwards.
  pub range-Shows_kept : (a : ℕ) → a < 2 ^ 46 → StartsWell a → Shows s a → Shows s' a
  range-Shows_kept a low' well' shown = elim (dec_lt (a / 4096) (pa / 4096)) [
    | yes below ↦ others-Shows a low' (inl below) shown
    | no from ↦ elim (dec_lt (a / 4096) (pa / 4096 + left)) [
      | no behind ↦ others-Shows a low' (inr (omega (arith, behind))) shown
      | yes upto ↦
          let i : ℕ = a / 4096 - pa / 4096 in
          let lt : i < left = omega (arith, from, upto) in
          let b : ℕ = pa + 4096 * i in
          let e : a / 4096 ≡ b / 4096 = omega (arith, from) in
          direct-same a b low' (omega (arith, low, lt)) well' (StartsWell-next pa i well) e s'
          ∙ (range-Shows i lt ∙ omega (arith, e))
    ]
  ]
