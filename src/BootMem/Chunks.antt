-- ===== src/BootMem/Chunks.antt =====
-- The chunks of the boot stage's linear allocator, and the memory size that it works with.
use sumi_os.Base.{
  ℕ, ◌+◌, ◌^◌, ◌≤◌, ◌<◌, ◌≡◌, ◌≢◌, ◌⊎◌, inl, inr, arith, leb, ◌==◌, Bool-cases, ap, u64, ◌∙◌, ◌*◌,
  ◌/◌,
}
use sumi_os.Layout.{align_page}
use sumi_os.BootMem.{BootMem, boot_mm_alloc}

no_wrap :
    (s : BootMem) (sz : ℕ)
    → s.boot_mem_alloc_start < 2 ^ 62
    → sz < 2 ^ 62
    → u64 (s.boot_mem_alloc_start + align_page sz) ≡ s.boot_mem_alloc_start + align_page sz
no_wrap s sz low small = omega arith

-- The chunk of `n` pages is the next one, and the state moves behind it.
abbrev pub Gives : BootMem → (sz n : ℕ) → Type 0
Gives s sz n = boot_mm_alloc s sz ≡ (
  s.boot_mem_alloc_start,
  record s { boot_mem_alloc_start = s.boot_mem_alloc_start + 4096 * n },
)

-- With the next chunk below 2 ^ 62, a request for 1 to 2 ^ 62 - 1 bytes is served with the next
-- pages, as few as hold that many bytes, and the state moves behind them, where these pages end
-- before the end of memory. A request for nothing, and one for which no number of pages that is
-- large enough ends before the end of memory, gets 0, and the state is as it was.
pub boot_mm_alloc-least :
    (s : BootMem) (sz : ℕ)
    → s.boot_mem_alloc_start < 2 ^ 62
    → sz < 2 ^ 62
    → ((sz ≢ 0)
        × ((n : ℕ) × (sz ≤ 4096 * n)
            × ((k : ℕ) → sz ≤ 4096 * k → n ≤ k)
            × (s.boot_mem_alloc_start + 4096 * n < s.boot_mem_total)
            × Gives s sz n))
      ⊎ (((k : ℕ) → sz ≢ 0 → sz ≤ 4096 * k → s.boot_mem_total ≤ s.boot_mem_alloc_start + 4096 * k)
          × (boot_mm_alloc s sz ≡ (0, s)))
unfolding boot_mm_alloc
boot_mm_alloc-least s sz low small =
    let n = (sz + 4095) / 4096 in
    let whole : align_page sz ≡ 4096 * n = omega arith in
    elim (Bool-cases (sz == 0)) [
      | inl nothing ↦
          inr
            (λ k some_bytes. absurd (ground (arith, nothing, some_bytes)), ground (arith, nothing))
      | inr much ↦
          elim (Bool-cases (leb s.boot_mem_total (u64 (align_page sz + s.boot_mem_alloc_start)))) [
            | inl big ↦
                let past : s.boot_mem_total ≤ s.boot_mem_alloc_start + 4096 * n =
                  ground (arith, big, whole, no_wrap s sz low small) in
                inr (λ k some_bytes le. omega (arith, past, le), ground (arith, big, much))
            | inr fits ↦ inl (
              ground (arith, much),
              (
                n,
                omega arith,
                λ k le. omega (arith, le),
                ground (arith, fits, whole, no_wrap s sz low small),
                ground (
                  arith,
                  much,
                  fits,
                  ap (λ a. record s { boot_mem_alloc_start = a })
                      (no_wrap s sz low small ∙ ap (λ (q : ℕ). s.boot_mem_alloc_start + q) whole),
                ),
              ),
            )
          ]
    ]
