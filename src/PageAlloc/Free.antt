-- ===== src/PageAlloc/Free.antt =====
-- `__free_pages`: after the merging loop, the block's way back into its list.
use sumi_os.Base.{ℕ, ◌+◌, ◌-◌, ◌<◌, ◌≡◌, refl, false, ◌∷◌, arith, ◌==◌, update, leb}
use sumi_os.Links.{Links}
use sumi_os.PageAlloc.{max_page_order, Zone, put_block, free_pages_unlocked}
use sumi_os.PageAlloc.Blocks.{Blocks, size, inside, cover, cover-cons}
use sumi_os.PageAlloc.Rep.{IsZone, list_add_next-IsZone}
use sumi_os.PageAlloc.Merge.{Matches, IsMerged, held-ne-null, merge_loop-IsMerged}

-- What a free of the block `p` does to a zone: the block goes from the held ones to the listed ones.
pub record IsFreed (links : Links) (base : ℕ) (b : Blocks) (rest : ℕ → ℕ) (p order : ℕ)
    : Type 0 where
  pub blocks : Blocks
  pub zone : IsZone links base blocks rest
  pub kept :
      (a : ℕ) → cover max_page_order blocks a ≡ cover max_page_order b a + inside p (size order) a

module _ (z : Zone) (p order : ℕ) (b : Blocks) (rest : ℕ → ℕ) where
  put_block-IsFreed :
      (r : ℕ × ℕ × Zone)
      → IsMerged z b rest p order r
      → IsFreed (put_block r.0 r.1 r.2).links z.freelist b rest p order
  unfolding put_block
  put_block-IsFreed r m = record {
    blocks = update m.blocks r.1 (r.0 ∷ m.blocks r.1);
    zone = rw m.base (list_add_next-IsZone m.zone r.1 r.0 rest m.in_range (λ a. refl));
    kept = λ a. omega (arith, m.kept a, cover-cons max_page_order m.blocks r.1 r.0 a m.in_range);
  }

  pub free_pages_unlocked-IsFreed :
      IsZone z.links z.freelist b (λ a. rest a + inside p (size order) a)
      → order < max_page_order
      → Matches (max_page_order - 1 - order) p order z b
      → IsFreed (free_pages_unlocked z p order).links z.freelist b rest p order
  unfolding free_pages_unlocked
  free_pages_unlocked-IsFreed v lt m =
      let not_null : (p == 0) ≡ false = ground (arith, held-ne-null rest p order v lt) in
      let valid : leb max_page_order order ≡ false = ground arith in
      rw (not_null, valid)
        (put_block-IsFreed _
          (merge_loop-IsMerged (max_page_order - 1 - order) p order z b rest (omega arith) v m))
