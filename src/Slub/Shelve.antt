-- ===== src/Slub/Shelve.antt =====
-- The step of `kmem_cache_alloc` that puts a slub with no object left on the full list.
use sumi_os.Base.{
  ℕ, ◌<◌, ◌≡◌, refl, ◌≢◌, true, false, inl, inr, List, [], ◌∷◌, arith, has, ◌==◌, Bool-cases,
  if◌then◌else◌,
}
use sumi_os.Links.Ring.{IsRing}
use sumi_os.Links.Laws.{list_add_next-cons}
use sumi_os.Links.Frame.{SameAt, IsRing-frame, list_add_next-SameAt}
use sumi_os.PageAlloc.{max_page_order}
use sumi_os.PageAlloc.Blocks.{Blocks}
use sumi_os.PageAlloc.Rep.{IsZone, head_at}
use sumi_os.Slub.{Slubs, full_at, partial_at, shelve}

-- A shelved slub stands in front of the full list.
abbrev pub shelved : ℕ → List ℕ → List ℕ
shelved slub xs = if slub == 0 then xs else slub ∷ xs

pub shelved-some : (slub : ℕ) (xs : List ℕ) → slub ≢ 0 → shelved slub xs ≡ slub ∷ xs
shelved-some slub xs ne = ground arith

-- The lists of cache `i`: no partial slub, the full slubs `xs`, and the links of the cache share no
-- node with the free lists of the buddy allocator.
pub record HasLists (s : Slubs) (i : ℕ) (b : Blocks) (xs : List ℕ) : Type 0 where
  pub partial : IsRing s.zone.links (partial_at s i) []
  pub full : IsRing s.zone.links (full_at s i) xs
  pub fresh : has (s.cache i).slub (full_at s i ∷ xs) ≡ false
  pub partial_apart : has (partial_at s i) (full_at s i ∷ (s.cache i).slub ∷ xs) ≡ false
  pub blocks_apart :
      (k a : ℕ)
      → k < max_page_order
      → has a (head_at s.zone.freelist k ∷ b k) ≡ true
      → has a (full_at s i ∷ (s.cache i).slub ∷ xs) ≡ false

module _ (s : Slubs) (i : ℕ) (b : Blocks) (held : ℕ → ℕ) (xs : List ℕ) (l : HasLists s i b xs) where
  pub shelve-full : IsRing (shelve i s).zone.links (full_at s i) (shelved (s.cache i).slub xs)
  unfolding shelve
  shelve-full = elim (Bool-cases ((s.cache i).slub == 0)) [
    | inl none_there ↦ rw none_there l.full
    | inr there ↦ rw there (list_add_next-cons (s.cache i).slub xs l.full l.fresh)
  ]

  pub shelve-partial : IsRing (shelve i s).zone.links (partial_at s i) []
  unfolding shelve
  shelve-partial = elim (Bool-cases ((s.cache i).slub == 0)) [
    | inl none_there ↦ rw none_there l.partial
    | inr there ↦ rw there (
        IsRing-frame l.partial λ a m.
          list_add_next-SameAt (s.cache i).slub a l.full (ground (arith, l.partial_apart))
            (λ e. absurd (ground (arith, l.partial_apart))))
  ]

  pub shelve-IsZone :
      IsZone s.zone.links s.zone.freelist b held
      → IsZone (shelve i s).zone.links s.zone.freelist b held
  unfolding shelve
  shelve-IsZone v = elim (Bool-cases ((s.cache i).slub == 0)) [
    | inl none_there ↦ rw none_there v
    | inr there ↦ rw there (record {
      ring = λ k lt. IsRing-frame (v.ring k lt) λ a m.
          list_add_next-SameAt (s.cache i).slub a l.full (ground (arith, l.blocks_apart k a lt m))
            (λ e. absurd (ground (arith, l.blocks_apart k a lt m)));
      apart = v.apart;
      heads = v.heads;
      null = v.null;
      top = v.top;
    })
  ]

-- Shelving leaves the links of all other nodes alone.
pub shelve-SameAt :
    (s : Slubs) (i a : ℕ) (xs : List ℕ)
    → IsRing s.zone.links (full_at s i) xs
    → has a (full_at s i ∷ (s.cache i).slub ∷ xs) ≡ false
    → SameAt s.zone.links (shelve i s).zone.links a
unfolding shelve
shelve-SameAt s i a xs ring m = elim (Bool-cases ((s.cache i).slub == 0)) [
  | inl none_there ↦ rw none_there (refl, refl)
  | inr there ↦ rw there (
      list_add_next-SameAt (s.cache i).slub a ring (ground (arith, m))
        (λ e. absurd (ground (arith, m, e))))
]

module _ (i : ℕ) (s : Slubs) where
  pub shelve-cache : (shelve i s).cache i ≡ record (s.cache i) { slub = 0 }
  unfolding shelve
  shelve-cache = ground arith

  pub shelve-lock : (shelve i s).zone.freelist_lock ≡ s.zone.freelist_lock
  unfolding shelve
  shelve-lock = ground arith

  pub shelve-base : (shelve i s).zone.freelist ≡ s.zone.freelist
  unfolding shelve
  shelve-base = ground arith

  pub shelve-place : (shelve i s).kmem_cache_list ≡ s.kmem_cache_list
  unfolding shelve
  shelve-place = ground arith

  pub shelve-word : (shelve i s).zone.word ≡ s.zone.word
  unfolding shelve
  shelve-word = ground arith

  pub shelve-others : (j : ℕ) → i ≢ j → (shelve i s).cache j ≡ s.cache j
  unfolding shelve
  shelve-others j ne = ground arith
