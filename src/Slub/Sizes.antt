-- ===== src/Slub/Sizes.antt =====
-- The sizes of the ten caches: what `kmem_cache_init` sets up, which cache `slub_index` picks, and
-- how many objects the slub of a cache holds.
use sumi_os.Base.{
  ℕ, zero, suc, ◌+◌, ◌-◌, ◌*◌, ◌^◌, ◌≤◌, ◌<◌, ◌≡◌, ◌≢◌, ◌⊎◌, inl, inr, ◌↔◌, some, none, [], arith,
  refl, u64, ltb, Bool-cases, Option-cases, ◌==◌,
}
use native.Mathlib.Nat.{pow-le-pow_right, pow-suc}
use sumi_os.Links.{Links, list_head_init}
use sumi_os.Links.Ring.{IsRing}
use sumi_os.Links.Laws.{list_head_init-IsRing}
use sumi_os.Links.Frame.{SameAt, IsRing-frame}
use sumi_os.PageAlloc.Init.{list_head_init-SameAt}
use sumi_os.Slub.{
  Slubs, nr_kobject_size_type, full_at, partial_at, list_at, kmem_cache_init_loop, kmem_cache_init,
  slub_index, kmem_cache_alloc, kmalloc, with_links, with_cache,
}

-- Where `slub_index` finds a cache for `sz` bytes, it is one of the ten, its objects hold `sz`
-- bytes, and those of the cache before it do not.
pub slub_index-least :
    (sz i : ℕ)
    → slub_index sz ≡ some i
    → (i < nr_kobject_size_type) × (sz ≤ 16 * 2 ^ i) × ((i ≡ 0) ⊎ (16 * 2 ^ (i - 1) < sz))
unfolding slub_index
slub_index-least sz i h = ground arith

pub slub_index-none : (sz : ℕ) → (slub_index sz ≡ none) ↔ (8192 < sz)
unfolding slub_index
slub_index-none sz = ground arith

-- A request that is not above the largest object size goes to the cache whose objects are the least
-- that hold it, and a larger one gets the null pointer and changes nothing.
pub kmalloc-cache :
    (fuel sz : ℕ) (s : Slubs)
    → ((8192 < sz) × (kmalloc fuel sz s ≡ some (0, s)))
      ⊎ ((sz ≤ 8192)
          × ((i : ℕ) × (i < nr_kobject_size_type)
              × (sz ≤ 16 * 2 ^ i)
              × ((i ≡ 0) ⊎ (16 * 2 ^ (i - 1) < sz))
              × (kmalloc fuel sz s ≡ kmem_cache_alloc fuel i s)))
unfolding kmalloc
kmalloc-cache fuel sz s = elim (Bool-cases (ltb 8192 sz)) [
  | inl large ↦ inl (ground (arith, large), rw large refl)
  | inr small ↦ elim (Option-cases (slub_index sz)) [
    | inl nothing ↦ absurd (ground (arith, small, (slub_index-none sz).0 nothing))
    | inr (i, e) ↦
        let (lt, holds, least) = slub_index-least sz i e in
        inr (ground (arith, small), (i, lt, holds, least, rw small (rw (e, kmalloc) refl)))
  ]
]

-- A cache with no objects, of the size that belongs to its place.
pub record IsReady (s : Slubs) (k : ℕ) : Type 0 where
  pub size : (s.cache k).obj_size ≡ 16 * 2 ^ k
  pub no_slub : (s.cache k).slub ≡ 0
  pub no_objects : (s.cache k).freelist ≡ 0
  pub partial : IsRing s.zone.links (partial_at s k) []
  pub full : IsRing s.zone.links (full_at s k) []
  pub list : IsRing s.zone.links (list_at s k) []

module _ (s : Links) (p f l : ℕ) where
  abbrev pub three : Links
  three = list_head_init (list_head_init (list_head_init s p) f) l

  pub three-SameAt : (a : ℕ) → p ≢ a → f ≢ a → l ≢ a → SameAt s three a
  three-SameAt a np nf nl = (
    ground (
      arith,
      list_head_init-SameAt s p a np,
      list_head_init-SameAt (list_head_init s p) f a nf,
      list_head_init-SameAt (list_head_init (list_head_init s p) f) l a nl,
    ),
    ground (
      arith,
      list_head_init-SameAt s p a np,
      list_head_init-SameAt (list_head_init s p) f a nf,
      list_head_init-SameAt (list_head_init (list_head_init s p) f) l a nl,
    ),
  )

  three-IsRing : p ≢ f → p ≢ l → f ≢ l → IsRing three p [] × IsRing three f [] × IsRing three l []
  three-IsRing pf pl fl = (
    IsRing-frame
        (IsRing-frame (list_head_init-IsRing s p)
          (λ a m. list_head_init-SameAt _ f a (ground arith)))
        (λ a m. list_head_init-SameAt _ l a (ground arith)),
    IsRing-frame (list_head_init-IsRing _ f) (λ a m. list_head_init-SameAt _ l a (ground arith)),
    list_head_init-IsRing _ l,
  )

-- One round makes cache `i` ready and leaves the caches before it ready.
abbrev pub round : Slubs → (i orig_sz : ℕ) → Slubs
round s i orig_sz =
    with_cache (with_links s (three s.zone.links (partial_at s i) (full_at s i) (list_at s i))) i
      (record (s.cache i) { freelist = 0; slub = 0; obj_size = orig_sz })

round-here : (s : Slubs) (i : ℕ) → IsReady (round s i (16 * 2 ^ i)) i
round-here s i =
    let (p, f, l) =
      three-IsRing s.zone.links (partial_at s i) (full_at s i) (list_at s i) (λ e. omega arith)
        (λ e. omega arith) (λ e. omega arith) in
    record {
      size = ground arith;
      no_slub = ground arith;
      no_objects = ground arith;
      partial = p;
      full = f;
      list = l;
    }

round-before : (s : Slubs) (i k : ℕ) → k < i → IsReady s k → IsReady (round s i (16 * 2 ^ i)) k
round-before s i k lt r = record {
  size = ground (arith, r.size);
  no_slub = ground (arith, r.no_slub);
  no_objects = ground (arith, r.no_objects);
  partial =
      kept (partial_at s k) r.partial (λ e. omega arith) (λ e. omega arith) (λ e. omega arith);
  full = kept (full_at s k) r.full (λ e. omega arith) (λ e. omega arith) (λ e. omega arith);
  list = kept (list_at s k) r.list (λ e. omega arith) (λ e. omega arith) (λ e. omega arith);
}
  where
    kept :
        (h : ℕ)
        → IsRing s.zone.links h []
        → partial_at s i ≢ h
        → full_at s i ≢ h
        → list_at s i ≢ h
        → IsRing (three s.zone.links (partial_at s i) (full_at s i) (list_at s i)) h []
    kept h ring np nf nl = IsRing-frame ring λ a m.
        three-SameAt s.zone.links (partial_at s i) (full_at s i) (list_at s i) a
          (λ e. np (ground arith)) (λ e. nf (ground arith)) (λ e. nl (ground arith))

kmem_cache_init_loop-IsReady :
    (left i : ℕ) (s : Slubs)
    → i + left ≡ nr_kobject_size_type
    → ((k : ℕ) → k < i → IsReady s k)
    → (k : ℕ) → k < nr_kobject_size_type
    → IsReady (kmem_cache_init_loop left i (16 * 2 ^ i) s) k
unfolding kmem_cache_init_loop
kmem_cache_init_loop-IsReady zero i s e before k lt = before k (omega arith)
kmem_cache_init_loop-IsReady (suc left) i s e before k lt = rw doubled (
    kmem_cache_init_loop-IsReady left (i + 1) (round s i (16 * 2 ^ i)) (omega arith)
      (λ j below. elim (Bool-cases (j == i)) [
        | inl this ↦ let here : j ≡ i = ground arith in rw here (round-here s i)
        | inr earlier ↦ round-before s i j (ground arith) (before j (ground arith))
      ])
      k lt)
  where
    doubled : u64 (16 * 2 ^ i * 2) ≡ 16 * 2 ^ (i + 1)
    doubled =
        let next : i + 1 ≡ suc i = omega arith in
        rw next (
          omega (
            arith,
            pow-suc 2 i,
            pow-le-pow_right {n = 2} (omega arith) {i = i} {j = 10} (omega arith),
          ))

-- After `kmem_cache_init` cache `k` serves objects of `16 * 2 ^ k` bytes, has no slub and no object,
-- and its three lists are empty.
pub kmem_cache_init-IsReady :
    (s : Slubs) (k : ℕ) → k < nr_kobject_size_type → IsReady (kmem_cache_init s) k
unfolding kmem_cache_init
kmem_cache_init-IsReady s k lt =
    kmem_cache_init_loop-IsReady nr_kobject_size_type 0 s (omega arith)
      (λ j h. absurd (omega arith)) k lt
