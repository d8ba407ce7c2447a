-- ===== src/Slub/Full.antt =====
-- The full list of a cache with no free object, over the whole call of `kmem_cache_alloc`.
use sumi_os.Base.{ℕ, suc, ◌≡◌, ap, arith, List, [], ◌∷◌, true, some, has}
use sumi_os.Links.Ring.{IsRing}
use sumi_os.Links.Frame.{IsRing-frame}
use sumi_os.Lock.{lock_free, lock_used}
use sumi_os.PageAlloc.Blocks.{Blocks}
use sumi_os.PageAlloc.Rep.{IsZone}
use sumi_os.PageAlloc.Array.{InArray}
use sumi_os.PageAlloc.Frame.{Elsewhere}
use sumi_os.Slub.{Cache, Slubs, full_at, partial_at, kmem_cache_alloc}
use sumi_os.Slub.Refill.{IsFilled}
use sumi_os.Slub.Shelve.{HasLists, shelved, shelve-full, shelve-partial, shelve-base}
use sumi_os.Slub.Take.{with_lock, with_lock-cache}
use sumi_os.Slub.Serve.{HasLists-lock, IsServed, kmem_cache_alloc-IsServed}

-- The nodes of the cache's lists, with the slub that is shelved, are none of the buddy allocator's.
pub record IsApart (s : Slubs) (i : ℕ) (b : Blocks) (xs : List ℕ) : Type 0 where
  pub full :
      (a : ℕ)
      → has a (full_at s i ∷ shelved (s.cache i).slub xs) ≡ true
      → Elsewhere s.zone.freelist b a
  pub partial : Elsewhere s.zone.freelist b (partial_at s i)

-- The lists of the cache after the call: the slub that was the current one stands in front of the
-- full ones, and the partial list is empty.
pub record IsShelved (s : Slubs) (i : ℕ) (xs : List ℕ) (s' : Slubs) : Type 0 where
  pub full : IsRing s'.zone.links (full_at s' i) (shelved (s.cache i).slub xs)
  pub partial : IsRing s'.zone.links (partial_at s' i) []

served-IsShelved :
    (i : ℕ) (s s' : Slubs) (b : Blocks) (held : ℕ → ℕ) (xs : List ℕ) (more obj : ℕ)
    → HasLists s i b xs
    → IsApart s i b xs
    → IsServed s i b held more obj s'
    → IsShelved s i xs s'
served-IsShelved i s s' b held xs more obj l away m = record {
  full = rw m.place (
      IsRing-frame (shelve-full s i b held xs l)
        λ a there. rw m.zone_links (m.block.others a (rw (shelve-base i s) (away.full a there))));
  partial = rw m.place (
      IsRing-frame (shelve-partial s i b held xs l) λ a there.
        let e : a ≡ partial_at s i = ground (arith, there) in
        rw m.zone_links (m.block.others a (rw (shelve-base i s) (rw e away.partial))));
}

-- Under a free lock of the cache and of a well-formed zone whose blocks have their struct pages in
-- the array, where the nodes of the cache's lists are none of the buddy allocator's, a cache with
-- no free object and no partial slub puts the slub that was its current one in front of its full
-- slubs, and is served by the buddy allocator in two rounds, or gets nothing where that has no
-- block; the lock of the cache is free afterwards.
pub kmem_cache_alloc-IsShelved :
    (fuel i : ℕ) (s : Slubs) (b : Blocks) (held : ℕ → ℕ) (xs : List ℕ) (more : ℕ)
    → (s.cache i).lock ≡ lock_free
    → IsZone s.zone.links s.zone.freelist b held
    → InArray b
    → s.zone.freelist_lock ≡ lock_free
    → IsFilled (s.cache i).obj_size more
    → HasLists s i b xs
    → IsApart s i b xs
    → (s.cache i).freelist ≡ 0
    → (obj : ℕ) × (s' : Slubs) × (kmem_cache_alloc (suc (suc fuel)) i s ≡ some (obj, s'))
      × ((s'.cache i).lock ≡ lock_free)
      × IsServed (with_lock i lock_used s) i b held more obj s'
      × IsShelved s i xs s'
kmem_cache_alloc-IsShelved fuel i s b held xs more unlocked v r free f l away none_left =
    let (obj, s', runs, kept, served) =
      kmem_cache_alloc-IsServed fuel i s b held xs more unlocked v r free f l none_left in
    let same : ((with_lock i lock_used s).cache i).slub ≡ (s.cache i).slub =
      ap (λ (c : Cache). c.slub) (with_lock-cache i lock_used s) in
    let shelved' =
      served-IsShelved i (with_lock i lock_used s) s' b held xs more obj
        (HasLists-lock i lock_used s b xs l)
        (record { full = λ a there. away.full a (rw same at there); partial = away.partial })
        served in
    (
      obj,
      s',
      runs,
      kept,
      served,
      record { full = rw same at shelved'.full; partial = shelved'.partial },
    )
