-- ===== src/Slub/Take.antt =====
-- `kmem_cache_alloc` of a cache with a free object.
use sumi_os.Base.{ℕ, suc, ◌≡◌, refl, ◌≢◌, false, some, arith, ◌==◌, ◌∙◌, ap}
use sumi_os.Lock.{lock_free, lock_used, spin_lock, spin_unlock}
use sumi_os.Slub.{Slubs, with_cache, redo, kmem_cache_alloc}

abbrev pub with_lock : ℕ → ℕ → Slubs → Slubs
with_lock i l s = with_cache s i (record (s.cache i) { lock = l })

pub with_lock-cache :
    (i l : ℕ) (s : Slubs) → (with_lock i l s).cache i ≡ record (s.cache i) { lock = l }
with_lock-cache i l s = ground arith

abbrev pub popped : ℕ → Slubs → Slubs
popped i s = with_cache s i (record (s.cache i) { freelist = s.zone.word (s.cache i).freelist })

-- What `kmem_cache_alloc` makes of what `redo` comes back with.
pub kmem_cache_alloc-returns :
    (fuel i : ℕ) (s : Slubs) (obj : ℕ) (s' : Slubs)
    → (s.cache i).lock ≡ lock_free
    → redo fuel i (with_lock i lock_used s) ≡ some (obj, s')
    → (s'.cache i).lock ≡ lock_used
    → kmem_cache_alloc fuel i s ≡ some (obj, with_lock i lock_free s')
unfolding kmem_cache_alloc spin_lock spin_unlock
kmem_cache_alloc-returns fuel i s obj s' free e used = ground (arith, e)

pub redo-pop :
    (fuel i : ℕ) (s : Slubs)
    → (s.cache i).freelist ≢ 0
    → redo (suc fuel) i s ≡ some ((s.cache i).freelist, popped i s)
unfolding redo
redo-pop fuel i s ne = let found : ((s.cache i).freelist == 0) ≡ false = ground arith in rw found

-- What taking the first object of the free list does: the cache's list goes on at the object's first
-- word, and nothing else changes.
pub record IsPopped (s : Slubs) (i p : ℕ) (s' : Slubs) : Type 0 where
  pub cache : s'.cache i ≡ record (s.cache i) { freelist = s.zone.word p }
  pub others : (j : ℕ) → i ≢ j → s'.cache j ≡ s.cache j
  pub zone : s'.zone ≡ s.zone
  pub place : s'.kmem_cache_list ≡ s.kmem_cache_list

-- Under a free lock, a cache with a free object hands out the first one and goes on at the object
-- behind it; no other cache and nothing of the zone changes, and the lock is free afterwards, with
-- fuel for one round or more.
pub kmem_cache_alloc-IsPopped :
    (fuel i p : ℕ) (s : Slubs)
    → (s.cache i).lock ≡ lock_free
    → (s.cache i).freelist ≡ p
    → p ≢ 0
    → (s' : Slubs) × (kmem_cache_alloc (suc fuel) i s ≡ some (p, s')) × IsPopped s i p s'
kmem_cache_alloc-IsPopped fuel i p s free at ne =
    let mid : Slubs = with_lock i lock_used s in
    let first : (mid.cache i).freelist ≡ p = ground arith in
    let end : Slubs = popped i mid in
    (
      with_lock i lock_free end,
      kmem_cache_alloc-returns (suc fuel) i s p end free
          (redo-pop fuel i mid (λ e. ne (ground arith)) ∙ ap (λ (q : ℕ). some (q, end)) first)
          (ground arith),
      record { cache = ground arith; others = λ j ne'. ground arith; zone = refl; place = refl },
    )
