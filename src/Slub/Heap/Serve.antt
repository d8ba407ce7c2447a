-- ===== src/Slub/Heap/Serve.antt =====
-- An empty cache that is served by the buddy allocator.
use sumi_os.Base.{ℕ, ◌+◌, ◌≤◌, ◌<◌, ◌≡◌, ◌≢◌, List, arith, sym, ◌∙◌, ap, update, sum-change, le-sum}
use sumi_os.Lock.{lock_free, lock_used}
use sumi_os.PageAlloc.Blocks.{Blocks, size, inside, spans}
use sumi_os.Slub.{Cache, Slubs}
use sumi_os.Slub.Trim.{Chain, spaced}
use sumi_os.Slub.Refill.{IsFilled}
use sumi_os.Slub.Take.{with_lock, with_lock-cache}
use sumi_os.Slub.Serve.{IsServed}
use sumi_os.Slub.Heap.{
  obj_size_of, order_of, owned, owners, frees, Object, IsCache, IsPlaced, IsHeap,
}
use sumi_os.Slub.Heap.Fresh.{Chain-frame}
use sumi_os.Slub.Heap.Pop.{inside-none, obj_size-pos, IsCache-same}
use sumi_os.Slub.Heap.Rings.{served-full, served-partial, served-others}

-- A byte of a free object is counted.
pub frees-has :
    (s : Slubs) (left : ℕ → ℕ) (j m : ℕ)
    → j < 10
    → inside (s.cache j).freelist (spaced (obj_size_of j) (left j)) m ≤ frees s left m
frees-has s left j m lt =
    le-sum 10 j (λ j. inside (s.cache j).freelist (spaced (obj_size_of j) (left j)) m) lt

module _ {s s' : Slubs} {b : Blocks} {rest : ℕ → ℕ} {full : ℕ → List ℕ} {left : ℕ → ℕ}
    {outs : List Object} (h : IsHeap s b rest full left outs) (i more obj : ℕ) (lt : i < 10)
    (none_left : left i ≡ 0) (f : IsFilled (obj_size_of i) more)
    (unlocked : (s'.cache i).lock ≡ lock_free)
    (m : IsServed (with_lock i lock_used s) i b (λ a. rest a + owners s full a) more obj s') where
  -- The lists behind the call.
  abbrev pub now_full : ℕ → List ℕ
  now_full = update full i (owned s full i)

  pub size-locked : ((with_lock i lock_used s).cache i).obj_size ≡ obj_size_of i
  size-locked = ap (λ (c : Cache). c.obj_size) (with_lock-cache i lock_used s) ∙ (h.cache i lt).size

  cache-other : (j : ℕ) → i ≢ j → s'.cache j ≡ s.cache j
  cache-other j ne = m.others j ne ∙ ground (arith, ne)

  -- The share of each struct page changes by that of cache `i`.
  pub owners-served :
      (a n : ℕ)
      → spans (size (order_of i)) (owned s' now_full i) a
        ≡ spans (size (order_of i)) (owned s full i) a + n
      → owners s' now_full a ≡ owners s full a + n
  owners-served a n e = omega (
    arith,
    e,
    sum-change 10 i (λ j. spans (size (order_of j)) (owned s' now_full j) a)
        (λ j. spans (size (order_of j)) (owned s full j) a) lt
        (λ j ne. rw (cache-other j ne) (ground (arith, ne))),
  )

  pub frees-served :
      (k a n : ℕ)
      → inside (s'.cache i).freelist (spaced (obj_size_of i) k) a ≡ n
      → frees s' (update left i k) a ≡ frees s left a + n
  frees-served k a n e = omega (
    arith,
    sum-change 10 i
        (λ j. inside (s'.cache j).freelist (spaced (obj_size_of j) (update left i k j)) a)
        (λ j. inside (s.cache j).freelist (spaced (obj_size_of j) (left j)) a) lt
        (λ j ne. rw (cache-other j ne) (ground (arith, ne))),
    here,
    was,
  )
    where
      here : inside (s'.cache i).freelist (spaced (obj_size_of i) (update left i k i)) a ≡ n
      here = ground (arith, e)

      was : inside (s.cache i).freelist (spaced (obj_size_of i) (left i)) a ≡ 0
      was = rw none_left (inside-none (s.cache i).freelist a)

  pub IsPlaced-served : IsPlaced s'
  IsPlaced-served = record {
    behind = rw m.place h.placed.behind;
    free_lists = rw m.zone_base h.placed.free_lists;
    apart = rw (m.place, m.zone_base) h.placed.apart;
  }

  pub cache-served :
      (k j : ℕ)
      → j < 10
      → i ≢ j
      → ((a : ℕ)
          → inside (s.cache j).freelist (spaced (obj_size_of j) (left j)) a ≡ 1
          → s'.zone.word a ≡ s.zone.word a)
      → IsCache s' now_full (update left i k) j
  cache-served k j lt' ne words =
      let c = h.cache j lt' in
      let (partial, ring) = served-others h i more obj lt m j lt' ne in
      let same : now_full j ≡ full j = ground (arith, ne) in
      IsCache-same s s' full now_full left (update left i k) j c (cache-other j ne)
        (ground (arith, ne)) partial (rw same ring)
        (Chain-frame s.zone.word s'.zone.word (s.cache j).freelist (obj_size_of j) (left j)
          (obj_size-pos j) words c.chain)

  pub cache-own :
      (k : ℕ)
      → (k ≡ 0 → (s'.cache i).freelist ≡ 0)
      → (k ≢ 0 → (s'.cache i).freelist ≢ 0)
      → Chain s'.zone.word (s'.cache i).freelist (obj_size_of i) k
      → IsCache s' now_full (update left i k) i
  cache-own k z nz chain =
      let now : update left i k i ≡ k = ground arith in
      let lists : now_full i ≡ owned s full i = ground arith in
      record {
        unlocked = unlocked;
        size = m.size ∙ size-locked;
        partial = served-partial h i more obj lt m;
        ring = rw lists (served-full h i more obj lt m);
        none_left = λ e. z (sym now ∙ e);
        some_left = λ ne. nz (λ e. ne (now ∙ e));
        chain = rw now chain;
      }
