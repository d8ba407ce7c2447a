-- ===== src/Slub/Heap/Init.antt =====
-- `kmem_cache_init` sets up a heap in which no object is free or handed out.
use sumi_os.Base.{
  ℕ, zero, suc, ◌+◌, ◌*◌, ◌^◌, ◌≤◌, ◌<◌, ◌≡◌, refl, true, inl, inr, List, [], ◌∷◌, arith, has, ◌==◌,
  ◌⊎◌, ◌∙◌, Bool-cases, ap, u64, sum-same,
}
use native.Mathlib.Decide.{dec_lt}
use sumi_os.Layout.{kernel_page_array}
use sumi_os.Links.Frame.{SameAt, IsRing-frame}
use sumi_os.Lock.{lock_free}
use sumi_os.PageAlloc.{max_page_order}
use sumi_os.PageAlloc.Blocks.{Blocks, size, spans, spans-le-cover, cover}
use sumi_os.PageAlloc.Aligned.{AllAligned}
use sumi_os.PageAlloc.Array.{InArray}
use sumi_os.PageAlloc.Rep.{IsZone, IsZone-ext, head_at, cover_of_has}
use sumi_os.Slub.{Slubs, full_at, partial_at, list_at, kmem_cache_init_loop, kmem_cache_init}
use sumi_os.Slub.Sizes.{kmem_cache_init-IsReady, round, three-SameAt}
use sumi_os.Slub.Heap.Pop.{inside-none}
use sumi_os.Slub.Heap.{order_of, owned, owners, frees, IsCache, IsPlaced, IsHeap}

-- What the loop leaves alone: all but the lists and the fields of the caches.
record IsKept (s s' : Slubs) : Type 0 where
  pub base : s'.zone.freelist ≡ s.zone.freelist
  pub lock : s'.zone.freelist_lock ≡ s.zone.freelist_lock
  pub place : s'.kmem_cache_list ≡ s.kmem_cache_list
  pub locks : (j : ℕ) → (s'.cache j).lock ≡ (s.cache j).lock
  pub links :
      (a : ℕ)
      → (a < s.kmem_cache_list) ⊎ (s.kmem_cache_list + 800 ≤ a)
      → SameAt s.zone.links s'.zone.links a

round-IsKept : (s : Slubs) (i orig_sz : ℕ) → i < 10 → IsKept s (round s i orig_sz)
round-IsKept s i orig_sz lt = record {
  base = refl;
  lock = refl;
  place = refl;
  locks = λ j. ground arith;
  links = λ a out.
      three-SameAt s.zone.links (partial_at s i) (full_at s i) (list_at s i) a
        (λ e. omega (arith, e, out)) (λ e. omega (arith, e, out)) (λ e. omega (arith, e, out));
}

IsKept-trans : {s t u : Slubs} → IsKept s t → IsKept t u → IsKept s u
IsKept-trans k l = record {
  base = l.base ∙ k.base;
  lock = l.lock ∙ k.lock;
  place = l.place ∙ k.place;
  locks = λ j. l.locks j ∙ k.locks j;
  links = λ a out.
      let one = k.links a out in
      let two = l.links a (rw k.place out) in (two.0 ∙ one.0, two.1 ∙ one.1);
}

kmem_cache_init_loop-IsKept :
    (left i orig_sz : ℕ) (s : Slubs)
    → i + left ≡ 10
    → IsKept s (kmem_cache_init_loop left i orig_sz s)
unfolding kmem_cache_init_loop
kmem_cache_init_loop-IsKept zero i orig_sz s e = record {
  base = refl;
  lock = refl;
  place = refl;
  locks = λ j. refl;
  links = λ a out. (refl, refl);
}
kmem_cache_init_loop-IsKept (suc left) i orig_sz s e =
    IsKept-trans (round-IsKept s i orig_sz (omega arith)) (
      kmem_cache_init_loop-IsKept left (i + 1) (u64 (orig_sz * 2)) (round s i orig_sz)
        (omega arith))

kmem_cache_init-IsKept : (s : Slubs) → IsKept s (kmem_cache_init s)
unfolding kmem_cache_init
kmem_cache_init-IsKept s = kmem_cache_init_loop-IsKept 10 0 16 s refl

module _ (s : Slubs) (b : Blocks) (rest : ℕ → ℕ) (v : IsZone s.zone.links s.zone.freelist b rest)
    (r : InArray b) (p : IsPlaced s) where
  abbrev no_lists : ℕ → List ℕ
  no_lists _ = []

  abbrev none_left : ℕ → ℕ
  none_left _ = 0

  -- The free lists have no node among the caches.
  outside :
      (k a : ℕ)
      → k < max_page_order
      → has a (head_at s.zone.freelist k ∷ b k) ≡ true
      → (a < s.kmem_cache_list) ⊎ (s.kmem_cache_list + 800 ≤ a)
  outside k a lt m = elim (Bool-cases (a == head_at s.zone.freelist k)) [
    | inl head ↦ ground (arith, head, p.apart)
    | inr listed ↦
        let m' : has a (b k) ≡ true = ground (arith, m, listed) in
        let counted : 1 ≤ cover max_page_order b a =
          omega (arith, cover_of_has v k a lt m', spans-le-cover max_page_order b k a lt) in
        inl (elim (dec_lt a (kernel_page_array + 2 ^ 40)) [
          | yes low ↦ omega (arith, low, p.behind)
          | no high ↦ absurd (omega (arith, counted, r.upto a (omega arith)))
        ])
  ]

  IsZone-kept : IsZone (kmem_cache_init s).zone.links s.zone.freelist b rest
  IsZone-kept = record {
    ring = λ k lt.
        IsRing-frame (v.ring k lt) λ a m. (kmem_cache_init-IsKept s).links a (outside k a lt m);
    apart = v.apart;
    heads = v.heads;
    null = v.null;
    top = v.top;
  }

  none-owned : (i : ℕ) → i < 10 → owned (kmem_cache_init s) no_lists i ≡ []
  none-owned i lt = rw ((kmem_cache_init-IsReady s i lt).no_slub) refl

  owners-none : (a : ℕ) → owners (kmem_cache_init s) no_lists a ≡ 0
  unfolding spans
  owners-none a =
      sum-same 10 _ (λ _. 0) (λ j lt. ap (λ xs. spans (size (order_of j)) xs a) (none-owned j lt))

  frees-none : (m : ℕ) → frees (kmem_cache_init s) none_left m ≡ 0
  frees-none m =
      sum-same 10 _ (λ _. 0) (λ j lt. inside-none ((kmem_cache_init s).cache j).freelist m)

  cache-IsCache :
      ((i : ℕ) → i < 10 → (s.cache i).lock ≡ lock_free)
      → (i : ℕ) → i < 10
      → IsCache (kmem_cache_init s) no_lists none_left i
  cache-IsCache unlocked i lt =
      let ready = kmem_cache_init-IsReady s i lt in
      record {
        unlocked = (kmem_cache_init-IsKept s).locks i ∙ unlocked i lt;
        size = ready.size;
        partial = ready.partial;
        ring = ready.full;
        none_left = λ _. ready.no_objects;
        some_left = λ ne. absurd (ne refl);
        chain = tt;
      }

  -- On a well-formed zone whose blocks begin at struct pages of the array, under free locks, and with
  -- the lists behind the array and apart from each other, `kmem_cache_init` sets up a well-formed heap
  -- that has no free object, and none that is handed out.
  pub kmem_cache_init-IsHeap :
      AllAligned b
      → s.zone.freelist_lock ≡ lock_free
      → ((i : ℕ) → i < 10 → (s.cache i).lock ≡ lock_free)
      → IsHeap (kmem_cache_init s) b rest no_lists none_left []
  kmem_cache_init-IsHeap aligned unlocked cache_unlocked =
      let k = kmem_cache_init-IsKept s in
      record {
        zone = IsZone-ext {held = rest} (λ a. omega (arith, owners-none a)) (rw k.base IsZone-kept);
        unlocked = k.lock ∙ unlocked;
        array = r;
        aligned = aligned;
        below = λ a _. owners-none a;
        above = λ a _. owners-none a;
        placed = record {
          behind = rw k.place p.behind;
          free_lists = rw k.base p.free_lists;
          apart = rw (k.place, k.base) p.apart;
        };
        cache = cache-IsCache cache_unlocked;
        usage = λ m. omega (arith, frees-none m);
        low = λ m _. omega (arith, frees-none m);
      }
