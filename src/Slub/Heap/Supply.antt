-- ===== src/Slub/Heap/Supply.antt =====
-- The heap behind the service of an empty cache: as it was, or with a new slub in it.
use sumi_os.Base.{
  ℕ, suc, ◌+◌, ◌^◌, ◌≤◌, ◌<◌, ◌≡◌, refl, ◌≢◌, inl, inr, List, ◌∷◌, arith, ◌==◌, ==_iff, sym, ◌∙◌,
  Bool-cases, ap, ◌⊎◌, update, ◌>>◌,
}
use mathlib.Core.Path.{subst}
use sumi_os.Layout.{page_shift, kernel_page_array, kernel_direct_mapping_area}
use sumi_os.Lock.{lock_free, lock_used}
use sumi_os.PageAlloc.Blocks.{Blocks, size, inside, spans, spans-cons}
use sumi_os.PageAlloc.Array.{block-in-array}
use sumi_os.PageAlloc.Rep.{IsZone-ext}
use sumi_os.PageAlloc.{max_page_order}
use sumi_os.PageAlloc.Alloc.{AllEmpty, IsTaken, Allocated}
use sumi_os.Slub.{Slubs, shelve}
use sumi_os.Slub.Trim.{Chain, spaced}
use sumi_os.Slub.Refill.{memory_of, IsFilled}
use sumi_os.Slub.Shelve.{shelved, shelved-some, shelve-base, shelve-IsZone}
use sumi_os.Slub.Take.{with_lock}
use sumi_os.Slub.Serve.{HasLists-lock, IsServed}
use sumi_os.Slub.Heap.{
  handed, handed-some, obj_size_of, order_of, owned, owners, frees, Object, struct_of, IsCache,
  IsHeap,
}
use sumi_os.Slub.Heap.Lists.{heap-HasLists}
use sumi_os.Slub.Heap.Fresh.{inside-struct, inside-low, outside-inside}
use sumi_os.Slub.Heap.Pop.{inside-split, inside-none, obj_size-pos}
use sumi_os.Slub.Heap.Serve.{
  now_full, size-locked, owners-served, frees-served, IsPlaced-served, cache-served, cache-own,
  frees-has,
}

module _ {s s' : Slubs} {b : Blocks} {rest : ℕ → ℕ} {full : ℕ → List ℕ} {left : ℕ → ℕ}
    {outs : List Object} (h : IsHeap s b rest full left outs) (i more obj : ℕ) (lt : i < 10)
    (none_left : left i ≡ 0) (f : IsFilled (obj_size_of i) more)
    (unlocked : (s'.cache i).lock ≡ lock_free)
    (m : IsServed (with_lock i lock_used s) i b (λ a. rest a + owners s full a) more obj s') where
  abbrev lists_now : ℕ → List ℕ
  lists_now = now_full h i more obj lt none_left f unlocked m

  owned-now : owned s' lists_now i ≡ shelved m.page (owned s full i)
  owned-now = rw m.slub (ground arith)

  all_caches :
      (k : ℕ)
      → IsCache s' lists_now (update left i k) i
      → ((a : ℕ) → 1 ≤ frees s left a → s'.zone.word a ≡ s.zone.word a)
      → (j : ℕ) → j < 10
      → IsCache s' lists_now (update left i k) j
  all_caches k own words j lt' = elim (Bool-cases (i == j)) [
    | inl this ↦ subst (λ j. IsCache s' lists_now (update left i k) j) ((==_iff i j).0 this) own
    | inr other ↦
        cache-served h i more obj lt none_left f unlocked m k j lt' (λ e. ground (arith, other, e))
          (λ a e. words a (omega (arith, e, frees-has s left j a lt')))
  ]

  module _ (null : m.page ≡ 0)
      (links : m.middle.links ≡ (shelve i (with_lock i lock_used s)).zone.links) where
    owned-kept : owned s' lists_now i ≡ owned s full i
    owned-kept = owned-now ∙ ap (λ p. shelved p (owned s full i)) null

    owners-kept : (a : ℕ) → owners s' lists_now a ≡ owners s full a
    owners-kept a = omega (
      arith,
      owners-served h i more obj lt none_left f unlocked m a 0
          (ap (λ xs. spans (size (order_of i)) xs a) owned-kept ∙ omega arith),
    )

    frees-kept : (a : ℕ) → frees s' (update left i 0) a ≡ frees s left a
    frees-kept a = omega (
      arith,
      frees-served h i more obj lt none_left f unlocked m 0 a 0
          (inside-none (s'.cache i).freelist a),
    )

    nothing-IsHeap : IsHeap s' b rest lists_now (update left i 0) outs
    nothing-IsHeap = record {
      zone =
          IsZone-ext {held = λ a. rest a + owners s full a} (λ a. omega (arith, owners-kept a))
            (rw (m.zone_links ∙ links, m.zone_base)
              (shelve-IsZone (with_lock i lock_used s) i b (λ a. rest a + owners s full a) (full i)
                (HasLists-lock i lock_used s b (full i) (heap-HasLists h i lt)) h.zone));
      unlocked = m.zone_unlocked;
      array = h.array;
      aligned = h.aligned;
      below = λ a low. owners-kept a ∙ h.below a low;
      above = λ a high. owners-kept a ∙ h.above a high;
      placed = IsPlaced-served h i more obj lt none_left f unlocked m;
      cache =
          all_caches 0
            (cache-own h i more obj lt none_left f unlocked m 0 (λ _. (m.nothing null).1)
              (λ ne. absurd (ne refl)) tt)
            (λ a _. m.words a (λ ne. absurd (ne null)));
      usage = λ a. omega (arith, frees-kept a, owners-kept (struct_of a), h.usage a);
      low = λ a below. omega (arith, frees-kept a, h.low a below);
    }

  module _ (found : m.page ≢ 0)
      (t : IsTaken m.middle.links s.zone.freelist b
        (λ a. rest a + owners s full a)
        m.page
        (order_of i)) where
    abbrev new_object : Object
    new_object = record { at = obj; bytes = obj_size_of i }

    -- The memory of the new slub.
    slub_bytes : ℕ → ℕ
    slub_bytes a = inside obj (spaced (obj_size_of i) (suc (suc more))) a

    in_array :
        (kernel_page_array ≤ m.page) × (m.page + size (order_of i) ≤ kernel_page_array + 2 ^ 40)
    in_array = block-in-array b m.page (order_of i) h.array (λ a. omega (arith, t.kept a))

    slub_bytes-le : (a : ℕ) → slub_bytes a ≤ inside m.page (size (order_of i)) (struct_of a)
    unfolding slub_bytes
    slub_bytes-le a =
        rw ((m.object found).0, f.fills)
          (inside-struct m.page (order_of i) a (t.aligned h.aligned).1 in_array.0 in_array.1)

    slub_bytes-low : (a : ℕ) → a < kernel_direct_mapping_area → slub_bytes a ≡ 0
    unfolding slub_bytes
    slub_bytes-low a below = rw (m.object found).0 (
        inside-low m.page (spaced (obj_size_of i) (suc (suc more))) a in_array.0
          (omega (arith, in_array.1)) below)

    owners-more :
        (a : ℕ) → owners s' lists_now a ≡ owners s full a + inside m.page (size (order_of i)) a
    owners-more a =
        owners-served h i more obj lt none_left f unlocked m a (inside m.page (size (order_of i)) a)
          (ap (λ xs. spans (size (order_of i)) xs a)
              (owned-now ∙ shelved-some m.page (owned s full i) found)
            ∙ omega (arith, spans-cons (size (order_of i)) (owned s full i) m.page a))

    frees-more :
        (a : ℕ)
        → frees s' (update left i (suc more)) a + inside obj (obj_size_of i) a
          ≡ frees s left a + slub_bytes a
    unfolding slub_bytes
    frees-more a = omega (
      arith,
      frees-served h i more obj lt none_left f unlocked m (suc more) a
          (inside (obj + obj_size_of i) (spaced (obj_size_of i) (suc more)) a)
          (ap (λ q. inside q (spaced (obj_size_of i) (suc more)) a)
            (m.rest found
              ∙ ap (λ o. obj + o) (size-locked h i more obj lt none_left f unlocked m))),
      inside-split obj (obj_size_of i) (spaced (obj_size_of i) (suc more)) a,
    )

    -- The bytes that were free or handed out are none of the new slub.
    words-kept : (a : ℕ) → 1 ≤ frees s left a → s'.zone.word a ≡ s.zone.word a
    unfolding slub_bytes
    words-kept a counted =
        let away : slub_bytes a ≡ 0 =
          omega (arith, counted, slub_bytes-le a, h.usage a, t.zone.apart (struct_of a)) in
        m.words a λ _.
          subst (λ o. (a < memory_of m.page) ⊎ (memory_of m.page + spaced o (suc (suc more)) ≤ a))
            (sym (size-locked h i more obj lt none_left f unlocked m))
            (subst (λ q. (a < q) ⊎ (q + spaced (obj_size_of i) (suc (suc more)) ≤ a))
              (m.object found).0
              (outside-inside obj (spaced (obj_size_of i) (suc (suc more))) a away))

    own : IsCache s' lists_now (update left i (suc more)) i
    own =
        let size = size-locked h i more obj lt none_left f unlocked m in
        let first : (s'.cache i).freelist ≡ obj + obj_size_of i =
          m.rest found ∙ ap (λ o. obj + o) size in
        let chain : Chain s'.zone.word obj (obj_size_of i) (suc (suc more)) =
          rw size at (m.chain found) in
        cache-own h i more obj lt none_left f unlocked m (suc more) (λ e. absurd (omega (arith, e)))
          (λ _ e. omega (arith, e, first, obj_size-pos i)) (rw first chain.1)

    -- The new slub's first object is handed out, and the others are free.
    something-IsHeap :
        IsHeap s' t.blocks rest lists_now (update left i (suc more)) (new_object ∷ outs)
    something-IsHeap = record {
      zone =
          IsZone-ext {held = λ a. rest a + owners s full a + inside m.page (size (order_of i)) a}
            (λ a. omega (arith, owners-more a)) (rw (m.zone_links, m.zone_base) t.zone);
      unlocked = m.zone_unlocked;
      array = record {
        from = λ a low. omega (arith, t.kept a, h.array.from a low);
        upto = λ a high. omega (arith, t.kept a, h.array.upto a high);
      };
      aligned = (t.aligned h.aligned).0;
      below = λ a low. omega (arith, owners-more a, h.below a low, t.kept a, h.array.from a low);
      above = λ a high. omega (arith, owners-more a, h.above a high, t.kept a, h.array.upto a high);
      placed = IsPlaced-served h i more obj lt none_left f unlocked m;
      cache = all_caches (suc more) own words-kept;
      usage =
          λ a. omega (arith, frees-more a, owners-more (struct_of a), h.usage a, slub_bytes-le a);
      low = λ a below. omega (arith, frees-more a, h.low a below, slub_bytes-low a below);
    }

  order-locked : ((with_lock i lock_used s).cache i).obj_size >> page_shift ≡ order_of i
  order-locked = ap (λ o. o >> page_shift) (size-locked h i more obj lt none_left f unlocked m)

  -- There is no object only where the buddy allocator has no block from the order on.
  pub served-null : obj ≡ 0 → AllEmpty b (order_of i) max_page_order
  served-null e = elim m.block.block [
    | inl (null, _, nothing) ↦ rw order-locked at nothing
    | inr (found, _) ↦ absurd ((m.object found).1 e)
  ]

  -- Whatever the buddy allocator has, the caches have a well-formed heap behind the call; the object
  -- is on its list where there is one.
  pub served-IsHeap :
      (blocks : Blocks) × (full' : ℕ → List ℕ) × (left' : ℕ → ℕ) × IsHeap s' blocks rest full' left'
        (handed obj (obj_size_of i) outs)
  served-IsHeap = split (rw order-locked at m.block.block)
    where
      split :
          Allocated
            (shelve i (with_lock i lock_used s)).zone
            b
            (λ a. rest a + owners s full a)
            (order_of i)
            m.page
            m.middle.links
          → (blocks : Blocks) × (full' : ℕ → List ℕ) × (left' : ℕ → ℕ) × IsHeap s' blocks rest full'
              left'
              (handed obj (obj_size_of i) outs)
      split (inl (null, links, _)) =
          let e : handed obj (obj_size_of i) outs ≡ outs = rw (m.nothing null).0 refl in
          (b, lists_now, update left i 0, rw e (nothing-IsHeap null links))
      split (inr (found, t)) =
          let t' = rw (shelve-base i (with_lock i lock_used s)) at t in
          let e : handed obj (obj_size_of i) outs ≡ new_object found t' ∷ outs =
            handed-some obj (obj_size_of i) outs (m.object found).1 in
          (t'.blocks, lists_now, update left i (suc more), rw e (something-IsHeap found t'))
