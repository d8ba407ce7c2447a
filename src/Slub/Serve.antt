-- ===== src/Slub/Serve.antt =====
-- `kmem_cache_alloc` of a cache with no free object: the first one off a new slub.
use sumi_os.Base.{
  ◌<◌, ◌≤◌, ◌⊎◌, ℕ, suc, ◌+◌, ◌≡◌, refl, ◌≢◌, true, false, inl, inr, List, [], ◌∷◌, some, arith,
  has, ◌>>◌, ◌==◌, ◌∙◌, ap, not, Bool-cases, if◌then◌else◌,
}
use mathlib.Core.Path.{subst}
use sumi_os.Layout.{page_shift}
use sumi_os.Links.{list_empty}
use sumi_os.Links.Laws.{list_empty-nil}
use sumi_os.Lock.{lock_free, lock_used}
use sumi_os.PageAlloc.Blocks.{Blocks}
use sumi_os.PageAlloc.Rep.{IsZone}
use sumi_os.PageAlloc.Entry.{IsAllocated}
use sumi_os.PageAlloc.{Zone}
use sumi_os.PageTable.{Words}
use sumi_os.Slub.{
  Cache, Slubs, full_at, partial_at, shelve, load_slub, set_slub, slub_alloc, redo,
  kmem_cache_alloc,
}
use sumi_os.Slub.Trim.{Chain, spaced}
use sumi_os.PageAlloc.Array.{InArray}
use sumi_os.Slub.Refill.{memory_of, IsFilled, IsRefilled, slub_alloc-IsRefilled}
use sumi_os.Slub.Shelve.{
  HasLists, shelve-partial, shelve-IsZone, shelve-cache, shelve-lock, shelve-base, shelve-place,
  shelve-word, shelve-others,
}
use sumi_os.Slub.Take.{with_lock, with_lock-cache, popped, kmem_cache_alloc-returns, redo-pop}

module _ (i : ℕ) (s : Slubs) where
  -- An empty cache with no partial slub asks the buddy allocator.
  redo-buddy :
      (fuel p : ℕ) (s2 : Slubs)
      → (s.cache i).freelist ≡ 0
      → list_empty (shelve i s).zone.links (partial_at (shelve i s) i) ≡ true
      → slub_alloc (shelve i s) i ≡ some (p, s2)
      → redo (suc fuel) i s
        ≡ (if not (p == 0) then redo fuel i (load_slub i p s2) else some (0, set_slub i 0 s2))
  unfolding redo
  redo-buddy fuel p s2 none_left empty e = rw (none_left, empty) (ground (arith, e))

-- What an empty cache comes back with: nothing, where the buddy allocator has no block of its order,
-- or the first object of a new slub, which fills a block that was free.
pub record IsServed (s : Slubs) (i : ℕ) (b : Blocks) (held : ℕ → ℕ) (more obj : ℕ) (s' : Slubs)
    : Type 0 where
  pub page : ℕ
  pub middle : Zone
  pub block : IsAllocated (shelve i s).zone b held ((s.cache i).obj_size >> page_shift) page middle
  pub zone_links : s'.zone.links ≡ middle.links
  pub zone_base : s'.zone.freelist ≡ s.zone.freelist
  pub zone_unlocked : s'.zone.freelist_lock ≡ lock_free
  pub place : s'.kmem_cache_list ≡ s.kmem_cache_list
  pub others : (j : ℕ) → i ≢ j → s'.cache j ≡ s.cache j
  pub size : (s'.cache i).obj_size ≡ (s.cache i).obj_size
  pub nothing : page ≡ 0 → (obj ≡ 0) × ((s'.cache i).freelist ≡ 0)
  pub object : page ≢ 0 → (obj ≡ memory_of page) × (obj ≢ 0)
  pub slub : (s'.cache i).slub ≡ page
  pub chain : page ≢ 0 → Chain s'.zone.word obj (s.cache i).obj_size (suc (suc more))
  pub rest : page ≢ 0 → (s'.cache i).freelist ≡ obj + (s.cache i).obj_size
  pub words :
      (a : ℕ)
      → (page ≢ 0
          → (a < memory_of page)
            ⊎ (memory_of page + spaced (s.cache i).obj_size (suc (suc more)) ≤ a))
      → s'.zone.word a ≡ s.zone.word a

module _ (fuel i : ℕ) (s : Slubs) (b : Blocks) (held : ℕ → ℕ) (xs : List ℕ) (more : ℕ) where
  abbrev Served : ℕ → Type 0
  Served p =
      (obj : ℕ) × (s' : Slubs) × (redo (suc (suc fuel)) i s ≡ some (obj, s'))
      × ((s'.cache i).lock ≡ (s.cache i).lock)
      × IsServed s i b held more obj s'

  module _ (none_left : (s.cache i).freelist ≡ 0)
      (empty : list_empty (shelve i s).zone.links (partial_at (shelve i s) i) ≡ true) where
    serve-nothing :
        (p : ℕ) (s2 : Slubs)
        → IsRefilled (shelve i s) i b held more p s2
        → (p == 0) ≡ true
        → Served p
    serve-nothing p s2 m z = (
      0,
      set_slub i 0 s2,
      redo-buddy i s (suc fuel) p s2 none_left empty m.returns ∙ rw z,
      ground (arith, m.cache, shelve-cache i s),
      record {
        page = p;
        middle = m.middle;
        block = rw shelve-size at m.block;
        zone_links = m.links;
        zone_base = m.base ∙ m.block.place ∙ shelve-base i s;
        zone_unlocked = m.unlocked;
        place = m.place ∙ shelve-place i s;
        others = λ j ne. ground (arith, ne, m.cache, shelve-others i s j ne);
        size = ground (arith, m.cache, shelve-cache i s);
        nothing = λ e. (refl, ground (arith, m.cache, shelve-cache i s, none_left));
        object = λ ne. absurd (ne null);
        slub = ground arith;
        chain = λ ne. absurd (ne null);
        rest = λ ne. absurd (ne null);
        words =
            λ x out. m.words x (λ ne. absurd (ne null)) ∙ ap (λ (w : Words). w x) (shelve-word i s);
      },
    )
      where
        null : p ≡ 0
        null = ground arith

        shelve-size : ((shelve i s).cache i).obj_size ≡ (s.cache i).obj_size
        shelve-size = ap (λ (c : Cache). c.obj_size) (shelve-cache i s)

    serve-object :
        (p : ℕ) (s2 : Slubs)
        → IsRefilled (shelve i s) i b held more p s2
        → (p == 0) ≡ false
        → Served p
    serve-object p s2 m z = (
      memory_of p,
      popped i mid,
      redo-buddy i s (suc fuel) p s2 none_left empty m.returns
          ∙ (rw z (redo-pop fuel i mid (λ e. m.nonnull found (ground (arith, m.list found))))
              ∙ ap (λ (q : ℕ). some (q, popped i mid)) first),
      ground (arith, m.cache, shelve-cache i s),
      record {
        page = p;
        middle = m.middle;
        block = rw shelve-size at m.block;
        zone_links = m.links;
        zone_base = m.base ∙ m.block.place ∙ shelve-base i s;
        zone_unlocked = m.unlocked;
        place = m.place ∙ shelve-place i s;
        others = λ j ne. ground (arith, ne, m.cache, shelve-others i s j ne);
        size = ground (arith, m.cache, shelve-cache i s);
        nothing = λ e. absurd (found e);
        object = λ ne. (refl, m.nonnull ne);
        slub = ground arith;
        chain = λ ne. rw shelve-size at (m.chain ne);
        rest = λ ne. ground (arith, m.chain ne, first, shelve-size);
        words = λ x out.
            m.words x
              (λ ne. ground (arith, out ne, ap (λ (o : ℕ). spaced o (suc (suc more))) shelve-size))
            ∙ ap (λ (w : Words). w x) (shelve-word i s);
      },
    )
      where
        found : p ≢ 0
        found = ground arith

        mid : Slubs
        mid = load_slub i p s2

        first : (mid.cache i).freelist ≡ memory_of p
        first = ground (arith, m.list found)

        shelve-size : ((shelve i s).cache i).obj_size ≡ (s.cache i).obj_size
        shelve-size = ap (λ (c : Cache). c.obj_size) (shelve-cache i s)

  -- The rounds under the lock.
  redo-IsServed :
      IsZone s.zone.links s.zone.freelist b held
      → InArray b
      → s.zone.freelist_lock ≡ lock_free
      → IsFilled (s.cache i).obj_size more
      → HasLists s i b xs
      → (s.cache i).freelist ≡ 0
      → (p : ℕ) × Served p
  redo-IsServed v r free f l none_left =
      let (p, s2, m) =
        slub_alloc-IsRefilled (shelve i s) i b held more
          (rw shelve-base (shelve-IsZone s i b held xs l v)) r (shelve-lock i s ∙ free)
          (rw shelve-cache f) in
      elim (Bool-cases (p == 0)) [
        | inl z ↦ (p, serve-nothing none_left empty p s2 m z)
        | inr z ↦ (p, serve-object none_left empty p s2 m z)
      ]
    where
      empty : list_empty (shelve i s).zone.links (partial_at (shelve i s) i) ≡ true
      empty = list_empty-nil [] (rw shelve-place (shelve-partial s i b held xs l))

pub HasLists-lock :
    (i l : ℕ) (s : Slubs) (b : Blocks) (xs : List ℕ)
    → HasLists s i b xs
    → HasLists (with_lock i l s) i b xs
HasLists-lock i l s b xs h =
    let same : (s.cache i).slub ≡ ((with_lock i l s).cache i).slub = rw with_lock-cache in
    record {
      partial = h.partial;
      full = h.full;
      fresh = subst (λ q. has q (full_at s i ∷ xs) ≡ false) same h.fresh;
      partial_apart =
          subst (λ q. has (partial_at s i) (full_at s i ∷ q ∷ xs) ≡ false) same h.partial_apart;
      blocks_apart = λ k a lt m.
          subst (λ q. has a (full_at s i ∷ q ∷ xs) ≡ false) same (h.blocks_apart k a lt m);
    }

-- Under a free lock of the cache and of a well-formed zone whose blocks have their struct pages in
-- the array, a cache with no free object and no partial slub shelves its slub and is served by the
-- buddy allocator in two rounds, or gets nothing where that has no block; the lock of the cache is
-- free afterwards.
pub kmem_cache_alloc-IsServed :
    (fuel i : ℕ) (s : Slubs) (b : Blocks) (held : ℕ → ℕ) (xs : List ℕ) (more : ℕ)
    → (s.cache i).lock ≡ lock_free
    → IsZone s.zone.links s.zone.freelist b held
    → InArray b
    → s.zone.freelist_lock ≡ lock_free
    → IsFilled (s.cache i).obj_size more
    → HasLists s i b xs
    → (s.cache i).freelist ≡ 0
    → (obj : ℕ) × (s' : Slubs) × (kmem_cache_alloc (suc (suc fuel)) i s ≡ some (obj, s'))
      × ((s'.cache i).lock ≡ lock_free)
      × IsServed (with_lock i lock_used s) i b held more obj s'
kmem_cache_alloc-IsServed fuel i s b held xs more unlocked v r free f l none_left =
    let e = with_lock-cache i lock_used s in
    let (p, result) =
      redo-IsServed fuel i (with_lock i lock_used s) b held xs more v r free (rw e f)
        (HasLists-lock i lock_used s b xs l) (rw e none_left) in
    let (obj, s', runs, kept, served) = result in
    (
      obj,
      with_lock i lock_free s',
      kmem_cache_alloc-returns (suc (suc fuel)) i s obj s' unlocked runs (kept ∙ rw e),
      ground arith,
      record {
        page = served.page;
        middle = served.middle;
        block = served.block;
        zone_links = served.zone_links;
        zone_base = served.zone_base;
        zone_unlocked = served.zone_unlocked;
        place = served.place;
        others = λ j ne. ground (arith, ne, served.others j ne);
        size = ground (arith, served.size);
        nothing = λ e. ((served.nothing e).0, ground (arith, (served.nothing e).1));
        object = served.object;
        slub = ground (arith, served.slub);
        chain = served.chain;
        rest = λ ne. ground (arith, served.rest ne);
        words = served.words;
      },
    )
