-- ===== src/Slub/Heap/Rings.antt =====
-- The lists of all caches when an empty one is served: its own slub is shelved, the others stay.
use sumi_os.Base.{
  ℕ, ◌+◌, ◌^◌, ◌≤◌, ◌<◌, ◌≡◌, ◌≢◌, true, false, inl, inr, List, [], ◌∷◌, arith, has, ◌==◌, ==_iff,
  sym, ◌∙◌, Bool-cases, ap,
}
use mathlib.Core.Path.{subst}
use sumi_os.Layout.{kernel_page_array}
use sumi_os.Links.Ring.{IsRing}
use sumi_os.Links.Frame.{SameAt, IsRing-frame}
use sumi_os.Lock.{lock_used}
use sumi_os.PageAlloc.Blocks.{Blocks}
use sumi_os.PageAlloc.Frame.{Elsewhere}
use sumi_os.Slub.{Cache, Slubs, full_at, partial_at, shelve}
use sumi_os.Slub.Shelve.{HasLists, shelve-full, shelve-partial, shelve-SameAt, shelve-base}
use sumi_os.Slub.Take.{with_lock, with_lock-cache}
use sumi_os.Slub.Serve.{HasLists-lock, IsServed}
use sumi_os.Slub.Heap.{Object, owned, owners, IsHeap}
use sumi_os.Slub.Heap.Lists.{
  owned-in_array, owned-apart, not-node, head-not_owned, heap-HasLists, owned-Elsewhere,
  head-Elsewhere,
}

module _ {s s' : Slubs} {b : Blocks} {rest : ℕ → ℕ} {full : ℕ → List ℕ} {left : ℕ → ℕ}
    {outs : List Object} (h : IsHeap s b rest full left outs) (i more obj : ℕ) (lt : i < 10)
    (m : IsServed (with_lock i lock_used s) i b (λ a. rest a + owners s full a) more obj s') where
  abbrev locked : Slubs
  locked = with_lock i lock_used s

  lists : HasLists locked i b (full i)
  lists = HasLists-lock i lock_used s b (full i) (heap-HasLists h i lt)

  slub-locked : (locked.cache i).slub ≡ (s.cache i).slub
  slub-locked = ap (λ (c : Cache). c.slub) (with_lock-cache i lock_used s)

  -- The buddy allocator leaves the links of the caches alone.
  outside :
      (a : ℕ) → Elsewhere s.zone.freelist b a → SameAt (shelve i locked).zone.links s'.zone.links a
  outside a away = rw m.zone_links (m.block.others a (rw (shelve-base i locked) away))

  head-Outside :
      (j : ℕ)
      → j < 10
      → Elsewhere s.zone.freelist b (full_at s j) × Elsewhere s.zone.freelist b (partial_at s j)
  head-Outside j lt' = (
    head-Elsewhere h j (full_at s j) lt' (omega (arith, h.placed.behind))
        (λ k lt'' q. omega (arith, q, h.placed.apart)),
    head-Elsewhere h j (partial_at s j) lt' (omega (arith, h.placed.behind))
        (λ k lt'' q. omega (arith, q, h.placed.apart)),
  )

  pub served-full : IsRing s'.zone.links (full_at s' i) (owned s full i)
  served-full = rw m.place (
      IsRing-frame
        (rw slub-locked at (shelve-full locked i b (λ a. rest a + owners s full a) (full i) lists))
        λ a there. elim (Bool-cases (a == full_at s i)) [
          | inl head ↦
              let e : a ≡ full_at s i = (==_iff a (full_at s i)).0 head in
              outside a (rw e (head-Outside i lt).0)
          | inr listed ↦ outside a (owned-Elsewhere h i a lt (ground (arith, there, listed)))
        ])

  pub served-partial : IsRing s'.zone.links (partial_at s' i) []
  served-partial = rw m.place (
      IsRing-frame (shelve-partial locked i b (λ a. rest a + owners s full a) (full i) lists)
        λ a there.
          let e : a ≡ partial_at s i = ground (arith, there) in
          outside a (rw e (head-Outside i lt).1))

  -- A node that is none of the cache's own.
  foreign :
      (a : ℕ)
      → a ≢ 0
      → a ≢ full_at s i
      → has a (owned s full i) ≡ false
      → Elsewhere s.zone.freelist b a
      → SameAt s.zone.links s'.zone.links a
  foreign a ne ne' unowned away =
      let m1 = not-node h i a lt ne ne' unowned in
      let one =
        shelve-SameAt locked i a (full i) lists.full
          (subst (λ q. has a (full_at s i ∷ q ∷ full i) ≡ false) (sym slub-locked) m1) in
      let two = outside a away in (two.0 ∙ one.0, two.1 ∙ one.1)

  foreign-head :
      (a : ℕ)
      → kernel_page_array + 2 ^ 40 ≤ a
      → a ≢ full_at s i
      → Elsewhere s.zone.freelist b a
      → SameAt s.zone.links s'.zone.links a
  foreign-head a high ne away =
      foreign a (λ z. omega (arith, z, high)) ne (head-not_owned h i a lt high) away

  pub served-others :
      (j : ℕ)
      → j < 10
      → i ≢ j
      → IsRing s'.zone.links (partial_at s' j) [] × IsRing s'.zone.links (full_at s' j) (full j)
  served-others j lt' ne = (
    rw m.place (
        IsRing-frame (h.cache j lt').partial λ a there.
          let e : a ≡ partial_at s j = ground (arith, there) in
          rw e (
            foreign-head (partial_at s j) (omega (arith, h.placed.behind)) (λ q. omega (arith, q))
              (head-Outside j lt').1)),
    rw m.place (
        IsRing-frame (h.cache j lt').ring λ a there. elim (Bool-cases (a == full_at s j)) [
          | inl head ↦
              let e : a ≡ full_at s j = (==_iff a (full_at s j)).0 head in
              rw e (
                foreign-head (full_at s j) (omega (arith, h.placed.behind))
                  (λ q. ne (omega (arith, q))) (head-Outside j lt').0)
          | inr listed ↦
              let mine : has a (owned s full j) ≡ true = ground (arith, there, listed) in
              let (lo, hi) = owned-in_array h j a lt' mine in
              foreign a (λ z. omega (arith, z, lo)) (λ q. omega (arith, q, hi, h.placed.behind))
                (owned-apart h j i a lt' lt (λ q. ne (sym q)) mine) (owned-Elsewhere h j a lt' mine)
        ]),
  )
