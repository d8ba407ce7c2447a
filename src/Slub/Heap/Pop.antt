-- ===== src/Slub/Heap/Pop.antt =====
-- An object that goes from the free list of a cache to the objects that are handed out.
use sumi_os.Base.{
  ℕ, zero, suc, ◌+◌, ◌<◌, ◌≡◌, refl, ◌≢◌, inl, inr, List, [], ◌∷◌, arith, ◌==◌, ==_iff, sym, ◌∙◌,
  Bool-cases, ap, sum-same, sum-change, update,
}
use mathlib.Core.Path.{subst}
use native.Mathlib.Nat.{one-le-pow}
use sumi_os.Links.Ring.{IsRing}
use sumi_os.PageTable.{Words}
use sumi_os.PageAlloc.{Zone}
use sumi_os.PageAlloc.Blocks.{Blocks, size, inside, spans}
use sumi_os.PageAlloc.Rep.{IsZone-ext}
use sumi_os.Slub.{Cache, Slubs, full_at, partial_at}
use sumi_os.Slub.Trim.{Chain, spaced}
use sumi_os.Slub.Shelve.{shelved}
use sumi_os.Slub.Take.{IsPopped}
use sumi_os.Slub.Heap.{obj_size_of, order_of, owners, frees, Object, struct_of, IsCache, IsHeap}

pub inside-split : (x n k m : ℕ) → inside x (n + k) m ≡ inside x n m + inside (x + n) k m
unfolding inside
inside-split x n k m = ground arith

pub inside-none : (x m : ℕ) → inside x 0 m ≡ 0
unfolding inside
inside-none x m = ground arith

pub obj_size-pos : (i : ℕ) → 0 < obj_size_of i
obj_size-pos i = omega (arith, one-le-pow i 2)

-- The free list behind its first object.
pub Chain-next :
    (w : Words) (p o k : ℕ)
    → Chain w p o (suc k)
    → Chain w (w p) o k
      × (k ≡ 0 → w p ≡ 0)
      × (0 < o → k ≢ 0 → w p ≢ 0)
      × ((m : ℕ) → inside (w p) (spaced o k) m ≡ inside (p + o) (spaced o k) m)
Chain-next w p o zero c =
    (tt, λ e. c, λ pos ne. absurd (ne refl), λ m. inside-none (w p) m ∙ sym (inside-none (p + o) m))
Chain-next w p o (suc k) c = (
  rw c.0 c.1,
  λ e. absurd (omega (arith, e)),
  λ pos ne z. omega (arith, c.0, z, pos),
  λ m. ap (λ q. inside q (spaced o (suc k)) m) c.0,
)

-- A cache that an operation on another one leaves alone.
pub IsCache-same :
    (s s' : Slubs) (full full' : ℕ → List ℕ) (left left' : ℕ → ℕ) (j : ℕ)
    → IsCache s full left j
    → s'.cache j ≡ s.cache j
    → left' j ≡ left j
    → IsRing s'.zone.links (partial_at s' j) []
    → IsRing s'.zone.links (full_at s' j) (full' j)
    → Chain s'.zone.word (s.cache j).freelist (obj_size_of j) (left j)
    → IsCache s' full' left' j
IsCache-same s s' full full' left left' j c same same_left partial ring chain = record {
  unlocked = ap (λ (c : Cache). c.lock) same ∙ c.unlocked;
  size = ap (λ (c : Cache). c.obj_size) same ∙ c.size;
  partial = partial;
  ring = ring;
  none_left = λ e. ap (λ (c : Cache). c.freelist) same ∙ c.none_left (sym same_left ∙ e);
  some_left =
      λ ne e. c.some_left (λ z. ne (same_left ∙ z)) (sym (ap (λ (c : Cache). c.freelist) same) ∙ e);
  chain = rw (same_left, same) chain;
}

module _ {s s' : Slubs} {b : Blocks} {rest : ℕ → ℕ} {full : ℕ → List ℕ} {left : ℕ → ℕ}
    {outs : List Object} (h : IsHeap s b rest full left outs) (i k : ℕ) (lt : i < 10)
    (some_left : left i ≡ suc k) (m : IsPopped s i (s.cache i).freelist s') where
  abbrev popped_object : Object
  popped_object = record { at = (s.cache i).freelist; bytes = obj_size_of i }

  slub-same : (j : ℕ) → (s'.cache j).slub ≡ (s.cache j).slub
  slub-same j = elim (Bool-cases (i == j)) [
    | inl this ↦
        let e : i ≡ j = (==_iff i j).0 this in
        subst (λ j. (s'.cache j).slub ≡ (s.cache j).slub) e (ap (λ (c : Cache). c.slub) m.cache)
    | inr other ↦ ap (λ (c : Cache). c.slub) (m.others j (λ e. ground (arith, other, e)))
  ]

  owners-same : (a : ℕ) → owners s' full a ≡ owners s full a
  owners-same a =
      sum-same 10 _ _
        (λ j lt. ap (λ c. spans (size (order_of j)) (shelved c (full j)) a) (slub-same j))

  chain : Chain s.zone.word (s.cache i).freelist (obj_size_of i) (suc k)
  chain = rw some_left at ((h.cache i lt).chain)

  first : (s'.cache i).freelist ≡ s.zone.word (s.cache i).freelist
  first = ap (λ (c : Cache). c.freelist) m.cache

  frees-popped :
      (a : ℕ)
      → frees s' (update left i k) a + inside (s.cache i).freelist (obj_size_of i) a
        ≡ frees s left a
  frees-popped a =
      let (c', z, nz, moved) =
        Chain-next s.zone.word (s.cache i).freelist (obj_size_of i) k chain in
      omega (
        arith,
        sum-change 10 i
            (λ j. inside (s'.cache j).freelist (spaced (obj_size_of j) (update left i k j)) a)
            (λ j. inside (s.cache j).freelist (spaced (obj_size_of j) (left j)) a) lt
            (λ j ne. other_same j ne),
        here,
        moved a,
        ap (λ n. inside (s.cache i).freelist (spaced (obj_size_of i) n) a) some_left,
        inside-split (s.cache i).freelist (obj_size_of i) (spaced (obj_size_of i) k) a,
      )
    where
      other_same :
          (j : ℕ)
          → i ≢ j
          → inside (s'.cache j).freelist (spaced (obj_size_of j) (update left i k j)) a
            ≡ inside (s.cache j).freelist (spaced (obj_size_of j) (left j)) a
      other_same j ne = rw (m.others j ne) (ground (arith, ne))

      here :
          inside (s'.cache i).freelist (spaced (obj_size_of i) (update left i k i)) a
          ≡ inside (s.zone.word (s.cache i).freelist) (spaced (obj_size_of i) k) a
      here = rw first (ground arith)

  IsCache-popped : (j : ℕ) → j < 10 → IsCache s' full (update left i k) j
  IsCache-popped j lt' = elim (Bool-cases (i == j)) [
    | inl this ↦
        let e : i ≡ j = (==_iff i j).0 this in
        subst (λ j. IsCache s' full (update left i k) j) e here
    | inr other ↦
        let ne : i ≢ j = λ e. ground (arith, other, e) in
        let c = h.cache j lt' in
        IsCache-same s s' full full left (update left i k) j c (m.others j ne) (ground (arith, ne))
          (rw (m.zone, m.place) c.partial) (rw (m.zone, m.place) c.ring) (rw m.zone c.chain)
  ]
    where
      here : IsCache s' full (update left i k) i
      here =
          let (chain', z, nz, moved) =
            Chain-next s.zone.word (s.cache i).freelist (obj_size_of i) k chain in
          let c = h.cache i lt in
          let now : update left i k i ≡ k = ground arith in
          record {
            unlocked = ap (λ (c : Cache). c.lock) m.cache ∙ c.unlocked;
            size = ap (λ (c : Cache). c.obj_size) m.cache ∙ c.size;
            partial = rw (m.zone, m.place) c.partial;
            ring = rw (m.zone, m.place) c.ring;
            none_left = λ e. first ∙ z (sym now ∙ e);
            some_left = λ ne e. nz (obj_size-pos i) (λ q. ne (now ∙ q)) (sym first ∙ e);
            chain = rw (first, m.zone, now) chain';
          }

  -- The heap with the object handed out.
  pub popped-IsHeap : IsHeap s' b rest full (update left i k) (popped_object ∷ outs)
  popped-IsHeap = record {
    zone = rw m.zone (IsZone-ext (λ a. omega (arith, owners-same a)) h.zone);
    unlocked = ap (λ (z : Zone). z.freelist_lock) m.zone ∙ h.unlocked;
    array = h.array;
    aligned = h.aligned;
    below = λ a low. owners-same a ∙ h.below a low;
    above = λ a high. owners-same a ∙ h.above a high;
    placed = record {
      behind = rw m.place h.placed.behind;
      free_lists = rw m.zone h.placed.free_lists;
      apart = rw (m.zone, m.place) h.placed.apart;
    };
    cache = IsCache-popped;
    usage = λ a. omega (arith, frees-popped a, owners-same (struct_of a), h.usage a);
    low = λ a below. omega (arith, frees-popped a, h.low a below);
  }
