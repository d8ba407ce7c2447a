-- ===== src/Slub/Heap.antt =====
-- What the caches own together, while no slub is partial: for each cache the block that it serves from
-- and the full ones, in which the objects that are still free and those that are handed out lie apart.
pub mod Client
pub mod Fresh
pub mod Init
pub mod Lists
pub mod Rings
pub mod Serve
pub mod Supply
pub mod Fixtures
mod Tests
pub mod Pop
use sumi_os.Base.{
  ℕ, zero, suc, ◌+◌, ◌-◌, ◌*◌, ◌/◌, ◌^◌, ◌≤◌, ◌<◌, ◌≡◌, refl, ◌≢◌, true, false, inl, inr, List, [],
  ◌∷◌, arith, has, ◌>>◌, ◌==◌, Bool-cases, ap, sum, le-sum, ◌⊎◌, if◌then◌else◌,
}
use sumi_os.Layout.{page_shift, kernel_page_array, kernel_direct_mapping_area}
use sumi_os.Links.Ring.{IsRing}
use sumi_os.Lock.{lock_free}
use sumi_os.PageTable.{Words}
use sumi_os.PageAlloc.{max_page_order}
use sumi_os.PageAlloc.Blocks.{Blocks, size, size-pos, inside, inside_self, spans, spans-has, cover}
use sumi_os.PageAlloc.Aligned.{AllAligned}
use sumi_os.PageAlloc.Array.{InArray}
use sumi_os.PageAlloc.Rep.{IsZone}
use sumi_os.Slub.{Slubs, full_at, partial_at}
use sumi_os.Slub.Trim.{Chain, spaced}
use sumi_os.Slub.Shelve.{shelved}

abbrev pub obj_size_of : ℕ → ℕ
obj_size_of i = 16 * 2 ^ i

-- The order of the blocks of a cache.
abbrev pub order_of : ℕ → ℕ
order_of i = obj_size_of i >> page_shift

-- The slubs of a cache: the one that it serves from and the full ones.
abbrev pub owned : Slubs → (full : ℕ → List ℕ) → ℕ → List ℕ
owned s full i = shelved (s.cache i).slub (full i)

-- How many slubs hold the struct page at `a`.
abbrev pub owners : Slubs → (full : ℕ → List ℕ) → ℕ → ℕ
owners s full a = sum 10 (λ i. spans (size (order_of i)) (owned s full i) a)

-- How many free objects, `left i` in cache `i`, hold the byte at `m`.
abbrev pub frees : Slubs → (left : ℕ → ℕ) → ℕ → ℕ
frees s left m = sum 10 (λ i. inside (s.cache i).freelist (spaced (obj_size_of i) (left i)) m)

-- An object that is handed out.
pub record Object : Type 0 where
  pub at : ℕ
  pub bytes : ℕ

abbrev pub uses : List Object → ℕ → ℕ
uses [] m = 0
uses (x ∷ xs) m = inside x.at x.bytes m + uses xs m

-- What a call that returns `obj` adds to the list; the null pointer is no object.
abbrev pub handed : (obj bytes : ℕ) → List Object → List Object
handed obj n outs = if obj == 0 then outs else record { at = obj; bytes = n } ∷ outs

pub handed-some :
    (obj n : ℕ) (outs : List Object)
    → obj ≢ 0
    → handed obj n outs ≡ record { at = obj; bytes = n } ∷ outs
handed-some obj n outs ne = ground (arith, ne)

-- The struct page of the page that a byte of the direct mapping area lies in.
abbrev pub struct_of : ℕ → ℕ
struct_of m = kernel_page_array + (m - kernel_direct_mapping_area) / 4096 * 64

-- One cache: its lists, and its free objects.
pub record IsCache (s : Slubs) (full : ℕ → List ℕ) (left : ℕ → ℕ) (i : ℕ) : Type 0 where
  pub unlocked : (s.cache i).lock ≡ lock_free
  pub size : (s.cache i).obj_size ≡ obj_size_of i
  pub partial : IsRing s.zone.links (partial_at s i) []
  pub ring : IsRing s.zone.links (full_at s i) (full i)
  pub none_left : left i ≡ 0 → (s.cache i).freelist ≡ 0
  pub some_left : left i ≢ 0 → (s.cache i).freelist ≢ 0
  pub chain : Chain s.zone.word (s.cache i).freelist (obj_size_of i) (left i)

-- Where the linker put the lists: behind the array of the struct pages, and apart.
pub record IsPlaced (s : Slubs) : Type 0 where
  pub behind : kernel_page_array + 2 ^ 40 ≤ s.kmem_cache_list
  pub free_lists : kernel_page_array + 2 ^ 40 ≤ s.zone.freelist
  pub apart :
      (s.kmem_cache_list + 800 ≤ s.zone.freelist) ⊎ (s.zone.freelist + 176 ≤ s.kmem_cache_list)

pub record IsHeap (s : Slubs) (b : Blocks) (rest : ℕ → ℕ) (full : ℕ → List ℕ) (left : ℕ → ℕ)
    (outs : List Object) : Type 0 where
  pub zone : IsZone s.zone.links s.zone.freelist b (λ a. rest a + owners s full a)
  pub unlocked : s.zone.freelist_lock ≡ lock_free
  pub array : InArray b
  pub aligned : AllAligned b
  pub below : (a : ℕ) → a < kernel_page_array → owners s full a ≡ 0
  pub above : (a : ℕ) → kernel_page_array + 2 ^ 40 ≤ a → owners s full a ≡ 0
  pub placed : IsPlaced s
  pub cache : (i : ℕ) → i < 10 → IsCache s full left i
  pub usage : (m : ℕ) → frees s left m + uses outs m ≤ owners s full (struct_of m)
  pub low : (m : ℕ) → m < kernel_direct_mapping_area → frees s left m + uses outs m ≡ 0

pub has-owners :
    (s : Slubs) (full : ℕ → List ℕ) (i x : ℕ)
    → i < 10
    → has x (owned s full i) ≡ true
    → 1 ≤ owners s full x
has-owners s full i x lt m = omega (
  arith,
  le-sum 10 i (λ i. spans (size (order_of i)) (owned s full i) x) lt,
  spans-has (size (order_of i)) (owned s full i) x x m,
  inside_self x (size (order_of i)) (size-pos (order_of i)),
)

module _ {s : Slubs} {b : Blocks} {rest : ℕ → ℕ} {full : ℕ → List ℕ} {left : ℕ → ℕ}
    {outs : List Object} (h : IsHeap s b rest full left outs) where
  -- The bytes of two objects are never the same.
  pub uses-le : (m : ℕ) → uses outs m ≤ 1
  uses-le m = omega (arith, h.usage m, h.zone.apart (struct_of m))

  pub not-owned : (i x : ℕ) → i < 10 → owners s full x ≡ 0 → has x (owned s full i) ≡ false
  not-owned i x lt none_there = elim (Bool-cases (has x (owned s full i))) [
    | inl m ↦ absurd (omega (arith, none_there, has-owners s full i x lt m))
    | inr m ↦ m
  ]
