-- ===== src/PageMap/Source.antt =====
-- The buddy allocator as the source of the pages that mm/pgtable.c makes its tables of.
use sumi_os.Base.{
  ℕ, zero, suc, ◌+◌, ◌-◌, ◌^◌, ◌%◌, ◌≤◌, ◌≡◌, refl, ◌≢◌, true, inl, inr, List, length, arith,
  update, has, Bool-cases, List-cases, ◌∙◌,
}
use native.Mathlib.Decide.{dec_lt}
use native.Mathlib.Nat.{one-le-pow}
use sumi_os.Layout.{page_size, kernel_page_array, page_to_phys}
use sumi_os.Links.Ring.{Distinct}
use sumi_os.Links.Laws.{remove, has-remove, has-remove_self, length-remove, Distinct-remove}
use sumi_os.Lock.{lock_free}
use sumi_os.PageAlloc.{Zone, max_page_order, mm_phys_alloc}
use sumi_os.PageAlloc.Blocks.{Blocks, size, inside, inside_self, spans, cover}
use sumi_os.PageAlloc.Aligned.{AllAligned}
use sumi_os.PageAlloc.Array.{InArray, block-in-array}
use sumi_os.PageAlloc.Rep.{IsZone}
use sumi_os.PageAlloc.Alloc.{AllEmpty, IsTaken}
use sumi_os.PageAlloc.Entry.{IsAllocated, mm_phys_alloc-IsAllocated}
use sumi_os.PageTable.Tree.{IsPage}
use sumi_os.PageTable.Descend.{IsPageSource}

-- The zone is well formed, its lock is free, its blocks consist of struct pages of the array, at
-- least `n` struct pages are in free blocks, and no page in a free block is a table.
pub record HasPages (n : ℕ) (z : Zone) (level : ℕ → ℕ) : Type 0 where
  pub blocks : Blocks
  pub held : ℕ → ℕ
  pub zone : IsZone z.links z.freelist blocks held
  pub unlocked : z.freelist_lock ≡ lock_free
  pub array : InArray blocks
  pub aligned : AllAligned blocks
  pub reserve : List ℕ
  pub enough : n ≤ length reserve
  pub distinct : Distinct reserve
  pub listed : (a : ℕ) → has a reserve ≡ true → (a % 64 ≡ 0) × (1 ≤ cover max_page_order blocks a)
  pub no_table : (a : ℕ) → 1 ≤ cover max_page_order blocks a → level (page_to_phys a) ≡ 0

cover-AllEmpty : (n : ℕ) (b : Blocks) (a : ℕ) → AllEmpty b 0 n → cover n b a ≡ 0
unfolding cover spans
cover-AllEmpty zero b a empty = refl
cover-AllEmpty (suc n) b a empty =
    rw (empty n (omega arith) (omega arith))
      (omega (arith, cover-AllEmpty n b a (λ k h g. empty k h (omega (arith, g)))))

-- A page that leaves the free blocks, and one that stays there, have other frames.
frames_apart :
    (p a : ℕ)
    → p % 64 ≡ 0
    → kernel_page_array ≤ p
    → p + 64 ≤ kernel_page_array + 2 ^ 40
    → kernel_page_array ≤ a
    → a + 1 ≤ kernel_page_array + 2 ^ 40
    → inside p 64 a ≡ 0
    → page_to_phys p ≢ page_to_phys a
unfolding page_to_phys inside
frames_apart p a at lo hi lo' hi' out e = ground (arith, at, out, e)

frame-IsPage :
    (p : ℕ) → kernel_page_array ≤ p → p + 64 ≤ kernel_page_array + 2 ^ 40 → IsPage (page_to_phys p)
unfolding page_to_phys
frame-IsPage p lo hi = (omega (arith, lo, hi), omega (arith, lo, hi))

size-zero : size 0 ≡ 64
unfolding size
size-zero = refl

-- The block that `t` says was taken at order 0.
module _ (b : Blocks) (held : ℕ → ℕ) (z z' : Zone) (p : ℕ) (v : IsZone z.links z.freelist b held)
    (array : InArray b) (t : IsTaken z'.links z.freelist b held p 0) where
  kept : (a : ℕ) → cover max_page_order t.blocks a + inside p 64 a ≡ cover max_page_order b a
  kept a = rw size-zero at (t.kept a)

  place : (kernel_page_array ≤ p) × (p + 64 ≤ kernel_page_array + 2 ^ 40)
  place = rw size-zero at (block-in-array b p 0 array (λ a. omega (arith, t.kept a)))

  taken_counted : 1 ≤ cover max_page_order b p
  taken_counted = omega (arith, kept p, inside_self p 64 (omega arith))

  still-InArray : InArray t.blocks
  still-InArray = record {
    from = λ a h. omega (arith, kept a, array.from a h);
    upto = λ a h. omega (arith, kept a, array.upto a h);
  }

  counted_in_array :
      (a : ℕ)
      → 1 ≤ cover max_page_order b a
      → (kernel_page_array ≤ a) × (a + 1 ≤ kernel_page_array + 2 ^ 40)
  counted_in_array a c = (
    elim (dec_lt a kernel_page_array) [
      | yes h ↦ absurd (omega (arith, array.from a h, c))
      | no h ↦ omega arith
    ],
    elim (dec_lt a (kernel_page_array + 2 ^ 40)) [
      | yes h ↦ omega arith
      | no h ↦ absurd (omega (arith, array.upto a (omega arith), c))
    ],
  )

  others_apart :
      (a : ℕ) → p % 64 ≡ 0 → 1 ≤ cover max_page_order t.blocks a → page_to_phys p ≢ page_to_phys a
  others_apart a at c =
      let (lo, hi) = counted_in_array a (omega (arith, kept a, c)) in
      frames_apart p a at place.0 place.1 lo hi (omega (arith, kept a, c, v.apart a))

  still_listed :
      (a : ℕ)
      → p % 64 ≡ 0
      → a % 64 ≡ 0
      → a ≢ p
      → 1 ≤ cover max_page_order b a
      → 1 ≤ cover max_page_order t.blocks a
  unfolding inside
  still_listed a at at' ne c = ground (arith, kept a, at, at', ne, c)

  still-HasPages :
      (n l : ℕ) (level : ℕ → ℕ) (reserve : List ℕ)
      → z'.freelist_lock ≡ lock_free
      → z'.freelist ≡ z.freelist
      → AllAligned b
      → suc n ≤ length reserve
      → Distinct reserve
      → ((a : ℕ) → has a reserve ≡ true → (a % 64 ≡ 0) × (1 ≤ cover max_page_order b a))
      → ((a : ℕ) → 1 ≤ cover max_page_order b a → level (page_to_phys a) ≡ 0)
      → HasPages n z' (update level (page_to_phys p) l)
  still-HasPages n l level reserve unlocked same aligned enough distinct listed no_table = record {
    blocks = t.blocks;
    held = λ a. held a + inside p (size 0) a;
    zone = rw same t.zone;
    unlocked = unlocked;
    array = still-InArray;
    aligned = (t.aligned aligned).0;
    reserve = remove p reserve;
    enough = omega (arith, enough, length-remove p reserve);
    distinct = Distinct-remove p reserve distinct;
    listed = λ a m. elim (Bool-cases (has a reserve)) [
      | inl before ↦
          let (at, c) = listed a before in
          (
            at,
            still_listed a (t.aligned aligned).1 at
                (λ e. ground (arith, m, e, has-remove_self p reserve distinct)) c,
          )
      | inr never ↦ absurd (ground (arith, m, has-remove p a reserve never))
    ];
    no_table = λ a c.
        ground
          (arith, others_apart a (t.aligned aligned).1 c, no_table a (omega (arith, kept a, c)));
  }

pick :
    (n : ℕ) (z : Zone) (level : ℕ → ℕ) (h : HasPages (suc n) z level) (p : ℕ) (z' : Zone)
    → IsAllocated z h.blocks h.held 0 p z'
    → (p ≢ 0) × IsTaken z'.links z.freelist h.blocks h.held p 0
pick n z level h p z' a = elim a.block [
  | inl (null, same, nothing) ↦ elim (List-cases h.reserve) [
    | inl empty ↦ absurd (ground (arith, h.enough, empty))
    | inr (x, xs, e) ↦ absurd (
        omega (
          arith,
          (h.listed x (rw e (ground arith))).1,
          cover-AllEmpty max_page_order h.blocks x nothing,
        ))
  ]
  | inr (ne, t) ↦ (ne, t)
]

-- The same for fewer pages, and in a zone with the same lists.
pub fewer :
    {m n : ℕ} {z z' : Zone} {level : ℕ → ℕ}
    → n ≤ m
    → z'.links ≡ z.links
    → z'.freelist ≡ z.freelist
    → z'.freelist_lock ≡ z.freelist_lock
    → HasPages m z level
    → HasPages n z' level
fewer le links same lock h = record {
  blocks = h.blocks;
  held = h.held;
  zone = rw (links, same) h.zone;
  unlocked = lock ∙ h.unlocked;
  array = h.array;
  aligned = h.aligned;
  reserve = h.reserve;
  enough = omega (arith, le, h.enough);
  distinct = h.distinct;
  listed = h.listed;
  no_table = h.no_table;
}

-- An allocation of one page gives the address of a page that is no table, and one page less is left.
pub mm_phys_alloc-IsPageSource : IsPageSource (λ z. mm_phys_alloc z page_size) HasPages
mm_phys_alloc-IsPageSource = record {
  less = λ n z level h. fewer (omega arith) refl refl refl h;
  gives = λ n z level h.
      let (order, p, z', a, returns, lo, least) =
        mm_phys_alloc-IsAllocated z h.blocks h.held page_size h.zone h.unlocked (omega arith) in
      let single : order ≡ 0 = ground (arith, least, one-le-pow (order - 1) 2) in
      let (ne, t) = pick n z level h p z' (rw single at a) in
      let (lo, hi) = place h.blocks h.held z z' p h.zone h.array t in
      (
        page_to_phys p,
        z',
        ground (arith, returns, ne),
        frame-IsPage p lo hi,
        h.no_table p (taken_counted h.blocks h.held z z' p h.zone h.array t),
        λ l.
            still-HasPages h.blocks h.held z z' p h.zone h.array t n l level h.reserve a.unlocked
              a.place h.aligned h.enough h.distinct h.listed h.no_table,
      );
}
