-- ===== src/Slub/Heap/Client.antt =====
-- What a client of `kmalloc` sees of the heap.
use sumi_os.Base.{
  ℕ, ◌+◌, ◌-◌, ◌^◌, ◌≤◌, ◌<◌, ◌≡◌, refl, ◌≢◌, inl, inr, List, [], ◌∷◌, Option, none, some, arith,
  ◌==◌, ◌∙◌, ◌⊎◌, Bool-cases, update,
}
use native.Mathlib.Decide.{dec_lt}
use sumi_os.Layout.{kernel_page_array, kernel_direct_mapping_area}
use native.Mathlib.Nat.{pow-le-pow_right}
use sumi_os.PageAlloc.{max_page_order}
use sumi_os.PageAlloc.Alloc.{AllEmpty}
use sumi_os.PageAlloc.Blocks.{Blocks, inside, inside_self}
use sumi_os.Slub.{Slubs, kmem_cache_alloc, kmalloc}
use sumi_os.Slub.Refill.{cache-IsFilled}
use sumi_os.Slub.Sizes.{kmalloc-cache}
use sumi_os.Slub.Take.{kmem_cache_alloc-IsPopped}
use sumi_os.Slub.Serve.{kmem_cache_alloc-IsServed}
use sumi_os.Slub.Heap.{
  obj_size_of, order_of, owners, Object, uses, uses-le, struct_of, handed, handed-some, IsHeap,
}
use sumi_os.Slub.Heap.Lists.{heap-HasLists}
use sumi_os.Slub.Heap.Pop.{popped-IsHeap}
use sumi_os.Slub.Heap.Supply.{served-null, served-IsHeap}

-- The caches with some blocks and lists under them.
abbrev pub SomeHeap : Slubs → (ℕ → ℕ) → List Object → Type 0
SomeHeap s rest outs =
    (b : Blocks) × (full : ℕ → List ℕ) × (left : ℕ → ℕ) × IsHeap s b rest full left outs

-- A call for an object of `n` bytes that returns, with the heap behind it; `why` is what a null
-- pointer tells.
abbrev pub Answers : Option (ℕ × Slubs) → (why : Type 0) → (ℕ → ℕ) → (n : ℕ) → List Object → Type 0
Answers result why rest n outs =
    (obj : ℕ) × (s' : Slubs) × (result ≡ some (obj, s'))
    × (obj ≡ 0 → why)
    × SomeHeap s' rest (handed obj n outs)

order_of-le : (i : ℕ) → i < 10 → order_of i ≤ 2
order_of-le i lt =
    omega (arith, pow-le-pow_right {n = 2} (omega arith) {i = i} {j = 9} (omega arith))

module _ {s : Slubs} {b : Blocks} {rest : ℕ → ℕ} {full : ℕ → List ℕ} {left : ℕ → ℕ}
    {outs : List Object} (h : IsHeap s b rest full left outs) where
  kmem_cache_alloc-Answers :
      (i : ℕ)
      → i < 10
      → Answers (kmem_cache_alloc 2 i s) (AllEmpty b 2 max_page_order) rest (obj_size_of i) outs
  kmem_cache_alloc-Answers i lt = elim (Bool-cases (left i == 0)) [
    | inl empty ↦
        let none_left : left i ≡ 0 = ground arith in
        let (more, f) = cache-IsFilled i lt in
        let (obj, s', runs, unlocked, m) =
          kmem_cache_alloc-IsServed 0 i s b (λ a. rest a + owners s full a) (full i) more
            (h.cache i lt).unlocked h.zone h.array h.unlocked (rw (h.cache i lt).size f)
            (heap-HasLists h i lt) ((h.cache i lt).none_left none_left) in
        (
          obj,
          s',
          runs,
          (λ null k from upto.
              served-null h i more obj lt none_left f unlocked m null k
                (omega (arith, order_of-le i lt, from)) upto),
          served-IsHeap h i more obj lt none_left f unlocked m,
        )
    | inr there ↦
        let c = h.cache i lt in
        let p = (s.cache i).freelist in
        let ne : p ≢ 0 = c.some_left (λ e. ground (arith, there, e)) in
        let k = left i - 1 in
        let (s', runs, m) = kmem_cache_alloc-IsPopped 1 i p s c.unlocked refl ne in
        (
          p,
          s',
          runs,
          (λ null. absurd (ne null)),
          (
            b,
            full,
            update left i k,
            rw (handed-some p (obj_size_of i) outs ne)
                (popped-IsHeap h i k lt (ground (arith, there)) m),
          ),
        )
  ]

  -- On a well-formed heap a call of `kmalloc` returns, with fuel for two rounds, and leaves a
  -- well-formed heap: the object has the bytes that the call asks for, or more, and joins those that
  -- were handed out before. It is the null pointer only for more than 8192 bytes, or where no free
  -- list from order 2 on has a block.
  pub kmalloc-Answers :
      (sz : ℕ)
      → (n : ℕ) × (sz ≤ n)
        × Answers (kmalloc 2 sz s) ((8192 < sz) ⊎ AllEmpty b 2 max_page_order) rest n outs
  kmalloc-Answers sz = elim (kmalloc-cache 2 sz s) [
    | inl (large, e) ↦ (sz, omega arith, (0, s, e, (λ _. inl large), (b, full, left, h)))
    | inr (small, (i, lt, holds, least, e)) ↦
        let (obj, s', runs, why, h') = kmem_cache_alloc-Answers i lt in
        (obj_size_of i, holds, (obj, s', e ∙ runs, (λ null. inr (why null)), h'))
  ]

-- The address of an object fits a word.
pub handed-fits :
    {rest : ℕ → ℕ} (obj n : ℕ) (s : Slubs) (outs : List Object)
    → 0 < n
    → SomeHeap s rest (handed obj n outs)
    → obj < 2 ^ 64
handed-fits obj n s outs pos (b, full, left, h) = elim (Bool-cases (obj == 0)) [
  | inl null ↦ ground (arith, null)
  | inr found ↦
      let e = handed-some obj n outs (λ z. ground (arith, found, z)) in
      let h' = rw e at h in
      let mine = inside_self obj n pos in
      elim (dec_lt obj kernel_direct_mapping_area) [
        | yes below ↦ absurd (omega (arith, h'.low obj below, mine))
        | no high ↦ elim (dec_lt (struct_of obj) (kernel_page_array + 2 ^ 40)) [
          | yes low ↦ omega (arith, low, high)
          | no out ↦
              absurd
                (omega (arith, h'.usage obj, mine, h'.above (struct_of obj) (omega (arith, out))))
        ]
      ]
]

-- A run of `kmalloc` calls, with the memory that the calls return.
unfoldable pub kmallocs : List ℕ → Slubs → Option (List Object × Slubs)
kmallocs [] s = some ([], s)
kmallocs (sz ∷ sizes) s = elim (kmalloc 2 sz s) [
  | none ↦ none
  | some (obj, s') ↦ elim (kmallocs sizes s') [
    | none ↦ none
    | some (objs, s'') ↦ some (handed obj sz objs, s'')
  ]
]

inside-le : (x n k m : ℕ) → n ≤ k → inside x n m ≤ inside x k m
unfolding inside
inside-le x n k m le = ground (arith, le)

pub handed-uses :
    (obj sz n : ℕ) (objs outs : List Object) (m total : ℕ)
    → sz ≤ n
    → uses objs m + uses (handed obj n outs) m ≤ total
    → uses (handed obj sz objs) m + uses outs m ≤ total
handed-uses obj sz n objs outs m total le bound = elim (Bool-cases (obj == 0)) [
  | inl null ↦ rw null (omega (arith, rw null at bound))
  | inr found ↦ rw found (omega (arith, rw found at bound, inside-le obj sz n m le))
]

kmallocs-grow :
    {rest : ℕ → ℕ} (sizes : List ℕ) (s : Slubs) (outs : List Object)
    → SomeHeap s rest outs
    → (objs : List Object) × (s' : Slubs) × (outs' : List Object) × (kmallocs sizes s
        ≡ some (objs, s'))
      × SomeHeap s' rest outs'
      × ((m : ℕ) → uses objs m + uses outs m ≤ uses outs' m)
unfolding kmallocs
kmallocs-grow [] s outs h = ([], s, outs, refl, h, λ m. omega arith)
kmallocs-grow (sz ∷ sizes) s outs h =
    let (b, full, left, heap) = h in
    let (n, le, answers) = kmalloc-Answers heap sz in
    let (obj, s1, runs, why, h1) = answers in
    let (objs, s2, outs2, later, h2, bound) = kmallocs-grow sizes s1 (handed obj n outs) h1 in
    (
      handed obj sz objs,
      s2,
      outs2,
      rw (runs, kmallocs) (rw (later, kmallocs) refl),
      h2,
      λ m. handed-uses obj sz n objs outs m (uses outs2 m) le (bound m),
    )

-- On a well-formed heap a run of `kmalloc` calls, of any sizes, returns with fuel for two rounds a
-- call and leaves a well-formed heap, and no byte is in two of the objects that the calls return, or
-- in one of them and in one that was handed out before.
pub kmallocs-apart :
    {rest : ℕ → ℕ} (sizes : List ℕ) (s : Slubs) (outs : List Object)
    → SomeHeap s rest outs
    → (objs : List Object) × (s' : Slubs) × (outs' : List Object) × (kmallocs sizes s
        ≡ some (objs, s'))
      × SomeHeap s' rest outs'
      × ((m : ℕ) → uses objs m + uses outs m ≤ 1)
kmallocs-apart sizes s outs h =
    let (objs, s', outs', runs, h', bound) = kmallocs-grow sizes s outs h in
    let (b', full', left', heap) = h' in
    (objs, s', outs', runs, h', λ m. omega (arith, bound m, uses-le heap m))
