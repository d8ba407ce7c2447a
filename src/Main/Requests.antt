-- ===== src/Main/Requests.antt =====
-- The requests of the loop at the end of `main`, and the caches that they go to.
use sumi_os.Base.{
  ℕ, zero, suc, ◌+◌, ◌*◌, ◌^◌, ◌%◌, ◌<◌, ◌≡◌, refl, some, none, [], ◌∷◌, ◌++◌, arith, ltb, bytes,
  false, ◌<<◌,
}
use native.Mathlib.Nat.{pow-le-pow_right}
use sumi_os.Print.{Text, slot, kprintf}
use sumi_os.Print.Format.{kprintf-some}
use sumi_os.Slub.{
  Slubs, nr_kobject_size_type, kmalloc_max_cache_size, slub_index, kmem_cache_alloc, kmalloc,
}
use sumi_os.Main.{request, allocate}

slub_index-exact : (k : ℕ) → k < nr_kobject_size_type → slub_index (16 * 2 ^ k) ≡ some k
unfolding slub_index
slub_index-exact zero lt = refl
slub_index-exact (suc zero) lt = refl
slub_index-exact (suc (suc zero)) lt = refl
slub_index-exact (suc (suc (suc zero))) lt = refl
slub_index-exact (suc (suc (suc (suc zero)))) lt = refl
slub_index-exact (suc (suc (suc (suc (suc zero))))) lt = refl
slub_index-exact (suc (suc (suc (suc (suc (suc zero)))))) lt = refl
slub_index-exact (suc (suc (suc (suc (suc (suc (suc zero))))))) lt = refl
slub_index-exact (suc (suc (suc (suc (suc (suc (suc (suc zero)))))))) lt = refl
slub_index-exact (suc (suc (suc (suc (suc (suc (suc (suc (suc zero))))))))) lt = refl
slub_index-exact (suc (suc (suc (suc (suc (suc (suc (suc (suc (suc n)))))))))) lt =
    absurd (omega arith)

-- Round `i` of the loop asks the cache `i % 10` for an object of exactly its size.
pub kmalloc-request :
    (fuel i : ℕ) (s : Slubs) → kmalloc fuel (request i) s ≡ kmem_cache_alloc fuel (i % 10) s
unfolding kmalloc
kmalloc-request fuel i s =
    let small : ltb kmalloc_max_cache_size (request i) ≡ false = below (i % 10) (omega arith) in
    rw small (rw (slub_index-exact (i % 10) (omega arith), kmalloc) refl)
  where
    below : (k : ℕ) → k < 10 → ltb kmalloc_max_cache_size (0x10 << k) ≡ false
    below k lt =
        ground (arith, pow-le-pow_right {n = 2} (omega arith) {i = k} {j = 9} (omega arith))

-- A round of the loop whose allocation returns prints the line of its object, whatever the object is,
-- and goes on.
pub allocate-round :
    (left i obj : ℕ) (s s' : Slubs)
    → i < 2 ^ 64
    → obj < 2 ^ 64
    → kmem_cache_alloc 2 (i % 10) s ≡ some (obj, s')
    → (line : Text) × (kprintf
          (bytes "[allocate time: %lu] get object at %p\n")
          (slot i ∷ slot obj ∷ [])
        ≡ some line)
      × (allocate (suc left) i s ≡ (elim (allocate left (i + 1) s') [
        | none ↦ none
        | some (lines, s'') ↦ some (line ++ lines, s'')
      ]))
unfolding allocate
allocate-round left i obj s s' low low' e =
    let (line, printed) =
      kprintf-some (bytes "[allocate time: %lu] get object at %p\n") (slot i ∷ slot obj ∷ [])
        (ground (arith, low, low')) in
    (
      line,
      printed,
      rw (kmalloc-request 2 i s, allocate) (rw (e, allocate) (rw (printed, allocate) refl)),
    )
