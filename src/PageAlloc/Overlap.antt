-- ===== src/PageAlloc/Overlap.antt =====
-- Where the merging loop meets a neighbour that is the head of a free block of a smaller order, the
-- block that it lists reaches into memory that is not free.
use sumi_os.Base.{ℕ, ◌+◌, ◌≤◌, ◌≡◌, ◌≢◌, true, false, List, [], ◌∷◌, arith, ◌==◌, has}
use sumi_os.Links.{Links, list_add_next}
use sumi_os.Links.Ring.{IsRing}
use sumi_os.PageAlloc.{
  max_page_order, Zone, freelist_at, next_page_by_order, is_free_head, merge_loop, put_block,
  free_pages_unlocked,
}
use sumi_os.PageAlloc.Blocks.{Blocks, size, inside, inside-halves, spans-has, spans-le-cover}
use sumi_os.PageAlloc.Rep.{IsZone}
use sumi_os.PageAlloc.Merge.{forward}

-- The first node of a circular list that is not empty is its first block.
first-block :
    {s : Links} {h : ℕ} (xs : List ℕ) (x : ℕ)
    → IsRing s h xs
    → s.next h ≡ x
    → x ≢ h
    → has x xs ≡ true
first-block [] x r e ne = absurd (ne (ground (arith, r.chain.0)))
first-block (y ∷ ys) x r e ne = ground (arith, r.chain.0)

put_block-next :
    (z : Zone) (p order : ℕ) → (put_block p order z).links.next (freelist_at z order) ≡ p
unfolding put_block list_add_next
put_block-next z p order = ground arith

-- Freeing the block `p` of order 9, whose next neighbour is the head of a free block of whatever
-- order, lists a block of order 10. If some address in the upper half of that block is held by
-- another owner, then no family of free blocks describes the zone that is left: the listed block
-- and the held one overlap.
pub free_pages_unlocked-overlap :
    (z : Zone) (p a : ℕ) (rest : ℕ → ℕ) (b' : Blocks)
    → p ≢ 0
    → is_free_head z (next_page_by_order p 9) ≡ true
    → p ≢ freelist_at z 10
    → inside (p + size 9) (size 9) a ≡ 1
    → 1 ≤ rest a
    → ¬ IsZone (free_pages_unlocked z p 9).links z.freelist b' rest
unfolding free_pages_unlocked merge_loop
free_pages_unlocked-overlap z p a rest b' ne merges no_head upper owned v =
    let not_null : (p == 0) ≡ false = ground arith in
    let w : IsZone (put_block p 10 (forward p 9 z)).links z.freelist b' rest =
      rw (not_null, merges) at v in
    let listed : has p (b' 10) ≡ true =
      first-block (b' 10) p (w.ring 10 (omega arith)) (put_block-next (forward p 9 z) p 10)
        no_head in
    omega (
      arith,
      spans-has (size 10) (b' 10) p a listed,
      spans-le-cover max_page_order b' 10 a (omega arith),
      w.apart a,
      inside-halves p 9 a,
    )
