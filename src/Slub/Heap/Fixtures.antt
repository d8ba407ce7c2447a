-- ===== src/Slub/Heap/Fixtures.antt =====
-- A heap for the tests: the caches over one free block of order 9.
use sumi_os.Base.{refl, [], inr, arith}
use sumi_os.PageAlloc.{freelist_init}
use sumi_os.PageAlloc.Aligned.{AllAligned}
use sumi_os.PageAlloc.Fixtures.{one_block, held_second, one_free-IsZone}
use sumi_os.Slub.{Slubs, kmem_cache_init}
use sumi_os.Slub.Heap.{IsPlaced, IsHeap}
use sumi_os.Slub.Heap.Init.{kmem_cache_init-IsHeap}
use sumi_os.Slub.Heap.Client.{SomeHeap}
use sumi_os.Slub.Fixtures.{before, in_array}

pub lists-IsPlaced : IsPlaced before
unfolding freelist_init
lists-IsPlaced = record {
  behind = omega arith;
  free_lists = omega arith;
  apart = inr (omega arith);
}

pub one_block-AllAligned : AllAligned one_block
one_block-AllAligned k x lt m = ground arith

abbrev pub ready : Slubs
ready = kmem_cache_init before

pub ready-IsHeap : IsHeap ready one_block held_second (λ _. []) (λ _. 0) []
unfolding freelist_init
ready-IsHeap =
    kmem_cache_init-IsHeap before one_block held_second one_free-IsZone in_array lists-IsPlaced
      one_block-AllAligned refl (λ i lt. refl)

pub ready-SomeHeap : SomeHeap ready held_second []
ready-SomeHeap = (one_block, (λ _. []), (λ _. 0), ready-IsHeap)
