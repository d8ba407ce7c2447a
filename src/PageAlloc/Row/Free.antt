-- ===== src/PageAlloc/Row/Free.antt =====
-- Pages that are freed in the order of their addresses.
use sumi_os.Base.{
  ℕ, ◌+◌, ◌^◌, ◌<◌, ◌≡◌, refl, true, false, inl, inr, List, [], ◌∷◌, arith, ◌==◌, Bool-cases, ap,
  ◌∙◌, some,
}
use sumi_os.Lock.{lock_free, lock_used}
use sumi_os.PageAlloc.{Zone, is_free_head, merge_loop, put_block, free_pages_unlocked, free_pages}
use sumi_os.PageAlloc.Blocks.{size, inside}
use sumi_os.PageAlloc.Rep.{IsZone, list_add_next-IsZone}
use sumi_os.PageAlloc.Entry.{free_pages-returns}
use sumi_os.PageAlloc.Row.{Block, AtMost, Stacked, listed, begins}
use sumi_os.PageAlloc.Row.Carry.{is_mapped, InHand, IsCarried, merge_loop-IsCarried}

-- The free blocks are a row from `from` up to `end`; `held` is in use.
pub record IsRow (z : Zone) (from : ℕ) (held : ℕ → ℕ) (row : List Block) (end : ℕ) : Type 0 where
  pub zone : IsZone z.links z.freelist (listed row) held
  pub stacked : Stacked from row end
  pub heads : (a : ℕ) → is_free_head z a ≡ begins row a

-- What freeing the page behind a row does.
pub record IsLonger (z : Zone) (from : ℕ) (rest : ℕ → ℕ) (end : ℕ) (z' : Zone) : Type 0 where
  pub blocks : List Block
  pub row : IsRow z' from rest blocks end
  pub base : z'.freelist ≡ z.freelist
  pub word : z'.word ≡ z.word
  pub table : z'.kern_pgtable ≡ z.kern_pgtable

put_block-heads :
    {from : ℕ} {rest : ℕ → ℕ} {end : ℕ} {w : Zone} {row : List Block} {p k : ℕ}
    → InHand w from rest row p k end
    → (a : ℕ) → is_free_head (put_block p k w) a ≡ begins (record { at = p; order = k } ∷ row) a
unfolding put_block is_free_head
put_block-heads {p} h a = elim (Bool-cases (a == p)) [
  | inl here ↦ ground (arith, here, h.mapped)
  | inr there ↦ ground (arith, there, h.heads a (λ e. ground (arith, there, e)))
]

module _ {z : Zone} {from : ℕ} {rest : ℕ → ℕ} {end : ℕ} where
  put_block-IsLonger :
      (r : ℕ × ℕ × Zone)
      → IsCarried z from rest end r
      → IsLonger z from rest end (put_block r.0 r.1 r.2)
  unfolding put_block
  put_block-IsLonger r c = record {
    blocks = record { at = r.0; order = r.1 } ∷ c.row;
    row = record {
      zone = list_add_next-IsZone c.in_hand.zone r.1 r.0 rest c.in_hand.order (λ a. refl);
      stacked = (c.in_hand.ends, c.in_hand.order, c.under, c.in_hand.stacked);
      heads = put_block-heads c.in_hand;
    };
    base = c.base;
    word = c.word;
    table = c.table;
  }

free_pages_unlocked-put :
    (z : Zone) (p : ℕ)
    → 0 < p
    → let r = merge_loop 10 p 0 z in free_pages_unlocked z p 0 ≡ put_block r.0 r.1 r.2
unfolding free_pages_unlocked
free_pages_unlocked-put z p pos = let found : (p == 0) ≡ false = ground arith in rw found

AtMost-zero : (row : List Block) → AtMost 0 row
AtMost-zero [] = tt
AtMost-zero (x ∷ xs) = omega arith

-- The lock plays no part.
IsRow-lock :
    (z : Zone) (l from : ℕ) (held : ℕ → ℕ) (row : List Block) (end : ℕ)
    → IsRow z from held row end
    → IsRow (record z { freelist_lock = l }) from held row end
unfolding is_free_head
IsRow-lock z l from held row end r = record { zone = r.zone; stacked = r.stacked; heads = r.heads }

-- Freeing the page at the end of a row, which is held, makes the row longer by the page.
pub free_pages-IsLonger :
    (z : Zone) (from : ℕ) (rest : ℕ → ℕ) (row : List Block) (p : ℕ)
    → IsRow z from (λ a. rest a + inside p (size 0) a) row p
    → z.freelist_lock ≡ lock_free
    → is_mapped z p ≡ true
    → 0 < p
    → p + size 0 < 2 ^ 64
    → (z' : Zone) × (free_pages z p 0 ≡ some z')
      × (z'.freelist_lock ≡ lock_free)
      × IsLonger z from rest (p + size 0) z'
free_pages-IsLonger z from rest row p h unlocked mapped pos fits =
    let locked : Zone = record z { freelist_lock = lock_used } in
    let h' = IsRow-lock z lock_used from (λ a. rest a + inside p (size 0) a) row p h in
    let c = merge_loop-IsCarried 10 p 0 locked row refl (record {
      zone = h'.zone;
      stacked = h'.stacked;
      at_most = AtMost-zero row;
      heads = λ a _. h'.heads a;
      ends = refl;
      fits = fits;
      order = omega arith;
      mapped = mapped;
    }) in
    let r = merge_loop 10 p 0 locked in
    let l = put_block-IsLonger r c in
    let w : Zone = put_block r.0 r.1 r.2 in
    (
      record w { freelist_lock = lock_free },
      free_pages-returns z p 0 unlocked
          ∙ ap (λ (q : Zone). some (record q { freelist_lock = lock_free }))
              (free_pages_unlocked-put locked p pos),
      refl,
      record {
        blocks = l.blocks;
        row = IsRow-lock w lock_free from rest l.blocks (p + size 0) l.row;
        base = l.base;
        word = l.word;
        table = l.table;
      },
    )
