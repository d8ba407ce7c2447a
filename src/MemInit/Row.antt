-- ===== src/MemInit/Row.antt =====
-- The last pass of mm/mm_init.c on the entry of the memory map that lies behind the linear allocator's
-- memory: its pages become a row of free blocks.
use sumi_os.Base.{
  ℕ, zero, suc, ◌+◌, ◌*◌, ◌^◌, ◌<◌, ◌≤◌, ◌≡◌, refl, true, some, List, arith, leb, ◌∙◌,
}
use mathlib.Core.Path.{subst}
use sumi_os.Lock.{lock_free}
use sumi_os.PageAlloc.{Zone, free_pages}
use sumi_os.PageAlloc.Blocks.{size, inside}
use sumi_os.PageAlloc.Rep.{IsZone-ext}
use sumi_os.PageAlloc.Row.{Block}
use sumi_os.PageAlloc.Row.Carry.{is_mapped}
use sumi_os.PageAlloc.Row.Free.{IsRow, IsLonger, free_pages-IsLonger}
use sumi_os.MemInit.{multiboot_memory_available, page_at, release}

IsLonger-trans :
    {z z1 z2 : Zone} {from : ℕ} {rest rest' : ℕ → ℕ} {e e' : ℕ}
    → IsLonger z from rest e z1
    → IsLonger z1 from rest' e' z2
    → IsLonger z from rest' e' z2
IsLonger-trans k l = record {
  blocks = l.blocks;
  row = l.row;
  base = l.base ∙ k.base;
  word = l.word ∙ k.word;
  table = l.table ∙ k.table;
}

-- The held struct pages of `left` pages are the first of them and those of the rest.
held-first :
    (rest : ℕ → ℕ) (p left a : ℕ)
    → rest a + inside p (64 * suc left) a
      ≡ rest a + inside (p + 64) (64 * left) a + inside p (size 0) a
unfolding inside size
held-first rest p left a = ground arith

held-none : (rest : ℕ → ℕ) (p a : ℕ) → rest a + inside p (64 * 0) a ≡ rest a
unfolding inside
held-none rest p a = ground arith

size-zero : size 0 ≡ 64
unfolding size
size-zero = refl

page_at-next : (start p : ℕ) → page_at start ≡ p → p + 64 < 2 ^ 64 → page_at (start + 4096) ≡ p + 64
page_at-next start p at fits = omega arith

IsRow-ext :
    {z : Zone} {from : ℕ} {row : List Block} {end : ℕ} (held held' : ℕ → ℕ)
    → ((a : ℕ) → held a ≡ held' a)
    → IsRow z from held row end
    → IsRow z from held' row end
IsRow-ext held held' same r = record {
  zone = IsZone-ext {held = held} same r.zone;
  stacked = r.stacked;
  heads = r.heads;
}

abbrev HasRow : Zone → (from : ℕ) → (rest : ℕ → ℕ) → (left p : ℕ) → List Block → Type 0
HasRow z from rest left p row = IsRow z from (λ a. rest a + inside p (64 * left) a) row p

-- One page of the entry.
release-one :
    (left p from : ℕ) (rest : ℕ → ℕ) (row : List Block) (z : Zone)
    → 0 < p
    → p + 64 < 2 ^ 64
    → HasRow z from rest (suc left) p row
    → z.freelist_lock ≡ lock_free
    → is_mapped z p ≡ true
    → (z' : Zone) × (free_pages z p 0 ≡ some z')
      × (z'.freelist_lock ≡ lock_free)
      × IsLonger z from (λ a. rest a + inside (p + 64) (64 * left) a) (p + 64) z'
release-one left p from rest row z pos fits h unlocked mapped = rw size-zero at (
    free_pages-IsLonger z from (λ a. rest a + inside (p + 64) (64 * left) a) row p
      (IsRow-ext (λ a. rest a + inside p (64 * suc left) a)
        (λ a. rest a + inside (p + 64) (64 * left) a + inside p (size 0) a) (held-first rest p left)
        h)
      unlocked mapped pos (omega (arith, size-zero)))

is_mapped-next :
    {z z' : Zone} {from : ℕ} {rest : ℕ → ℕ} {end : ℕ} (p j : ℕ)
    → IsLonger z from rest end z'
    → is_mapped z (p + 64 * suc j) ≡ true
    → is_mapped z' (p + 64 + 64 * j) ≡ true
is_mapped-next p j l m =
    let e : p + 64 + 64 * j ≡ p + 64 * suc j = omega arith in rw (e, l.word, l.table) m

release-step :
    (left start p mm_alloc_end : ℕ) (z z' : Zone)
    → mm_alloc_end ≤ start
    → page_at start ≡ p
    → free_pages z p 0 ≡ some z'
    → release (suc left) start mm_alloc_end multiboot_memory_available z
      ≡ release left (start + 4096) mm_alloc_end multiboot_memory_available z'
unfolding release
release-step left start p mm_alloc_end z z' behind at runs =
    let frees : leb mm_alloc_end start ≡ true = ground (arith, behind) in
    rw (frees, at, release) (rw (runs, release) refl)

-- A row of `left` pages from `start` on, behind the row of the pages before.
pub release-IsLonger :
    (left start p mm_alloc_end from : ℕ) (rest : ℕ → ℕ) (row : List Block) (z : Zone)
    → mm_alloc_end ≤ start
    → page_at start ≡ p
    → 0 < p
    → p + 64 * left < 2 ^ 64
    → HasRow z from rest left p row
    → z.freelist_lock ≡ lock_free
    → ((j : ℕ) → j < left → is_mapped z (p + 64 * j) ≡ true)
    → (z' : Zone) × (release left start mm_alloc_end multiboot_memory_available z ≡ some z')
      × (z'.freelist_lock ≡ lock_free)
      × IsLonger z from rest (p + 64 * left) z'
unfolding release
release-IsLonger zero start p mm_alloc_end from rest row z behind at pos fits h unlocked mapped = (
  z,
  refl,
  unlocked,
  record {
    blocks = row;
    row =
        let e : p + 64 * 0 ≡ p = omega arith in
        rw e (IsRow-ext (λ a. rest a + inside p (64 * 0) a) rest (held-none rest p) h);
    base = refl;
    word = refl;
    table = refl;
  },
)
release-IsLonger (suc left) start p mm_alloc_end from rest row z behind at pos fits h unlocked
      mapped =
    let (z1, runs, unlocked1, l) =
      release-one left p from rest row z pos (omega (arith, fits)) h unlocked
        (let e : p + 64 * 0 ≡ p = omega arith in rw e at (mapped 0 (omega arith))) in
    let (z2, later, unlocked2, l') =
      release-IsLonger left (start + 4096) (p + 64) mm_alloc_end from rest l.blocks z1
        (omega (arith, behind)) (page_at-next start p at (omega (arith, fits))) (omega arith)
        (omega (arith, fits)) l.row unlocked1
        (λ j lt. is_mapped-next p j l (mapped (suc j) (omega arith))) in
    let e : p + 64 + 64 * left ≡ p + 64 * suc left = omega arith in
    (
      z2,
      release-step left start p mm_alloc_end z z1 behind at runs ∙ later,
      unlocked2,
      subst (λ end. IsLonger z from rest end z2) e (IsLonger-trans l l'),
    )
