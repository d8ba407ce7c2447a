-- ===== src/MemInit/Areas.antt =====
-- The pass of mm/mm_init.c that collects the available areas, and finds the one that the boot stage
-- has begun.
use sumi_os.Base.{
  ℕ, ◌+◌, ◌^◌, ◌<◌, ◌≤◌, ◌≡◌, true, false, ◌⊎◌, inl, inr, List, [], ◌∷◌, ◌++◌, arith, Bool-cases,
  leb, ltb, ◌&&◌, ◌==◌, if◌then◌else◌, u64, Option, none, some, suc, length, length-append, refl,
  ◌≢◌, ◌∙◌,
}
use native.Mathlib.Decide.{dec_lt}
use sumi_os.MemInit.{
  MmapEntry, multiboot_memory_available, phys_mm_segs_num_max, Area, Linear, add_areas,
}
use sumi_os.MemInit.Passes.{AllLow}

-- No available entry has an address from `low` on and below `high`.
abbrev pub AllApart : (low high : ℕ) → List MmapEntry → Type 0
AllApart low high [] = Unit {0}
AllApart low high (e ∷ entries) =
    (e.kind ≡ multiboot_memory_available → (e.addr + e.len ≤ low) ⊎ (high ≤ e.addr))
    × AllApart low high entries

-- The memory of the linear allocator is from `start` to `end`.
abbrev pub IsFrom : (start end : ℕ) → Linear → Type 0
IsFrom start end s = (s.mm_alloc_start ≡ start) × (s.mm_alloc_end ≡ end)

-- One entry of the pass.
abbrev after_entry : (boot : ℕ) → MmapEntry → Linear → Linear
after_entry boot e s =
    let a : Area = record { start = e.addr; end = u64 (e.addr + e.len) } in
    let added = record s { phys_mm_area_arr = s.phys_mm_area_arr ++ a ∷ [] } in
    let current = record added { mm_alloc_start = boot; mm_alloc_end = a.end } in
    let s' = if leb a.start boot && ltb boot a.end then current else added in
    if e.kind == multiboot_memory_available then s' else s

after_entry-apart :
    (boot low high start end : ℕ) (e : MmapEntry) (s : Linear)
    → low ≤ boot
    → boot < high
    → e.addr + e.len < 2 ^ 64
    → (e.kind ≡ multiboot_memory_available → (e.addr + e.len ≤ low) ⊎ (high ≤ e.addr))
    → IsFrom start end s
    → IsFrom start end (after_entry boot e s)
after_entry-apart boot low high start end e s lo hi fits apart (from, to) =
    elim (Bool-cases (e.kind == multiboot_memory_available)) [
      | inr other ↦ (ground (arith, other, from), ground (arith, other, to))
      | inl available ↦
          let out = apart (ground (arith, available)) in
          let outside : (leb e.addr boot && ltb boot (u64 (e.addr + e.len))) ≡ false =
            ground (arith, out, lo, hi, fits) in
          (ground (arith, available, outside, from), ground (arith, available, outside, to))
    ]

-- The state behind the entry goes on to the result.
add_areas-next :
    (boot : ℕ) (e : MmapEntry) (entries : List MmapEntry) (s linear : Linear)
    → add_areas boot (e ∷ entries) s ≡ some linear
    → add_areas boot entries (after_entry boot e s) ≡ some linear
unfolding add_areas
add_areas-next boot e entries s linear runs = ground (arith, runs)

add_areas-apart :
    (boot low high start end : ℕ) (entries : List MmapEntry) (s linear : Linear)
    → low ≤ boot
    → boot < high
    → AllLow entries
    → AllApart low high entries
    → IsFrom start end s
    → add_areas boot entries s ≡ some linear
    → IsFrom start end linear
unfolding add_areas
add_areas-apart boot low high start end [] s linear lo hi fits apart (from, to) runs =
    (ground (arith, from, runs), ground (arith, to, runs))
add_areas-apart boot low high start end (e ∷ entries) s linear lo hi fits apart from runs =
    add_areas-apart boot low high start end entries (after_entry boot e s) linear lo hi fits.2
      apart.1
      (after_entry-apart boot low high start end e s lo hi (omega (arith, fits.1)) apart.0 from)
      (add_areas-next boot e entries s linear runs)

after_entry-current :
    (boot : ℕ) (a : MmapEntry) (s : Linear)
    → a.kind ≡ multiboot_memory_available
    → a.addr ≤ boot
    → boot < a.addr + a.len
    → a.addr + a.len < 2 ^ 64
    → IsFrom boot (a.addr + a.len) (after_entry boot a s)
after_entry-current boot a s available lo hi fits =
    let tested : (a.kind == multiboot_memory_available) ≡ true = ground (arith, available) in
    let inside : (leb a.addr boot && ltb boot (u64 (a.addr + a.len))) ≡ true =
      ground (arith, lo, hi, fits) in
    (ground (arith, tested, inside), ground (arith, tested, inside, fits))

-- The available entry `a` with the end of the boot stage's memory becomes the current area, where no
-- later entry has that address.
pub add_areas-current :
    (boot low : ℕ) (first middle others : List MmapEntry) (a : MmapEntry) (s linear : Linear)
    → low ≤ boot
    → a.kind ≡ multiboot_memory_available
    → a.addr ≤ low
    → boot < a.addr + a.len
    → AllLow ((first ++ a ∷ middle) ++ others)
    → AllApart low (a.addr + a.len) (middle ++ others)
    → add_areas boot ((first ++ a ∷ middle) ++ others) s ≡ some linear
    → IsFrom boot (a.addr + a.len) linear
add_areas-current boot low [] middle others a s linear behind available lo hi fits apart runs =
    add_areas-apart boot low (a.addr + a.len) boot (a.addr + a.len) (middle ++ others)
      (after_entry boot a s) linear behind hi fits.2 apart
      (after_entry-current boot a s available (omega (arith, lo, behind)) hi
        (omega (arith, fits.1)))
      (add_areas-next boot a (middle ++ others) s linear runs)
add_areas-current boot low (e ∷ first) middle others a s linear behind available lo hi fits apart
      runs =
    add_areas-current boot low first middle others a (after_entry boot e s) linear behind available
      lo hi fits.2 apart (add_areas-next boot e ((first ++ a ∷ middle) ++ others) s linear runs)

-- The number of the available entries.
unfoldable pub count_available : List MmapEntry → ℕ
count_available [] = 0
count_available (e ∷ entries) =
    let rest = count_available entries in
    if e.kind == multiboot_memory_available then suc rest else rest

after_entry-length :
    (boot : ℕ) (e : MmapEntry) (entries : List MmapEntry) (s : Linear)
    → length ((after_entry boot e s).phys_mm_area_arr) + count_available entries
      ≡ length s.phys_mm_area_arr + count_available (e ∷ entries)
unfolding count_available
after_entry-length boot e entries s =
    let a : Area = record { start = e.addr; end = u64 (e.addr + e.len) } in
    ground (arith, length-append s.phys_mm_area_arr (a ∷ []))

-- The result: all the available entries in the array, or nothing where they are too many.
abbrev pub Collects : List MmapEntry → Linear → Option Linear → Type 0
Collects entries s result =
    let n = length s.phys_mm_area_arr + count_available entries in
    ((n ≤ phys_mm_segs_num_max)
      × (linear : Linear) × (result ≡ some linear)
      × (length linear.phys_mm_area_arr ≡ n))
    ⊎ ((phys_mm_segs_num_max < n) × (result ≡ none))

-- An entry that finds the array full, and one that does not.
add_areas-full :
    (boot : ℕ) (e : MmapEntry) (entries : List MmapEntry) (s : Linear)
    → e.kind ≡ multiboot_memory_available
    → phys_mm_segs_num_max ≤ length s.phys_mm_area_arr
    → add_areas boot (e ∷ entries) s ≡ none
unfolding add_areas
add_areas-full boot e entries s available full = ground (arith, available, full)

add_areas-step :
    (boot : ℕ) (e : MmapEntry) (entries : List MmapEntry) (s : Linear)
    → (e.kind ≢ multiboot_memory_available) ⊎ (length s.phys_mm_area_arr < phys_mm_segs_num_max)
    → add_areas boot (e ∷ entries) s ≡ add_areas boot entries (after_entry boot e s)
unfolding add_areas
add_areas-step boot e entries s room = ground (arith, room)

Collects-step :
    (boot : ℕ) (e : MmapEntry) (entries : List MmapEntry) (s : Linear)
    → (e.kind ≢ multiboot_memory_available) ⊎ (length s.phys_mm_area_arr < phys_mm_segs_num_max)
    → Collects entries (after_entry boot e s) (add_areas boot entries (after_entry boot e s))
    → Collects (e ∷ entries) s (add_areas boot (e ∷ entries) s)
Collects-step boot e entries s room rest =
    let step = add_areas-step boot e entries s room in
    let same = after_entry-length boot e entries s in
    elim rest [
      | inl (few, linear, runs, all) ↦
          inl (omega (arith, few, same), linear, step ∙ runs, all ∙ same)
      | inr (many, stops) ↦ inr (omega (arith, many, same), step ∙ stops)
    ]

after_entry-small :
    (boot : ℕ) (e : MmapEntry) (s : Linear)
    → length s.phys_mm_area_arr ≤ phys_mm_segs_num_max
    → (e.kind ≢ multiboot_memory_available) ⊎ (length s.phys_mm_area_arr < phys_mm_segs_num_max)
    → length ((after_entry boot e s).phys_mm_area_arr) ≤ phys_mm_segs_num_max
after_entry-small boot e s small room =
    let a : Area = record { start = e.addr; end = u64 (e.addr + e.len) } in
    ground (arith, small, room, length-append s.phys_mm_area_arr (a ∷ []))

room_or_full :
    (e : MmapEntry) (s : Linear)
    → ((e.kind ≢ multiboot_memory_available) ⊎ (length s.phys_mm_area_arr < phys_mm_segs_num_max))
      ⊎ ((e.kind ≡ multiboot_memory_available) × (phys_mm_segs_num_max ≤ length s.phys_mm_area_arr))
room_or_full e s = elim (Bool-cases (e.kind == multiboot_memory_available)) [
  | inr other ↦ inl (inl (ground (arith, other)))
  | inl available ↦ elim (dec_lt (length s.phys_mm_area_arr) phys_mm_segs_num_max) [
    | yes lt ↦ inl (inr lt)
    | no ge ↦ inr (ground (arith, available), omega (arith, ge))
  ]
]

pub add_areas-Collects :
    (boot : ℕ) (entries : List MmapEntry) (s : Linear)
    → length s.phys_mm_area_arr ≤ phys_mm_segs_num_max
    → Collects entries s (add_areas boot entries s)
unfolding add_areas count_available
add_areas-Collects boot [] s small = inl (omega (arith, small), s, refl, omega arith)
add_areas-Collects boot (e ∷ entries) s small = elim (room_or_full e s) [
  | inl room ↦ Collects-step boot e entries s room (
      add_areas-Collects boot entries (after_entry boot e s)
        (after_entry-small boot e s small room))
  | inr (available, full) ↦
      inr (ground (arith, full, available), add_areas-full boot e entries s available full)
]

pub add_areas-few :
    (boot : ℕ) (entries : List MmapEntry) (s : Linear)
    → length s.phys_mm_area_arr + count_available entries ≤ phys_mm_segs_num_max
    → (linear : Linear) × (add_areas boot entries s ≡ some linear)
add_areas-few boot entries s few = elim (add_areas-Collects boot entries s (omega (arith, few))) [
  | inl (le, linear, runs, all) ↦ (linear, runs)
  | inr (many, stops) ↦ absurd (omega (arith, many, few))
]
