-- ===== src/MemInit/Chunks.antt =====
-- The chunks of the linear allocator lie in the available areas and never overlap.
use sumi_os.Base.{
  ℕ, zero, suc, ◌+◌, ◌-◌, ◌^◌, ◌≤◌, ◌<◌, ◌≡◌, refl, ◌≢◌, Bool, true, false, inl, inr, some, arith,
  leb, ltb, ◌==◌, if◌then◌else◌, Option-cases, length, get_elem?, u64,
}
use sumi_os.Layout.{align_page}
use sumi_os.MemInit.{Area, Linear, next_area, mm_init_phys_alloc_linear}

-- The current memory is the end part of one of the areas.
pub record IsCurrent (s : Linear) : Type 0 where
  pub index : ℕ
  pub area : Area
  pub listed : get_elem? s.phys_mm_area_arr index ≡ some area
  pub from : area.start ≤ s.mm_alloc_start
  pub to : s.mm_alloc_end ≡ area.end

-- What sliding to the next area leaves: the areas, and a start that is not before the old one.
record IsSlid (s t : Linear) : Type 0 where
  pub current : IsCurrent s → IsCurrent t
  pub later : s.mm_alloc_start ≤ s.mm_alloc_end → s.mm_alloc_start ≤ t.mm_alloc_start

stay : (s : Linear) → IsSlid s s
stay s = record { current = λ c. c; later = λ le. omega arith }

take_area :
    (s : Linear) (a : Area)
    → get_elem? s.phys_mm_area_arr s.phys_mm_area_idx ≡ some a
    → s.mm_alloc_end ≤ a.start
    → IsSlid s (record s { mm_alloc_start = a.start; mm_alloc_end = a.end })
take_area s a e le = record {
  current = λ c. record {
    index = s.phys_mm_area_idx;
    area = a;
    listed = e;
    from = omega arith;
    to = refl;
  };
  later = λ before. omega (arith, before, le);
}

skip_area :
    (s t : Linear) → IsSlid (record s { phys_mm_area_idx = s.phys_mm_area_idx + 1 }) t → IsSlid s t
skip_area s t r = record {
  current = λ c.
      r.current
        (record { index = c.index; area = c.area; listed = c.listed; from = c.from; to = c.to });
  later = r.later;
}

IsSlid-if :
    (b : Bool) (s t u : Linear)
    → (b ≡ true → IsSlid s t)
    → IsSlid s u
    → IsSlid s (if b then t else u)
IsSlid-if true s t u x y = x refl
IsSlid-if false s t u x y = y

next_area-IsSlid : (left : ℕ) (s : Linear) → IsSlid s (next_area left s)
unfolding next_area
next_area-IsSlid zero s = stay s
next_area-IsSlid (suc left) s =
    elim (Option-cases (get_elem? s.phys_mm_area_arr s.phys_mm_area_idx)) [
      | inl past ↦ rw (past, next_area) (stay s)
      | inr (a, e) ↦
          rw (e, next_area)
            (IsSlid-if (leb s.mm_alloc_end a.start) s _ _ (λ b. take_area s a e (ground (arith, b)))
              (skip_area s _ (next_area-IsSlid left _)))
    ]

-- A chunk for `sz` bytes, rounded up to whole pages, is taken from the start of the current
-- memory.
pub record IsChunk (s : Linear) (sz chunk : ℕ) (t : Linear) : Type 0 where
  pub at_start : chunk ≡ s.mm_alloc_start
  pub holds : sz ≤ align_page sz
  pub fits : chunk + align_page sz ≤ s.mm_alloc_end
  pub later : chunk + align_page sz ≤ t.mm_alloc_start
  pub current : IsCurrent t

abbrev Served : Linear → (sz : ℕ) → ℕ × Linear → Type 0
Served s sz r = r.0 ≢ 0 → IsChunk s sz r.0 r.1

Served-if :
    {s : Linear} {sz : ℕ} (b : Bool) (x y : ℕ × Linear)
    → (b ≡ true → Served s sz x)
    → (b ≡ false → Served s sz y)
    → Served s sz (if b then x else y)
Served-if true x y l r = l refl
Served-if false x y l r = r refl

refused : (s : Linear) (sz : ℕ) (t : Linear) → Served s sz (0, t)
refused s sz t served = absurd (served refl)

-- The current memory with its first `size` bytes taken.
abbrev taken : Linear → (size : ℕ) → Linear
taken s size = record s { mm_alloc_start = u64 (s.mm_alloc_start + size) }

taken-IsCurrent :
    (s : Linear) (size : ℕ)
    → s.mm_alloc_start + size < 2 ^ 64
    → IsCurrent s
    → IsCurrent (taken s size)
taken-IsCurrent s size lt c = record {
  index = c.index;
  area = c.area;
  listed = c.listed;
  from = omega (arith, lt, c.from);
  to = c.to;
}

-- While the current memory is the end part of a listed area, a chunk that is returned is the
-- beginning of the current memory, in whole pages that hold the size and lie in that memory; later
-- chunks lie behind it, and the current memory is again the end part of a listed area. Sizes and
-- addresses are below 2 ^ 63.
pub mm_init_phys_alloc_linear-IsChunk :
    (s : Linear) (sz : ℕ)
    → IsCurrent s
    → s.mm_alloc_start ≤ s.mm_alloc_end
    → s.mm_alloc_end < 2 ^ 63
    → sz < 2 ^ 63
    → (mm_init_phys_alloc_linear s sz).0 ≢ 0
    → IsChunk s sz (mm_init_phys_alloc_linear s sz).0 (mm_init_phys_alloc_linear s sz).1
unfolding mm_init_phys_alloc_linear
mm_init_phys_alloc_linear-IsChunk s sz current le bound small =
    let size = align_page sz in
    let slid = next_area-IsSlid (length s.phys_mm_area_arr - s.phys_mm_area_idx) (taken s size) in
    Served-if (sz == 0) _ _ (λ z. refused s sz s)
      (λ nz.
        Served-if (ltb s.mm_alloc_end (u64 (size + s.mm_alloc_start))) _ _ (λ big. refused s sz s)
          (λ fit.
            Served-if (ltb (u64 (s.mm_alloc_start + size)) s.mm_alloc_end) _ _
              (λ more served. record {
                at_start = refl;
                holds = omega arith;
                fits = ground (arith, fit);
                later = omega arith;
                current = taken-IsCurrent s size (omega arith) current;
              })
              (λ full.
                Served-if _ _ _ (λ last. refused s sz _)
                  (λ on served. record {
                    at_start = refl;
                    holds = omega arith;
                    fits = ground (arith, fit);
                    later = omega (arith, slid.later (ground (arith, fit)), le, bound, small);
                    current = slid.current (taken-IsCurrent s size (omega arith) current);
                  }))))
