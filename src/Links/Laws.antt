-- ===== src/Links/Laws.antt =====
-- Each operation of list.h on a circular list, as the operation on the sequence of its nodes.
use sumi_os.Base.{
  length, ◌≤◌, ◌+◌, ℕ, ◌≡◌, refl, Bool, true, false, List, [], ◌∷◌, ◌++◌, arith, has, has-append,
  inl, inr, Bool-cases, ◌==◌, ◌≢◌, if◌then◌else◌,
}
use sumi_os.Links.{Links, list_add_prev, list_add_next, list_del, list_head_init, list_empty}
use sumi_os.Links.Ring.{Seg, Distinct, IsRing, Seg-frame}

-- The sequence without the first occurrence of `a`.
abbrev pub remove : ℕ → List ℕ → List ℕ
remove a [] = []
remove a (x ∷ xs) = if x == a then xs else x ∷ remove a xs

-- `list_head_init` makes the empty circular list.
pub list_head_init-IsRing : (s : Links) (h : ℕ) → IsRing (list_head_init s h) h []
unfolding list_head_init
list_head_init-IsRing s h = record { chain = ground arith; distinct = ground arith }

abbrev pub is_nil : List ℕ → Bool
is_nil [] = true
is_nil (x ∷ xs) = false

-- `list_empty` tells exactly whether the sequence is empty.
pub list_empty-nil : {s : Links} {h : ℕ} (xs : List ℕ) → IsRing s h xs → list_empty s h ≡ is_nil xs
unfolding list_empty
list_empty-nil [] r = ground (arith, r.chain.0, r.chain.1)
list_empty-nil (x ∷ xs) r = ground (arith, r.chain.0, r.distinct.0)

-- The last node before the end of a segment.
abbrev last_before : ℕ → List ℕ → ℕ
last_before p [] = p
last_before p (x ∷ xs) = last_before x xs

has-last_before : (p : ℕ) (xs : List ℕ) → has (last_before p xs) (p ∷ xs) ≡ true
has-last_before p [] = ground arith
has-last_before p (x ∷ xs) = ground (arith, has-last_before x xs)

Seg-prev : (s : Links) (p : ℕ) (xs : List ℕ) (q : ℕ) → Seg s p xs q → s.prev q ≡ last_before p xs
Seg-prev s p [] q c = c.1
Seg-prev s p (x ∷ xs) q c = Seg-prev s x xs q c.2

-- A segment that ends in `q`, bent to end in `n` and to go on to `q` from there.
Seg-extend :
    (s t : Links) (p : ℕ) (xs : List ℕ) (n q : ℕ)
    → Seg s p xs q
    → Distinct (p ∷ xs)
    → t.next (last_before p xs) ≡ n
    → t.prev n ≡ last_before p xs
    → t.next n ≡ q
    → t.prev q ≡ n
    → ((a : ℕ) → has a (p ∷ xs) ≡ true → a ≢ last_before p xs → t.next a ≡ s.next a)
    → ((a : ℕ) → has a xs ≡ true → t.prev a ≡ s.prev a)
    → Seg t p (xs ++ n ∷ []) q
Seg-extend s t p [] n q c d ln nl nq qn keep_n keep_p = (ln, nl, (nq, qn))
Seg-extend s t p (x ∷ xs) n q c d ln nl nq qn keep_n keep_p = (
  ground (arith, keep_n p, has-last_before x xs),
  ground (arith, keep_p x),
  Seg-extend s t x xs n q c.2 d.1 ln nl nq qn (λ a m ne. ground (arith, keep_n a))
      (λ a m. ground (arith, keep_p a)),
)

-- `list_add_next` puts a fresh node in front.
pub list_add_next-cons :
    {s : Links} {h : ℕ} (n : ℕ) (xs : List ℕ)
    → IsRing s h xs
    → has n (h ∷ xs) ≡ false
    → IsRing (list_add_next s h n) h (n ∷ xs)
unfolding list_add_next
list_add_next-cons n [] r f = record { chain = ground arith; distinct = ground arith }
list_add_next-cons {s} {h} n (x ∷ xs) r f = record {
  chain = (
    ground (arith, r.chain, r.distinct),
    ground (arith, r.chain, r.distinct),
    (
      ground (arith, r.chain, r.distinct),
      ground (arith, r.chain, r.distinct),
      Seg-frame x xs h r.chain.2 (λ a m. ground (arith, r.distinct))
          (λ a m. ground (arith, r.chain, r.distinct)),
    ),
  );
  distinct = ground (arith, r.distinct);
}

Distinct-append : (xs : List ℕ) (n : ℕ) → Distinct xs → has n xs ≡ false → Distinct (xs ++ n ∷ [])
Distinct-append [] n d f = (refl, tt)
Distinct-append (x ∷ xs) n d f =
    (ground (arith, has-append x xs (n ∷ [])), Distinct-append xs n d.1 (ground arith))

-- `list_add_prev` puts a fresh node at the end.
pub list_add_prev-append :
    {s : Links} {h : ℕ} (n : ℕ) (xs : List ℕ)
    → IsRing s h xs
    → has n (h ∷ xs) ≡ false
    → IsRing (list_add_prev s h n) h (xs ++ n ∷ [])
unfolding list_add_prev
list_add_prev-append {s} {h} n xs r f =
    let e = Seg-prev s h xs h r.chain in
    let m = has-last_before h xs in
    record {
      chain =
          Seg-extend s _ h xs n h r.chain r.distinct (ground (arith, e, m)) (ground (arith, e, m))
            (ground (arith, e, m)) (ground (arith, e, m)) (λ a k ne. ground (arith, e, m))
            (λ a k. ground (arith, e, m, r.distinct));
      distinct = (
        ground (arith, has-append h xs (n ∷ []), r.distinct),
        Distinct-append xs n r.distinct.1 (ground arith),
      );
    }

pub length-remove : (e : ℕ) (xs : List ℕ) → length xs ≤ length (remove e xs) + 1
length-remove e [] = omega arith
length-remove e (x ∷ xs) = ground (arith, length-remove e xs)

pub has-remove_self : (e : ℕ) (xs : List ℕ) → Distinct xs → has e (remove e xs) ≡ false
has-remove_self e [] d = refl
has-remove_self e (x ∷ xs) d = ground (arith, has-remove_self e xs d.1, d.0)

pub has-remove : (e a : ℕ) (xs : List ℕ) → has a xs ≡ false → has a (remove e xs) ≡ false
has-remove e a [] m = refl
has-remove e a (x ∷ xs) m = ground (arith, has-remove e a xs)

pub Distinct-remove : (e : ℕ) (xs : List ℕ) → Distinct xs → Distinct (remove e xs)
Distinct-remove e [] d = d
Distinct-remove e (x ∷ xs) d = elim (Bool-cases (x == e)) [
  | inl here ↦ rw here d.1
  | inr there ↦ rw there (has-remove e x xs d.0, Distinct-remove e xs d.1)
]

module _ (s : Links) (e : ℕ) where
  -- A node of a segment is its neighbours' neighbour.
  Seg-neighbours :
      (p : ℕ) (xs : List ℕ) (q : ℕ)
      → Seg s p xs q
      → has e xs ≡ true
      → (s.next (s.prev e) ≡ e) × (s.prev (s.next e) ≡ e)
  Seg-neighbours p [] q c m = cc
  Seg-neighbours p (x ∷ []) q c m = ground arith
  Seg-neighbours p (x ∷ y ∷ xs) q c m = elim (Bool-cases (e == x)) [
    | inl here ↦ ground arith
    | inr there ↦ Seg-neighbours x (y ∷ xs) q c.2 (ground arith)
  ]

  -- Unlinking the first node of a segment.
  list_del-first :
      (p : ℕ) (xs : List ℕ) (q : ℕ)
      → Seg s p (e ∷ xs) q
      → Distinct (e ∷ xs)
      → has p (e ∷ xs) ≡ false
      → has q (e ∷ xs) ≡ false
      → Seg (list_del s e) p xs q
  unfolding list_del
  list_del-first p [] q c d np nq = ground arith
  list_del-first p (z ∷ zs) q c d np nq = (
    ground arith,
    ground arith,
    Seg-frame z zs q c.2.2 (λ a k. ground arith) (λ a k. ground arith),
  )

  list_del-Seg :
      (p : ℕ) (xs : List ℕ) (q : ℕ)
      → Seg s p xs q
      → has e xs ≡ true
      → Distinct xs
      → has p xs ≡ false
      → has q xs ≡ false
      → Seg (list_del s e) p (remove e xs) q
  list_del-Seg p [] q c m d np nq = cc
  list_del-Seg p (x ∷ xs) q c m d np nq = elim (Bool-cases (x == e)) [
    | inl here ↦
        let same : x ≡ e = ground arith in
        rw here
          (list_del-first p xs q (rw same at c) (rw same at d) (rw same at np) (rw same at nq))
    | inr there ↦
        let n = Seg-neighbours p (x ∷ xs) q c m in
        rw there (
          unfold list_del in ground (arith, n),
          unfold list_del in ground (arith, n),
          list_del-Seg x xs q c.2 (ground arith) d.1 d.0 (ground arith),
        )
  ]

-- `list_del` takes a node out, wherever in the list it stands.
pub list_del-remove :
    {s : Links} {h : ℕ} (e : ℕ) (xs : List ℕ)
    → IsRing s h xs
    → has e xs ≡ true
    → IsRing (list_del s e) h (remove e xs)
list_del-remove {s} {h} e xs r m = record {
  chain = list_del-Seg s e h xs h r.chain m r.distinct.1 r.distinct.0 r.distinct.0;
  distinct = (has-remove e h xs r.distinct.0, Distinct-remove e xs r.distinct.1);
}
