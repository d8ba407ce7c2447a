-- ===== src/Links/Frame.antt =====
-- What the operations of list.h leave alone: a circular list that shares no node with the one that
-- is changed still stands for the same sequence.
use sumi_os.Base.{ℕ, ◌≡◌, true, false, List, [], ◌∷◌, arith, has, inl, inr, Bool-cases, ◌==◌, ◌≢◌}
use sumi_os.Links.{Links, list_add_next, list_del}
use sumi_os.Links.Ring.{Seg, IsRing, Seg-frame}

-- The two states hold the same words at `a`.
abbrev pub SameAt : Links → Links → ℕ → Type 0
SameAt s t a = (t.next a ≡ s.next a) × (t.prev a ≡ s.prev a)

pub IsRing-frame :
    {s t : Links} {h : ℕ} {xs : List ℕ}
    → IsRing s h xs
    → ((a : ℕ) → has a (h ∷ xs) ≡ true → SameAt s t a)
    → IsRing t h xs
IsRing-frame {h} {xs} r same = record {
  chain = Seg-frame h xs h r.chain (λ a m. (same a m).0) (λ a m. (same a m).1);
  distinct = r.distinct;
}

Seg-next : (s : Links) (p : ℕ) (xs : List ℕ) (q : ℕ) → Seg s p xs q → has (s.next p) (q ∷ xs) ≡ true
Seg-next s p [] q c = ground arith
Seg-next s p (x ∷ xs) q c = ground arith

Seg-ends :
    (s : Links) (e p : ℕ) (xs : List ℕ) (q : ℕ)
    → Seg s p xs q
    → has e xs ≡ true
    → (has (s.next e) (q ∷ xs) ≡ true) × (has (s.prev e) (p ∷ xs) ≡ true)
Seg-ends s e p [] q c m = cc
Seg-ends s e p (x ∷ xs) q c m = elim (Bool-cases (e == x)) [
  | inl here ↦ ground (arith, Seg-next s x xs q c.2)
  | inr there ↦ ground (arith, Seg-ends s e x xs q c.2)
]

-- `list_add_next` writes only to the head, the first node and the new one.
pub list_add_next-SameAt :
    {s : Links} {h : ℕ} {xs : List ℕ} (n a : ℕ)
    → IsRing s h xs
    → has a (h ∷ xs) ≡ false
    → a ≢ n
    → SameAt s (list_add_next s h n) a
unfolding list_add_next
list_add_next-SameAt {s} {h} {xs} n a r m ne =
    (ground arith, ground (arith, Seg-next s h xs h r.chain))

-- `list_del` writes only to nodes of its own list, the head included.
pub list_del-SameAt :
    {s : Links} {h : ℕ} {xs : List ℕ} (e a : ℕ)
    → IsRing s h xs
    → has e xs ≡ true
    → has a (h ∷ xs) ≡ false
    → SameAt s (list_del s e) a
unfolding list_del
list_del-SameAt {s} {h} {xs} e a r k m =
    let ends = Seg-ends s e h xs h r.chain k in (ground (arith, ends), ground (arith, ends))
