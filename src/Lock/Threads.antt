-- ===== src/Lock/Threads.antt =====
-- Any number of threads that take and release one spin lock, interleaved in any order.
use sumi_os.Base.{ℕ, ◌≡◌, refl, Bool, true, false, ◌⊎◌, inl, inr, arith, update}
use sumi_os.Lock.{lock_free, lock_used, atomic_compare_and_swap}

-- Where a thread stands: outside, in the loop of `spin_lock`, between the two calls, or in the
-- loop of `spin_unlock`.
pub data Pc : Type 0 where
  outside locking inside unlocking : Pc

pub record System : Type 0 where
  pub counter : ℕ
  pub pc : ℕ → Pc

-- One step of thread `i`. A failed compare-and-swap goes round the loop.
pub data Step (s : System) : System → Type 0 where
  call_lock : (i : ℕ) → s.pc i ≡ outside → Step s (record s { pc = update s.pc i locking })
  lock_spin :
      (i : ℕ)
      → s.pc i ≡ locking
      → (atomic_compare_and_swap s.counter lock_free lock_used).1 ≡ false
      → Step s (record s { counter = (atomic_compare_and_swap s.counter lock_free lock_used).0 })
  lock_done :
      (i : ℕ)
      → s.pc i ≡ locking
      → (atomic_compare_and_swap s.counter lock_free lock_used).1 ≡ true
      → Step s (record {
        counter = (atomic_compare_and_swap s.counter lock_free lock_used).0;
        pc = update s.pc i inside;
      })
  call_unlock : (i : ℕ) → s.pc i ≡ inside → Step s (record s { pc = update s.pc i unlocking })
  unlock_spin :
      (i : ℕ)
      → s.pc i ≡ unlocking
      → (atomic_compare_and_swap s.counter lock_used lock_free).1 ≡ false
      → Step s (record s { counter = (atomic_compare_and_swap s.counter lock_used lock_free).0 })
  unlock_done :
      (i : ℕ)
      → s.pc i ≡ unlocking
      → (atomic_compare_and_swap s.counter lock_used lock_free).1 ≡ true
      → Step s (record {
        counter = (atomic_compare_and_swap s.counter lock_used lock_free).0;
        pc = update s.pc i outside;
      })

abbrev pub start : System
start = record { counter = lock_free; pc = λ i. outside }

pub data Reach : System → Type 0 where
  here : Reach start
  next : {s t : System} → Reach s → Step s t → Reach t

-- The thread has taken the lock and has not given it back.
abbrev pub holds : Pc → Bool
holds inside = true
holds unlocking = true
holds _ = false

-- The counter says whether some thread holds the lock, and no two do.
pub record IsSafe (s : System) : Type 0 where
  pub bit : (s.counter ≡ 0) ⊎ (s.counter ≡ 1)
  pub used : (i : ℕ) → holds (s.pc i) ≡ true → s.counter ≡ 1
  pub unique : (i j : ℕ) → holds (s.pc i) ≡ true → holds (s.pc j) ≡ true → i ≡ j
  pub held : ((j : ℕ) × (holds (s.pc j) ≡ true)) ⊎ (s.counter ≡ 0)

Step-IsSafe : {s t : System} → Step s t → IsSafe s → IsSafe t
unfolding atomic_compare_and_swap
Step-IsSafe {s} (call_lock i e) v = record {
  bit = v.bit;
  used = λ j h. ground (arith, v.used j);
  unique = λ j k h g. ground (arith, v.unique j k);
  held = keep v.held;
}
  where
    keep :
        ((j : ℕ) × (holds (s.pc j) ≡ true)) ⊎ (s.counter ≡ 0)
        → ((j : ℕ) × (holds (update s.pc i locking j) ≡ true)) ⊎ (s.counter ≡ 0)
    keep (inl (j, h)) = inl (j, ground arith)
    keep (inr z) = inr z
Step-IsSafe {s} (lock_spin i e d) v = record {
  bit = ground (arith, v.bit);
  used = λ j h. ground (arith, v.used j);
  unique = λ j k h g. ground (arith, v.unique j k);
  held = ground (arith, v.held);
}
Step-IsSafe {s} (lock_done i e d) v = record {
  bit = ground (arith, v.bit);
  used = λ j h. ground (arith, v.used j);
  unique = λ j k h g. ground (arith, v.unique j k, v.used j, v.used k);
  held = inl (i, ground arith);
}
Step-IsSafe {s} (call_unlock i e) v = record {
  bit = v.bit;
  used = λ j h. ground (arith, v.used j, v.used i);
  unique = λ j k h g. ground (arith, v.unique j k, v.unique i k, v.unique j i);
  held = inl (i, ground arith);
}
Step-IsSafe {s} (unlock_spin i e d) v = record {
  bit = ground (arith, v.bit);
  used = λ j h. ground (arith, v.used j);
  unique = λ j k h g. ground (arith, v.unique j k);
  held = inl (i, ground arith);
}
Step-IsSafe {s} (unlock_done i e d) v = record {
  bit = ground (arith, v.bit);
  used = λ j h. ground (arith, v.used j, v.unique i j);
  unique = λ j k h g. ground (arith, v.unique j k);
  held = inr (ground arith);
}

pub Reach-IsSafe : {s : System} → Reach s → IsSafe s
Reach-IsSafe here = record {
  bit = inl refl;
  used = λ i h. cc;
  unique = λ i j h g. cc;
  held = inr refl;
}
Reach-IsSafe (next r st) = Step-IsSafe st (Reach-IsSafe r)

-- In every reachable state at most one thread is between `spin_lock` and the end of `spin_unlock`.
pub mutual_exclusion :
    {s : System} → Reach s → (i j : ℕ) → holds (s.pc i) ≡ true → holds (s.pc j) ≡ true → i ≡ j
mutual_exclusion r = (Reach-IsSafe r).unique
