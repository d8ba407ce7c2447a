-- ===== src/Lock/Progress.antt =====
-- That the loops of the spin lock come to their end: the holder frees the lock at once, and a waiting
-- thread can always come to hold it.
use sumi_os.Base.{ℕ, suc, ◌≡◌, refl, none, some, true, ◌⊎◌, inl, inr, arith, update}
use mathlib.Core.Path.{subst}
use sumi_os.Lock.{lock_free, lock_used, atomic_compare_and_swap, spin_lock, spin_unlock}
use sumi_os.Lock.Threads.{
  Pc, outside, locking, inside, unlocking, System, Step, lock_done, call_unlock, unlock_done, Reach,
  holds, Reach-IsSafe,
}

-- At most `n` steps that lead from one state to another.
pub data Run : ℕ → System → System → Type 0 where
  done : {n : ℕ} {s : System} → Run n s s
  step : {n : ℕ} {s t u : System} → Step s t → Run n t u → Run (suc n) s u

-- Thread `i` has left `spin_unlock`, and the lock is free; the others stand where they stood.
abbrev pub freed_by : ℕ → System → System
freed_by i s = record { counter = lock_free; pc = update s.pc i outside }

-- Thread `i` has left `spin_lock`, and the lock is used.
abbrev pub taken_by : ℕ → System → System
taken_by i s = record { counter = lock_used; pc = update s.pc i inside }

unlock-Step :
    (s : System) (i : ℕ) → s.counter ≡ lock_used → s.pc i ≡ unlocking → Step s (freed_by i s)
unfolding atomic_compare_and_swap
unlock-Step s i used at =
    subst (λ c. Step s (record { counter = c; pc = update s.pc i outside })) (ground (arith, used))
      (unlock_done i at (ground (arith, used)))

lock-Step : (s : System) (i : ℕ) → s.counter ≡ lock_free → s.pc i ≡ locking → Step s (taken_by i s)
unfolding atomic_compare_and_swap
lock-Step s i free at =
    subst (λ c. Step s (record { counter = c; pc = update s.pc i inside })) (ground (arith, free))
      (lock_done i at (ground (arith, free)))

-- In every reachable state with a thread that holds the lock, `spin_unlock` ends at its first test and
-- frees the lock, and `spin_lock` does not end at its first test; and if the thread is in the loop of
-- `spin_unlock`, its step leads out of the loop, with the lock free.
pub holder_unlocks :
    {s : System}
    → Reach s
    → (i : ℕ) → holds (s.pc i) ≡ true
    → (spin_unlock s.counter ≡ some lock_free)
      × (spin_lock s.counter ≡ none)
      × (s.pc i ≡ unlocking → Step s (freed_by i s))
unfolding spin_lock spin_unlock atomic_compare_and_swap
holder_unlocks {s} r i h =
    let used = (Reach-IsSafe r).used i h in
    (ground (arith, used), ground (arith, used), λ at. unlock-Step s i used at)

-- The holder, in the loop of `spin_unlock`, gives the lock to the thread that waits.
passes :
    (s : System) (i j : ℕ)
    → s.counter ≡ lock_used
    → s.pc j ≡ unlocking
    → s.pc i ≡ locking
    → (t : System) × Run 2 s t × (t.pc i ≡ inside)
passes s i j used at waits =
    let s' = freed_by j s in
    (
      taken_by i s',
      step (unlock-Step s j used at) (step (lock-Step s' i refl (ground (arith, at, waits))) done),
      ground arith,
    )

-- From every reachable state, each thread that is in the loop of `spin_lock` comes to hold the lock by
-- at most three steps of it and of the holder: no state is a deadlock, in which all threads spin for
-- ever.
pub no_deadlock :
    {s : System}
    → Reach s
    → (i : ℕ) → s.pc i ≡ locking
    → (t : System) × Run 3 s t × (t.pc i ≡ inside)
no_deadlock {s} r i waits = elim (Reach-IsSafe r).held [
  | inr free ↦ (taken_by i s, step (lock-Step s i free waits) done, ground arith)
  | inl (j, h) ↦
      let used = (Reach-IsSafe r).used j h in
      elim (inside_or_unlocking (s.pc j) h) [
        | inl at ↦
            let s1 = record s { pc = update s.pc j unlocking } in
            let (t, run, got) = passes s1 i j used (ground arith) (ground (arith, at, waits)) in
            (t, step (call_unlock j at) run, got)
        | inr at ↦ let (t, run, got) = passes s i j used at waits in (t, longer run, got)
      ]
]
  where
    inside_or_unlocking : (p : Pc) → holds p ≡ true → (p ≡ inside) ⊎ (p ≡ unlocking)
    inside_or_unlocking inside h = inl refl
    inside_or_unlocking unlocking h = inr refl
    inside_or_unlocking outside h = cc
    inside_or_unlocking locking h = cc

    longer : {n : ℕ} {s t : System} → Run n s t → Run (suc n) s t
    longer done = done
    longer (step st run) = step st (longer run)
