-- ===== src/Lock/Tests.antt =====
-- The theorems about the spin lock at a state in which one thread holds it and another waits.
use sumi_os.Base.{ℕ, ◌≡◌, refl, none, some, update}
use sumi_os.Lock.{lock_free, lock_used, atomic_compare_and_swap, spin_lock, spin_unlock}
use sumi_os.Lock.Threads.{
  System, Step, Reach, start, here, next, call_lock, lock_done, call_unlock, locking, inside,
  unlocking, mutual_exclusion,
}
use sumi_os.Lock.Progress.{Run, freed_by, holder_unlocks, no_deadlock}

abbrev busy : System
busy = record {
  counter = (atomic_compare_and_swap lock_free lock_free lock_used).0;
  pc = update (update (update start.pc 4 locking) 7 locking) 4 inside;
}

busy-Reach : Reach busy
unfolding atomic_compare_and_swap
busy-Reach = next (next (next here (call_lock 4 refl)) (call_lock 7 refl)) (lock_done 4 refl refl)

mutual_exclusion_example : ◌≡◌ {A = ℕ} 4 4
mutual_exclusion_example = mutual_exclusion busy-Reach 4 4 refl refl

-- The state after the holder's call of `spin_unlock`.
abbrev leaving : System
leaving = record busy { pc = update busy.pc 4 unlocking }

holder_unlocks_example :
    (spin_unlock leaving.counter ≡ some lock_free)
    × (spin_lock leaving.counter ≡ none)
    × (leaving.pc 4 ≡ unlocking → Step leaving (freed_by 4 leaving))
holder_unlocks_example = holder_unlocks (next busy-Reach (call_unlock 4 refl)) 4 refl

no_deadlock_example : (t : System) × Run 3 busy t × (t.pc 7 ≡ inside)
no_deadlock_example = no_deadlock busy-Reach 7 refl
