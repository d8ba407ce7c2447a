-- ===== src/Lock.antt =====
-- include/sumios/lock.h over include/sumios/atomic.h: a spin lock on one counter, which
-- `atomic_compare_and_swap` and `atomic_set` change in one step.
pub mod Threads
pub mod Progress
mod Tests
use sumi_os.Base.{ℕ, Bool, true, false, Option, none, some, ◌==◌, if◌then◌else◌}

abbrev pub lock_free : ℕ
lock_free = 0

abbrev pub lock_used : ℕ
lock_used = 1

-- The counter after the operation, and whether it was set.
unfoldable pub atomic_compare_and_swap : (counter old new : ℕ) → ℕ × Bool
atomic_compare_and_swap counter old new = if counter == old then (new, true) else (counter, false)

unfoldable pub spin_lock_init : ℕ → ℕ
spin_lock_init counter = lock_free

-- With nobody else to change the counter, a loop that does not end at its first test never ends:
-- `none`.
unfoldable pub spin_lock : ℕ → Option ℕ
unfolding atomic_compare_and_swap
spin_lock counter =
    let (counter', done) = atomic_compare_and_swap counter lock_free lock_used in
    if done then some counter' else none

unfoldable pub spin_unlock : ℕ → Option ℕ
unfolding atomic_compare_and_swap
spin_unlock counter =
    let (counter', done) = atomic_compare_and_swap counter lock_used lock_free in
    if done then some counter' else none
