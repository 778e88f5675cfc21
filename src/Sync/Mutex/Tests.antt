-- ===== src/Sync/Mutex/Tests.antt =====
-- Two callers of which one comes to have the mutex, and the theorems at them.
use feather_os.Prelude.{◌≡◌, refl, ◌≢◌, false, List, [], ◌∷◌, arith, get_or}
use feather_os.Sync.Atomic.{atomic_set, atomic_read, atomic_compare_and_swap}
use feather_os.Sync.Mutex.{
  mutex_init, mutex_is_locked, outside, holding, mutex_lock_swap, mutex_lock_mark,
  mutex_unlock_clear, mutex_unlock_release, move_on, mutex_lock, mutex_unlock, request, Turn,
  requests, moves, turn, turns,
}
use feather_os.Sync.Mutex.Exclusion.{entrance, mutex_lock-excludes}

-- Both try; the first gets it, and the second goes round its loop.
abbrev contest : List Turn
contest = requests 0 mutex_lock ∷ requests 1 mutex_lock ∷ moves 0 ∷ moves 1 ∷ moves 0 ∷ moves 1 ∷ []

first_in : get_or (turns contest (entrance 2)).lockers 0 outside ≡ holding
unfolding turns turn entrance mutex_init request move_on mutex_lock_swap mutex_lock_mark
    atomic_compare_and_swap
first_in = refl

mutex_lock-excludes_example : get_or (turns contest (entrance 2)).lockers 1 outside ≢ holding
mutex_lock-excludes_example = mutex_lock-excludes 2 contest 0 1 (λ e. absurd (omega arith)) first_in

abbrev and_back : List Turn
and_back =
    requests 0 mutex_lock ∷ moves 0 ∷ moves 0 ∷ requests 0 mutex_unlock ∷ moves 0 ∷ moves 0 ∷ []

free_again : mutex_is_locked (turns and_back (entrance 2)).mutex ≡ false
unfolding turns turn entrance mutex_init request move_on mutex_lock_swap mutex_lock_mark
    mutex_unlock_clear mutex_unlock_release mutex_is_locked atomic_set atomic_read
    atomic_compare_and_swap
free_again = refl
