-- ===== src/Sync/Semaphore/Alone.antt =====
-- What a caller of the semaphore does where no other takes a step meanwhile.
use feather_os.Prelude.{ℕ, zero, suc, ◌+◌, ◌^◌, ◌<◌, ◌≡◌, refl, true, arith}
use feather_os.Sync.Atomic.{atomic_read, atomic_inc, atomic_compare_and_swap}
use feather_os.Sync.Semaphore.{
  Semaphore, Waiter, away, waiting, trying, permitted, sem_wait_read, sem_wait_swap,
  sem_trywait_read, sem_trywait_swap, sem_post, progress, is_not_positive,
}

pub alone : ℕ → Waiter → Semaphore → Semaphore × Waiter
alone zero w sem = (sem, w)
alone (suc n) w sem = let r = progress w sem in alone n r.1 r.0

-- Where the count is positive, sem_wait and sem_trywait take a permit in two steps, after which
-- sem_post puts the count back.
sem_post-wait :
    (sem : Semaphore)
    → 0 < sem.count.counter
    → sem.count.counter < 2 ^ 31
    → ((alone 2 waiting sem).1 ≡ permitted)
      × (alone 2 trying sem ≡ alone 2 waiting sem)
      × ((alone 2 waiting sem).0.count.counter + 1 ≡ sem.count.counter)
      × (alone 3 waiting sem ≡ (sem, away))
unfolding alone progress sem_wait_read sem_wait_swap sem_trywait_read sem_trywait_swap sem_post
    atomic_read atomic_inc atomic_compare_and_swap
sem_post-wait sem pos few = (ground arith, ground arith, ground arith, ground arith)

resting : (n : ℕ) (sem : Semaphore) → alone n away sem ≡ (sem, away)
unfolding alone progress
resting zero sem = refl
resting (suc n) sem = resting n sem

-- Where the count is 0 or negative, sem_trywait gives up without a change, and sem_wait is where it
-- began after every number of steps.
sem_wait_blocks :
    (n : ℕ) (sem : Semaphore)
    → is_not_positive sem.count.counter ≡ true
    → (alone (suc n) trying sem ≡ (sem, away)) × (alone n waiting sem ≡ (sem, waiting))
unfolding alone progress sem_wait_read sem_trywait_read atomic_read
sem_wait_blocks zero sem e = (rw e refl, refl)
sem_wait_blocks (suc n) sem e = (rw e (resting (suc n) sem), rw e (sem_wait_blocks n sem e).1)
