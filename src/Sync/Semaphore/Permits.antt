-- ===== src/Sync/Semaphore/Permits.antt =====
-- The permits of the semaphore, over every interleaving.
use native.Mathlib.Decide.{dec_lt}
use feather_os.Prelude.{
  ℕ, ◌+◌, ◌^◌, ◌<◌, ◌≡◌, refl, List, [], ◌∷◌, arith, ◌==◌, if◌then◌else◌, length, get_or, set,
  replicate,
}
use feather_os.Prelude.Arrays.{get_or_out}
use feather_os.Sync.Threads.{total, others, total-others, total-set, total-replicate, set_out}
use feather_os.Sync.Atomic.{atomic_read, atomic_inc, atomic_compare_and_swap}
use feather_os.Sync.Semaphore.{
  Semaphore, sem_init, Waiter, away, waiting, swapping, trying, try_swapping, permitted,
  sem_wait_read, sem_wait_swap, sem_trywait_read, sem_trywait_swap, sem_post, progress, Callers,
  Act, waits, tries, goes_on, enter, act, acts,
}

-- The permits that a caller has.
abbrev pub permits : Waiter → ℕ
permits away = 0
permits waiting = 0
permits (swapping old) = 0
permits trying = 0
permits (try_swapping old) = 0
permits permitted = 1

-- 1 for a caller that is about to swap and has read the count 0.
abbrev pub rash : Waiter → ℕ
rash away = 0
rash waiting = 0
rash (swapping old) = if old == 0 then 1 else 0
rash trying = 0
rash (try_swapping old) = if old == 0 then 1 else 0
rash permitted = 0

-- The count and the sums over the callers: no permit is lost or made, and none is rash.
abbrev Balanced : ℕ → Semaphore → ℕ → ℕ → Type 0
Balanced n sem held unsafe = (sem.count.counter + held ≡ n) × (unsafe ≡ 0)

progress-Balanced :
    (w : Waiter) (sem : Semaphore) (n held unsafe : ℕ)
    → n < 2 ^ 31
    → Balanced n sem (held + permits w) (unsafe + rash w)
    → Balanced n
        (progress w sem).0
        (held + permits (progress w sem).1)
        (unsafe + rash (progress w sem).1)
unfolding progress sem_wait_read sem_wait_swap sem_trywait_read sem_trywait_swap sem_post
    atomic_read atomic_inc atomic_compare_and_swap
progress-Balanced away sem n held unsafe few b = b
progress-Balanced waiting sem n held unsafe few b = ground arith
progress-Balanced (swapping old) sem n held unsafe few b = ground arith
progress-Balanced trying sem n held unsafe few b = ground arith
progress-Balanced (try_swapping old) sem n held unsafe few b = ground arith
progress-Balanced permitted sem n held unsafe few b = ground arith

abbrev pub KeepsPermits : ℕ → Callers → Type 0
KeepsPermits n c = Balanced n c.sem (total permits c.waiters) (total rash c.waiters)

module _ (n : ℕ) (c : Callers) (i : ℕ) (lt : i < length c.waiters) (v : KeepsPermits n c) where
  abbrev own : Waiter
  own = get_or c.waiters i away

  apart :
      Balanced n c.sem
        (others permits c.waiters i + permits own)
        (others rash c.waiters i + rash own)
  apart = (
    omega (arith, v.0, total-others permits c.waiters i away lt),
    omega (arith, v.1, total-others rash c.waiters i away lt),
  )

  together :
      (s : Semaphore) (w : Waiter)
      → Balanced n s (others permits c.waiters i + permits w) (others rash c.waiters i + rash w)
      → KeepsPermits n (record { sem = s; waiters = set c.waiters i w })
  together s w b = (
    omega (arith, b.0, total-set permits c.waiters i w lt),
    omega (arith, b.1, total-set rash c.waiters i w lt),
  )

  goes_on-KeepsPermits : n < 2 ^ 31 → KeepsPermits n (act (goes_on i) c)
  unfolding act
  goes_on-KeepsPermits few =
      together (progress own c.sem).0 (progress own c.sem).1
        (progress-Balanced own c.sem n _ _ few apart)

-- A caller that begins counts as it did.
enter_counts :
    (how w : Waiter)
    → permits how ≡ 0
    → rash how ≡ 0
    → (permits (enter how w) ≡ permits w) × (rash (enter how w) ≡ rash w)
unfolding enter
enter_counts how away p r = (p, r)
enter_counts how waiting p r = (refl, refl)
enter_counts how (swapping old) p r = (refl, refl)
enter_counts how trying p r = (refl, refl)
enter_counts how (try_swapping old) p r = (refl, refl)
enter_counts how permitted p r = (refl, refl)

enters-KeepsPermits :
    (n : ℕ) (c : Callers) (i : ℕ) (how : Waiter)
    → permits how ≡ 0
    → rash how ≡ 0
    → KeepsPermits n c
    → KeepsPermits n (record c { waiters = set c.waiters i (enter how (get_or c.waiters i away)) })
enters-KeepsPermits n c i how p r v = elim (dec_lt i (length c.waiters)) [
  | yes lt ↦
      let b = apart n c i lt v in
      let same = enter_counts how (get_or c.waiters i away) p r in
      together n c i lt v c.sem _ (omega (arith, b.0, same.0), omega (arith, b.1, same.1))
  | no out ↦ rw (set_out c.waiters i (enter how (get_or c.waiters i away)) (omega arith)) v
]

act-KeepsPermits :
    (n : ℕ) (a : Act) (c : Callers) → n < 2 ^ 31 → KeepsPermits n c → KeepsPermits n (act a c)
unfolding act progress
act-KeepsPermits n (waits i) c few v = enters-KeepsPermits n c i waiting refl refl v
act-KeepsPermits n (tries i) c few v = enters-KeepsPermits n c i trying refl refl v
act-KeepsPermits n (goes_on i) c few v = elim (dec_lt i (length c.waiters)) [
  | yes lt ↦ goes_on-KeepsPermits n c i lt v few
  | no out ↦
      let none_there = get_or_out c.waiters i away (omega arith) in
      rw (none_there, set_out c.waiters i away (omega arith)) v
]

acts-KeepsPermits :
    (n : ℕ) (events : List Act) (c : Callers)
    → n < 2 ^ 31
    → KeepsPermits n c
    → KeepsPermits n (acts events c)
unfolding acts
acts-KeepsPermits n [] c few v = v
acts-KeepsPermits n (a ∷ rest) c few v =
    acts-KeepsPermits n rest (act a c) few (act-KeepsPermits n a c few v)

unfoldable pub gate : ℕ → ℕ → ℕ → Callers
gate count max_count m = record { sem = sem_init count max_count; waiters = replicate m away }

-- A semaphore that starts at a count below 2 ^ 31 never goes below 0: however the steps of its
-- callers interleave, where each caller that got a permit posts it back, its count and the number
-- of callers that have a permit sum to the count it started with.
pub sem_wait-permits :
    (count max_count m : ℕ) (events : List Act)
    → count < 2 ^ 31
    → (acts events (gate count max_count m)).sem.count.counter
        + total permits (acts events (gate count max_count m)).waiters
      ≡ count
unfolding gate sem_init
sem_wait-permits count max_count m events few =
    (acts-KeepsPermits count events (gate count max_count m) few (
      omega (arith, total-replicate permits m away refl),
      omega (arith, total-replicate rash m away refl),
    )).0
