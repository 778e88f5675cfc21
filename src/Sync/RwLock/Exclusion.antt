-- ===== src/Sync/RwLock/Exclusion.antt =====
-- Mutual exclusion of the read-write lock, over every interleaving.
use native.Mathlib.Decide.{dec_lt}
use feather_os.Prelude.{
  ℕ, ◌+◌, ◌^◌, ◌≤◌, ◌<◌, ◌≡◌, refl, sym, ap, ◌≢◌, inl, List, [], ◌∷◌, arith, length, get_or, set,
  replicate,
}
use feather_os.Prelude.Arrays.{length-set, length-replicate, get_or_out}
use feather_os.Sync.Threads.{
  set_out, total, others, total-others, total-set, others-bound, others-le, total-one, total-two,
  total-replicate,
}
use feather_os.Sync.RwLock.{
  RwLock, rwlock_init, Thread, idle, reader, writer, advance, Call, begin, System, Event, begins,
  steps, happen, run,
}
use feather_os.Sync.RwLock.Counts.{
  spins, reads, writes, will_read, will_write, reads_small, will_spin, begin_counts,
}
use feather_os.Sync.RwLock.Invariant.{Fits, advance-Fits}

-- The lock agrees with the counts over the threads.
abbrev pub IsSound : System → Type 0
IsSound s =
    Fits s.lock (total spins s.threads) (total reads s.threads) (total writes s.threads)
      (total will_read s.threads) (total will_write s.threads)

module _ (s : System) (i : ℕ) (lt : i < length s.threads) where
  abbrev thread : Thread
  thread = get_or s.threads i idle

  abbrev rest : (Thread → ℕ) → ℕ
  rest f = others f s.threads i

  -- The counts, with the thread's own taken out.
  apart :
      IsSound s
      → Fits s.lock
          (rest spins + spins thread)
          (rest reads + reads thread)
          (rest writes + writes thread)
          (rest will_read + will_read thread)
          (rest will_write + will_write thread)
  apart v =
      rw
        (
          sym (total-others spins s.threads i idle lt),
          sym (total-others reads s.threads i idle lt),
          sym (total-others writes s.threads i idle lt),
          sym (total-others will_read s.threads i idle lt),
          sym (total-others will_write s.threads i idle lt),
        )
        v

  -- And put back, for the thread's new state.
  together :
      (l : RwLock) (t : Thread)
      → Fits l
          (rest spins + spins t)
          (rest reads + reads t)
          (rest writes + writes t)
          (rest will_read + will_read t)
          (rest will_write + will_write t)
      → IsSound (record { lock = l; threads = set s.threads i t })
  together l t f =
      rw
        (
          total-set spins s.threads i t lt,
          total-set reads s.threads i t lt,
          total-set writes s.threads i t lt,
          total-set will_read s.threads i t lt,
          total-set will_write s.threads i t lt,
        )
        f

  steps-IsSound : length s.threads < 2 ^ 31 → IsSound s → IsSound (happen (steps i) s)
  unfolding happen
  steps-IsSound few v = together _ _ (
      advance-Fits s.lock _ _ _ _ _ (omega (arith, others-bound reads s.threads i reads_small lt))
        (others-le will_read will_write spins s.threads i will_spin) thread (apart v))

  begins-IsSound : (c : Call) → IsSound s → IsSound (happen (begins i c) s)
  unfolding happen
  begins-IsSound c v =
      let same = begin_counts c thread in
      together s.lock (begin c thread) (rw (same.0, same.1, same.2, same.3, same.4) (apart v))

happen-IsSound :
    (e : Event) (s : System) → length s.threads < 2 ^ 31 → IsSound s → IsSound (happen e s)
unfolding happen advance
happen-IsSound (begins i c) s few v = elim (dec_lt i (length s.threads)) [
  | yes lt ↦ begins-IsSound s i lt c v
  | no out ↦ rw (set_out s.threads i (begin c (get_or s.threads i idle)) (omega arith)) v
]
happen-IsSound (steps i) s few v = elim (dec_lt i (length s.threads)) [
  | yes lt ↦ steps-IsSound s i lt few v
  | no out ↦
      let none_there = get_or_out s.threads i idle (omega arith) in
      rw (none_there, set_out s.threads i idle (omega arith)) v
]

happen-length : (e : Event) (s : System) → length (happen e s).threads ≡ length s.threads
unfolding happen
happen-length (begins i c) s = length-set s.threads i _
happen-length (steps i) s = length-set s.threads i _

run-IsSound :
    (es : List Event) (s : System) → length s.threads < 2 ^ 31 → IsSound s → IsSound (run es s)
unfolding run
run-IsSound [] s few v = v
run-IsSound (e ∷ es) s few v =
    run-IsSound es (happen e s) (omega (arith, happen-length e s)) (happen-IsSound e s few v)

-- `n` threads, none of them at the lock.
unfoldable pub start : ℕ → System
start n = record { lock = rwlock_init; threads = replicate n idle }

start-IsSound : (n : ℕ) → IsSound (start n)
unfolding start rwlock_init
start-IsSound n =
    rw
      (
        total-replicate spins n idle refl,
        total-replicate reads n idle refl,
        total-replicate writes n idle refl,
        total-replicate will_read n idle refl,
        total-replicate will_write n idle refl,
      )
      (refl, omega arith, refl, refl, omega arith, inl refl, inl refl, inl refl)

-- However the steps of fewer than 2 ^ 31 threads interleave, while one thread has the lock for
-- writing no other has it for writing or for reading.
pub write_lock-excludes :
    (n : ℕ) (es : List Event) (i j : ℕ)
    → n < 2 ^ 31
    → i ≢ j
    → get_or (run es (start n)).threads i idle ≡ writer
    → (get_or (run es (start n)).threads j idle ≢ writer)
      × (get_or (run es (start n)).threads j idle ≢ reader)
unfolding start
write_lock-excludes n es i j few ne w = (
  λ w2. absurd (omega (arith, sound, two, ap writes w, ap writes w2)),
  λ r2. absurd (ground (arith, sound, mine, readers, ap writes w, ap reads r2)),
)
  where
    s : System
    s = run es (start n)

    sound : IsSound s
    sound = run-IsSound es (start n) (omega (arith, length-replicate n idle)) (start-IsSound n)

    two :
        writes (get_or s.threads i idle) + writes (get_or s.threads j idle) ≤ total writes s.threads
    two = total-two writes s.threads i j idle ne refl

    mine : writes (get_or s.threads i idle) ≤ total writes s.threads
    mine = total-one writes s.threads i idle refl

    readers : reads (get_or s.threads j idle) ≤ total reads s.threads
    readers = total-one reads s.threads j idle refl

-- In every interleaving of fewer than 2 ^ 31 threads the spinlock is 0 or 1, `writers` is the
-- number of threads counted as writers, at most one, and `readers` the number of those counted as
-- readers, so that no count wraps around.
run-counts :
    (n : ℕ) (es : List Event)
    → n < 2 ^ 31
    → ((run es (start n)).lock.lock ≤ 1)
      × ((run es (start n)).lock.writers ≡ total writes (run es (start n)).threads)
      × ((run es (start n)).lock.writers ≤ 1)
      × ((run es (start n)).lock.readers ≡ total reads (run es (start n)).threads)
unfolding start
run-counts n es few =
    let v = run-IsSound es (start n) (omega (arith, length-replicate n idle)) (start-IsSound n) in
    (omega (arith, v.0, v.1), v.3, omega (arith, v.3, v.4), v.2)
