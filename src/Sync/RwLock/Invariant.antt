-- ===== src/Sync/RwLock/Invariant.antt =====
-- The invariant of the read-write lock, kept by every step of every operation.
use feather_os.Prelude.{ℕ, ◌+◌, ◌^◌, ◌≤◌, ◌<◌, ◌≡◌, ◌⊎◌, arith}
use feather_os.Sync.RwLock.{
  RwLock, Stage, acquire, check, back_off, commit, release, spin_lock, spin_unlock, read_lock,
  read_unlock, read_trylock, write_lock, write_unlock, write_trylock, Thread, idle, reader, writer,
  read_locking, read_unlocking, read_trying, write_locking, write_unlocking, write_trying, finish,
  advance,
}
use feather_os.Sync.RwLock.Counts.{spins, reads, writes, will_read, will_write}

-- The lock and the sums of the five counts over the threads.
abbrev pub Fits : RwLock → ℕ → ℕ → ℕ → ℕ → ℕ → Type 0
Fits l sp rd wr pr pw =
    (l.lock ≡ sp)
    × (sp ≤ 1)
    × (l.readers ≡ rd)
    × (l.writers ≡ wr)
    × (wr ≤ 1)
    × ((wr ≡ 0) ⊎ (rd ≡ 0))
    × ((pr ≡ 0) ⊎ (wr ≡ 0))
    × ((pw ≡ 0) ⊎ (rd + wr ≡ 0))

-- One step of a thread, where the others sum to `S`, `R`, `W`, `P` and `Q`.
module _ (l : RwLock) (S R W P Q : ℕ) (few : R + 1 < 2 ^ 32) (pend : P + Q ≤ S) where
  abbrev Before : Thread → Type 0
  Before t = Fits l (S + spins t) (R + reads t) (W + writes t) (P + will_read t) (Q + will_write t)

  abbrev After : RwLock × Thread → Type 0
  After r =
      Fits r.0 (S + spins r.1) (R + reads r.1) (W + writes r.1) (P + will_read r.1)
        (Q + will_write r.1)

  read_lock-Fits :
      (s : Stage)
      → Before (read_locking s)
      → After (finish read_locking reader idle (read_lock s l))
  unfolding read_lock spin_lock spin_unlock
  read_lock-Fits acquire f = ground arith
  read_lock-Fits check f = ground arith
  read_lock-Fits back_off f = ground arith
  read_lock-Fits commit f = ground arith
  read_lock-Fits release f = ground arith

  read_unlock-Fits :
      (s : Stage)
      → Before (read_unlocking s)
      → After (finish read_unlocking idle idle (read_unlock s l))
  unfolding read_unlock spin_lock spin_unlock
  read_unlock-Fits acquire f = ground arith
  read_unlock-Fits check f = ground arith
  read_unlock-Fits back_off f = ground arith
  read_unlock-Fits commit f = ground arith
  read_unlock-Fits release f = ground arith

  read_trylock-Fits :
      (s : Stage)
      → Before (read_trying s)
      → After (finish read_trying reader idle (read_trylock s l))
  unfolding read_trylock spin_lock spin_unlock
  read_trylock-Fits acquire f = ground arith
  read_trylock-Fits check f = ground arith
  read_trylock-Fits back_off f = ground arith
  read_trylock-Fits commit f = ground arith
  read_trylock-Fits release f = ground arith

  write_lock-Fits :
      (s : Stage)
      → Before (write_locking s)
      → After (finish write_locking writer idle (write_lock s l))
  unfolding write_lock spin_lock spin_unlock
  write_lock-Fits acquire f = ground arith
  write_lock-Fits check f = ground arith
  write_lock-Fits back_off f = ground arith
  write_lock-Fits commit f = ground arith
  write_lock-Fits release f = ground arith

  write_unlock-Fits :
      (s : Stage)
      → Before (write_unlocking s)
      → After (finish write_unlocking idle idle (write_unlock s l))
  unfolding write_unlock spin_lock spin_unlock
  write_unlock-Fits acquire f = ground arith
  write_unlock-Fits check f = ground arith
  write_unlock-Fits back_off f = ground arith
  write_unlock-Fits commit f = ground arith
  write_unlock-Fits release f = ground arith

  write_trylock-Fits :
      (s : Stage)
      → Before (write_trying s)
      → After (finish write_trying writer idle (write_trylock s l))
  unfolding write_trylock spin_lock spin_unlock
  write_trylock-Fits acquire f = ground arith
  write_trylock-Fits check f = ground arith
  write_trylock-Fits back_off f = ground arith
  write_trylock-Fits commit f = ground arith
  write_trylock-Fits release f = ground arith

  pub advance-Fits : (t : Thread) → Before t → After (advance t l)
  unfolding advance
  advance-Fits idle f = f
  advance-Fits reader f = f
  advance-Fits writer f = f
  advance-Fits (read_locking s) f = read_lock-Fits s f
  advance-Fits (read_unlocking s) f = read_unlock-Fits s f
  advance-Fits (read_trying s) f = read_trylock-Fits s f
  advance-Fits (write_locking s) f = write_lock-Fits s f
  advance-Fits (write_unlocking s) f = write_unlock-Fits s f
  advance-Fits (write_trying s) f = write_trylock-Fits s f
