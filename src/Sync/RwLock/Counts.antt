-- ===== src/Sync/RwLock/Counts.antt =====
-- What a thread counts for in the read-write lock.
use feather_os.Prelude.{ℕ, ◌+◌, ◌-◌, ◌≤◌, ◌≡◌, refl, arith}
use feather_os.Sync.RwLock.{
  Stage, acquire, check, back_off, commit, release, Thread, idle, reader, writer, read_locking,
  read_unlocking, read_trying, write_locking, write_unlocking, write_trying, Call, call_read_lock,
  call_read_trylock, call_write_lock, call_write_trylock, call_unlock, begin,
}

-- Past spin_lock.
abbrev pub locked_at : Stage → ℕ
locked_at acquire = 0
locked_at check = 1
locked_at back_off = 1
locked_at commit = 1
locked_at release = 1

abbrev pub committed : Stage → ℕ
committed acquire = 0
committed check = 0
committed back_off = 0
committed commit = 0
committed release = 1

abbrev pub committing : Stage → ℕ
committing acquire = 0
committing check = 0
committing back_off = 0
committing commit = 1
committing release = 0

-- Whether a thread holds the spinlock, is counted as a reader, is counted as a writer, is about to
-- be counted as a reader, is about to be counted as a writer.
abbrev pub spins : Thread → ℕ
spins idle = 0
spins reader = 0
spins writer = 0
spins (read_locking s) = locked_at s
spins (read_unlocking s) = locked_at s
spins (read_trying s) = locked_at s
spins (write_locking s) = locked_at s
spins (write_unlocking s) = locked_at s
spins (write_trying s) = locked_at s

abbrev pub reads : Thread → ℕ
reads idle = 0
reads reader = 1
reads writer = 0
reads (read_locking s) = committed s
reads (read_unlocking s) = 1 - committed s
reads (read_trying s) = committed s
reads (write_locking s) = 0
reads (write_unlocking s) = 0
reads (write_trying s) = 0

abbrev pub writes : Thread → ℕ
writes idle = 0
writes reader = 0
writes writer = 1
writes (read_locking s) = 0
writes (read_unlocking s) = 0
writes (read_trying s) = 0
writes (write_locking s) = committed s
writes (write_unlocking s) = 1 - committed s
writes (write_trying s) = committed s

abbrev pub will_read : Thread → ℕ
will_read idle = 0
will_read reader = 0
will_read writer = 0
will_read (read_locking s) = committing s
will_read (read_unlocking s) = 0
will_read (read_trying s) = committing s
will_read (write_locking s) = 0
will_read (write_unlocking s) = 0
will_read (write_trying s) = 0

abbrev pub will_write : Thread → ℕ
will_write idle = 0
will_write reader = 0
will_write writer = 0
will_write (read_locking s) = 0
will_write (read_unlocking s) = 0
will_write (read_trying s) = 0
will_write (write_locking s) = committing s
will_write (write_unlocking s) = 0
will_write (write_trying s) = committing s

stage_counts : (s : Stage) → (committed s ≤ 1) × (committing s ≤ locked_at s)
stage_counts acquire = (omega arith, omega arith)
stage_counts check = (omega arith, omega arith)
stage_counts back_off = (omega arith, omega arith)
stage_counts commit = (omega arith, omega arith)
stage_counts release = (omega arith, omega arith)

pub reads_small : (t : Thread) → reads t ≤ 1
reads_small idle = omega arith
reads_small reader = omega arith
reads_small writer = omega arith
reads_small (read_locking s) = omega (arith, (stage_counts s).0)
reads_small (read_unlocking s) = omega (arith, (stage_counts s).0)
reads_small (read_trying s) = omega (arith, (stage_counts s).0)
reads_small (write_locking s) = omega (arith, (stage_counts s).0)
reads_small (write_unlocking s) = omega (arith, (stage_counts s).0)
reads_small (write_trying s) = omega (arith, (stage_counts s).0)

pub will_spin : (t : Thread) → will_read t + will_write t ≤ spins t
will_spin idle = omega arith
will_spin reader = omega arith
will_spin writer = omega arith
will_spin (read_locking s) = omega (arith, (stage_counts s).1)
will_spin (read_unlocking s) = omega (arith, (stage_counts s).1)
will_spin (read_trying s) = omega (arith, (stage_counts s).1)
will_spin (write_locking s) = omega (arith, (stage_counts s).1)
will_spin (write_unlocking s) = omega (arith, (stage_counts s).1)
will_spin (write_trying s) = omega (arith, (stage_counts s).1)

-- A call that begins changes none of the counts.
pub begin_counts :
    (c : Call) (t : Thread)
    → (spins (begin c t) ≡ spins t)
      × (reads (begin c t) ≡ reads t)
      × (writes (begin c t) ≡ writes t)
      × (will_read (begin c t) ≡ will_read t)
      × (will_write (begin c t) ≡ will_write t)
unfolding begin
begin_counts call_read_lock idle = (refl, refl, refl, refl, refl)
begin_counts call_read_lock reader = (refl, refl, refl, refl, refl)
begin_counts call_read_lock writer = (refl, refl, refl, refl, refl)
begin_counts call_read_lock (read_locking s) = (refl, refl, refl, refl, refl)
begin_counts call_read_lock (read_unlocking s) = (refl, refl, refl, refl, refl)
begin_counts call_read_lock (read_trying s) = (refl, refl, refl, refl, refl)
begin_counts call_read_lock (write_locking s) = (refl, refl, refl, refl, refl)
begin_counts call_read_lock (write_unlocking s) = (refl, refl, refl, refl, refl)
begin_counts call_read_lock (write_trying s) = (refl, refl, refl, refl, refl)
begin_counts call_read_trylock idle = (refl, refl, refl, refl, refl)
begin_counts call_read_trylock reader = (refl, refl, refl, refl, refl)
begin_counts call_read_trylock writer = (refl, refl, refl, refl, refl)
begin_counts call_read_trylock (read_locking s) = (refl, refl, refl, refl, refl)
begin_counts call_read_trylock (read_unlocking s) = (refl, refl, refl, refl, refl)
begin_counts call_read_trylock (read_trying s) = (refl, refl, refl, refl, refl)
begin_counts call_read_trylock (write_locking s) = (refl, refl, refl, refl, refl)
begin_counts call_read_trylock (write_unlocking s) = (refl, refl, refl, refl, refl)
begin_counts call_read_trylock (write_trying s) = (refl, refl, refl, refl, refl)
begin_counts call_write_lock idle = (refl, refl, refl, refl, refl)
begin_counts call_write_lock reader = (refl, refl, refl, refl, refl)
begin_counts call_write_lock writer = (refl, refl, refl, refl, refl)
begin_counts call_write_lock (read_locking s) = (refl, refl, refl, refl, refl)
begin_counts call_write_lock (read_unlocking s) = (refl, refl, refl, refl, refl)
begin_counts call_write_lock (read_trying s) = (refl, refl, refl, refl, refl)
begin_counts call_write_lock (write_locking s) = (refl, refl, refl, refl, refl)
begin_counts call_write_lock (write_unlocking s) = (refl, refl, refl, refl, refl)
begin_counts call_write_lock (write_trying s) = (refl, refl, refl, refl, refl)
begin_counts call_write_trylock idle = (refl, refl, refl, refl, refl)
begin_counts call_write_trylock reader = (refl, refl, refl, refl, refl)
begin_counts call_write_trylock writer = (refl, refl, refl, refl, refl)
begin_counts call_write_trylock (read_locking s) = (refl, refl, refl, refl, refl)
begin_counts call_write_trylock (read_unlocking s) = (refl, refl, refl, refl, refl)
begin_counts call_write_trylock (read_trying s) = (refl, refl, refl, refl, refl)
begin_counts call_write_trylock (write_locking s) = (refl, refl, refl, refl, refl)
begin_counts call_write_trylock (write_unlocking s) = (refl, refl, refl, refl, refl)
begin_counts call_write_trylock (write_trying s) = (refl, refl, refl, refl, refl)
begin_counts call_unlock idle = (refl, refl, refl, refl, refl)
begin_counts call_unlock reader = (refl, refl, refl, refl, refl)
begin_counts call_unlock writer = (refl, refl, refl, refl, refl)
begin_counts call_unlock (read_locking s) = (refl, refl, refl, refl, refl)
begin_counts call_unlock (read_unlocking s) = (refl, refl, refl, refl, refl)
begin_counts call_unlock (read_trying s) = (refl, refl, refl, refl, refl)
begin_counts call_unlock (write_locking s) = (refl, refl, refl, refl, refl)
begin_counts call_unlock (write_unlocking s) = (refl, refl, refl, refl, refl)
begin_counts call_unlock (write_trying s) = (refl, refl, refl, refl, refl)
