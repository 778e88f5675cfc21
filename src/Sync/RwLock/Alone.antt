-- ===== src/Sync/RwLock/Alone.antt =====
-- What the operations of the read-write lock do where no other thread takes a step meanwhile.
use feather_os.Prelude.{
  ℕ, zero, suc, ◌+◌, ◌-◌, ◌%◌, ◌^◌, ◌<◌, ◌≡◌, ◌&&◌, arith, ◌==◌, if◌then◌else◌,
}
use feather_os.Sync.RwLock.{
  RwLock, acquire, spin_lock, spin_unlock, read_lock, read_unlock, read_trylock, write_unlock,
  write_trylock, Thread, idle, reader, writer, read_locking, read_unlocking, read_trying,
  write_unlocking, write_trying, advance,
}

pub alone : ℕ → Thread → RwLock → RwLock × Thread
alone zero t l = (l, t)
alone (suc n) t l = let r = advance t l in alone n r.1 r.0

-- From a free spinlock, four steps end each try and each unlock, and leave the spinlock free:
-- read_trylock succeeds exactly where there is no writer, write_trylock where there are neither
-- readers nor writers, and they change nothing where they fail.
alone_lem :
    (l : RwLock)
    → l.lock ≡ 0
    → (alone 4 (read_trying acquire) l ≡ (
        if l.writers == 0
        then (record l { readers = (l.readers + 1) % 2 ^ 32 }, reader)
        else (l, idle)))
      × (alone 4 (write_trying acquire) l ≡ (
          if (l.readers == 0) && (l.writers == 0)
          then (record l { writers = 1 }, writer)
          else (l, idle)))
      × (alone 4 (read_unlocking acquire) l
          ≡ (record l { readers = (l.readers + 2 ^ 32 - 1) % 2 ^ 32 }, idle))
      × (alone 4 (write_unlocking acquire) l ≡ (record l { writers = 0 }, idle))
unfolding alone advance spin_lock spin_unlock read_trylock write_trylock read_unlock write_unlock
alone_lem l free = (ground arith, ground arith, ground arith, ground arith)

-- From a free spinlock and no writer, read_lock and then read_unlock take eight steps in all and
-- leave the lock as it was.
alone-restores :
    (l : RwLock)
    → l.lock ≡ 0
    → l.writers ≡ 0
    → l.readers < 2 ^ 32
    → alone 4 (read_unlocking acquire) (alone 4 (read_locking acquire) l).0 ≡ (l, idle)
unfolding alone advance spin_lock spin_unlock read_lock read_unlock
alone-restores l free open_to small = ground arith
