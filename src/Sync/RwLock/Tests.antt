-- ===== src/Sync/RwLock/Tests.antt =====
-- Two threads of which one comes to hold the lock for writing, and the theorems at them.
use feather_os.Prelude.{◌≡◌, refl, ◌≢◌, List, [], ◌∷◌, arith, get_or}
use feather_os.Sync.RwLock.{
  rwlock_init, idle, reader, writer, advance, call_read_lock, call_write_lock, Event, begins, steps,
  begin, happen, run, spin_lock, spin_unlock, read_lock, write_lock,
}
use feather_os.Sync.RwLock.Exclusion.{start, write_lock-excludes}

-- The writer gets in first; the reader takes the spinlock afterwards, and backs off.
abbrev order : List Event
order =
    begins 0 call_write_lock
    ∷ begins 1 call_read_lock
    ∷ steps 0
    ∷ steps 1
    ∷ steps 0
    ∷ steps 0
    ∷ steps 0
    ∷ steps 1
    ∷ steps 1
    ∷ steps 1
    ∷ []

writer_in : get_or (run order (start 2)).threads 0 idle ≡ writer
unfolding run start rwlock_init happen begin advance spin_lock spin_unlock read_lock write_lock
writer_in = refl

write_lock-excludes_example :
    (get_or (run order (start 2)).threads 1 idle ≢ writer)
    × (get_or (run order (start 2)).threads 1 idle ≢ reader)
write_lock-excludes_example =
    write_lock-excludes 2 order 0 1 (omega arith) (λ e. absurd (omega arith)) writer_in
