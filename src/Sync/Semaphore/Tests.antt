-- ===== src/Sync/Semaphore/Tests.antt =====
-- A semaphore with one permit and two callers, and the theorems at it.
use feather_os.Prelude.{◌+◌, ◌≡◌, List, [], ◌∷◌, arith}
use feather_os.Sync.Semaphore.{Semaphore, Act, waits, tries, goes_on, acts}
use feather_os.Sync.Semaphore.Permits.{permits, gate, sem_wait-permits}
use feather_os.Sync.Threads.{total}

-- Both read the count 1; the second swap fails.
abbrev race : List Act
race = waits 0 ∷ tries 1 ∷ goes_on 0 ∷ goes_on 1 ∷ goes_on 0 ∷ goes_on 1 ∷ goes_on 1 ∷ []

sem_wait-permits_example :
    (acts race (gate 1 1 2)).sem.count.counter + total permits (acts race (gate 1 1 2)).waiters ≡ 1
sem_wait-permits_example = sem_wait-permits 1 1 2 race (omega arith)

abbrev three : Semaphore
three = record { count = record { counter = 3 }; max_count = 3 }

abbrev spent : Semaphore
spent = record { count = record { counter = 0 }; max_count = 3 }
