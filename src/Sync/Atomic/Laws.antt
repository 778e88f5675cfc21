-- ===== src/Sync/Atomic/Laws.antt =====
-- What the atomic additions and subtractions undo.
use feather_os.Prelude.{ℕ, ◌^◌, ◌<◌, ◌≡◌, refl, ap, arith}
use feather_os.Sync.Atomic.{
  Atomic32, Atomic64, atomic_add, atomic_sub, atomic_inc, atomic_dec, atomic_add_return,
  atomic_sub_return, atomic64_add, atomic64_sub, atomic64_add_return,
}

-- On words below 2 ^ 32, atomic_sub undoes atomic_add, past the wrap-around too; atomic_dec undoes
-- atomic_inc; and atomic_sub_return answers and stores what atomic_sub stores.
atomic_sub-add :
    (v : Atomic32) (val : ℕ)
    → v.counter < 2 ^ 32
    → val < 2 ^ 32
    → ((atomic_sub (atomic_add v val) val).counter ≡ v.counter)
      × ((atomic_dec (atomic_inc v)).counter ≡ v.counter)
      × ((atomic_sub_return v val).0 ≡ atomic_sub v val)
      × ((atomic_sub_return v val).1 ≡ (atomic_sub v val).counter)
unfolding atomic_sub atomic_add atomic_inc atomic_dec atomic_sub_return atomic_add_return
atomic_sub-add v val hv hval =
    (omega arith, omega arith, ap (λ c. record v { counter = c }) (omega arith), omega arith)

-- On words below 2 ^ 64, atomic64_sub undoes atomic64_add, past the wrap-around too, and
-- atomic64_add_return answers and stores what atomic64_add stores.
atomic64_sub-add :
    (v : Atomic64) (val : ℕ)
    → v.counter < 2 ^ 64
    → val < 2 ^ 64
    → ((atomic64_sub (atomic64_add v val) val).counter ≡ v.counter)
      × ((atomic64_add_return v val).0 ≡ atomic64_add v val)
      × ((atomic64_add_return v val).1 ≡ (atomic64_add v val).counter)
unfolding atomic64_sub atomic64_add atomic64_add_return
atomic64_sub-add v val hv hval = (omega arith, refl, refl)
