-- ===== src/Containers/Vector/Tests.antt =====
-- A full vector of two cells, and the theorems at it.
use feather_os.Prelude.{
  ℕ, ◌-◌, ◌≡◌, refl, List, [], ◌∷◌, arith, leb, if◌then◌else◌, length, replicate,
}
use feather_os.Prelude.Arrays.{length-replicate}
use feather_os.Prelude.Int.{ℤ, pos, negsuc}
use feather_os.Containers.Vector.{Vector, vector_insert, vector_remove}
use feather_os.Containers.Vector.Laws.{IsValid}

-- Blocks of sevens.
abbrev sevens : ℕ → List ℕ
sevens n = replicate n 7

length-sevens : (n : ℕ) → length (sevens n) ≡ n
length-sevens n = length-replicate {A = ℕ} n 7

abbrev pair : Vector
pair = record { cells = 10 ∷ 20 ∷ []; size = 2; capacity = 2 }

pair-IsValid : IsValid pair
pair-IsValid = omega arith

insert_runs :
    vector_insert sevens pair 1 15
    ≡ record { cells = 10 ∷ 15 ∷ 20 ∷ 7 ∷ []; size = 3; capacity = 4 }
unfolding vector_insert
insert_runs = refl

remove_runs : vector_remove pair 0 ≡ (record { cells = 20 ∷ 20 ∷ []; size = 1; capacity = 2 }, 10)
unfolding vector_remove
remove_runs = refl

-- A comparison by difference, as a caller may write it.
abbrev compare_items : ℕ → ℕ → ℤ
compare_items a b = if leb b a then pos (a - b) else negsuc (b - a - 1)
