-- ===== src/Containers/Vector/Cells.antt =====
-- What the loops over the cells leave at every index.
use native.Mathlib.Decide.{ℕ_discrete}
use feather_os.Prelude.{
  ℕ, zero, suc, ◌+◌, ◌-◌, ◌≤◌, ◌<◌, ◌≡◌, refl, ◌∙◌, ◌⊎◌, inr, ◌&&◌, List, arith, ltb, leb,
  if◌then◌else◌, length, get_or, set,
}
use feather_os.Prelude.Arrays.{get_or-set, length-set}
use feather_os.Containers.Vector.{copy_cells, shift_up, shift_down}

pub length-copy_cells :
    (cells new_cells : List ℕ) (i n : ℕ)
    → length (copy_cells cells new_cells i n) ≡ length new_cells
unfolding copy_cells
length-copy_cells cells new_cells i zero = refl
length-copy_cells cells new_cells i (suc n) =
    length-copy_cells cells (set new_cells i (get_or cells i 0)) (i + 1) n
    ∙ length-set new_cells i (get_or cells i 0)

pub get_or-copy_cells :
    (cells new_cells : List ℕ) (i n j : ℕ)
    → i + n ≤ length new_cells
    → get_or (copy_cells cells new_cells i n) j 0
      ≡ (if leb i j && ltb j (i + n) then get_or cells j 0 else get_or new_cells j 0)
unfolding copy_cells
get_or-copy_cells cells new_cells i zero j h = ground arith
get_or-copy_cells cells new_cells i (suc n) j h = ground (
  arith,
  get_or-copy_cells cells (set new_cells i (get_or cells i 0)) (i + 1) n j,
  length-set new_cells i (get_or cells i 0),
  get_or-set new_cells i j (get_or cells i 0) 0,
)

pub length-shift_up :
    (cells : List ℕ) (index n : ℕ) → length (shift_up cells index n) ≡ length cells
unfolding shift_up
length-shift_up cells index zero = refl
length-shift_up cells index (suc n) =
    length-shift_up (set cells (index + suc n) (get_or cells (index + n) 0)) index n
    ∙ length-set cells (index + suc n) (get_or cells (index + n) 0)

shift_up_other :
    (cells : List ℕ) (index n j : ℕ)
    → (j ≤ index) ⊎ (index + n < j)
    → get_or (shift_up cells index n) j 0 ≡ get_or cells j 0
unfolding shift_up
shift_up_other cells index zero j h = refl
shift_up_other cells index (suc n) j h =
    shift_up_other (set cells (index + suc n) (get_or cells (index + n) 0)) index n j (omega arith)
    ∙ ground (arith, get_or-set cells (index + suc n) j (get_or cells (index + n) 0) 0)

shift_up_moved :
    (cells : List ℕ) (index n j : ℕ)
    → index + n < length cells
    → index < j
    → j ≤ index + n
    → get_or (shift_up cells index n) j 0 ≡ get_or cells (j - 1) 0
unfolding shift_up
shift_up_moved cells index zero j h lo hi = absurd (omega arith)
shift_up_moved cells index (suc n) j h lo hi =
    let v = get_or cells (index + n) 0 in
    let next = set cells (index + suc n) v in
    elim (ℕ_discrete j (index + suc n)) [
      | yes e ↦
          shift_up_other next index n j (inr (omega arith))
          ∙ ground (arith, get_or-set cells (index + suc n) j v 0)
      | no ne ↦
          shift_up_moved next index n j (omega (arith, length-set cells (index + suc n) v)) lo
            (omega arith)
          ∙ ground (arith, get_or-set cells (index + suc n) (j - 1) v 0)
    ]

-- The cells behind `index` hold what stood one place before; the others are as they were.
pub get_or-shift_up :
    (cells : List ℕ) (index n j : ℕ)
    → index + n < length cells
    → get_or (shift_up cells index n) j 0
      ≡ (if ltb index j && leb j (index + n) then get_or cells (j - 1) 0 else get_or cells j 0)
get_or-shift_up cells index n j h =
    ground (arith, shift_up_other cells index n j, shift_up_moved cells index n j h)

pub length-shift_down : (cells : List ℕ) (i n : ℕ) → length (shift_down cells i n) ≡ length cells
unfolding shift_down
length-shift_down cells i zero = refl
length-shift_down cells i (suc n) =
    length-shift_down (set cells i (get_or cells (i + 1) 0)) (i + 1) n
    ∙ length-set cells i (get_or cells (i + 1) 0)

-- The `n` cells from `i` on hold what stood one place behind.
pub get_or-shift_down :
    (cells : List ℕ) (i n j : ℕ)
    → i + n < length cells
    → get_or (shift_down cells i n) j 0
      ≡ (if leb i j && ltb j (i + n) then get_or cells (j + 1) 0 else get_or cells j 0)
unfolding shift_down
get_or-shift_down cells i zero j h = ground arith
get_or-shift_down cells i (suc n) j h = ground (
  arith,
  get_or-shift_down (set cells i (get_or cells (i + 1) 0)) (i + 1) n j,
  length-set cells i (get_or cells (i + 1) 0),
  get_or-set cells i j (get_or cells (i + 1) 0) 0,
  get_or-set cells i (j + 1) (get_or cells (i + 1) 0) 0,
)
