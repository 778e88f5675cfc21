-- ===== src/Containers/Vector.antt =====
-- The dynamic array of FeatherOS/kernel/lib/datastructures.c. An item is a `void *`, a number, and
-- 0 is NULL. `fresh n` stands for the `n` cells of a block that kmalloc gives, whatever they hold;
-- the section's functions take it first.
pub mod Cells
pub mod Laws
pub mod Search
mod Tests
use mathlib.Core.Path.{subst, fun_ext}
use mathlib.Core.Logic.{dite, ite}
use native.Mathlib.Nat.{
  add_comm, add_assoc, le_refl, le_trans, mod-eq_of_lt, mod-lt, mod-eq-sub-mod, mod-add-mod,
}
use native.Mathlib.Decide.{ℕ_discrete, dec_lt, dec_le}
use feather_os.Prelude.{
  ℕ, zero, suc, ◌+◌, ◌-◌, ◌*◌, ◌/◌, ◌%◌, ◌^◌, ◌≤◌, ◌<◌, min, max, ◌≡◌, refl, sym, ap, ◌∙◌, ◌≢◌, ◌↔◌,
  ◌⊎◌, inl, inr, Bool, true, false, not, ◌&&◌, ◌||◌, Option, none, some, List, [], ◌∷◌, ◌++◌, map,
  arith, ltb, leb, ◌==◌, if◌then◌else◌, ltb→lt, lt→ltb, leb→le, ==_iff, tests, Bool-cases,
  Option-cases, length, get_or, set, take, drop, replicate,
}
use feather_os.Prelude.Int.{ℤ, pos, negsuc, to_int, is_zero}

pub record Vector : Type 0 where
  pub cells : List ℕ
  pub size : ℕ
  pub capacity : ℕ

abbrev pub vector_initial_capacity : ℕ
vector_initial_capacity = 16

-- `new_data[i] = data[i]` for the `n` rounds from `i` on.
pub copy_cells : List ℕ → List ℕ → ℕ → ℕ → List ℕ
copy_cells cells new_cells i zero = new_cells
copy_cells cells new_cells i (suc n) =
    copy_cells cells (set new_cells i (get_or cells i 0)) (i + 1) n

-- `for (i = index + n; i > index; i--) data[i] = data[i - 1]`
pub shift_up : List ℕ → ℕ → ℕ → List ℕ
shift_up cells index zero = cells
shift_up cells index (suc n) =
    shift_up (set cells (index + suc n) (get_or cells (index + n) 0)) index n

-- `for (; n rounds; i++) data[i] = data[i + 1]`
pub shift_down : List ℕ → ℕ → ℕ → List ℕ
shift_down cells i zero = cells
shift_down cells i (suc n) = shift_down (set cells i (get_or cells (i + 1) 0)) (i + 1) n

pub vector_size : Vector → ℕ
vector_size vec = vec.size

pub vector_is_empty : Vector → Bool
vector_is_empty vec = vec.size == 0

-- `--size` runs only where the size is not 0.
pub vector_pop_back : Vector → Vector × ℕ
vector_pop_back vec = if vec.size == 0 then (vec, 0) else (
  record vec { size = (vec.size + 2 ^ 64 - 1) % 2 ^ 64 },
  get_or vec.cells ((vec.size + 2 ^ 64 - 1) % 2 ^ 64) 0,
)

pub vector_get : Vector → ℕ → ℕ
vector_get vec index = if leb vec.size index then 0 else get_or vec.cells index 0

pub vector_set : Vector → ℕ → ℕ → Vector
vector_set vec index item =
    if ltb index vec.size then record vec { cells = set vec.cells index item } else vec

pub vector_remove : Vector → ℕ → Vector × ℕ
unfolding shift_down
vector_remove vec index = if leb vec.size index then (vec, 0) else (
  record vec {
    cells = shift_down vec.cells index (vec.size - 1 - index);
    size = (vec.size + 2 ^ 64 - 1) % 2 ^ 64;
  },
  get_or vec.cells index 0,
)

-- The loop of vector_find over the cells from `i` on, `n` rounds left; `cmp` is the caller's. The
-- answer is the `int` made of the index.
pub find_cell : (ℕ → ℕ → ℤ) → List ℕ → ℕ → ℕ → ℕ → ℤ
find_cell cmp cells item i zero = negsuc 0
find_cell cmp cells item i (suc n) = elim (is_zero (cmp (get_or cells i 0) item)) [
  | true ↦ to_int i
  | false ↦ find_cell cmp cells item (i + 1) n
]

pub vector_find : (ℕ → ℕ → ℤ) → Vector → ℕ → ℤ
unfolding find_cell
vector_find cmp vec item = find_cell cmp vec.cells item 0 vec.size

-- The calls that vector_foreach and vector_destroy make of their callback, in order: the list of
-- its arguments.
pub visit_cells : List ℕ → ℕ → ℕ → List ℕ
visit_cells cells i zero = []
visit_cells cells i (suc n) = get_or cells i 0 ∷ visit_cells cells (i + 1) n

pub vector_foreach : Vector → List ℕ
unfolding visit_cells
vector_foreach vec = visit_cells vec.cells 0 vec.size

-- The vector afterwards, and the calls of `free_fn`, which may be NULL.
pub vector_destroy : Vector → Bool → Vector × List ℕ
unfolding visit_cells
vector_destroy vec has_free_fn = (
  record { cells = []; size = 0; capacity = 0 },
  if has_free_fn then visit_cells vec.cells 0 vec.size else [],
)

module _ (fresh : ℕ → List ℕ) where
  pub vector_init : Vector
  vector_init = record {
    cells = fresh vector_initial_capacity;
    size = 0;
    capacity = vector_initial_capacity;
  }

  pub vector_resize : Vector → ℕ → Vector
  unfolding copy_cells
  vector_resize vec new_capacity = record vec {
    cells = copy_cells vec.cells (fresh new_capacity) 0 vec.size;
    capacity = new_capacity;
  }

  -- `if (size >= capacity) vector_resize(vec, capacity * 2);`
  pub make_room : Vector → Vector
  unfolding vector_resize
  make_room vec =
      if leb vec.capacity vec.size then vector_resize vec (vec.capacity * 2 % 2 ^ 64) else vec

  pub vector_push_back : Vector → ℕ → Vector
  unfolding make_room
  vector_push_back vec item =
      let roomy = make_room vec in
      record roomy { cells = set roomy.cells roomy.size item; size = (roomy.size + 1) % 2 ^ 64 }

  pub vector_insert : Vector → ℕ → ℕ → Vector
  unfolding make_room shift_up
  vector_insert vec index item =
      if ltb vec.size index
      then vec
      else (let roomy = make_room vec in
          record roomy {
            cells = set (shift_up roomy.cells index (roomy.size - index)) index item;
            size = (roomy.size + 1) % 2 ^ 64;
          })
