-- ===== src/Containers/Vector/Laws.antt =====
-- The vector as an array of `size` items: what each operation does to every item.
use feather_os.Prelude.{
  ℕ, ◌+◌, ◌-◌, ◌*◌, ◌%◌, ◌^◌, ◌≤◌, ◌<◌, ◌≡◌, refl, ◌∙◌, inl, inr, false, ◌&&◌, List, arith, ltb,
  leb, ◌==◌, if◌then◌else◌, Bool-cases, length, get_or, set,
}
use feather_os.Prelude.Arrays.{get_or-set, length-set}
use feather_os.Containers.Vector.{
  Vector, vector_init, make_room, vector_push_back, vector_resize, vector_pop_back, vector_get,
  vector_set, vector_insert, vector_remove, shift_up,
}
use feather_os.Containers.Vector.Cells.{
  length-copy_cells, get_or-copy_cells, length-shift_up, get_or-shift_up, length-shift_down,
  get_or-shift_down,
}

pub record IsValid (v : Vector) : Type 0 where
  pub stored : length v.cells ≡ v.capacity
  pub within : v.size ≤ v.capacity
  pub some_room : 0 < v.capacity

-- The cells after the shift and the write of vector_insert.
inserted_cell :
    (cells : List ℕ) (index n x j : ℕ)
    → index + n < length cells
    → j ≤ index + n
    → get_or (set (shift_up cells index n) index x) j 0
      ≡ (if ltb j index then get_or cells j 0 else if j == index then x else get_or cells (j - 1) 0)
inserted_cell cells index n x j h le = ground (
  arith,
  get_or-set (shift_up cells index n) index j x 0,
  length-shift_up cells index n,
  get_or-shift_up cells index n j h,
)

module _ (fresh : ℕ → List ℕ) (length-fresh : (n : ℕ) → length (fresh n) ≡ n) where
  pub vector_init-IsValid : IsValid (vector_init fresh)
  unfolding vector_init
  vector_init-IsValid = ground (arith, length-fresh 16)

  -- A resize moves no item.
  record Roomy (v r : Vector) : Type 0 where
    items : (j : ℕ) → j < v.size → get_or r.cells j 0 ≡ get_or v.cells j 0
    same_size : r.size ≡ v.size
    stored : length r.cells ≡ r.capacity
    room : v.size < r.capacity

  make_room-Roomy : {v : Vector} → v.capacity < 2 ^ 62 → IsValid v → Roomy v (make_room fresh v)
  unfolding make_room vector_resize
  make_room-Roomy {v} small h = elim (Bool-cases (leb v.capacity v.size)) [
    | inl full ↦
        rw (full, make_room)
          (record {
            items = λ j lt. ground (
              arith,
              get_or-copy_cells v.cells (fresh (v.capacity * 2 % 2 ^ 64)) 0 v.size j,
              length-fresh (v.capacity * 2 % 2 ^ 64),
            );
            same_size = refl;
            stored =
                length-copy_cells v.cells (fresh (v.capacity * 2 % 2 ^ 64)) 0 v.size
                ∙ length-fresh (v.capacity * 2 % 2 ^ 64);
            room = ground arith;
          })
    | inr space ↦
        rw (space, make_room)
          (record {
            items = λ j lt. refl;
            same_size = refl;
            stored = h.stored;
            room = ground arith;
          })
  ]

  -- vector_push_back puts the item behind all others, which stay as they were, growing the block
  -- where it is full.
  pub vector_push_back_lem :
      (x : ℕ) {v : Vector}
      → v.capacity < 2 ^ 62
      → IsValid v
      → IsValid (vector_push_back fresh v x)
        × ((vector_push_back fresh v x).size ≡ v.size + 1)
        × ((j : ℕ)
            → vector_get (vector_push_back fresh v x) j
              ≡ (if j == v.size then x else vector_get v j))
  unfolding vector_push_back vector_get
  vector_push_back_lem x {v} small h =
      let r = make_room-Roomy small h in
      let cells = (make_room fresh v).cells in
      (
        ground (arith, r.same_size, r.stored, r.room, length-set cells (make_room fresh v).size x),
        ground (arith, r.same_size),
        λ j. ground (
          arith,
          r.same_size,
          r.stored,
          r.room,
          r.items j,
          get_or-set cells (make_room fresh v).size j x 0,
        ),
      )

  -- vector_insert puts the item at `index ≤ size` and moves those from there on one place up; behind
  -- the end it changes nothing.
  pub vector_insert_lem :
      (index x : ℕ) {v : Vector}
      → v.capacity < 2 ^ 62
      → IsValid v
      → index ≤ v.size
      → IsValid (vector_insert fresh v index x)
        × ((vector_insert fresh v index x).size ≡ v.size + 1)
        × ((j : ℕ)
            → vector_get (vector_insert fresh v index x) j ≡ (
                if ltb j index
                then vector_get v j
                else if j == index
                then x
                else vector_get v (j - 1)))
  unfolding vector_insert vector_get
  vector_insert_lem index x {v} small h inside =
      let r = make_room-Roomy small h in
      let cells = (make_room fresh v).cells in
      let n = (make_room fresh v).size - index in
      let moved = shift_up cells index n in
      let runs : ltb v.size index ≡ false = ground arith in
      rw (runs, vector_insert)
        (
          ground (
            arith,
            r.same_size,
            r.stored,
            r.room,
            length-set moved index x,
            length-shift_up cells index n,
          ),
          ground (arith, r.same_size),
          λ j. ground (
            arith,
            r.same_size,
            r.stored,
            r.room,
            r.items j,
            r.items (j - 1),
            inserted_cell cells index n x j,
          ),
        )

  pub vector_insert_out :
      (index x : ℕ) (v : Vector) → v.size < index → vector_insert fresh v index x ≡ v
  unfolding vector_insert
  vector_insert_out index x v out = ground arith

-- vector_pop_back takes the last item off and answers it; an empty vector it leaves, answering NULL.
vector_pop_back_lem :
    {v : Vector}
    → IsValid v
    → v.size < 2 ^ 64
    → IsValid (vector_pop_back v).0
      × ((vector_pop_back v).0.size ≡ v.size - 1)
      × ((vector_pop_back v).1 ≡ vector_get v (v.size - 1))
      × ((j : ℕ)
          → vector_get (vector_pop_back v).0 j ≡ (if ltb j (v.size - 1) then vector_get v j else 0))
unfolding vector_pop_back vector_get
vector_pop_back_lem {v} h small = (ground arith, ground arith, ground arith, λ j. ground arith)

-- vector_set writes one item, and only inside the vector.
vector_set_lem :
    (index x : ℕ) {v : Vector}
    → IsValid v
    → IsValid (vector_set v index x)
      × ((j : ℕ)
          → vector_get (vector_set v index x) j
            ≡ (if (j == index) && ltb index v.size then x else vector_get v j))
unfolding vector_set vector_get
vector_set_lem index x {v} h = (
  ground (arith, length-set v.cells index x),
  λ j. ground (arith, get_or-set v.cells index j x 0),
)

-- vector_remove answers the item at `index < size` and moves those behind it one place down;
-- behind the end it changes nothing and answers NULL.
vector_remove_lem :
    (index : ℕ) {v : Vector}
    → IsValid v
    → v.size < 2 ^ 64
    → index < v.size
    → IsValid (vector_remove v index).0
      × ((vector_remove v index).0.size ≡ v.size - 1)
      × ((vector_remove v index).1 ≡ vector_get v index)
      × ((j : ℕ)
          → vector_get (vector_remove v index).0 j
            ≡ (if ltb j index then vector_get v j else vector_get v (j + 1)))
unfolding vector_remove vector_get
vector_remove_lem index {v} h small inside =
    let n = v.size - 1 - index in
    (
      ground (arith, length-shift_down v.cells index n),
      ground arith,
      ground arith,
      λ j. ground (arith, get_or-shift_down v.cells index n j),
    )
