-- ===== src/Memory/Vma/Start.antt =====
-- vma_init of FeatherOS/kernel/mm/vma.c: the areas that are there from the start.
use feather_os.Prelude.{ℕ, ◌+◌, ◌-◌, ◌*◌, Bool, Option, none, some}
use Prim.Native.Nat.{bit_or}
use feather_os.Memory.Vma.{Vma}
use feather_os.Memory.Vma.Manager.{
  VmaManager, vma_read, vma_write, vma_anonymous, vma_no_merge, vma_stack, vma_heap,
  kernel_virt_start, user_virt_start, user_virt_end, vma_create, vma_insert,
}

-- `if (vma) vma_insert(...)`, whose result is not looked at.
abbrev pub insert_created : Bool → Option Vma × VmaManager → VmaManager
insert_created node_room (none, m) = m
insert_created node_room (some v, m) = elim (vma_insert node_room m v) [ none ↦ m | some m' ↦ m' ]

-- An initial area, with whether kmalloc answers its two blocks.
abbrev pub add_initial : Bool × Bool → ℕ → ℕ → ℕ → ℕ → VmaManager → VmaManager
add_initial (vma_room, node_room) start end flags name m =
    insert_created node_room (vma_create vma_room start end flags name m)

-- The initial areas; the names are the pointers to "[kernel]", "[stack]" and "[heap]".
abbrev pub add_kernel : (ℕ → Bool × Bool) → ℕ → VmaManager → VmaManager
add_kernel room name =
    add_initial (room 0) kernel_virt_start (0xFFFFFFFF80000000 + 16 * 1024 * 1024)
      (bit_or (bit_or vma_read vma_write) vma_no_merge) name

abbrev pub add_stack : (ℕ → Bool × Bool) → ℕ → VmaManager → VmaManager
add_stack room name =
    add_initial (room 1) (user_virt_end - 8 * 1024 * 1024) user_virt_end
      (bit_or (bit_or (bit_or vma_read vma_write) vma_anonymous) vma_stack) name

abbrev pub add_heap : (ℕ → Bool × Bool) → ℕ → VmaManager → VmaManager
add_heap room name =
    add_initial (room 2) (user_virt_start + 16 * 1024 * 1024) (user_virt_start + 32 * 1024 * 1024)
      (bit_or (bit_or (bit_or vma_read vma_write) vma_anonymous) vma_heap) name

unfoldable pub vma_init : (ℕ → Bool × Bool) → ℕ → ℕ → ℕ → VmaManager → VmaManager
unfolding vma_insert
vma_init room kernel_name stack_name heap_name m =
    let cleared : VmaManager = record {
      root = m.root;
      count = m.count;
      num_vmas = 0;
      vma_id_counter = m.vma_id_counter;
    } in
    add_heap room heap_name (add_stack room stack_name (add_kernel room kernel_name cleared))
