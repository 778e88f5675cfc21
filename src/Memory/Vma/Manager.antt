-- ===== src/Memory/Vma/Manager.antt =====
-- The area manager of FeatherOS/kernel/mm/vma.c: the global tree with its counters, and mapping. An
-- allocation is given by whether kmalloc answers a block. The pages that vma_mmap enters into the page
-- table are listed in the result, with physical_alloc_page given by the page it answers each time.
use feather_os.Prelude.Words.{inc32}
use feather_os.Prelude.{
  ℕ, zero, suc, ◌+◌, ◌-◌, ◌*◌, ◌/◌, ◌%◌, ◌^◌, Bool, true, false, not, ◌||◌, Option, none, some,
  List, [], ◌∷◌, leb, ◌==◌, if◌then◌else◌, length,
}
use Prim.Native.Nat.{bit_and, bit_or}
use feather_os.Memory.State.{page_size, page_align_up}
use feather_os.Memory.Vma.{Vma, RbTree, leaf, node, vma_rb_insert, vma_rb_find}

-- `vma_tree`, the global `vma_id_counter` and the `num_vmas` of the manager; the other fields of the
-- manager are a pointer to `vma_tree` and one that stays NULL.
pub record VmaManager : Type 0 where
  pub root : RbTree
  pub count : ℕ
  pub num_vmas : ℕ
  pub vma_id_counter : ℕ

abbrev pub vma_read : ℕ
vma_read = 1

abbrev pub vma_write : ℕ
vma_write = 2

abbrev pub vma_exec : ℕ
vma_exec = 4

abbrev pub vma_private : ℕ
vma_private = 0x10

abbrev pub vma_shared : ℕ
vma_shared = 0x20

abbrev pub vma_anonymous : ℕ
vma_anonymous = 0x40

abbrev pub vma_fixed : ℕ
vma_fixed = 0x80

abbrev pub vma_no_merge : ℕ
vma_no_merge = 0x100

abbrev pub vma_stack : ℕ
vma_stack = 0x800

abbrev pub vma_heap : ℕ
vma_heap = 0x1000

abbrev pub kernel_virt_start : ℕ
kernel_virt_start = 0xFFFFFFFF80000000

abbrev pub user_virt_start : ℕ
user_virt_start = 0

abbrev pub user_virt_end : ℕ
user_virt_end = 0x00007FFFFFFFFFFF

-- `flags & f`
abbrev pub has_flag : ℕ → ℕ → Bool
has_flag flags f = not (bit_and flags f == 0)

-- The area that vma_create fills in.
abbrev pub new_area : ℕ → ℕ → ℕ → ℕ → VmaManager → Vma
new_area start end flags name m = record {
  start = start;
  end = end;
  offset = 0;
  flags = flags;
  id = m.vma_id_counter;
  ref_count = 1;
  inode = 0;
  name = name;
}

abbrev pub next_id : VmaManager → VmaManager
next_id m = record {
  root = m.root;
  count = m.count;
  num_vmas = m.num_vmas;
  vma_id_counter = inc32 m.vma_id_counter;
}

-- The area and the counter afterwards, where there is a block for it.
abbrev pub vma_create : Bool → ℕ → ℕ → ℕ → ℕ → VmaManager → Option Vma × VmaManager
vma_create false start end flags name m = (none, m)
vma_create true start end flags name m = (some (new_area start end flags name m), next_id m)

abbrev pub count_inserted : VmaManager → Option RbTree → Option VmaManager
count_inserted m none = none
count_inserted m (some t) = some (record {
  root = t;
  count = inc32 m.count;
  num_vmas = inc32 m.num_vmas;
  vma_id_counter = m.vma_id_counter;
})

-- `none` where the result is -1, which leaves the manager as it was.
unfoldable pub vma_insert : Bool → VmaManager → Vma → Option VmaManager
unfolding vma_rb_insert
vma_insert false m v = none
vma_insert true m v = count_inserted m (vma_rb_insert v m.root)

abbrev pub vma_find : VmaManager → ℕ → Option Vma
vma_find m addr = vma_rb_find m.root addr

-- The loop that looks for a free region; the difference wraps.
unfoldable pub find_region : RbTree → ℕ → ℕ → ℕ
find_region leaf start aligned_len = start
find_region (node c l v r) start aligned_len =
    let in_right = find_region r v.end aligned_len in
    let in_left = find_region l v.end aligned_len in
    if leb aligned_len ((v.start + 2 ^ 64 - start) % 2 ^ 64)
    then start
    else if leb v.start v.end
    then in_right
    else in_left

-- A call of paging_map_page for a page of user space.
pub record PageMapping : Type 0 where
  pub virt : ℕ
  pub phys : ℕ
  pub writable : Bool
  pub no_execute : Bool

-- The loop from page `i` on, with `n` pages to go.
abbrev pub map_pages : (ℕ → ℕ) → ℕ → ℕ → ℕ → ℕ → List PageMapping
map_pages physical_alloc_page start flags i zero = []
map_pages physical_alloc_page start flags i (suc n) =
    let page_phys = physical_alloc_page i in
    let later = map_pages physical_alloc_page start flags (suc i) n in
    if page_phys == 0
    then later
    else record {
      virt = (start + i * page_size) % 2 ^ 64;
      phys = page_phys;
      writable = has_flag flags vma_write;
      no_execute = not (has_flag flags vma_exec);
    }
      ∷ later

-- `if (given & f) flags |= f;`
abbrev add_flag : ℕ → ℕ → ℕ → ℕ
add_flag given f flags = if has_flag given f then bit_or flags f else flags

abbrev pub mmap_flags : ℕ → ℕ → ℕ
mmap_flags prot flags = add_flag flags vma_anonymous (
    add_flag flags vma_shared (
      add_flag flags vma_private
        (add_flag prot vma_exec (add_flag prot vma_write (add_flag prot vma_read 0)))))

-- The address answered, 0 for NULL, the manager afterwards, and the pages entered.
pub record Mapped : Type 0 where
  pub answer : ℕ
  pub manager : VmaManager
  pub pages : List PageMapping

-- What vma_mmap answers for the outcome of vma_insert.
abbrev pub mapped_or_null : (ℕ → ℕ) → ℕ → ℕ → ℕ → VmaManager → Option VmaManager → Mapped
mapped_or_null physical_alloc_page start len flags m none = record {
  answer = 0;
  manager = m;
  pages = [];
}
mapped_or_null physical_alloc_page start len flags m (some m') = record {
  answer = start;
  manager = m';
  pages = map_pages physical_alloc_page start flags 0 (len / page_size);
}

abbrev pub mmap_created : Bool → (ℕ → ℕ) → ℕ → ℕ → ℕ → Option Vma × VmaManager → Mapped
mmap_created node_room physical_alloc_page start len flags (none, m) = record {
  answer = 0;
  manager = m;
  pages = [];
}
mmap_created node_room physical_alloc_page start len flags (some v, m) =
    mapped_or_null physical_alloc_page start len flags m (vma_insert node_room m v)

-- The address that an area is entered at.
abbrev pub chosen_start : VmaManager → ℕ → ℕ → ℕ → ℕ
chosen_start m addr aligned_len flags =
    if (addr == 0) || has_flag flags vma_fixed
    then find_region m.root user_virt_start aligned_len
    else addr

-- `start >= USER_VIRT_END - aligned_len`
abbrev pub no_space : ℕ → ℕ → Bool
no_space start aligned_len = leb ((user_virt_end + 2 ^ 64 - aligned_len) % 2 ^ 64) start

-- `vma_room` and `node_room` say whether kmalloc answers the blocks for the area and for its node.
unfoldable pub vma_mmap : Bool → Bool → (ℕ → ℕ) → VmaManager → ℕ → ℕ → ℕ → ℕ → ℕ → Mapped
unfolding find_region vma_insert
vma_mmap vma_room node_room physical_alloc_page m addr length prot flags name =
    let aligned_len = page_align_up length in
    let start = chosen_start m addr aligned_len flags in
    let vma_flags = mmap_flags prot flags in
    if no_space start aligned_len
    then record { answer = 0; manager = m; pages = [] }
    else mmap_created node_room physical_alloc_page start aligned_len vma_flags
        (vma_create vma_room start ((start + aligned_len) % 2 ^ 64) vma_flags name m)
