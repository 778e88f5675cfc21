-- ===== src/Memory/Vma/Mapping.antt =====
-- What vma_insert, vma_mmap and vma_init keep, and what vma_mmap answers.
use mathlib.Core.Path.{subst}
use feather_os.Prelude.{
  ℕ, suc, ◌+◌, ◌%◌, ◌^◌, ◌≡◌, refl, sym, ap, inl, inr, Bool, true, false, Option, none, some, List,
  [], ◌∷◌, arith, ltb, Bool-cases, length,
}
use mathlib.Core.Option
use feather_os.Memory.State.{page_align_up}
use feather_os.Memory.Vma.{Vma, RbTree, vma_rb_insert}
use feather_os.Memory.Vma.Listing.{areas}
use feather_os.Memory.Vma.Sorted.{insert_area}
use feather_os.Memory.Vma.Insert.{
  IsAreaTree, IsAreaTreeEach, vma_rb_insert-IsAreaTree, areas-vma_rb_insert,
}
use feather_os.Memory.Vma.Manager.{
  VmaManager, new_area, next_id, vma_create, count_inserted, vma_insert, mmap_flags, mapped_or_null,
  mmap_created, chosen_start, no_space, vma_mmap,
}
use feather_os.Memory.Vma.Start.{add_initial, add_kernel, add_stack, add_heap, vma_init}

-- The tree is a red-black tree and a search tree, and its counter holds the number of its areas.
abbrev pub IsManaged : VmaManager → Type 0
IsManaged m = IsAreaTree m.root × (m.count ≡ length (areas m.root) % 2 ^ 32)

abbrev pub ManagedEach : Option VmaManager → Type 0
ManagedEach none = Unit
ManagedEach (some m) = IsManaged m

abbrev OneMore : ℕ → Option (List Vma) → Type 0
OneMore n none = Unit
OneMore n (some vs) = length vs ≡ suc n

OneMore-cons :
    (w : Vma) (n : ℕ) (x : Option (List Vma))
    → OneMore n x
    → OneMore (suc n) (Option.map (λ vs. w ∷ vs) x)
OneMore-cons w n none h = tt
OneMore-cons w n (some vs) h = ap suc h

insert_area-OneMore : (v : Vma) (ws : List Vma) → OneMore (length ws) (insert_area v ws)
unfolding insert_area
insert_area-OneMore v [] = refl
insert_area-OneMore v (w ∷ ws) = elim (Bool-cases (ltb v.start w.start)) [
  | inl lower ↦ rw lower refl
  | inr e ↦ elim (Bool-cases (ltb w.start v.start)) [
    | inl higher ↦
        rw (e, higher) (OneMore-cons w (length ws) (insert_area v ws) (insert_area-OneMore v ws))
    | inr e' ↦ rw (e, e') tt
  ]
]

counted_one_more : (n k : ℕ) → k ≡ n % 2 ^ 32 → (k + 1) % 2 ^ 32 ≡ suc n % 2 ^ 32
counted_one_more n k e = omega arith

count_inserted-ManagedEach :
    (m : VmaManager) (x : Option RbTree)
    → m.count ≡ length (areas m.root) % 2 ^ 32
    → IsAreaTreeEach x
    → OneMore (length (areas m.root)) (Option.map areas x)
    → ManagedEach (count_inserted m x)
count_inserted-ManagedEach m none e t o = tt
count_inserted-ManagedEach m (some t') e t o =
    (t, rw o (counted_one_more (length (areas m.root)) m.count e))

vma_insert-ManagedEach :
    (room : Bool) (m : VmaManager) (v : Vma) → IsManaged m → ManagedEach (vma_insert room m v)
unfolding vma_insert
vma_insert-ManagedEach false m v ok = tt
vma_insert-ManagedEach true m v (t, e) =
    count_inserted-ManagedEach m (vma_rb_insert v m.root) e (vma_rb_insert-IsAreaTree v m.root t) (
      subst (OneMore (length (areas m.root))) (sym (areas-vma_rb_insert v m.root t.1))
        (insert_area-OneMore v (areas m.root)))

mapped_or_null-IsManaged :
    (pages : ℕ → ℕ) (start len flags : ℕ) (m : VmaManager) (x : Option VmaManager)
    → IsManaged m
    → ManagedEach x
    → IsManaged ((mapped_or_null pages start len flags m x).manager)
mapped_or_null-IsManaged pages start len flags m none ok each = ok
mapped_or_null-IsManaged pages start len flags m (some m') ok each = each

created-IsManaged :
    (vma_room node_room : Bool) (pages : ℕ → ℕ) (m : VmaManager) (start end len flags name : ℕ)
    → IsManaged m
    → IsManaged (
        (mmap_created node_room pages start len flags
          (vma_create vma_room start end flags name m)).manager)
created-IsManaged false node_room pages m start end len flags name ok = ok
created-IsManaged true node_room pages m start end len flags name ok =
    let v = new_area start end flags name m in
    let m' = next_id m in
    mapped_or_null-IsManaged pages start len flags m' (vma_insert node_room m' v) ok
      (vma_insert-ManagedEach node_room m' v ok)

-- Mapping keeps the tree and its counter, whatever it answers and whichever allocation fails.
pub vma_mmap-IsManaged :
    (vma_room node_room : Bool) (pages : ℕ → ℕ) (m : VmaManager) (addr len prot flags name : ℕ)
    → IsManaged m
    → IsManaged ((vma_mmap vma_room node_room pages m addr len prot flags name).manager)
unfolding vma_mmap
vma_mmap-IsManaged vma_room node_room pages m addr len prot flags name ok =
    elim (Bool-cases
      (no_space (chosen_start m addr (page_align_up len) flags) (page_align_up len))) [
        | inl full ↦ rw full ok
        | inr fits ↦ rw fits (
            created-IsManaged vma_room node_room pages m
              (chosen_start m addr (page_align_up len) flags)
              ((chosen_start m addr (page_align_up len) flags + page_align_up len) % 2 ^ 64)
              (page_align_up len) (mmap_flags prot flags) name ok)
      ]

add_initial-IsManaged :
    (rooms : Bool × Bool) (start end flags name : ℕ) (m : VmaManager)
    → IsManaged m
    → IsManaged (add_initial rooms start end flags name m)
add_initial-IsManaged (false, node_room) start end flags name m ok = ok
add_initial-IsManaged (true, node_room) start end flags name m ok =
    kept_or_new (next_id m) (vma_insert node_room (next_id m) (new_area start end flags name m)) ok
      (vma_insert-ManagedEach node_room (next_id m) (new_area start end flags name m) ok)
  where
    kept_or_new :
        (m : VmaManager) (x : Option VmaManager)
        → IsManaged m
        → ManagedEach x
        → IsManaged (elim x [ none ↦ m | some m' ↦ m' ])
    kept_or_new m none ok each = ok
    kept_or_new m (some m') ok each = each

add_kernel-IsManaged :
    (room : ℕ → Bool × Bool) (name : ℕ) (m : VmaManager)
    → IsManaged m
    → IsManaged (add_kernel room name m)
add_kernel-IsManaged room name m = add_initial-IsManaged (room 0) _ _ _ name m

add_stack-IsManaged :
    (room : ℕ → Bool × Bool) (name : ℕ) (m : VmaManager)
    → IsManaged m
    → IsManaged (add_stack room name m)
add_stack-IsManaged room name m = add_initial-IsManaged (room 1) _ _ _ name m

add_heap-IsManaged :
    (room : ℕ → Bool × Bool) (name : ℕ) (m : VmaManager)
    → IsManaged m
    → IsManaged (add_heap room name m)
add_heap-IsManaged room name m = add_initial-IsManaged (room 2) _ _ _ name m

-- vma_init keeps both as well, whichever of its allocations fail.
pub vma_init-IsManaged :
    (room : ℕ → Bool × Bool) (kernel_name stack_name heap_name : ℕ) (m : VmaManager)
    → IsManaged m
    → IsManaged (vma_init room kernel_name stack_name heap_name m)
unfolding vma_init
vma_init-IsManaged room kernel_name stack_name heap_name m ok =
    add_heap-IsManaged room heap_name _
      (add_stack-IsManaged room stack_name _ (add_kernel-IsManaged room kernel_name _ ok))
