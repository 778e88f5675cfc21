-- ===== src/Memory/Vma/Tests.antt =====
-- Runs of the operations on virtual memory areas.
use feather_os.Prelude.{ℕ, ◌≡◌, refl, inl, true, some, [], ◌∷◌, arith, if◌then◌else◌}
use mathlib.Core.Option
use feather_os.Memory.Vma.{
  Vma, red, black, RbTree, leaf, node, right_of, contains, vma_rb_insert, vma_rb_find,
}
use feather_os.Memory.Vma.Listing.{areas}
use feather_os.Memory.Vma.Balance.{IsRedBlack}
use feather_os.Memory.Vma.Sorted.{insert_area, IsSorted}
use feather_os.Memory.Vma.Insert.{IsAreaTreeEach, vma_rb_insert-IsAreaTree, areas-vma_rb_insert}
use feather_os.Memory.Vma.Find.{IsApart, vma_rb_find-areas}
use feather_os.Memory.Vma.Apart.{IsFree}
use feather_os.Memory.Vma.Manager.{VmaManager, vma_find, vma_mmap, Mapped}
use feather_os.Memory.Vma.Start.{vma_init}
use feather_os.Memory.Vma.Mapping.{IsManaged, vma_mmap-IsManaged}
use feather_os.Memory.Vma.Answer.{mapped_area, vma_find-vma_mmap}
use feather_os.Memory.Vma.Erase.{vma_rb_erase, areas-vma_rb_erase}

abbrev area : ℕ → ℕ → Vma
area start end = record {
  start = start;
  end = end;
  offset = 0;
  flags = 0;
  id = 0;
  ref_count = 1;
  inode = 0;
  name = 0;
}

abbrev red_node : ℕ → ℕ → RbTree
red_node start end = node red leaf (area start end) leaf

-- Three areas; the fourth makes the fixup recolor.
abbrev three : RbTree
three = node black (red_node 0x1000 0x2000) (area 0x3000 0x5000) (red_node 0x8000 0x9000)

abbrev four : RbTree
four =
    node black (node black leaf (area 0x1000 0x2000) leaf) (area 0x3000 0x5000)
      (node black leaf (area 0x8000 0x9000) (red_node 0xA000 0xB000))

three-IsSorted : IsSorted (areas three)
three-IsSorted = ((omega arith, (omega arith, tt)), ((omega arith, tt), (tt, tt)))

three-IsRedBlack : IsRedBlack three
three-IsRedBlack = record {
  height = 1;
  balanced = (0, refl, (refl, refl, refl, refl), (refl, refl, refl, refl));
  black_root = refl;
}

three-IsApart : IsApart (areas three)
three-IsApart = (
  omega arith,
  (omega arith, (omega arith, tt)),
  (omega arith, (omega arith, tt), (omega arith, tt, tt)),
)

recolored : vma_rb_insert (area 0xA000 0xB000) three ≡ some four
unfolding vma_rb_insert
recolored = refl

vma_rb_insert-IsAreaTree_example : IsAreaTreeEach (vma_rb_insert (area 0xA000 0xB000) three)
vma_rb_insert-IsAreaTree_example =
    vma_rb_insert-IsAreaTree (area 0xA000 0xB000) three (three-IsRedBlack, three-IsSorted)

areas-vma_rb_insert_example :
    Option.map areas (vma_rb_insert (area 0xA000 0xB000) three)
    ≡ some (area 0x1000 0x2000 ∷ area 0x3000 0x5000 ∷ area 0x8000 0x9000 ∷ area 0xA000 0xB000 ∷ [])
unfolding insert_area
areas-vma_rb_insert_example = areas-vma_rb_insert (area 0xA000 0xB000) three three-IsSorted

vma_rb_find-areas_example : vma_rb_find three 0x4000 ≡ some (area 0x3000 0x5000)
vma_rb_find-areas_example = vma_rb_find-areas three 0x4000 three-IsApart

abbrev managed : VmaManager
managed = record { root = three; count = 3; num_vmas = 3; vma_id_counter = 3 }

vma_mmap-IsManaged_example :
    IsManaged ((vma_mmap true true (λ i. i) managed 0xA000 0x1000 3 0x50 0).manager)
vma_mmap-IsManaged_example =
    vma_mmap-IsManaged true true (λ i. i) managed 0xA000 0x1000 3 0x50 0
      ((three-IsRedBlack, three-IsSorted), refl)

hinted-IsFree : IsFree (mapped_area managed 0xA000 0x1000 3 0x50 0) (areas three)
hinted-IsFree = (inl (omega arith), (inl (omega arith), (inl (omega arith), omega arith)))

vma_find-vma_mmap_example :
    ((vma_mmap true true (λ i. i) managed 0xA000 0x1000 3 0x50 0).answer ≡ 0xA000)
    × ((a : ℕ)
        → vma_find ((vma_mmap true true (λ i. i) managed 0xA000 0x1000 3 0x50 0).manager) a ≡ (
            if contains (mapped_area managed 0xA000 0x1000 3 0x50 0) a
            then some (mapped_area managed 0xA000 0x1000 3 0x50 0)
            else vma_find managed a))
vma_find-vma_mmap_example =
    vma_find-vma_mmap (λ i. i) managed 0xA000 0x1000 3 0x50 0 three-IsApart hinted-IsFree refl

areas-vma_rb_erase_example :
    Option.map areas (
      vma_rb_erase black leaf
        (area 0x8000 0x9000)
        (red_node 0xA000 0xB000)
        (right_of black (node black leaf (area 0x1000 0x2000) leaf) (area 0x3000 0x5000) ∷ []))
    ≡ some (area 0x1000 0x2000 ∷ area 0x3000 0x5000 ∷ area 0xA000 0xB000 ∷ [])
areas-vma_rb_erase_example =
    areas-vma_rb_erase black leaf (area 0x8000 0x9000) (red_node 0xA000 0xB000)
      (right_of black (node black leaf (area 0x1000 0x2000) leaf) (area 0x3000 0x5000) ∷ [])

-- The first mapping without a hint after vma_init is at 0, and the second finds 0 taken.
abbrev initial : VmaManager
initial = record { root = leaf; count = 0; num_vmas = 0; vma_id_counter = 0 }

abbrev started : VmaManager
started = vma_init (λ i. (true, true)) 1 2 3 initial

abbrev first_mapping : Mapped
first_mapping = vma_mmap true true (λ i. i) started 0 0x1000 3 0x50 0

abbrev second_mapping : Mapped
second_mapping = vma_mmap true true (λ i. i) first_mapping.manager 0 0x1000 3 0x50 0

both_null : (first_mapping.answer ≡ 0) × (second_mapping.answer ≡ 0)
unfolding vma_init vma_mmap
both_null = (refl, refl)

one_entered :
    (started.count ≡ 3) × (first_mapping.manager.count ≡ 4) × (second_mapping.manager.count ≡ 4)
unfolding vma_init vma_mmap
one_entered = (refl, refl, refl)
