-- ===== src/Containers/KHeap/Blocks.antt =====
-- The blocks that kmalloc hands out lie in the heap, one behind the other.
use native.Mathlib.Nat.{le_refl, le_trans}
use native.Mathlib.Decide.{ℕ_discrete, dec_lt}
use feather_os.Prelude.{
  ℕ, ◌+◌, ◌-◌, ◌%◌, ◌^◌, ◌≤◌, ◌<◌, ◌≡◌, refl, ◌≢◌, ◌⊎◌, inl, inr, some, List, [], ◌∷◌, arith,
}
use feather_os.Memory.State.{MemoryManager}
use feather_os.Memory.Init.{memory_manager_init}
use feather_os.Memory.Init.Valid.{memory_manager_init_lem}
use feather_os.Containers.KHeap.{KHeap, heap_start, heap_size, boot_heap, align8, kmalloc}

-- What is handed out and what is left make up the heap.
pub record IsValid (h : KHeap) : Type 0 where
  pub filled : h.heap_ptr + h.heap_left ≡ heap_start + heap_size
  pub above : heap_start ≤ h.heap_ptr
  pub aligned : h.heap_ptr % 8 ≡ 0

abbrev pub Block : Type 0
Block = ℕ × ℕ

-- A sequence of calls of kmalloc: the heap afterwards, and each answer with the size asked for.
unfoldable pub allocate : List ℕ → KHeap → KHeap × List Block
allocate [] h = (h, [])
allocate (size ∷ sizes) h =
    let (h', ptr) = kmalloc size h in
    let (h'', blocks) = allocate sizes h' in (h'', (ptr, size) ∷ blocks)

-- Each block that is not NULL is aligned, lies between `lo` and the end of the heap, and ends
-- before the next.
abbrev pub Stacked : ℕ → List Block → Type 0
Stacked lo [] = Unit
Stacked lo ((ptr, size) ∷ blocks) =
    ((ptr ≡ 0) × Stacked lo blocks)
    ⊎ ((lo ≤ ptr)
        × (ptr % 8 ≡ 0)
        × (ptr + size ≤ heap_start + heap_size)
        × Stacked (ptr + size) blocks)

-- A call fails for 0 bytes, and for more bytes than are left.
abbrev Fails : ℕ → KHeap → Type 0
Fails size h = (size ≡ 0) ⊎ (h.heap_left < align8 size)

kmalloc_refuses : (size : ℕ) (h : KHeap) → Fails size h → kmalloc size h ≡ (h, 0)
unfolding kmalloc
kmalloc_refuses size h f = ground arith

abbrev advance : ℕ → KHeap → KHeap
advance size h = record h {
  heap_ptr = h.heap_ptr + align8 size;
  heap_left = h.heap_left - align8 size;
}

kmalloc_succeeds :
    (size : ℕ) {h : KHeap}
    → IsValid h
    → size ≢ 0
    → align8 size ≤ h.heap_left
    → kmalloc size h ≡ (advance size h, h.heap_ptr)
unfolding kmalloc
kmalloc_succeeds size {h} v some_bytes fits = ground arith

advance-IsValid :
    (size : ℕ) {h : KHeap} → IsValid h → align8 size ≤ h.heap_left → IsValid (advance size h)
advance-IsValid size v fits = omega arith

kmalloc-cases : (size : ℕ) (h : KHeap) → Fails size h ⊎ ((size ≢ 0) × (align8 size ≤ h.heap_left))
kmalloc-cases size h = elim (ℕ_discrete size 0) [
  | yes e ↦ inl (inl e)
  | no ne ↦ elim (dec_lt h.heap_left (align8 size)) [
    | yes lt ↦ inl (inr lt)
    | no ge ↦ inr (ne, omega arith)
  ]
]

abbrev pub AllSmall : List ℕ → Type 0
AllSmall [] = Unit
AllSmall (size ∷ sizes) = (size + 7 < 2 ^ 64) × AllSmall sizes

Stacked-lower :
    (lo lo' : ℕ) (blocks : List Block) → lo ≤ lo' → Stacked lo' blocks → Stacked lo blocks
Stacked-lower lo lo' [] h s = s
Stacked-lower lo lo' ((ptr, size) ∷ blocks) h (inl (null, rest)) =
    inl (null, Stacked-lower lo lo' blocks h rest)
Stacked-lower lo lo' ((ptr, size) ∷ blocks) h (inr (above, aligned, inside, rest)) =
    inr (le_trans h above, aligned, inside, rest)

-- For every sequence of sizes of at most 2 ^ 64 - 8, those that rounding up to a multiple of 8 does
-- not carry past 64 bits, the blocks that kmalloc hands out are aligned, lie in the heap and do not
-- overlap, and the invariant holds afterwards.
pub allocate-Stacked :
    (sizes : List ℕ) {h : KHeap}
    → IsValid h
    → AllSmall sizes
    → IsValid (allocate sizes h).0 × Stacked h.heap_ptr (allocate sizes h).1
unfolding allocate
allocate-Stacked [] v small = (v, tt)
allocate-Stacked (size ∷ sizes) {h} v (this, others) = elim (kmalloc-cases size h) [
  | inl f ↦
      rw (kmalloc_refuses size h f)
        (let (v', s) = allocate-Stacked sizes v others in (v', inl (refl, s)))
  | inr ok ↦ rw (kmalloc_succeeds size v ok.0 ok.1) (
      let (v', s) = allocate-Stacked sizes (advance-IsValid size v ok.1) others in
      (
        v',
        inr (
          le_refl _,
          v.aligned,
          omega arith,
          Stacked-lower (h.heap_ptr + size) (h.heap_ptr + align8 size) _ (omega arith) s,
        ),
      ))
]

pub boot_heap-IsValid : IsValid boot_heap
unfolding boot_heap
boot_heap-IsValid = omega arith

-- A request within 7 of the largest `size_t` is answered with a pointer, and nothing is set aside.
kmalloc_wraps :
    (size : ℕ) (h : KHeap)
    → 2 ^ 64 ≤ size + 7
    → size < 2 ^ 64
    → kmalloc size h ≡ (record h { heap_ptr = h.heap_ptr % 2 ^ 64 }, h.heap_ptr)
unfolding kmalloc
kmalloc_wraps size h over small = ground arith

-- The heap starts where memory_manager_init puts its bitmap: the first block of kmalloc, of any
-- size that the heap can hold, lies at the bitmap's address.
first_block-bitmap :
    (size : ℕ)
    → 0 < size
    → size ≤ heap_size
    → (mm : MemoryManager) × (memory_manager_init ≡ (some mm, 0))
      × ((kmalloc size boot_heap).1 ≡ mm.bitmap_phys_addr)
unfolding kmalloc boot_heap
first_block-bitmap size h k =
    let (mm, e, v, pages, own, addr) = memory_manager_init_lem in (mm, e, ground (arith, addr))
