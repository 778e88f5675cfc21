-- ===== src/Containers/Ring/Fifo.antt =====
-- The invariant of the ring buffer, and the list of the items that a ring holds.
use mathlib.Core.Path.{ap₂}
use feather_os.Prelude.{
  ℕ, zero, suc, ◌+◌, ◌-◌, ◌%◌, ◌^◌, ◌≤◌, ◌<◌, ◌≡◌, refl, ap, ◌∙◌, true, false, List, [], ◌∷◌, ◌++◌,
  arith, ◌==◌, length, get_or, set,
}
use feather_os.Prelude.Arrays.{get_or-set, length-set, length-append}
use feather_os.Prelude.Cyclic.{place, place_wraps}
use feather_os.Containers.Ring.{RingBuffer, ring_enqueue, ring_dequeue}

pub record IsValid (r : RingBuffer) : Type 0 where
  pub roomy : 0 < r.capacity
  pub small : r.capacity ≤ 2 ^ 61
  pub stored : length r.buffer ≡ r.capacity
  pub head_in : r.head < r.capacity
  pub size_in : r.size ≤ r.capacity
  pub tail_at : r.tail ≡ (r.head + r.size) % r.capacity
  pub full_at : r.full ≡ (r.size == r.capacity)

-- The list of `f 0 … f (n - 1)`.
tabulate : (ℕ → ℕ) → ℕ → List ℕ
tabulate f zero = []
tabulate f (suc n) = tabulate f n ++ (f n ∷ [])

tabulate_ext : (f g : ℕ → ℕ) (n : ℕ) → ((k : ℕ) → k < n → f k ≡ g k) → tabulate f n ≡ tabulate g n
unfolding tabulate
tabulate_ext f g zero h = refl
tabulate_ext f g (suc n) h =
    let ih = tabulate_ext f g n (λ k lt. h k (omega arith)) in
    let last = h n (omega arith) in rw (ih, last)

tabulate-suc : (f : ℕ → ℕ) (n : ℕ) → tabulate f (suc n) ≡ f 0 ∷ tabulate (λ k. f (k + 1)) n
unfolding tabulate
tabulate-suc f zero = refl
tabulate-suc f (suc n) =
    let s : n + 1 ≡ suc n = omega arith in ap (λ l. l ++ (f (suc n) ∷ [])) (tabulate-suc f n) ∙ rw s

-- The items of the ring, oldest first.
pub items : RingBuffer → List ℕ
unfolding tabulate
items r = tabulate (λ k. get_or r.buffer (place r.capacity r.head k) 0) r.size

length-tabulate : (f : ℕ → ℕ) (n : ℕ) → length (tabulate f n) ≡ n
unfolding tabulate
length-tabulate f zero = refl
length-tabulate f (suc n) =
    omega (arith, length-append (tabulate f n) (f n ∷ []), length-tabulate f n)

pub length-items : (r : RingBuffer) → length (items r) ≡ r.size
unfolding items
length-items r = length-tabulate _ r.size

-- The ring after an enqueue and after a dequeue, in the terms of the invariant.
abbrev pub pushed : ℕ → RingBuffer → RingBuffer
pushed x r = record r {
  buffer = set r.buffer r.tail x;
  tail = place r.capacity r.head (r.size + 1);
  size = r.size + 1;
  full = (r.size + 1) == r.capacity;
}

abbrev pub popped : RingBuffer → RingBuffer
popped r = record r { head = place r.capacity r.head 1; size = r.size - 1; full = false }

pub enqueue-pushed :
    (x : ℕ) {r : RingBuffer}
    → IsValid r
    → r.size < r.capacity
    → ring_enqueue r x ≡ (pushed x r, true)
unfolding ring_enqueue
enqueue-pushed x {r} v e = ground (
  arith,
  place_wraps r.capacity r.head r.size v.head_in,
  place_wraps r.capacity r.head (r.size + 1) v.head_in,
  place_wraps r.capacity r.tail 1,
)

pub pushed-IsValid :
    (x : ℕ) {r : RingBuffer} → IsValid r → r.size < r.capacity → IsValid (pushed x r)
pushed-IsValid x {r} v e = ground (arith, length-set r.buffer r.tail x)

pub items-pushed :
    (x : ℕ) {r : RingBuffer}
    → IsValid r
    → r.size < r.capacity
    → items (pushed x r) ≡ items r ++ (x ∷ [])
unfolding items
items-pushed x {r} v e =
    let s : r.size + 1 ≡ suc r.size = omega arith in
    rw s (ap₂ (λ l y. l ++ (y ∷ [])) (tabulate_ext _ _ r.size old) new)
  where
    old :
        (k : ℕ)
        → k < r.size
        → get_or (set r.buffer r.tail x) (place r.capacity r.head k) 0
          ≡ get_or r.buffer (place r.capacity r.head k) 0
    old k lt = ground (
      arith,
      get_or-set r.buffer r.tail (place r.capacity r.head k) x 0,
      place_wraps r.capacity r.head k v.head_in,
      place_wraps r.capacity r.head r.size v.head_in,
    )

    new : get_or (set r.buffer r.tail x) (place r.capacity r.head r.size) 0 ≡ x
    new = ground (
      arith,
      get_or-set r.buffer r.tail (place r.capacity r.head r.size) x 0,
      place_wraps r.capacity r.head r.size v.head_in,
    )

pub dequeue-popped :
    {r : RingBuffer}
    → IsValid r
    → 0 < r.size
    → ring_dequeue r ≡ (popped r, get_or r.buffer r.head 0)
unfolding ring_dequeue
dequeue-popped {r} v e = ground arith

pub popped-IsValid : {r : RingBuffer} → IsValid r → 0 < r.size → IsValid (popped r)
popped-IsValid {r} v e = ground (
  arith,
  place_wraps r.capacity r.head 1 v.head_in,
  place_wraps r.capacity r.head r.size v.head_in,
  place_wraps r.capacity (place r.capacity r.head 1) (r.size - 1),
)

pub items-popped :
    {r : RingBuffer}
    → IsValid r
    → 0 < r.size
    → items r ≡ get_or r.buffer r.head 0 ∷ items (popped r)
unfolding items
items-popped {r} v e =
    let s : r.size ≡ suc (r.size - 1) = omega arith in
    ap (tabulate (λ k. get_or r.buffer (place r.capacity r.head k) 0)) s
    ∙ tabulate-suc (λ k. get_or r.buffer (place r.capacity r.head k) 0) (r.size - 1)
    ∙ ap₂ ◌∷◌ first (tabulate_ext _ _ (r.size - 1) others)
  where
    first : get_or r.buffer (place r.capacity r.head 0) 0 ≡ get_or r.buffer r.head 0
    first = ground (arith, place_wraps r.capacity r.head 0 v.head_in)

    others :
        (k : ℕ)
        → k < r.size - 1
        → get_or r.buffer (place r.capacity r.head (k + 1)) 0
          ≡ get_or r.buffer (place r.capacity (place r.capacity r.head 1) k) 0
    others k lt = ground (
      arith,
      place_wraps r.capacity r.head (k + 1) v.head_in,
      place_wraps r.capacity r.head 1 v.head_in,
      place_wraps r.capacity (place r.capacity r.head 1) k,
    )
