-- ===== src/Memory/Slab/Classes.antt =====
-- The size classes, and where the objects of a new slab lie.
use mathlib.Core.Path.{subst}
use native.Mathlib.Nat.{suc-mul, div-mul-le_self, mul-add, le_refl}
use feather_os.Prelude.{
  ℕ, zero, suc, ◌+◌, ◌*◌, ◌/◌, ◌%◌, ◌^◌, ◌≤◌, ◌<◌, ◌≡◌, ◌≢◌, ◌⊎◌, inl, inr, Option, none, some,
  List, [], ◌∷◌, arith, ltb, leb, ◌==◌, leb→le, Bool-cases, length, get_or,
}
use feather_os.Memory.Slab.{
  calc_num_objs, slab_cache_create, build_free, slab_create, take_object, slab_alloc,
  size_cache_sizes, lookup_size, slab_cache_lookup,
}

-- The objects do not overlap and lie from `lo` to `hi`.
pub data Tiles (obj_size : ℕ) : ℕ → ℕ → List ℕ → Type 0 where
  done : {lo hi : ℕ} → lo ≤ hi → Tiles obj_size lo hi []
  object :
      {lo hi x : ℕ} {xs : List ℕ}
      → lo ≤ x
      → Tiles obj_size (x + obj_size) hi xs
      → Tiles obj_size lo hi (x ∷ xs)

Tiles-build_free :
    (obj_size obj n hi : ℕ)
    → obj + n * obj_size ≤ hi
    → Tiles obj_size obj hi (build_free obj_size obj n)
unfolding build_free
Tiles-build_free obj_size obj zero hi le = done (omega (arith, le))
Tiles-build_free obj_size obj (suc n) hi le =
    object (le_refl obj)
      (Tiles-build_free obj_size (obj + obj_size) n hi (omega (arith, le, suc-mul n obj_size)))

calc_num_objs-fits :
    (obj_size : ℕ) → obj_size ≤ 4048 → calc_num_objs obj_size 4096 * obj_size ≤ 4048
unfolding calc_num_objs
calc_num_objs-fits obj_size small =
    let per_page = div-mul-le_self 4048 (obj_size + 8) in
    let split = mul-add (4048 / (obj_size + 8)) obj_size 8 in
    elim (Bool-cases (ltb 0 (4048 / (obj_size + 8)))) [
      | inl some_fit ↦ rw some_fit (omega (arith, per_page, split))
      | inr none_fits ↦ rw none_fits (omega (arith, small))
    ]

-- The objects of a new slab of a cache for objects of at most 4048 bytes lie in its page, behind the
-- space left for a slab_t, and do not overlap.
pub slab_create-Tiles :
    (obj_size page : ℕ)
    → obj_size ≤ 4048
    → Tiles obj_size
        (page + 48)
        (page + 4096)
        (build_free obj_size (page + 48) (slab_cache_create obj_size).num_objs)
unfolding slab_cache_create
slab_create-Tiles obj_size page small =
    let same : obj_size % 2 ^ 32 ≡ obj_size = omega (arith, small) in
    rw same (
      Tiles-build_free obj_size (page + 48) (calc_num_objs obj_size 4096) (page + 4096)
        (omega (arith, calc_num_objs-fits obj_size small)))

-- The object of 4096 bytes that slab_alloc answers from a new page ends 48 bytes behind the page.
slab_alloc_overruns :
    (page node : ℕ)
    → page ≢ 0
    → node ≢ 0
    → (slab_alloc page node (slab_cache_create 4096)).1 + 4096 ≡ page + 4096 + 48
unfolding slab_alloc slab_cache_create slab_create take_object build_free calc_num_objs
slab_alloc_overruns page node p n = ground (arith, p, n)

-- The first of the sizes that is large enough, `i` counting from the first one.
Finds : ℕ → List ℕ → ℕ → Option ℕ → Type 0
Finds size ss i none = (j : ℕ) → j < length ss → get_or ss j 0 < size
Finds size ss i (some k) =
    (d : ℕ) × (k ≡ i + d)
    × (d < length ss)
    × (size ≤ get_or ss d 0)
    × ((j : ℕ) → j < d → get_or ss j 0 < size)

below_cons :
    (size s : ℕ) (ss : List ℕ) (n : ℕ)
    → s < size
    → ((j : ℕ) → j < n → get_or ss j 0 < size)
    → (j : ℕ) → j < suc n
    → get_or (s ∷ ss) j 0 < size
below_cons size s ss n small below zero lt = small
below_cons size s ss n small below (suc j) lt = below j (omega (arith, lt))

Finds-cons :
    (size s : ℕ) (ss : List ℕ) (i : ℕ) (o : Option ℕ)
    → s < size
    → Finds size ss (i + 1) o
    → Finds size (s ∷ ss) i o
unfolding Finds
Finds-cons size s ss i none small f =
    λ j lt. below_cons size s ss (length ss) small f j (omega (arith, lt))
Finds-cons size s ss i (some k) small (d, at, lt, fits, below) =
    (suc d, omega (arith, at), omega (arith, lt), fits, below_cons size s ss d small below)

lookup_size-Finds : (size : ℕ) (ss : List ℕ) (i : ℕ) → Finds size ss i (lookup_size size ss i)
unfolding lookup_size Finds
lookup_size-Finds size [] i = λ j lt. absurd (omega (arith, lt))
lookup_size-Finds size (s ∷ ss) i = elim (Bool-cases (leb size s)) [
  | inl fits ↦
      rw fits (0, omega arith, omega arith, leb→le size s fits, λ j lt. absurd (omega (arith, lt)))
  | inr small ↦ rw small (
      Finds-cons size s ss i (lookup_size size ss (i + 1)) (ground (arith, small))
        (lookup_size-Finds size ss (i + 1)))
]

-- What slab_cache_lookup answers: the index of the smallest size that is large enough.
abbrev pub IsClass : ℕ → Option ℕ → Type 0
IsClass size none = (size ≡ 0) ⊎ (4096 < size)
IsClass size (some i) =
    (i < 10)
    × (size ≤ get_or size_cache_sizes i 0)
    × ((j : ℕ) → j < i → get_or size_cache_sizes j 0 < size)

-- slab_cache_lookup answers the cache of the smallest size class that the size fits in, and NULL
-- exactly for the size 0 and for sizes above 4096.
slab_cache_lookup_lem : (size : ℕ) → IsClass size (slab_cache_lookup size)
unfolding slab_cache_lookup Finds
slab_cache_lookup_lem size = elim (Bool-cases (size == 0)) [
  | inl nothing ↦ rw nothing (inl (ground (arith, nothing)))
  | inr some_bytes ↦
      rw some_bytes
        (go (lookup_size size size_cache_sizes 0) (lookup_size-Finds size size_cache_sizes 0))
]
  where
    go : (o : Option ℕ) → Finds size size_cache_sizes 0 o → IsClass size o
    go none f = inr (f 9 (omega arith))
    go (some k) (d, at, lt, fits, below) =
        let same : d ≡ k = omega (arith, at) in
        subst (λ i. IsClass size (some i)) same (omega (arith, lt), fits, below)
