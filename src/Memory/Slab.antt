-- ===== src/Memory/Slab.antt =====
-- The slab allocator of FeatherOS/kernel/mm/slab.c: a cache of objects of one size over pages, and the
-- size classes. The constructor and destructor of a cache are NULL, as for all size classes, and the
-- statistics over all caches are left out.
pub mod Pool
pub mod Count
pub mod Free
pub mod Runs
pub mod Classes
mod Tests
use mathlib.Core.Path.{subst, fun_ext}
use mathlib.Core.Logic.{dite, ite}
use native.Mathlib.Nat.{
  add_comm, add_assoc, le_refl, le_trans, mod-eq_of_lt, mod-lt, mod-eq-sub-mod, mod-add-mod,
}
use native.Mathlib.Decide.{ℕ_discrete, dec_lt, dec_le}
use feather_os.Prelude.{
  ℕ, zero, suc, ◌+◌, ◌-◌, ◌*◌, ◌/◌, ◌%◌, ◌^◌, ◌≤◌, ◌<◌, min, max, ◌≡◌, refl, sym, ap, ◌∙◌, ◌≢◌, ◌↔◌,
  ◌⊎◌, inl, inr, Bool, true, false, not, ◌&&◌, ◌||◌, Option, none, some, List, [], ◌∷◌, ◌++◌, map,
  arith, ltb, leb, ◌==◌, if◌then◌else◌, ltb→lt, lt→ltb, leb→le, ==_iff, tests, Bool-cases,
  Option-cases, length, get_or, set, take, drop, replicate,
}

-- A slab: its page, and the addresses of its free objects, which the source links through the first
-- word of the free objects themselves. The lists of slabs are linked through `next`.
pub record Slab : Type 0 where
  pub page : ℕ
  pub obj_size : ℕ
  pub num_objs : ℕ
  pub num_free : ℕ
  pub free_list : List ℕ

pub record SlabCache : Type 0 where
  pub obj_size : ℕ
  pub num_objs : ℕ
  pub page_size : ℕ
  pub slabs_partial : List Slab
  pub slabs_full : List Slab
  pub slabs_empty : List Slab
  pub num_slabs : ℕ
  pub num_objs_total : ℕ
  pub num_objs_free : ℕ
  pub num_objs_alloc : ℕ
  pub num_frees : ℕ
  pub cache_hits : ℕ
  pub cache_misses : ℕ
  pub initialized : Bool

abbrev pub slab_page_size : ℕ
slab_page_size = 4096

-- `sizeof(slab_t)` on x86-64
abbrev pub slab_size : ℕ
slab_size = 48

unfoldable pub calc_num_objs : ℕ → ℕ → ℕ
calc_num_objs obj_size page_size =
    let num = (page_size - slab_size) / (obj_size + 8) in if ltb 0 num then num else 1

-- After kmalloc has given memory.
unfoldable pub slab_cache_create : ℕ → SlabCache
slab_cache_create obj_size = record {
  obj_size = obj_size % 2 ^ 32;
  num_objs = calc_num_objs (obj_size % 2 ^ 32) slab_page_size;
  page_size = slab_page_size;
  slabs_partial = [];
  slabs_full = [];
  slabs_empty = [];
  num_slabs = 0;
  num_objs_total = 0;
  num_objs_free = 0;
  num_objs_alloc = 0;
  num_frees = 0;
  cache_hits = 0;
  cache_misses = 0;
  initialized = true;
}

-- The free list that slab_create builds: `n` objects from the address `obj` on. The source keeps the
-- links in the objects, as their first 8 bytes: this is the list that they make where an object has
-- at least 8 bytes. In smaller objects each link is written over the one before, and there is no
-- such list; what is proved of caches asks for objects of 8 bytes or more.
unfoldable pub build_free : ℕ → ℕ → ℕ → List ℕ
build_free obj_size obj zero = []
build_free obj_size obj (suc n) = obj ∷ build_free obj_size (obj + obj_size) n

abbrev pub inc : ℕ → ℕ
inc n = (n + 1) % 2 ^ 32

abbrev pub dec : ℕ → ℕ
dec n = (n + 2 ^ 32 - 1) % 2 ^ 32

-- The counts of the cache after a new slab, and the slab.
abbrev pub new_count : SlabCache → SlabCache
new_count c = record c {
  num_slabs = inc c.num_slabs;
  num_objs_total = (c.num_objs_total + c.num_objs) % 2 ^ 32;
  num_objs_free = (c.num_objs_free + c.num_objs) % 2 ^ 32;
}

abbrev pub new_slab : ℕ → SlabCache → Slab
new_slab page c = record {
  page = page;
  obj_size = c.obj_size;
  num_objs = c.num_objs;
  num_free = c.num_objs;
  free_list = build_free c.obj_size (page + slab_size) c.num_objs;
}

-- `page` is what physical_alloc_page answers and `node` what kmalloc answers, 0 for NULL.
unfoldable pub slab_create : ℕ → ℕ → SlabCache → SlabCache × Option Slab
slab_create page node c =
    if (page == 0) || (node == 0) then (c, none) else (new_count c, some (new_slab page c))

-- The first object of a free list, 0 for NULL, and the objects behind it.
abbrev pub first_free : List ℕ → ℕ
first_free [] = 0
first_free (x ∷ xs) = x

-- The branch of slab_alloc for a partial slab. Reading behind a free list that is NULL, which the
-- source does not look for, has no meaning in C; here nothing is left.
unfoldable pub take_object : Slab → List Slab → SlabCache → SlabCache × ℕ
take_object slab others c =
    let slab' = record slab { free_list = drop 1 slab.free_list; num_free = dec slab.num_free } in
    let is_full = slab'.num_free == 0 in
    (
      record c {
        slabs_partial = if is_full then others else slab' ∷ others;
        slabs_full = if is_full then slab' ∷ c.slabs_full else c.slabs_full;
        num_objs_free = dec c.num_objs_free;
        num_objs_alloc = inc c.num_objs_alloc;
        cache_hits = inc c.cache_hits;
      },
      first_free slab.free_list,
    )

-- The retry of slab_alloc with the slab as the one partial slab.
abbrev pub retry : Slab → SlabCache → SlabCache × ℕ
retry slab c = take_object slab [] (record c { cache_hits = inc c.cache_hits })

-- slab_alloc where no slab is partial, and no slab is empty.
abbrev pub alloc_new : SlabCache × Option Slab → SlabCache × ℕ
alloc_new (c, none) = (record c { cache_misses = inc c.cache_misses }, 0)
alloc_new (c, some slab) = retry slab c

-- The three ways of slab_alloc, by the partial and the empty slabs.
abbrev pub alloc_from : List Slab → List Slab → ℕ → ℕ → SlabCache → SlabCache × ℕ
alloc_from (slab ∷ others) empty page node c = take_object slab others c
alloc_from [] (slab ∷ others) page node c = retry slab (record c { slabs_empty = others })
alloc_from [] [] page node c = alloc_new (slab_create page node c)

-- The object answered, 0 for NULL.
unfoldable pub slab_alloc : ℕ → ℕ → SlabCache → SlabCache × ℕ
slab_alloc page node c =
    if not c.initialized then (c, 0) else alloc_from c.slabs_partial c.slabs_empty page node c

-- `(uint8_t*)obj - (uint8_t*)slab->page < page_size`, where the difference is a `uint64_t`
abbrev pub owns : SlabCache → ℕ → Slab → Bool
owns c obj slab = ltb ((obj + 2 ^ 64 - slab.page) % 2 ^ 64) c.page_size

-- The first slab of a list that owns the object, with the slabs before it and behind it.
pub record Place : Type 0 where
  pub before : List Slab
  pub slab : Slab
  pub behind : List Slab

abbrev pub behind_one : Slab → Option Place → Option Place
behind_one s none = none
behind_one s (some p) = some (record p { before = s ∷ p.before })

unfoldable pub find_owner : SlabCache → ℕ → List Slab → Option Place
find_owner c obj [] = none
find_owner c obj (s ∷ ss) =
    let rest = find_owner c obj ss in
    if owns c obj s then some (record { before = []; slab = s; behind = ss }) else behind_one s rest

abbrev pub put_back : ℕ → Slab → Slab
put_back obj s = record s { free_list = obj ∷ s.free_list; num_free = inc s.num_free }

abbrev pub count_free : SlabCache → SlabCache
count_free c = record c { num_objs_free = inc c.num_objs_free; num_frees = inc c.num_frees }

-- The slab that owns the object is in the list of partial slabs.
unfoldable pub free_partial : ℕ → Place → SlabCache → SlabCache
free_partial obj p c =
    let slab = put_back obj p.slab in
    if slab.num_free == slab.num_objs
    then record (count_free c) {
      slabs_partial = p.before ++ p.behind;
      slabs_empty = slab ∷ c.slabs_empty;
    }
    else record (count_free c) { slabs_partial = p.before ++ (slab ∷ p.behind) }

-- The slab that owns the object is in the list of full slabs. In the last case a slab that is not the
-- first one of the list stays in it although its `next` then leads to the empty slabs.
unfoldable pub free_full : ℕ → Place → SlabCache → SlabCache
free_full obj p c =
    let slab = put_back obj p.slab in
    if slab.num_free == 1
    then record (count_free c) {
      slabs_full = p.before ++ p.behind;
      slabs_partial = slab ∷ c.slabs_partial;
    }
    else if slab.num_free == slab.num_objs
    then record (count_free c) {
      slabs_full = elim p.before [ [] ↦ p.behind | s ∷ ss ↦ p.before ++ (slab ∷ c.slabs_empty) ];
      slabs_empty = slab ∷ c.slabs_empty;
    }
    else record (count_free c) { slabs_full = p.before ++ (slab ∷ p.behind) }

abbrev pub free_found : ℕ → Option Place → Option Place → SlabCache → SlabCache
free_found obj (some p) q c = free_full obj p c
free_found obj none (some q) c = free_partial obj q c
free_found obj none none c = c

unfoldable pub slab_free : ℕ → SlabCache → SlabCache
unfolding free_full free_partial
slab_free obj c =
    if obj == 0
    then c
    else free_found obj (find_owner c obj c.slabs_full) (find_owner c obj c.slabs_partial) c

-- `size_cache_sizes`
abbrev pub size_cache_sizes : List ℕ
size_cache_sizes = 8 ∷ 16 ∷ 32 ∷ 64 ∷ 128 ∷ 256 ∷ 512 ∷ 1024 ∷ 2048 ∷ 4096 ∷ []

-- The loop of slab_cache_lookup over the sizes that are left, from the index `i` on.
unfoldable pub lookup_size : ℕ → List ℕ → ℕ → Option ℕ
lookup_size size [] i = none
lookup_size size (s ∷ ss) i =
    let rest = lookup_size size ss (i + 1) in if leb size s then some i else rest

-- The index of the cache answered, where kmalloc gives memory for it, and `none` for NULL.
unfoldable pub slab_cache_lookup : ℕ → Option ℕ
unfolding lookup_size
slab_cache_lookup size = if size == 0 then none else lookup_size size size_cache_sizes 0
