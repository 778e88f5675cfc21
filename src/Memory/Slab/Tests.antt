-- ===== src/Memory/Slab/Tests.antt =====
-- A cache for objects of 1024 bytes, three to a page, and the theorems at it.
use feather_os.Prelude.{◌+◌, ◌≤◌, ◌≡◌, refl, ap, true, List, [], ◌∷◌, arith, length}
use feather_os.Memory.Slab.{
  SlabCache, slab_cache_create, slab_alloc, slab_create, take_object, build_free, calc_num_objs,
  find_owner,
}
use feather_os.Memory.Slab.Pool.{IsPool, HandsOut, supply, slab_alloc_lem}
use feather_os.Memory.Slab.Count.{occurs}
use feather_os.Memory.Slab.Pool.{free_objects}
use feather_os.Memory.Slab.Runs.{PoolOp, allocs, frees, run, slab_alloc-once}

-- After one allocation from the page at 8192.
abbrev cache : SlabCache
cache = record {
  obj_size = 1024;
  num_objs = 3;
  page_size = 4096;
  slabs_partial =
      record {
        page = 8192;
        obj_size = 1024;
        num_objs = 3;
        num_free = 2;
        free_list = 9264 ∷ 10288 ∷ [];
      }
      ∷ [];
  slabs_full = [];
  slabs_empty = [];
  num_slabs = 1;
  num_objs_total = 3;
  num_objs_free = 2;
  num_objs_alloc = 1;
  num_frees = 0;
  cache_hits = 2;
  cache_misses = 0;
  initialized = true;
}

cache_lem : slab_alloc 8192 16 (slab_cache_create 1024) ≡ (cache, 8240)
unfolding slab_alloc slab_cache_create slab_create take_object build_free calc_num_objs
cache_lem = refl

cache-IsPool : IsPool cache
cache-IsPool = record {
  partial = (
    record {
      counted = omega arith;
      some_free = omega arith;
      small = omega arith;
      bounded = omega arith;
    },
    tt,
  );
  full = tt;
  empty = tt;
  ready = refl;
  some_objs = omega arith;
  small = omega arith;
  room = omega arith;
}

slab_alloc_example : HandsOut (supply 0 0 cache) (slab_alloc 0 0 cache)
slab_alloc_example = slab_alloc_lem 0 0 cache cache-IsPool

-- Two objects of one page, and the first one given back.
abbrev ops : List PoolOp
ops = allocs 8192 16 ∷ allocs 0 0 ∷ frees 8240 ∷ []

slab_alloc-once_example :
    occurs 9264 (run ops (slab_cache_create 1024) []).1
      + occurs 9264 (free_objects (run ops (slab_cache_create 1024) []).0)
    ≤ 1
unfolding slab_alloc slab_cache_create slab_create take_object build_free calc_num_objs find_owner
slab_alloc-once_example = slab_alloc-once ops 1024 9264 (omega arith) (omega arith) (
  (λ e x there. absurd (omega (arith, there))),
  (
    (λ e. absurd (omega (arith, ap length e))),
    ((λ e. absurd (omega (arith, e))), omega arith, refl, omega arith, tt),
  ),
)
