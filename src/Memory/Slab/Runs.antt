-- ===== src/Memory/Slab/Runs.antt =====
-- Sequences of slab_alloc and slab_free on one cache.
use native.Mathlib.Nat.{div-le_self, suc-mul}
use native.Mathlib.Decide.{ℕ_discrete}
use feather_os.Prelude.{
  ℕ, zero, suc, ◌+◌, ◌*◌, ◌/◌, ◌%◌, ◌^◌, ◌≤◌, ◌<◌, ◌≡◌, refl, ap, ◌≢◌, ◌⊎◌, inl, inr, true, false,
  List, [], ◌∷◌, arith, ltb, ◌==◌, if◌then◌else◌, ltb→lt, Bool-cases,
}
use feather_os.Memory.Slab.{
  SlabCache, slab_alloc, slab_free, find_owner, slab_cache_create, calc_num_objs, build_free,
}
use feather_os.Memory.Slab.Pool.{
  free_objects, IsPool, supply, or_else, HandsOut, slab_alloc_lem, new_objects,
}
use feather_os.Memory.Slab.Count.{one_if, occurs, is_owned}
use feather_os.Memory.Slab.Free.{IsOut, slab_free_lem}

pub data PoolOp : Type 0 where
  allocs : ℕ → ℕ → PoolOp
  frees : ℕ → PoolOp

-- The first of an object's places in the list is left out.
unfoldable pub remove_one : ℕ → List ℕ → List ℕ
remove_one x [] = []
remove_one x (y ∷ ys) = if x == y then ys else y ∷ remove_one x ys

-- The objects that are handed out after an answer of slab_alloc.
abbrev pub hand_out : ℕ → List ℕ → List ℕ
hand_out obj live = if obj == 0 then live else obj ∷ live

-- The cache afterwards and the objects that are handed out.
unfoldable pub run : List PoolOp → SlabCache → List ℕ → SlabCache × List ℕ
run [] c live = (c, live)
run (allocs page node ∷ ops) c live =
    let r = slab_alloc page node c in run ops r.0 (hand_out r.1 live)
run (frees obj ∷ ops) c live = run ops (slab_free obj c) (remove_one obj live)

-- Each object is at most once handed out or free.
pub record IsOnce (c : SlabCache) (live : List ℕ) : Type 0 where
  pub pool : IsPool c
  pub once : (x : ℕ) → occurs x live + occurs x (free_objects c) ≤ 1

-- Where slab_alloc takes a new page, no object that is handed out begins where the page has its
-- objects. Only an object that is handed out is freed, and the slab that owns it has objects out.
abbrev pub IsLegal : List PoolOp → SlabCache → List ℕ → Type 0
IsLegal [] c live = Unit
IsLegal (allocs page node ∷ ops) c live =
    (free_objects c ≡ []
      → (x : ℕ) → 0 < occurs x live
      → (x < page + 48) ⊎ (page + 48 + c.num_objs * c.obj_size ≤ x))
    × IsLegal ops (slab_alloc page node c).0 (hand_out (slab_alloc page node c).1 live)
IsLegal (frees obj ∷ ops) c live =
    (obj ≢ 0)
    × (0 < occurs obj live)
    × (is_owned obj c ≡ true)
    × IsOut (find_owner c obj c.slabs_full) (find_owner c obj c.slabs_partial)
    × IsLegal ops (slab_free obj c) (remove_one obj live)

occurs-remove_one :
    (x y : ℕ) (ys : List ℕ)
    → 0 < occurs y ys
    → occurs x (remove_one y ys) + one_if (x == y) ≡ occurs x ys
unfolding remove_one
occurs-remove_one x y [] some_there = absurd (omega (arith, some_there))
occurs-remove_one x y (z ∷ zs) some_there = elim (ℕ_discrete y z) [
  | yes same ↦
      let found : (y == z) ≡ true = ground (arith, same) in
      let alike : (x == y) ≡ (x == z) = ap (λ k. x == k) same in rw (found, alike) (omega arith)
  | no other ↦
      let missed : (y == z) ≡ false = ground (arith, other) in
      let later : 0 < occurs y zs = ground (arith, some_there, missed) in
      rw missed (omega (arith, occurs-remove_one x y zs later))
]

occurs-hand_out :
    (x y : ℕ) (live : List ℕ) → occurs x (hand_out y live) ≤ occurs x live + one_if (x == y)
occurs-hand_out x y live = elim (Bool-cases (y == 0)) [
  | inl null ↦ rw null (omega arith)
  | inr real ↦ rw real (omega arith)
]

HandsOut-IsOnce :
    (l live : List ℕ) (r : SlabCache × ℕ)
    → HandsOut l r
    → ((x : ℕ) → occurs x live + occurs x l ≤ 1)
    → IsOnce r.0 (hand_out r.1 live)
HandsOut-IsOnce [] live r (none_given, none_free, v) once = record {
  pool = v;
  once = λ x. ground (arith, none_given, once x, ap (occurs x) none_free);
}
HandsOut-IsOnce (y ∷ ys) live r (given, left, v) once = record {
  pool = v;
  once = λ x. omega (
    arith,
    once x,
    occurs-hand_out x y live,
    ap (occurs x) left,
    ap (λ k. occurs x (hand_out k live)) given,
  );
}

-- The objects of a new slab are all different, and lie in its page.
occurs-build_free :
    (obj_size obj n x : ℕ)
    → 0 < obj_size
    → (occurs x (build_free obj_size obj n) ≤ 1)
      × ((x < obj) ⊎ (obj + n * obj_size ≤ x) → occurs x (build_free obj_size obj n) ≡ 0)
unfolding build_free
occurs-build_free obj_size obj zero x pos = (omega arith, λ away. refl)
occurs-build_free obj_size obj (suc n) x pos =
    let (once, away) = occurs-build_free obj_size (obj + obj_size) n x pos in
    let later : x < obj + obj_size → occurs x (build_free obj_size (obj + obj_size) n) ≡ 0 =
      λ lt. away (inl lt) in
    let behind : obj + obj_size + n * obj_size ≤ x
        → occurs x (build_free obj_size (obj + obj_size) n) ≡ 0 =
      λ le. away (inr le) in
    (ground (arith, once, later, pos), ground (arith, later, behind, pos, suc-mul n obj_size))

new_slab-once :
    (page node : ℕ) (c : SlabCache) (live : List ℕ)
    → 8 ≤ c.obj_size
    → ((x : ℕ) → occurs x live ≤ 1)
    → ((x : ℕ) → 0 < occurs x live → (x < page + 48) ⊎ (page + 48 + c.num_objs * c.obj_size ≤ x))
    → (x : ℕ) → occurs x live + occurs x (new_objects page node c) ≤ 1
new_slab-once page node c live room once apart x =
    let (once', away) =
      occurs-build_free c.obj_size (page + 48) c.num_objs x (omega (arith, room)) in
    ground (arith, once x, apart x, once', away)

or_else-once :
    (l new live : List ℕ)
    → (l ≡ [] → (x : ℕ) → occurs x live + occurs x new ≤ 1)
    → ((x : ℕ) → occurs x live + occurs x l ≤ 1)
    → (x : ℕ) → occurs x live + occurs x (or_else l new) ≤ 1
or_else-once [] new live fresh once = fresh refl
or_else-once (y ∷ ys) new live fresh once = once

run-IsOnce :
    (ops : List PoolOp) (c : SlabCache) (live : List ℕ)
    → IsLegal ops c live
    → IsOnce c live
    → IsOnce (run ops c live).0 (run ops c live).1
unfolding run
run-IsOnce [] c live legal h = h
run-IsOnce (allocs page node ∷ ops) c live (fresh, legal) h =
    let r = slab_alloc page node c in
    run-IsOnce ops r.0 (hand_out r.1 live) legal (
      HandsOut-IsOnce (supply page node c) live r (slab_alloc_lem page node c h.pool) (
        or_else-once (free_objects c) (new_objects page node c) live
          (λ e. new_slab-once page node c live h.pool.room (λ x. omega (arith, h.once x)) (fresh e))
          h.once))
run-IsOnce (frees obj ∷ ops) c live (nz, there, owned, out, legal) h =
    run-IsOnce ops (slab_free obj c) (remove_one obj live) legal (record {
      pool = (slab_free_lem obj obj c h.pool nz owned out).pool;
      once = λ x. omega (
        arith,
        h.once x,
        (slab_free_lem x obj c h.pool nz owned out).given,
        occurs-remove_one x obj live there,
      );
    })

calc_num_objs_bounds :
    (obj_size : ℕ) → (0 < calc_num_objs obj_size 4096) × (calc_num_objs obj_size 4096 ≤ 4048)
unfolding calc_num_objs
calc_num_objs_bounds obj_size =
    let most = div-le_self 4048 (obj_size + 8) in
    elim (Bool-cases (ltb 0 (4048 / (obj_size + 8)))) [
      | inl some_fit ↦ rw some_fit (ltb→lt _ _ some_fit, most)
      | inr none_fits ↦ rw none_fits (omega arith, omega arith)
    ]

slab_cache_create-IsPool :
    (obj_size : ℕ) → 8 ≤ obj_size → obj_size < 2 ^ 32 → IsPool (slab_cache_create obj_size)
unfolding slab_cache_create
slab_cache_create-IsPool obj_size room small = record {
  partial = tt;
  full = tt;
  empty = tt;
  ready = refl;
  some_objs = (calc_num_objs_bounds (obj_size % 2 ^ 32)).0;
  small = omega (arith, (calc_num_objs_bounds (obj_size % 2 ^ 32)).1);
  room = omega (arith, room, small);
}

-- On a cache that slab_cache_create has made for objects of 8 bytes or more, over every sequence of
-- slab_alloc and of slab_free of objects that are handed out, no object is handed out a second time
-- before it is freed, and none that is handed out is free: an object is at most once among those
-- handed out and the free ones together. Where slab_alloc takes a new page, no object that is handed
-- out lies in it, and an object is freed to a slab with objects out; a second free of an object is
-- not among the sequences.
pub slab_alloc-once :
    (ops : List PoolOp) (obj_size x : ℕ)
    → 8 ≤ obj_size
    → obj_size < 2 ^ 32
    → IsLegal ops (slab_cache_create obj_size) []
    → occurs x (run ops (slab_cache_create obj_size) []).1
        + occurs x (free_objects (run ops (slab_cache_create obj_size) []).0)
      ≤ 1
slab_alloc-once ops obj_size x room small legal =
    (run-IsOnce ops (slab_cache_create obj_size) [] legal (record {
      pool = slab_cache_create-IsPool obj_size room small;
      once = unfold slab_cache_create in λ y. omega arith;
    })).once
      x
