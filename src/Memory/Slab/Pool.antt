-- ===== src/Memory/Slab/Pool.antt =====
-- A cache as a pool of objects.
use mathlib.Core.Path.{subst}
use feather_os.Prelude.{
  ℕ, zero, suc, ◌+◌, ◌^◌, ◌≤◌, ◌<◌, ◌≡◌, refl, sym, ap, ◌∙◌, inl, inr, true, false, not, ◌||◌, List,
  [], ◌∷◌, ◌++◌, arith, ◌==◌, if◌then◌else◌, Bool-cases, length,
}
use mathlib.Core.List.{append-nil, append_assoc}
use feather_os.Memory.Slab.{
  Slab, SlabCache, slab_create, build_free, take_object, retry, slab_alloc, dec, inc, alloc_from,
  new_slab, new_count,
}

abbrev pub free_of : List Slab → List ℕ
free_of [] = []
free_of (s ∷ ss) = s.free_list ++ free_of ss

-- The free objects of a cache, in the order in which slab_alloc hands them out.
abbrev pub free_objects : SlabCache → List ℕ
free_objects c = free_of c.slabs_partial ++ free_of c.slabs_empty

-- A slab with free objects counts them, within a `uint32_t`.
pub record HasFree (s : Slab) : Type 0 where
  pub counted : s.num_free ≡ length s.free_list
  pub some_free : 0 < s.num_free
  pub small : s.num_objs < 2 ^ 32
  pub bounded : s.num_free ≤ s.num_objs

pub record HasNone (s : Slab) : Type 0 where
  pub none_free : s.num_free ≡ 0
  pub none_listed : s.free_list ≡ []
  pub small : s.num_objs < 2 ^ 32
  pub some_objs : 0 < s.num_objs

abbrev pub All : (Slab → Type 0) → List Slab → Type 0
All P [] = Unit
All P (s ∷ ss) = P s × All P ss

pub record IsPool (c : SlabCache) : Type 0 where
  pub partial : All HasFree c.slabs_partial
  pub full : All HasNone c.slabs_full
  pub empty : All HasFree c.slabs_empty
  pub ready : c.initialized ≡ true
  pub some_objs : 0 < c.num_objs
  pub small : c.num_objs < 2 ^ 32
  pub room : 8 ≤ c.obj_size

length-build_free : (obj_size obj n : ℕ) → length (build_free obj_size obj n) ≡ n
unfolding build_free
length-build_free obj_size obj zero = refl
length-build_free obj_size obj (suc n) =
    omega (arith, length-build_free obj_size (obj + obj_size) n)

-- What a call of slab_alloc that answers an object leaves.
pub record Takes (before : List ℕ) (r : SlabCache × ℕ) : Type 0 where
  pub pool : IsPool r.0
  pub taken : before ≡ r.1 ∷ free_objects r.0

take_object-Takes :
    (slab : Slab) (others : List Slab) (c : SlabCache)
    → HasFree slab
    → IsPool (record c { slabs_partial = others })
    → Takes
        (slab.free_list ++ (free_of others ++ free_of c.slabs_empty))
        (take_object slab others c)
unfolding take_object
take_object-Takes slab others c h v = go slab.free_list refl
  where
    go :
        (objs : List ℕ)
        → slab.free_list ≡ objs
        → Takes
            (slab.free_list ++ (free_of others ++ free_of c.slabs_empty))
            (take_object slab others c)
    go [] e = absurd (omega (arith, h.counted, h.some_free, ap length e))
    go (x ∷ []) e =
        let one : slab.num_free ≡ 1 = h.counted ∙ ap length e in
        let last : dec slab.num_free ≡ 0 = omega (arith, one) in
        rw (last, e)
          (record {
            pool = record {
              partial = v.partial;
              full = (
                record {
                  none_free = refl;
                  none_listed = refl;
                  small = h.small;
                  some_objs = omega (arith, one, h.bounded);
                },
                v.full,
              );
              empty = v.empty;
              ready = v.ready;
              some_objs = v.some_objs;
              small = v.small;
              room = v.room;
            };
            taken = refl;
          })
    go (x ∷ y ∷ objs) e =
        let more : slab.num_free ≡ length objs + 2 = h.counted ∙ ap length e ∙ omega arith in
        let fewer : dec slab.num_free ≡ length objs + 1 = omega (arith, more, h.bounded, h.small) in
        let not_last : (length objs + 1 == 0) ≡ false = ground arith in
        rw (fewer, e, not_last)
          (record {
            pool = record {
              partial = (
                record {
                  counted = omega arith;
                  some_free = omega arith;
                  small = h.small;
                  bounded = omega (arith, more, h.bounded);
                },
                v.partial,
              );
              full = v.full;
              empty = v.empty;
              ready = v.ready;
              some_objs = v.some_objs;
              small = v.small;
              room = v.room;
            };
            taken =
                ap (λ l. x ∷ y ∷ l)
                  (sym (append_assoc objs (free_of others) (free_of c.slabs_empty)));
          })

-- The objects that a call of slab_alloc has to hand out: those of a new slab where none is free.
abbrev pub or_else : List ℕ → List ℕ → List ℕ
or_else [] new = new
or_else (x ∷ xs) new = x ∷ xs

-- The objects of a new slab, none where the page or the slab_t is missing.
abbrev pub new_objects : ℕ → ℕ → SlabCache → List ℕ
new_objects page node c =
    if (page == 0) || (node == 0) then [] else build_free c.obj_size (page + 48) c.num_objs

abbrev pub supply : ℕ → ℕ → SlabCache → List ℕ
supply page node c = or_else (free_objects c) (new_objects page node c)

-- The result of handing out the first of the objects.
abbrev pub HandsOut : List ℕ → SlabCache × ℕ → Type 0
HandsOut [] r = (r.1 ≡ 0) × (free_objects r.0 ≡ []) × IsPool r.0
HandsOut (x ∷ xs) r = (r.1 ≡ x) × (free_objects r.0 ≡ xs) × IsPool r.0

Takes-HandsOut : (l new : List ℕ) (r : SlabCache × ℕ) → Takes l r → HandsOut (or_else l new) r
Takes-HandsOut l new r t =
    subst (λ l'. HandsOut (or_else l' new) r) (sym t.taken) (refl, refl, t.pool)

Takes-new : (l : List ℕ) (r : SlabCache × ℕ) → Takes l r → HandsOut l r
Takes-new l r t = subst (λ l'. HandsOut l' r) (sym t.taken) (refl, refl, t.pool)

Takes-or_else :
    (l new : List ℕ) (r : SlabCache × ℕ) (l' : List ℕ)
    → l ≡ l'
    → Takes l r
    → HandsOut (or_else l' new) r
Takes-or_else l new r l' e t = subst (λ k. HandsOut (or_else k new) r) e (Takes-HandsOut l new r t)

alloc_from-HandsOut :
    (ps es : List Slab) (page node : ℕ) (c : SlabCache)
    → IsPool (record c { slabs_partial = ps; slabs_empty = es })
    → c.slabs_partial ≡ ps
    → c.slabs_empty ≡ es
    → HandsOut
        (supply page node (record c { slabs_partial = ps; slabs_empty = es }))
        (alloc_from ps es page node c)
unfolding slab_create
alloc_from-HandsOut (s ∷ ps) es page node c v p e =
    Takes-or_else (s.free_list ++ (free_of ps ++ free_of c.slabs_empty)) _ (take_object s ps c)
      ((s.free_list ++ free_of ps) ++ free_of es)
      (rw e (sym (append_assoc s.free_list (free_of ps) (free_of es))))
      (take_object-Takes s ps c v.partial.0 (record {
        partial = v.partial.1;
        full = v.full;
        empty = rw e v.empty;
        ready = v.ready;
        some_objs = v.some_objs;
        small = v.small;
        room = v.room;
      }))
alloc_from-HandsOut [] (s ∷ es) page node c v p e =
    Takes-HandsOut (s.free_list ++ free_of es) _ (retry s (record c { slabs_empty = es })) (
      take_object-Takes s [] (record c { slabs_empty = es; cache_hits = inc c.cache_hits })
        v.empty.0
        (record {
          partial = tt;
          full = v.full;
          empty = v.empty.1;
          ready = v.ready;
          some_objs = v.some_objs;
          small = v.small;
          room = v.room;
        }))
alloc_from-HandsOut [] [] page node c v p e = elim (Bool-cases ((page == 0) || (node == 0))) [
  | inl failed ↦ rw failed (
    refl,
    rw (p, e) refl,
    record {
      partial = rw p tt;
      full = v.full;
      empty = rw e tt;
      ready = v.ready;
      some_objs = v.some_objs;
      small = v.small;
      room = v.room;
    },
  )
  | inr given ↦ rw given (
      Takes-new (build_free c.obj_size (page + 48) c.num_objs) _ (
        subst (λ l. Takes l (retry (new_slab page c) (new_count c)))
          (append-nil (build_free c.obj_size (page + 48) c.num_objs))
          (subst
            (λ l.
              Takes (build_free c.obj_size (page + 48) c.num_objs ++ l)
                (retry (new_slab page c) (new_count c)))
            (ap free_of e)
            (take_object-Takes (new_slab page c) []
              (record (new_count c) { cache_hits = inc c.cache_hits })
              (record {
                counted = sym (length-build_free c.obj_size (page + 48) c.num_objs);
                some_free = v.some_objs;
                small = v.small;
                bounded = omega arith;
              })
              (record {
                partial = tt;
                full = v.full;
                empty = rw e tt;
                ready = v.ready;
                some_objs = v.some_objs;
                small = v.small;
                room = v.room;
              })))))
]

-- On a cache that is a pool, its objects of 8 bytes or more, slab_alloc answers the first of its free
-- objects and keeps the others. Where it has none, it answers the first object of a slab on a new
-- page, whose others become free, or NULL, with the pool as it was, where there is no page or no
-- memory for the slab. The cache stays a pool.
pub slab_alloc_lem :
    (page node : ℕ) (c : SlabCache)
    → IsPool c
    → HandsOut (supply page node c) (slab_alloc page node c)
unfolding slab_alloc
slab_alloc_lem page node c v =
    subst
      (λ b.
        HandsOut (supply page node c)
          (if not b then (c, 0) else alloc_from c.slabs_partial c.slabs_empty page node c))
      (sym v.ready) (alloc_from-HandsOut c.slabs_partial c.slabs_empty page node c v refl refl)
