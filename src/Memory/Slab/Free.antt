-- ===== src/Memory/Slab/Free.antt =====
-- What slab_free gives back to the pool.
use feather_os.Prelude.{
  ℕ, ◌+◌, ◌<◌, ◌≡◌, ap, ◌≢◌, inl, inr, true, false, Option, none, some, List, ◌∷◌, ◌++◌, arith,
  ◌==◌, Bool-cases, length,
}
use feather_os.Memory.Slab.{
  Slab, SlabCache, Place, find_owner, put_back, free_partial, free_full, free_found, slab_free, inc,
}
use feather_os.Memory.Slab.Pool.{free_of, free_objects, HasFree, HasNone, IsPool}
use feather_os.Memory.Slab.Count.{
  one_if, occurs, occurs-append, occurs_in, occurs_in-cons, occurs_in-append, All-append, All-split,
  Splits, find_owner-Splits, is_owned,
}

-- An object that is given back to a partial slab was handed out: not all of the slab's are free.
abbrev pub IsOut : Option Place → Option Place → Type 0
IsOut none (some q) = q.slab.num_free < q.slab.num_objs
IsOut _ _ = Unit

-- What giving one object back does.
pub record Gives (x obj : ℕ) (c c' : SlabCache) : Type 0 where
  pub pool : IsPool c'
  pub given : occurs x (free_objects c') ≡ occurs x (free_objects c) + one_if (x == obj)

occurs_in-put_back :
    (x obj : ℕ) (s : Slab) (ss : List Slab)
    → occurs_in x (put_back obj s ∷ ss)
      ≡ one_if (x == obj) + (occurs x s.free_list + occurs_in x ss)
occurs_in-put_back x obj s ss = ap (λ k. one_if (x == obj) + k) (occurs_in-cons x s ss)

-- The slab in the middle of the list, as it was and with the object put back.
occurs_in-middle :
    (x obj : ℕ) (p : Place)
    → (occurs_in x (p.before ++ (p.slab ∷ p.behind))
        ≡ occurs_in x (p.before ++ p.behind) + occurs x p.slab.free_list)
      × (occurs_in x (p.before ++ (put_back obj p.slab ∷ p.behind))
          ≡ occurs_in x (p.before ++ p.behind) + (one_if (x == obj) + occurs x p.slab.free_list))
occurs_in-middle x obj p =
    let without = occurs_in-append x p.before p.behind in
    (
      omega (
        arith,
        occurs_in-append x p.before (p.slab ∷ p.behind),
        occurs_in-cons x p.slab p.behind,
        without,
      ),
      omega (
        arith,
        occurs_in-append x p.before (put_back obj p.slab ∷ p.behind),
        occurs_in-put_back x obj p.slab p.behind,
        without,
      ),
    )

-- The pool of two lists of slabs.
pool_given :
    (x : ℕ) (ps es ps' es' : List Slab) (n : ℕ)
    → occurs_in x ps' + occurs_in x es' ≡ occurs_in x ps + occurs_in x es + n
    → occurs x (free_of ps' ++ free_of es') ≡ occurs x (free_of ps ++ free_of es) + n
pool_given x ps es ps' es' n e = omega (
  arith,
  e,
  occurs-append x (free_of ps') (free_of es'),
  occurs-append x (free_of ps) (free_of es),
)

put_back-HasFree :
    (obj : ℕ) (s : Slab) → HasFree s → s.num_free < s.num_objs → HasFree (put_back obj s)
put_back-HasFree obj s h out = record {
  counted = omega (arith, h.counted, h.small, out);
  some_free = omega (arith, h.small, out);
  small = h.small;
  bounded = omega (arith, h.small, out);
}

put_back-HasNone : (obj : ℕ) (s : Slab) → HasNone s → HasFree (put_back obj s)
put_back-HasNone obj s h = record {
  counted = omega (arith, h.none_free, ap length h.none_listed);
  some_free = omega (arith, h.none_free);
  small = h.small;
  bounded = omega (arith, h.none_free, h.some_objs);
}

free_full-Gives :
    (x obj : ℕ) (p : Place) (c : SlabCache)
    → IsPool c
    → c.slabs_full ≡ p.before ++ (p.slab ∷ p.behind)
    → Gives x obj c (free_full obj p c)
unfolding free_full
free_full-Gives x obj p c v e =
    let (front, (here, back)) = All-split HasNone p.before (p.slab ∷ p.behind) (rw⁻¹ e v.full) in
    let first : (inc p.slab.num_free == 1) ≡ true = ground (arith, here.none_free) in
    rw first (record {
      pool = record {
        partial = (put_back-HasNone obj p.slab here, v.partial);
        full = All-append HasNone p.before p.behind front back;
        empty = v.empty;
        ready = v.ready;
        some_objs = v.some_objs;
        small = v.small;
        room = v.room;
      };
      given =
          pool_given x c.slabs_partial c.slabs_empty (put_back obj p.slab ∷ c.slabs_partial)
            c.slabs_empty (one_if (x == obj))
            (omega (
              arith,
              occurs_in-put_back x obj p.slab c.slabs_partial,
              ap (occurs x) here.none_listed,
            ));
    })

free_partial-Gives :
    (x obj : ℕ) (q : Place) (c : SlabCache)
    → IsPool c
    → q.slab.num_free < q.slab.num_objs
    → c.slabs_partial ≡ q.before ++ (q.slab ∷ q.behind)
    → Gives x obj c (free_partial obj q c)
unfolding free_partial
free_partial-Gives x obj q c v out e =
    let (front, (here, back)) = All-split HasFree q.before (q.slab ∷ q.behind) (rw⁻¹ e v.partial) in
    elim (Bool-cases (inc q.slab.num_free == q.slab.num_objs)) [
      | inl all_free ↦ rw all_free (record {
        pool = record {
          partial = All-append HasFree q.before q.behind front back;
          full = v.full;
          empty = (put_back-HasFree obj q.slab here out, v.empty);
          ready = v.ready;
          some_objs = v.some_objs;
          small = v.small;
          room = v.room;
        };
        given =
            pool_given x c.slabs_partial c.slabs_empty (q.before ++ q.behind)
              (put_back obj q.slab ∷ c.slabs_empty) (one_if (x == obj))
              (omega (
                arith,
                ap (occurs_in x) e,
                (occurs_in-middle x obj q).0,
                occurs_in-put_back x obj q.slab c.slabs_empty,
              ));
      })
      | inr some_out ↦ rw some_out (record {
        pool = record {
          partial =
              All-append HasFree q.before (put_back obj q.slab ∷ q.behind) front
                (put_back-HasFree obj q.slab here out, back);
          full = v.full;
          empty = v.empty;
          ready = v.ready;
          some_objs = v.some_objs;
          small = v.small;
          room = v.room;
        };
        given =
            pool_given x c.slabs_partial c.slabs_empty
              (q.before ++ (put_back obj q.slab ∷ q.behind)) c.slabs_empty (one_if (x == obj))
              (omega (
                arith,
                ap (occurs_in x) e,
                (occurs_in-middle x obj q).0,
                (occurs_in-middle x obj q).1,
              ));
      })
    ]

free_found-Gives :
    (x obj : ℕ) (o o' : Option Place) (c : SlabCache)
    → IsPool c
    → IsOut o o'
    → Splits c obj c.slabs_full o
    → Splits c obj c.slabs_partial o'
    → is_owned obj c ≡ true
    → Gives x obj c (free_found obj o o' c)
free_found-Gives x obj (some p) o' c v out s s' owned = free_full-Gives x obj p c v s.0
free_found-Gives x obj none (some q) c v out s s' owned = free_partial-Gives x obj q c v out s'.0
free_found-Gives x obj none none c v out s s' owned = absurd (cc (s, s', owned))

-- slab_free of an object that lies in the page of a full slab or of a partial one, of which some
-- objects are handed out, makes the object free once more and changes no other object's being free;
-- the cache stays a pool.
pub slab_free_lem :
    (x obj : ℕ) (c : SlabCache)
    → IsPool c
    → obj ≢ 0
    → is_owned obj c ≡ true
    → IsOut (find_owner c obj c.slabs_full) (find_owner c obj c.slabs_partial)
    → Gives x obj c (slab_free obj c)
unfolding slab_free
slab_free_lem x obj c v nz owned out =
    let real : (obj == 0) ≡ false = ground (arith, nz) in
    rw real (
      free_found-Gives x obj (find_owner c obj c.slabs_full) (find_owner c obj c.slabs_partial) c v
        out (find_owner-Splits c obj c.slabs_full) (find_owner-Splits c obj c.slabs_partial) owned)
