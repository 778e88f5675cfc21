-- ===== src/Containers/HashTable/Lookup.antt =====
-- What hash_get finds after hash_put and hash_remove.
use mathlib.Core.Path.{subst}
use native.Mathlib.Decide.{ℕ_discrete, dec_lt}
use feather_os.Prelude.{
  ℕ, ◌+◌, ◌%◌, ◌<◌, ◌≡◌, sym, ap, ◌∙◌, ◌≢◌, inl, inr, true, false, Option, none, some, arith, ◌==◌,
  if◌then◌else◌, Bool-cases,
}
use feather_os.Prelude.Cyclic.{
  place, place-injective, first_from, NoneFrom, Answers, first_from-Answers,
}
use feather_os.Containers.HashTable.{HashTable, entry, home, hash_function, hash_put, hash_get}
use feather_os.Containers.HashTable.Probe.{slot, holds, stops_get, home-lt}
use feather_os.Containers.HashTable.Slots.{
  hash_get-answer, never_used, IsReachable, IsValid, answer, found_at, missed, live, Puts,
  put_cases,
}

module _ {t t' : HashTable} {key value k : ℕ} (v : IsValid t) (p : Puts t key value k t') where
  -- The slots of any key's probes after the put.
  slot-put :
      (other i : ℕ)
      → slot t' (home t' other) i ≡ (
          if place t.capacity (home t key) k == place t.capacity (home t other) i
          then live key value
          else slot t (home t other) i)
  slot-put other i =
      ap (λ c. entry t' (place c (hash_function other c % c) i)) p.same_capacity
      ∙ p.seen (place t.capacity (home t other) i)

  put-home : (other : ℕ) → home t' other ≡ home t other
  put-home other = ap (λ c. hash_function other c % c) p.same_capacity

  apart : (i : ℕ) → i < k → place t.capacity (home t key) k ≢ place t.capacity (home t key) i
  apart i lt e =
      let same =
        place-injective t.capacity (home t key) k i (home-lt t key v.roomy) p.in_range
          (omega (arith, p.in_range)) e in
      absurd (omega arith)

  answer-put_self : answer t' key ≡ value
  answer-put_self =
      found_at t' key k (omega (arith, p.in_range, p.same_capacity))
        (λ i lo lt. ground (arith, slot-put key i, p.before i lo lt, apart i lt))
        (ground (arith, slot-put key k))
      ∙ ground (arith, slot-put key k)

  stays_occupied :
      (other i : ℕ)
      → (slot t (home t other) i).occupied ≡ true
      → (slot t' (home t' other) i).occupied ≡ true
  stays_occupied other i occ = ground (arith, slot-put other i)

  passed : (i : ℕ) → i < k → (slot t (home t key) i).occupied ≡ true
  passed i lt = ground (arith, p.before i (omega arith) lt)

  put-IsReachable : IsReachable t'
  put-IsReachable other j lt occ here i before =
      elim (ℕ_discrete (place t.capacity (home t key) k) (place t.capacity (home t other) j)) [
        | yes e ↦
            let own : key ≡ other = ground (arith, slot-put other j) in
            let e' : place t.capacity (home t key) k ≡ place t.capacity (home t key) j =
              e ∙ ap (λ x. place t.capacity (home t x) j) (sym own) in
            let last =
              place-injective t.capacity (home t key) k j (home-lt t key v.roomy) p.in_range
                (omega (arith, p.same_capacity)) e' in
            stays_occupied other i
              (subst (λ x. (slot t (home t x) i).occupied ≡ true) own (passed i (omega arith)))
        | no ne ↦ stays_occupied other i (
            v.reachable other j (omega (arith, p.same_capacity)) (ground (arith, slot-put other j))
              (ground (arith, slot-put other j)) i before)
      ]

  put-IsValid : IsValid t'
  put-IsValid = record {
    roomy = omega (arith, v.roomy, p.same_capacity);
    stored = p.same_length ∙ sym p.same_capacity;
    reachable = put-IsReachable;
  }

  -- A search for another key that passed a slot of `t` passes it in `t'`.
  still_passes :
      (other i : ℕ)
      → key ≢ other
      → stops_get t other (home t other) i ≡ false
      → stops_get t' other (home t' other) i ≡ false
  still_passes other i ne miss = ground (arith, slot-put other i)

  answer-put_missed :
      (other : ℕ)
      → key ≢ other
      → NoneFrom (stops_get t other (home t other)) 0 t.capacity
      → answer t' other ≡ answer t other
  answer-put_missed other ne all =
      missed t' other
        (λ i lo lt. still_passes other i ne (all i lo (omega (arith, p.same_capacity))))
      ∙ sym (missed t other all)

  answer-put_found :
      (other m : ℕ)
      → key ≢ other
      → m < t.capacity
      → NoneFrom (stops_get t other (home t other)) 0 m
      → stops_get t other (home t other) m ≡ true
      → place t.capacity (home t key) k ≢ place t.capacity (home t other) m
      → answer t' other ≡ answer t other
  answer-put_found other m ne lt before hit elsewhere =
      found_at t' other m (omega (arith, p.same_capacity))
        (λ i lo lti. still_passes other i ne (before i lo lti)) (ground (arith, slot-put other m))
      ∙ ground (arith, slot-put other m)
      ∙ sym (found_at t other m lt before hit)

  -- Where the put fills the empty slot at which the search used to stop, the search goes on, and
  -- by reachability finds nothing behind it.
  answer-put_filled :
      (other m : ℕ)
      → key ≢ other
      → m < t.capacity
      → NoneFrom (stops_get t other (home t other)) 0 m
      → (slot t (home t other) m).occupied ≡ false
      → answer t' other ≡ 0
  answer-put_filled other m ne lt before empty = never_used t' other nothing_behind
    where
      clash :
          (q : ℕ)
          → q < t'.capacity
          → stops_get t' other (home t' other) q ≡ true
          → (slot t' (home t' other) q).occupied ≡ true
          → ⊥
      clash q lq stop occ =
          let old : slot t' (home t' other) q ≡ slot t (home t other) q =
            ground (arith, slot-put other q) in
          let used : (slot t (home t other) q).occupied ≡ true =
            sym (ap (λ e. e.occupied) old) ∙ occ in
          let here : holds other (slot t (home t other) q) ≡ true = ground (arith, old) in
          elim (dec_lt m q) [
            | yes beyond ↦
                cc (v.reachable other q (omega (arith, p.same_capacity)) used here m beyond, empty)
            | no within ↦ elim (dec_lt q m) [
              | yes earlier ↦
                  let passed_by = before q (omega arith) earlier in ground (arith, passed_by)
              | no at ↦
                  let same : q ≡ m = omega arith in
                  cc (subst (λ x. (slot t (home t other) x).occupied ≡ true) same used, empty)
            ]
          ]

      nothing_behind :
          (q : ℕ)
          → q < t'.capacity
          → stops_get t' other (home t' other) q ≡ true
          → (slot t' (home t' other) q).occupied ≡ false
      nothing_behind q lq stop = elim (Bool-cases (slot t' (home t' other) q).occupied) [
        | inl on ↦ absurd (clash q lq stop on)
        | inr off ↦ off
      ]

  answer-put_other : (other : ℕ) → key ≢ other → answer t' other ≡ answer t other
  answer-put_other other ne =
      go (first_from (stops_get t other (home t other)) 0 t.capacity)
        (first_from-Answers (stops_get t other (home t other)) 0 t.capacity)
    where
      go :
          (r : Option ℕ)
          → Answers (stops_get t other (home t other)) 0 (0 + t.capacity) r
          → answer t' other ≡ answer t other
      go none a = answer-put_missed other ne (λ i lo lt. a i lo (omega arith))
      go (some m) a =
          elim (ℕ_discrete (place t.capacity (home t key) k) (place t.capacity (home t other) m)) [
            | no elsewhere ↦ answer-put_found other m ne (omega (arith, a.1)) a.2 a.3 elsewhere
            | yes e ↦
                let same : slot t (home t key) k ≡ slot t (home t other) m = ap (entry t) e in
                let empty : (slot t (home t other) m).occupied ≡ false =
                  ground (arith, same, p.stopped, a.3) in
                answer-put_filled other m ne (omega (arith, a.1)) a.2 empty
                ∙ ground (arith, empty)
                ∙ sym (found_at t other m (omega (arith, a.1)) a.2 a.3)
          ]

-- A successful hash_put is found: hash_get answers the value for its key.
pub hash_get-put_self :
    (key value : ℕ) {t t' : HashTable}
    → IsValid t
    → hash_put t key value ≡ some (t', true)
    → hash_get t' key ≡ some value
hash_get-put_self key value {t} {t'} v e =
    let (k, p) = put_cases t key value t' v e in
    hash_get-answer t' key (put-IsValid v p).roomy ∙ ap some (answer-put_self v p)

-- hash_put changes the answer for no other key, and keeps the invariant.
pub hash_get-put_other :
    (key value other : ℕ) {t t' : HashTable}
    → IsValid t
    → hash_put t key value ≡ some (t', true)
    → key ≢ other
    → (hash_get t' other ≡ hash_get t other) × IsValid t'
hash_get-put_other key value other {t} {t'} v e ne =
    let (k, p) = put_cases t key value t' v e in
    (
      hash_get-answer t' other (put-IsValid v p).roomy
          ∙ ap some (answer-put_other v p other ne)
          ∙ sym (hash_get-answer t other v.roomy),
      put-IsValid v p,
    )
