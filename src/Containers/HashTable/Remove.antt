-- ===== src/Containers/HashTable/Remove.antt =====
-- What hash_remove takes away, and what it leaves.
use feather_os.Prelude.{
  ℕ, ◌+◌, ◌<◌, ◌≡◌, refl, sym, ap, ◌∙◌, ◌≢◌, inl, inr, true, Option, none, some, arith, ◌==◌,
  if◌then◌else◌, Bool-cases,
}
use feather_os.Prelude.Arrays.{length-set}
use feather_os.Prelude.Cyclic.{place, first_from, Answers, first_from-Answers}
use feather_os.Containers.HashTable.{HashTable, entry, home, hash_get, hash_remove}
use feather_os.Containers.HashTable.Probe.{
  slot, holds, stops_get, remove_at, bury, home-lt, hash_remove-first,
}
use feather_os.Containers.HashTable.Slots.{
  IsValid, answer, hash_get-answer, found_at, missed, slot_after,
}

-- hash_remove at the probe number `k` where its search stopped at a live entry.
module _ (t : HashTable) (key k : ℕ) (v : IsValid t) (lt : k < t.capacity)
    (used : (slot t (home t key) k).occupied ≡ true)
    (here : holds key (slot t (home t key) k) ≡ true) where
  abbrev after : HashTable
  after = bury t (place t.capacity (home t key) k)

  slot-bury :
      (other i : ℕ)
      → slot after (home t other) i ≡ (
          if place t.capacity (home t key) k == place t.capacity (home t other) i
          then record (slot t (home t key) k) { deleted = true }
          else slot t (home t other) i)
  slot-bury other i =
      slot_after t after _ (home t key) k (place t.capacity (home t other) i) v.stored
        (home-lt t key v.roomy) lt refl refl

  -- The buried slot itself, whichever key's probe meets it.
  met :
      (other i : ℕ)
      → place t.capacity (home t key) k ≡ place t.capacity (home t other) i
      → slot t (home t other) i ≡ slot t (home t key) k
  met other i e = ap (entry t) (sym e)

  occupied-bury :
      (other i : ℕ) → (slot after (home t other) i).occupied ≡ (slot t (home t other) i).occupied
  occupied-bury other i = ground (arith, slot-bury other i, met other i)

  holds-bury :
      (other i : ℕ)
      → key ≢ other
      → holds other (slot after (home t other) i) ≡ holds other (slot t (home t other) i)
  holds-bury other i ne = ground (arith, slot-bury other i, met other i)

  value-bury : (other i : ℕ) → (slot after (home t other) i).value ≡ (slot t (home t other) i).value
  value-bury other i = ground (arith, slot-bury other i, met other i)

  -- A live entry afterwards was one before.
  holds_before :
      (other i : ℕ)
      → holds other (slot after (home t other) i) ≡ true
      → holds other (slot t (home t other) i) ≡ true
  holds_before other i h = ground (arith, slot-bury other i, met other i)

  bury-IsValid : IsValid after
  bury-IsValid = record {
    roomy = v.roomy;
    stored = length-set t.entries (place t.capacity (home t key) k) _ ∙ v.stored;
    reachable = λ other j lj occ live i before.
        occupied-bury other i
        ∙ v.reachable other j lj (sym (occupied-bury other j) ∙ occ) (holds_before other j live) i
            before;
  }

  same_stops :
      (other i : ℕ)
      → key ≢ other
      → stops_get after other (home t other) i ≡ stops_get t other (home t other) i
  same_stops other i ne = rw (occupied-bury other i, holds-bury other i ne)

  answer-bury : (other : ℕ) → key ≢ other → answer after other ≡ answer t other
  answer-bury other ne =
      go (first_from (stops_get t other (home t other)) 0 t.capacity)
        (first_from-Answers (stops_get t other (home t other)) 0 t.capacity)
    where
      go :
          (r : Option ℕ)
          → Answers (stops_get t other (home t other)) 0 (0 + t.capacity) r
          → answer after other ≡ answer t other
      go none a =
          missed after other (λ i lo li. same_stops other i ne ∙ a i lo (omega arith))
          ∙ sym (missed t other (λ i lo li. a i lo (omega arith)))
      go (some m) a =
          found_at after other m (omega (arith, a.1))
            (λ i lo li. same_stops other i ne ∙ a.2 i lo li) (same_stops other m ne ∙ a.3)
          ∙ ground (arith, occupied-bury other m, value-bury other m)
          ∙ sym (found_at t other m (omega (arith, a.1)) a.2 a.3)

-- On a valid table hash_remove ends, answers what hash_get answers for its key, leaves the answer
-- for every other key as it was, and keeps the invariant.
pub hash_remove_lem :
    (t : HashTable) (key other : ℕ)
    → IsValid t
    → key ≢ other
    → (t' : HashTable) × (value : ℕ) × (hash_remove t key ≡ some (t', value))
      × (hash_get t key ≡ some value)
      × (hash_get t' other ≡ hash_get t other)
      × IsValid t'
hash_remove_lem t key other v ne =
    go (first_from (stops_get t key (home t key)) 0 t.capacity)
      (first_from-Answers (stops_get t key (home t key)) 0 t.capacity)
      (hash_remove-first t key v.roomy)
  where
    go :
        (r : Option ℕ)
        → Answers (stops_get t key (home t key)) 0 (0 + t.capacity) r
        → hash_remove t key ≡ some (remove_at t (home t key) r)
        → (t' : HashTable) × (value : ℕ) × (hash_remove t key ≡ some (t', value))
          × (hash_get t key ≡ some value)
          × (hash_get t' other ≡ hash_get t other)
          × IsValid t'
    go none a e = (
      t,
      0,
      e,
      hash_get-answer t key v.roomy ∙ ap some (missed t key (λ i lo li. a i lo (omega arith))),
      refl,
      v,
    )
    go (some k) a e =
        let lt : k < t.capacity = omega (arith, a.1) in
        let got = hash_get-answer t key v.roomy ∙ ap some (found_at t key k lt a.2 a.3) in
        elim (Bool-cases (slot t (home t key) k).occupied) [
          | inr off ↦ (t, 0, e ∙ rw off refl, got ∙ rw off refl, refl, v)
          | inl on ↦
              let here : holds key (slot t (home t key) k) ≡ true = ground (arith, a.3, on) in
              (
                after t key k v lt on here,
                (slot t (home t key) k).value,
                e ∙ rw on refl,
                got ∙ rw on refl,
                hash_get-answer _ other (bury-IsValid t key k v lt on here).roomy
                    ∙ ap some (answer-bury t key k v lt on here other ne)
                    ∙ sym (hash_get-answer t other v.roomy),
                bury-IsValid t key k v lt on here,
              )
        ]
