-- ===== src/Memory/Slab/Count.antt =====
-- How often an object stands in the free lists, and the slab that owns an object.
use feather_os.Prelude.{
  ℕ, ◌+◌, ◌≡◌, refl, ap, inl, inr, Bool, true, false, ◌||◌, Option, none, some, List, [], ◌∷◌, ◌++◌,
  arith, ◌==◌, if◌then◌else◌, Bool-cases,
}
use feather_os.Memory.Slab.{Slab, SlabCache, owns, Place, find_owner, behind_one}
use feather_os.Memory.Slab.Pool.{free_of, free_objects, All}

abbrev pub one_if : Bool → ℕ
one_if b = if b then 1 else 0

-- How often an object stands in a list.
abbrev pub occurs : ℕ → List ℕ → ℕ
occurs x [] = 0
occurs x (y ∷ ys) = one_if (x == y) + occurs x ys

pub occurs-append : (x : ℕ) (xs ys : List ℕ) → occurs x (xs ++ ys) ≡ occurs x xs + occurs x ys
occurs-append x [] ys = omega arith
occurs-append x (y ∷ xs) ys = omega (arith, occurs-append x xs ys)

-- The same over the free lists of slabs.
abbrev pub occurs_in : ℕ → List Slab → ℕ
occurs_in x ss = occurs x (free_of ss)

pub occurs_in-cons :
    (x : ℕ) (s : Slab) (ss : List Slab)
    → occurs_in x (s ∷ ss) ≡ occurs x s.free_list + occurs_in x ss
occurs_in-cons x s ss = occurs-append x s.free_list (free_of ss)

pub occurs_in-append :
    (x : ℕ) (ss ts : List Slab) → occurs_in x (ss ++ ts) ≡ occurs_in x ss + occurs_in x ts
occurs_in-append x [] ts = omega arith
occurs_in-append x (s ∷ ss) ts =
    omega (arith, occurs_in-cons x s (ss ++ ts), occurs_in-cons x s ss, occurs_in-append x ss ts)

pub occurs-objects :
    (x : ℕ) (c : SlabCache)
    → occurs x (free_objects c) ≡ occurs_in x c.slabs_partial + occurs_in x c.slabs_empty
occurs-objects x c = occurs-append x (free_of c.slabs_partial) (free_of c.slabs_empty)

pub All-append : (P : Slab → Type 0) (ss ts : List Slab) → All P ss → All P ts → All P (ss ++ ts)
All-append P [] ts a b = b
All-append P (s ∷ ss) ts (here, a) b = (here, All-append P ss ts a b)

pub All-split : (P : Slab → Type 0) (ss ts : List Slab) → All P (ss ++ ts) → All P ss × All P ts
All-split P [] ts a = (tt, a)
All-split P (s ∷ ss) ts (here, a) = let (l, r) = All-split P ss ts a in ((here, l), r)

abbrev pub has_owner : SlabCache → ℕ → List Slab → Bool
has_owner c obj [] = false
has_owner c obj (s ∷ ss) = owns c obj s || has_owner c obj ss

-- What find_owner answers.
abbrev pub Splits : SlabCache → ℕ → List Slab → Option Place → Type 0
Splits c obj ss none = has_owner c obj ss ≡ false
Splits c obj ss (some p) = (ss ≡ p.before ++ (p.slab ∷ p.behind)) × (has_owner c obj ss ≡ true)

Splits-behind :
    (c : SlabCache) (obj : ℕ) (s : Slab) (ss : List Slab) (o : Option Place)
    → owns c obj s ≡ false
    → Splits c obj ss o
    → Splits c obj (s ∷ ss) (behind_one s o)
Splits-behind c obj s ss none miss none_there = ground (arith, miss, none_there)
Splits-behind c obj s ss (some p) miss (e, there) = (ap (λ l. s ∷ l) e, ground (arith, there))

pub find_owner-Splits :
    (c : SlabCache) (obj : ℕ) (ss : List Slab) → Splits c obj ss (find_owner c obj ss)
unfolding find_owner
find_owner-Splits c obj [] = refl
find_owner-Splits c obj (s ∷ ss) = elim (Bool-cases (owns c obj s)) [
  | inl here ↦ rw here (refl, ground (arith, here))
  | inr miss ↦
      rw miss (Splits-behind c obj s ss (find_owner c obj ss) miss (find_owner-Splits c obj ss))
]

abbrev pub is_owned : ℕ → SlabCache → Bool
is_owned obj c = has_owner c obj c.slabs_full || has_owner c obj c.slabs_partial
