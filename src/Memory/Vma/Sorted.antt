-- ===== src/Memory/Vma/Sorted.antt =====
-- Lists of areas sorted by start address, and insertion into them.
use feather_os.Prelude.{
  ℕ, ◌<◌, ◌≡◌, refl, sym, ap, inl, inr, true, false, Option, none, some, List, [], ◌∷◌, ◌++◌, arith,
  ltb, if◌then◌else◌, ltb→lt, lt→ltb, Bool-cases,
}
use mathlib.Core.Option
use feather_os.Memory.Vma.{Vma}

-- The place of an area in a list sorted by start address; `none` where one begins at the same address.
unfoldable pub insert_area : Vma → List Vma → Option (List Vma)
insert_area v [] = some (v ∷ [])
insert_area v (w ∷ ws) =
    let further = insert_area v ws in
    if ltb v.start w.start
    then some (v ∷ w ∷ ws)
    else if ltb w.start v.start
    then Option.map (λ vs. w ∷ vs) further
    else none

abbrev pub StartsAbove : ℕ → List Vma → Type 0
StartsAbove k [] = Unit
StartsAbove k (w ∷ ws) = (k < w.start) × StartsAbove k ws

abbrev pub StartsBelow : ℕ → List Vma → Type 0
StartsBelow k [] = Unit
StartsBelow k (w ∷ ws) = (w.start < k) × StartsBelow k ws

-- The start addresses rise.
abbrev pub IsSorted : List Vma → Type 0
IsSorted [] = Unit
IsSorted (w ∷ ws) = StartsAbove w.start ws × IsSorted ws

-- Two steps on an optional list that are one.
pub map-two :
    (f g k : List Vma → List Vma)
    → ((vs : List Vma) → k vs ≡ f (g vs))
    → (x : Option (List Vma)) → Option.map k x ≡ Option.map f (Option.map g x)
map-two f g k same none = refl
map-two f g k same (some x) = ap some (same x)

map-cons :
    (w : Vma) (ys : List Vma) (x : Option (List Vma))
    → Option.map (λ vs. w ∷ vs) (Option.map (λ vs. vs ++ ys) x)
      ≡ Option.map (λ vs. vs ++ ys) (Option.map (λ vs. w ∷ vs) x)
map-cons w ys none = refl
map-cons w ys (some x) = refl

-- An area in front of `w` finds its place in what stands before `w`.
pub insert_area-left :
    (v w : Vma) (xs ys : List Vma)
    → v.start < w.start
    → insert_area v (xs ++ (w ∷ ys)) ≡ Option.map (λ vs. vs ++ (w ∷ ys)) (insert_area v xs)
unfolding insert_area
insert_area-left v w [] ys h = rw (lt→ltb v.start w.start h) refl
insert_area-left v w (x ∷ xs) ys h = elim (Bool-cases (ltb v.start x.start)) [
  | inl lower ↦ rw lower refl
  | inr e ↦ elim (Bool-cases (ltb x.start v.start)) [
    | inl higher ↦
        rw (e, higher, insert_area-left v w xs ys h) (map-cons x (w ∷ ys) (insert_area v xs))
    | inr e' ↦ rw (e, e') refl
  ]
]

pub passed : (a b : ℕ) → a < b → (ltb b a ≡ false) × (ltb a b ≡ true)
passed a b h = ground arith

-- An area behind `xs` and `w`.
pub insert_area-right :
    (v w : Vma) (xs ys : List Vma)
    → StartsBelow w.start xs
    → w.start < v.start
    → insert_area v (xs ++ (w ∷ ys)) ≡ Option.map (λ vs. xs ++ (w ∷ vs)) (insert_area v ys)
unfolding insert_area
insert_area-right v w [] ys b h = let (e, e') = passed w.start v.start h in rw (e, e') refl
insert_area-right v w (x ∷ xs) ys (xb, b) h =
    let x_lower : x.start < v.start = omega arith in
    let (e, e') = passed x.start v.start x_lower in
    rw (e, e', insert_area-right v w xs ys b h)
      (sym (
        map-two (λ vs. x ∷ vs) (λ vs. xs ++ (w ∷ vs)) (λ vs. x ∷ (xs ++ (w ∷ vs))) (λ vs. refl)
          (insert_area v ys)))

-- An area that begins where `w` does.
pub insert_area-taken :
    (v w : Vma) (xs ys : List Vma)
    → StartsBelow w.start xs
    → w.start ≡ v.start
    → insert_area v (xs ++ (w ∷ ys)) ≡ none
unfolding insert_area
insert_area-taken v w [] ys b h = ground arith
insert_area-taken v w (x ∷ xs) ys (xb, b) h =
    let x_lower : x.start < v.start = omega arith in
    let (e, e') = passed x.start v.start x_lower in rw (e, e', insert_area-taken v w xs ys b h) refl

-- A sorted list splits at one of its areas.
pub IsSorted-split :
    (w : Vma) (xs ys : List Vma)
    → IsSorted (xs ++ (w ∷ ys))
    → StartsBelow w.start xs × IsSorted xs × StartsAbove w.start ys × IsSorted ys
IsSorted-split w [] ys (a, s) = (tt, tt, a, s)
IsSorted-split w (x ∷ xs) ys (a, s) =
    let (xs_below, xs_sorted, above, sorted) = IsSorted-split w xs ys s in
    let (x_above, x_lower) = StartsAbove-split x.start w xs ys a in
    ((x_lower, xs_below), (x_above, xs_sorted), above, sorted)
  where
    StartsAbove-split :
        (k : ℕ) (w : Vma) (xs ys : List Vma)
        → StartsAbove k (xs ++ (w ∷ ys))
        → StartsAbove k xs × (k < w.start)
    StartsAbove-split k w [] ys (h, a) = (tt, h)
    StartsAbove-split k w (x ∷ xs) ys (h, a) =
        let (xs_above, lower) = StartsAbove-split k w xs ys a in ((h, xs_above), lower)

abbrev AboveEach : ℕ → Option (List Vma) → Type 0
AboveEach k none = Unit
AboveEach k (some vs) = StartsAbove k vs

abbrev pub SortedEach : Option (List Vma) → Type 0
SortedEach none = Unit
SortedEach (some vs) = IsSorted vs

AboveEach-cons :
    (k : ℕ) (w : Vma) (x : Option (List Vma))
    → k < w.start
    → AboveEach k x
    → AboveEach k (Option.map (λ vs. w ∷ vs) x)
AboveEach-cons k w none h a = tt
AboveEach-cons k w (some vs) h a = (h, a)

SortedEach-cons :
    (w : Vma) (x : Option (List Vma))
    → AboveEach w.start x
    → SortedEach x
    → SortedEach (Option.map (λ vs. w ∷ vs) x)
SortedEach-cons w none a s = tt
SortedEach-cons w (some vs) a s = (a, s)

StartsAbove-trans : (k m : ℕ) (ws : List Vma) → k < m → StartsAbove m ws → StartsAbove k ws
StartsAbove-trans k m [] h a = tt
StartsAbove-trans k m (w ∷ ws) h (wa, a) = (omega arith, StartsAbove-trans k m ws h a)

insert_area-AboveEach :
    (k : ℕ) (v : Vma) (ws : List Vma)
    → k < v.start
    → StartsAbove k ws
    → AboveEach k (insert_area v ws)
unfolding insert_area
insert_area-AboveEach k v [] h a = (h, tt)
insert_area-AboveEach k v (w ∷ ws) h (wa, a) = elim (Bool-cases (ltb v.start w.start)) [
  | inl lower ↦ rw lower (h, (wa, a))
  | inr e ↦ elim (Bool-cases (ltb w.start v.start)) [
    | inl higher ↦
        rw (e, higher) (AboveEach-cons k w (insert_area v ws) wa (insert_area-AboveEach k v ws h a))
    | inr e' ↦ rw (e, e') tt
  ]
]

pub insert_area-SortedEach : (v : Vma) (ws : List Vma) → IsSorted ws → SortedEach (insert_area v ws)
unfolding insert_area
insert_area-SortedEach v [] s = (tt, tt)
insert_area-SortedEach v (w ∷ ws) (above, s) = elim (Bool-cases (ltb v.start w.start)) [
  | inl lower ↦
      let h = ltb→lt v.start w.start lower in
      rw lower ((h, StartsAbove-trans v.start w.start ws h above), (above, s))
  | inr e ↦ elim (Bool-cases (ltb w.start v.start)) [
    | inl higher ↦
        rw (e, higher)
          (SortedEach-cons w (insert_area v ws)
            (insert_area-AboveEach w.start v ws (ltb→lt w.start v.start higher) above)
            (insert_area-SortedEach v ws s))
    | inr e' ↦ rw (e, e') tt
  ]
]
