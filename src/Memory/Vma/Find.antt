-- ===== src/Memory/Vma/Find.antt =====
-- Looking up an address in the tree of areas.
use feather_os.Prelude.{
  ℕ, ◌≤◌, ◌<◌, ◌≡◌, refl, sym, ◌∙◌, inl, inr, false, Option, none, some, List, [], ◌∷◌, ◌++◌, arith,
  ltb, if◌then◌else◌, ltb→lt, Bool-cases,
}
use feather_os.Memory.Vma.{Vma, RbTree, leaf, node, contains, find_area_from, vma_rb_find}
use feather_os.Memory.Vma.Listing.{areas}

-- The first area of a list that contains the address.
abbrev pub first_containing : ℕ → List Vma → Option Vma
first_containing addr [] = none
first_containing addr (v ∷ vs) =
    let later = first_containing addr vs in if contains v addr then some v else later

-- No area of the list begins before `m`.
abbrev pub AllFrom : ℕ → List Vma → Type 0
AllFrom m [] = Unit
AllFrom m (w ∷ ws) = (m ≤ w.start) × AllFrom m ws

-- The areas are not empty, and each ends before the later ones begin.
abbrev pub IsApart : List Vma → Type 0
IsApart [] = Unit
IsApart (v ∷ vs) = (v.start < v.end) × AllFrom v.end vs × IsApart vs

abbrev pub or_found : Option Vma → Option Vma → Option Vma
or_found (some v) found = some v
or_found none found = found

abbrev AllUpTo : ℕ → List Vma → Type 0
AllUpTo m [] = Unit
AllUpTo m (w ∷ ws) = (w.end ≤ m) × AllUpTo m ws

pub AllFrom-split :
    (k : ℕ) (w : Vma) (xs ys : List Vma) → AllFrom k (xs ++ (w ∷ ys)) → AllFrom k xs × (k ≤ w.start)
AllFrom-split k w [] ys (h, a) = (tt, h)
AllFrom-split k w (x ∷ xs) ys (h, a) =
    let (xs_from, lower) = AllFrom-split k w xs ys a in ((h, xs_from), lower)

IsApart-split :
    (w : Vma) (xs ys : List Vma)
    → IsApart (xs ++ (w ∷ ys))
    → AllUpTo w.start xs × IsApart xs × (w.start < w.end) × AllFrom w.end ys × IsApart ys
IsApart-split w [] ys (p, a, s) = (tt, tt, p, a, s)
IsApart-split w (x ∷ xs) ys (p, a, s) =
    let (up_to, xs_apart, some_room, from, ys_apart) = IsApart-split w xs ys s in
    let (xs_from, lower) = AllFrom-split x.end w xs ys a in
    ((lower, up_to), (p, xs_from, xs_apart), some_room, from, ys_apart)

-- An address outside an area.
outside_below : (v : Vma) (addr : ℕ) → addr < v.start → contains v addr ≡ false
outside_below v addr h = ground arith

outside_above : (v : Vma) (addr : ℕ) → v.end ≤ addr → contains v addr ≡ false
outside_above v addr h = ground arith

nothing_from :
    (addr m : ℕ) (ws : List Vma) → addr < m → AllFrom m ws → first_containing addr ws ≡ none
nothing_from addr m [] h a = refl
nothing_from addr m (w ∷ ws) h (wa, a) =
    rw (outside_below w addr (omega arith)) (nothing_from addr m ws h a)

nothing_up_to :
    (addr m : ℕ) (ws : List Vma) → m ≤ addr → AllUpTo m ws → first_containing addr ws ≡ none
nothing_up_to addr m [] h a = refl
nothing_up_to addr m (w ∷ ws) h (wa, a) =
    rw (outside_above w addr (omega arith)) (nothing_up_to addr m ws h a)

first_containing-append :
    (addr : ℕ) (xs ys : List Vma)
    → first_containing addr (xs ++ ys)
      ≡ or_found (first_containing addr xs) (first_containing addr ys)
first_containing-append addr [] ys = refl
first_containing-append addr (x ∷ xs) ys = elim (Bool-cases (contains x addr)) [
  | inl hit ↦ rw hit refl
  | inr miss ↦ rw miss (first_containing-append addr xs ys)
]

or_found_assoc : (x y z : Option Vma) → or_found (or_found x y) z ≡ or_found x (or_found y z)
or_found_assoc (some v) y z = refl
or_found_assoc none y z = refl

or_found-none : (x : Option Vma) → or_found x none ≡ x
or_found-none (some v) = refl
or_found-none none = refl

not_below : (v : Vma) (addr : ℕ) → contains v addr ≡ false → ltb addr v.start ≡ false → v.end ≤ addr
not_below v addr miss e = ground arith

find_area_from-areas :
    (t : RbTree) (addr : ℕ) (found : Option Vma)
    → IsApart (areas t)
    → find_area_from t addr found ≡ or_found (first_containing addr (areas t)) found
unfolding find_area_from
find_area_from-areas leaf addr found s = refl
find_area_from-areas (node c l v r) addr found s =
    let (up_to, l_apart, some_room, from, r_apart) = IsApart-split v (areas l) (areas r) s in
    elim (Bool-cases (contains v addr)) [
      | inl hit ↦
          rw (hit, first_containing-append addr (areas l) (v ∷ areas r), hit)
            (find_area_from-areas l addr (some v) l_apart
              ∙ sym (or_found_assoc (first_containing addr (areas l)) (some v) found))
      | inr miss ↦ elim (Bool-cases (ltb addr v.start)) [
        | inl lower ↦
            let in_front : addr < v.start = ltb→lt addr v.start lower in
            let below : addr < v.end = omega arith in
            rw
              (
                miss,
                lower,
                first_containing-append addr (areas l) (v ∷ areas r),
                miss,
                nothing_from addr v.end (areas r) below from,
                or_found-none (first_containing addr (areas l)),
              )
              (find_area_from-areas l addr found l_apart)
        | inr e ↦
            let above : v.end ≤ addr = not_below v addr miss e in
            let reached : v.start ≤ addr = omega arith in
            rw
              (
                miss,
                e,
                first_containing-append addr (areas l) (v ∷ areas r),
                miss,
                nothing_up_to addr v.start (areas l) reached up_to,
              )
              (find_area_from-areas r addr found r_apart)
      ]
    ]

-- Where the areas are apart, vma_rb_find answers the area of the list that contains the address, and
-- NULL where none does.
pub vma_rb_find-areas :
    (t : RbTree) (addr : ℕ)
    → IsApart (areas t)
    → vma_rb_find t addr ≡ first_containing addr (areas t)
unfolding vma_rb_find
vma_rb_find-areas t addr s =
    find_area_from-areas t addr none s ∙ or_found-none (first_containing addr (areas t))
