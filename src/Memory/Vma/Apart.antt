-- ===== src/Memory/Vma/Apart.antt =====
-- Insertion of an area that overlaps no other, and the look-up afterwards.
use mathlib.Core.Path.{subst}
use feather_os.Prelude.{
  ℕ, ◌≤◌, ◌<◌, ◌≡◌, refl, sym, ◌∙◌, ◌⊎◌, inl, inr, true, false, Option, none, some, List, [], ◌∷◌,
  arith, if◌then◌else◌, lt→ltb, Bool-cases,
}
use mathlib.Core.Option
use feather_os.Memory.Vma.{Vma, RbTree, contains, vma_rb_insert, vma_rb_find}
use feather_os.Memory.Vma.Listing.{areas}
use feather_os.Memory.Vma.Sorted.{insert_area, IsSorted, StartsAbove, passed}
use feather_os.Memory.Vma.Insert.{areas-vma_rb_insert}
use feather_os.Memory.Vma.Find.{first_containing, AllFrom, IsApart, vma_rb_find-areas}

-- The area has addresses, and each of the others ends before it or begins after it.
abbrev pub IsFree : Vma → List Vma → Type 0
IsFree v [] = v.start < v.end
IsFree v (w ∷ ws) = ((w.end ≤ v.start) ⊎ (v.end ≤ w.start)) × IsFree v ws

pub IsFree-room : (v : Vma) (ws : List Vma) → IsFree v ws → v.start < v.end
IsFree-room v [] f = f
IsFree-room v (w ∷ ws) (o, f) = IsFree-room v ws f

StartsAbove-from : (k m : ℕ) (ws : List Vma) → k < m → AllFrom m ws → StartsAbove k ws
StartsAbove-from k m [] h a = tt
StartsAbove-from k m (w ∷ ws) h (wa, a) = (omega arith, StartsAbove-from k m ws h a)

pub IsApart-IsSorted : (ws : List Vma) → IsApart ws → IsSorted ws
IsApart-IsSorted [] s = tt
IsApart-IsSorted (w ∷ ws) (p, a, s) = (StartsAbove-from w.start w.end ws p a, IsApart-IsSorted ws s)

AllFrom-trans : (k m : ℕ) (ws : List Vma) → k ≤ m → AllFrom m ws → AllFrom k ws
AllFrom-trans k m [] h a = tt
AllFrom-trans k m (w ∷ ws) h (wa, a) = (omega arith, AllFrom-trans k m ws h a)

-- What an insertion of a free area answers: the area was put among the others.
record Placed (v : Vma) (ws : List Vma) : Type 0 where
  placed : List Vma
  answered : insert_area v ws ≡ some placed
  apart : IsApart placed
  from_below : (k : ℕ) → k ≤ v.start → AllFrom k ws → AllFrom k placed
  looked_up :
      (addr : ℕ)
      → first_containing addr placed
        ≡ (if contains v addr then some v else first_containing addr ws)

inside_not :
    (v w : Vma) (addr : ℕ) → v.end ≤ w.start → contains v addr ≡ true → contains w addr ≡ false
inside_not v w addr h e = ground arith

looked_up-later :
    (v w : Vma) (ws vs : List Vma) (addr : ℕ)
    → w.end ≤ v.start
    → first_containing addr vs ≡ (if contains v addr then some v else first_containing addr ws)
    → first_containing addr (w ∷ vs)
      ≡ (if contains v addr then some v else first_containing addr (w ∷ ws))
looked_up-later v w ws vs addr behind_w later = elim (Bool-cases (contains w addr)) [
  | inl hit ↦ rw (hit, inside_not w v addr behind_w hit) refl
  | inr miss ↦ rw (miss, later) refl
]

insert_area-Placed : (v : Vma) (ws : List Vma) → IsApart ws → IsFree v ws → Placed v ws
unfolding insert_area
insert_area-Placed v [] s f = record {
  placed = v ∷ [];
  answered = refl;
  apart = (f, tt, tt);
  from_below = λ k h a. (h, tt);
  looked_up = λ addr. refl;
}
insert_area-Placed v (w ∷ ws) (p, a, s) (inr before_w, f) =
    let some_room = IsFree-room v ws f in
    let lower : v.start < w.start = omega arith in
    record {
      placed = v ∷ w ∷ ws;
      answered = rw (lt→ltb v.start w.start lower) refl;
      apart = (some_room, (before_w, AllFrom-trans v.end w.end ws (omega arith) a), (p, a, s));
      from_below = λ k h b. (h, b);
      looked_up = λ addr. refl;
    }
insert_area-Placed v (w ∷ ws) (p, a, s) (inl behind_w, f) =
    let rest = insert_area-Placed v ws s f in
    let higher : w.start < v.start = omega arith in
    record {
      placed = w ∷ rest.placed;
      answered = let (e, e') = passed w.start v.start higher in rw (e, e', rest.answered) refl;
      apart = (p, rest.from_below w.end behind_w a, rest.apart);
      from_below = λ k h b. (b.0, rest.from_below k h b.1);
      looked_up = λ addr. looked_up-later v w ws rest.placed addr behind_w (rest.looked_up addr);
    }

-- A tree after an insertion, and what it answers for each address.
pub record Inserted (v : Vma) (t : RbTree) : Type 0 where
  pub tree : RbTree
  pub answered : vma_rb_insert v t ≡ some tree
  pub apart : IsApart (areas tree)
  pub found :
      (addr : ℕ) → vma_rb_find tree addr ≡ (if contains v addr then some v else vma_rb_find t addr)

some-of :
    (x : Option RbTree) (vs : List Vma)
    → Option.map areas x ≡ some vs
    → (t : RbTree) × (x ≡ some t) × (areas t ≡ vs)
some-of none vs e = absurd (cc e)
some-of (some t) vs e = (t, refl, cc e)

-- An area that overlaps no other is entered, and a look-up finds it at its addresses and what it found
-- before at the others.
pub vma_rb_insert-Inserted :
    (v : Vma) (t : RbTree) → IsApart (areas t) → IsFree v (areas t) → Inserted v t
vma_rb_insert-Inserted v t s f =
    let p = insert_area-Placed v (areas t) s f in
    let e = areas-vma_rb_insert v t (IsApart-IsSorted (areas t) s) ∙ p.answered in
    let (t', e', same) = some-of (vma_rb_insert v t) p.placed e in
    let apart' = subst IsApart (sym same) p.apart in
    record {
      tree = t';
      answered = e';
      apart = apart';
      found = λ addr.
          rw (vma_rb_find-areas t' addr apart', vma_rb_find-areas t addr s, same)
            (p.looked_up addr);
    }
