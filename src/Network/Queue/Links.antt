-- ===== src/Network/Queue/Links.antt =====
-- The links of a queue as a list of packets.
use feather_os.Prelude.{
  ℕ, ◌≡◌, refl, sym, ◌∙◌, ◌≢◌, true, false, List, [], ◌∷◌, ◌++◌, arith, ◌==◌, length,
}
use feather_os.Prelude.Arrays.{length-append}
use feather_os.Network.Queue.{Ends, write, append_next, append_ends, behead_prev, behead_ends}

-- The packet is none of the list.
abbrev pub IsNew : ℕ → List ℕ → Type 0
IsNew x [] = Unit
IsNew x (y ∷ ys) = (x ≢ y) × IsNew x ys

-- No packet of the first list is in the second.
abbrev pub AllNew : List ℕ → List ℕ → Type 0
AllNew [] ys = Unit
AllNew (x ∷ xs) ys = IsNew x ys × AllNew xs ys

abbrev pub first : List ℕ → ℕ
first [] = 0
first (x ∷ xs) = x

-- The last packet of the list, and `p` where it is empty.
abbrev pub last_from : ℕ → List ℕ → ℕ
last_from p [] = p
last_from p (x ∷ xs) = last_from x xs

-- Behind the packet `p` the links go through the packets of the list and end there; no packet is in
-- the list twice.
abbrev pub IsLinked : (ℕ → ℕ) → (ℕ → ℕ) → ℕ → List ℕ → Type 0
IsLinked next prev p [] = Unit
IsLinked next prev p (x ∷ xs) =
    (x ≢ 0) × (next x ≡ first xs) × (prev x ≡ p) × IsNew x xs × IsLinked next prev x xs

pub record IsQueue (next prev : ℕ → ℕ) (e : Ends) (xs : List ℕ) : Type 0 where
  pub linked : IsLinked next prev 0 xs
  pub at_head : e.head ≡ first xs
  pub at_tail : e.tail ≡ last_from 0 xs
  pub counted : e.count ≡ length xs

-- Two fields hold the same at the packets of a list.
abbrev pub Agree : (ℕ → ℕ) → (ℕ → ℕ) → List ℕ → Type 0
Agree f g [] = Unit
Agree f g (x ∷ xs) = (g x ≡ f x) × Agree f g xs

pub Agree-same : (f : ℕ → ℕ) (xs : List ℕ) → Agree f f xs
Agree-same f [] = tt
Agree-same f (x ∷ xs) = (refl, Agree-same f xs)

pub Agree-write :
    (f g : ℕ → ℕ) (y v : ℕ) (xs : List ℕ) → IsNew y xs → Agree f g xs → Agree f (write g y v) xs
Agree-write f g y v [] fresh same = tt
Agree-write f g y v (x ∷ xs) (ne, fresh) (here, same) =
    (ground (arith, ne, here), Agree-write f g y v xs fresh same)

IsLinked-frame :
    (next prev next' prev' : ℕ → ℕ) (p : ℕ) (xs : List ℕ)
    → Agree next next' xs
    → Agree prev prev' xs
    → IsLinked next prev p xs
    → IsLinked next' prev' p xs
IsLinked-frame next prev next' prev' p [] n r l = tt
IsLinked-frame next prev next' prev' p (x ∷ xs) (n, ns) (r, rs) (nz, to, from, fresh, l) =
    (nz, n ∙ to, r ∙ from, fresh, IsLinked-frame next prev next' prev' x xs ns rs l)

-- Writes to other packets keep a queue.
pub IsQueue-frame :
    (next prev next' prev' : ℕ → ℕ) (e : Ends) (xs : List ℕ)
    → Agree next next' xs
    → Agree prev prev' xs
    → IsQueue next prev e xs
    → IsQueue next' prev' e xs
IsQueue-frame next prev next' prev' e xs n r v = record {
  linked = IsLinked-frame next prev next' prev' 0 xs n r v.linked;
  at_head = v.at_head;
  at_tail = v.at_tail;
  counted = v.counted;
}

IsNew-last : (x p : ℕ) (xs : List ℕ) → x ≢ p → IsNew x xs → x ≢ last_from p xs
IsNew-last x p [] ne fresh = ne
IsNew-last x p (y ∷ ys) ne (ny, fresh) = IsNew-last x y ys ny fresh

pub IsNew-snoc : (x y : ℕ) (xs : List ℕ) → x ≢ y → IsNew x xs → IsNew x (xs ++ (y ∷ []))
IsNew-snoc x y [] ne fresh = (ne, tt)
IsNew-snoc x y (z ∷ zs) ne (nz, fresh) = (nz, IsNew-snoc x y zs ne fresh)

last-snoc : (p x : ℕ) (xs : List ℕ) → last_from p (xs ++ (x ∷ [])) ≡ x
last-snoc p x [] = refl
last-snoc p x (y ∷ ys) = last-snoc y x ys

last-nonzero :
    (next prev : ℕ → ℕ) (p y : ℕ) (ys : List ℕ) → IsLinked next prev p (y ∷ ys) → last_from y ys ≢ 0
last-nonzero next prev p y [] (nz, to, from, fresh, l) = nz
last-nonzero next prev p y (z ∷ zs) (nz, to, from, fresh, l) = last-nonzero next prev y z zs l

-- A packet behind the last one, which is `t`.
IsLinked-snoc :
    (next prev : ℕ → ℕ) (x t p y : ℕ) (ys : List ℕ)
    → x ≢ 0
    → IsNew x (y ∷ ys)
    → last_from y ys ≡ t
    → IsLinked next prev p (y ∷ ys)
    → IsLinked (write (write next x 0) t x) (write prev x t) p (y ∷ (ys ++ (x ∷ [])))
IsLinked-snoc next prev x t p y [] xz (ne, _) e (nz, to, from, fresh, l) = (
  nz,
  ground (arith, ne, e),
  ground (arith, ne, from),
  ((λ q. ne (sym q)), tt),
  (xz, ground (arith, ne, e), ground (arith, e), tt, tt),
)
IsLinked-snoc next prev x t p y (z ∷ zs) xz (ne, news) e (nz, to, from, fresh, l) =
    let other : y ≢ t = λ q. IsNew-last y z zs fresh.0 fresh.1 (q ∙ sym e) in
    (
      nz,
      ground (arith, ne, other, to),
      ground (arith, ne, from),
      IsNew-snoc y x (z ∷ zs) (λ q. ne (sym q)) fresh,
      IsLinked-snoc next prev x t y z zs xz news e l,
    )

pub enqueue-IsQueue :
    (next prev : ℕ → ℕ) (e : Ends) (x : ℕ) (xs : List ℕ)
    → x ≢ 0
    → IsNew x xs
    → IsQueue next prev e xs
    → IsQueue (append_next x e next) (write prev x e.tail) (append_ends x e) (xs ++ (x ∷ []))
enqueue-IsQueue next prev e x [] xz fresh v =
    let no_tail : (e.tail == 0) ≡ true = ground (arith, v.at_tail) in
    rw no_tail (record {
      linked = (xz, ground arith, ground (arith, v.at_tail), tt, tt);
      at_head = refl;
      at_tail = refl;
      counted = ground (arith, v.counted);
    })
enqueue-IsQueue next prev e x (y ∷ ys) xz fresh v =
    let has_tail : (e.tail == 0) ≡ false =
      ground (arith, v.at_tail, last-nonzero next prev 0 y ys v.linked) in
    rw has_tail (record {
      linked = IsLinked-snoc next prev x e.tail 0 y ys xz fresh (sym v.at_tail) v.linked;
      at_head = v.at_head;
      at_tail = sym (last-snoc y x ys);
      counted = omega (arith, v.counted, length-append ys (x ∷ []));
    })

pub dequeue-IsQueue :
    (next prev : ℕ → ℕ) (e : Ends) (x : ℕ) (xs : List ℕ)
    → IsQueue next prev e (x ∷ xs)
    → IsQueue next (behead_prev (first xs) prev) (behead_ends (first xs) e) xs
dequeue-IsQueue next prev e x [] v = record {
  linked = tt;
  at_head = refl;
  at_tail = refl;
  counted = omega (arith, v.counted);
}
dequeue-IsQueue next prev e x (y ∷ ys) v =
    let (nz, to, from, fresh, (yz, y_to, y_from, y_fresh, l)) = v.linked in
    let more : (y == 0) ≡ false = ground (arith, yz) in
    rw more (record {
      linked = (
        yz,
        y_to,
        ground arith,
        y_fresh,
        IsLinked-frame next prev next (write prev y 0) y ys (Agree-same next ys)
            (Agree-write prev prev y 0 ys y_fresh (Agree-same prev ys)) l,
      );
      at_head = refl;
      at_tail = v.at_tail;
      counted = omega (arith, v.counted);
    })
