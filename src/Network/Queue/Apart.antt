-- ===== src/Network/Queue/Apart.antt =====
-- Two queues whose packets are apart: what a call on one of them leaves of the other.
use feather_os.Prelude.{
  ℕ, ◌≡◌, sym, ◌≢◌, inl, inr, true, List, [], ◌∷◌, ◌++◌, arith, ◌==◌, Bool-cases,
}
use feather_os.Network.Queue.{Ends, write, append_next, append_ends, behead_prev, behead_ends}
use feather_os.Network.Queue.Links.{
  IsNew, AllNew, first, last_from, IsQueue, Agree, Agree-same, Agree-write, IsQueue-frame,
  IsNew-snoc, enqueue-IsQueue, dequeue-IsQueue,
}

pub AllNew-tail : (xs : List ℕ) (y : ℕ) (ys : List ℕ) → AllNew xs (y ∷ ys) → AllNew xs ys
AllNew-tail [] y ys a = tt
AllNew-tail (x ∷ xs) y ys ((ne, fresh), a) = (fresh, AllNew-tail xs y ys a)

AllNew-head : (xs : List ℕ) (y : ℕ) (ys : List ℕ) → AllNew xs (y ∷ ys) → IsNew y xs
AllNew-head [] y ys a = tt
AllNew-head (x ∷ xs) y ys ((ne, fresh), a) = ((λ e. ne (sym e)), AllNew-head xs y ys a)

pub AllNew-snoc_left :
    (xs ys : List ℕ) (x : ℕ) → IsNew x ys → AllNew xs ys → AllNew (xs ++ (x ∷ [])) ys
AllNew-snoc_left [] ys x fresh a = (fresh, tt)
AllNew-snoc_left (z ∷ zs) ys x fresh (here, a) = (here, AllNew-snoc_left zs ys x fresh a)

pub AllNew-snoc_right :
    (xs ys : List ℕ) (y : ℕ) → IsNew y xs → AllNew xs ys → AllNew xs (ys ++ (y ∷ []))
AllNew-snoc_right [] ys y fresh a = tt
AllNew-snoc_right (x ∷ xs) ys y (ne, fresh) (here, a) =
    (IsNew-snoc x y ys (λ e. ne (sym e)) here, AllNew-snoc_right xs ys y fresh a)

pub AllNew-sym : (xs ys : List ℕ) → AllNew xs ys → AllNew ys xs
AllNew-sym xs [] a = tt
AllNew-sym xs (y ∷ ys) a = (AllNew-head xs y ys a, AllNew-sym xs ys (AllNew-tail xs y ys a))

AllNew-last : (p : ℕ) (xs ys : List ℕ) → IsNew p ys → AllNew xs ys → IsNew (last_from p xs) ys
AllNew-last p [] ys fresh a = fresh
AllNew-last p (x ∷ xs) ys fresh (here, a) = AllNew-last x xs ys here a

-- What is written when a packet goes into one queue leaves the other alone.
append-Agree :
    (next : ℕ → ℕ) (skb : ℕ) (e : Ends) (xs ys : List ℕ)
    → e.tail ≡ last_from 0 xs
    → IsNew skb ys
    → AllNew xs ys
    → Agree next (append_next skb e next) ys
append-Agree next skb e [] ys at_tail fresh a =
    let no_tail : (e.tail == 0) ≡ true = ground (arith, at_tail) in
    rw no_tail (Agree-write next next skb 0 ys fresh (Agree-same next ys))
append-Agree next skb e (x ∷ xs) ys at_tail fresh (here, a) =
    let skb_only = Agree-write next next skb 0 ys fresh (Agree-same next ys) in
    let tail_new : IsNew e.tail ys = rw at_tail (AllNew-last x xs ys here a) in
    elim (Bool-cases (e.tail == 0)) [
      | inl empty ↦ rw empty skb_only
      | inr more ↦ rw more (Agree-write next (write next skb 0) e.tail skb ys tail_new skb_only)
    ]

behead-Agree :
    (prev : ℕ → ℕ) (xs ys : List ℕ) → AllNew xs ys → Agree prev (behead_prev (first xs) prev) ys
behead-Agree prev [] ys a = Agree-same prev ys
behead-Agree prev (x ∷ xs) ys (here, a) = elim (Bool-cases (x == 0)) [
  | inl last ↦ rw last (Agree-same prev ys)
  | inr more ↦ rw more (Agree-write prev prev x 0 ys here (Agree-same prev ys))
]

-- A packet goes into the first of two queues, and the first packet of it is taken.
module _ (next prev : ℕ → ℕ) (e e' : Ends) (ys : List ℕ) (other : IsQueue next prev e' ys) where
  pub append-IsQueue :
      (skb : ℕ) (xs : List ℕ)
      → skb ≢ 0
      → IsNew skb xs
      → IsNew skb ys
      → AllNew xs ys
      → IsQueue next prev e xs
      → IsQueue
          (append_next skb e next)
          (write prev skb e.tail)
          (append_ends skb e)
          (xs ++ (skb ∷ []))
        × IsQueue (append_next skb e next) (write prev skb e.tail) e' ys
  append-IsQueue skb xs real new_xs new_ys apart v = (
    enqueue-IsQueue next prev e skb xs real new_xs v,
    IsQueue-frame next prev (append_next skb e next) (write prev skb e.tail) e' ys
        (append-Agree next skb e xs ys v.at_tail new_ys apart)
        (Agree-write prev prev skb e.tail ys new_ys (Agree-same prev ys)) other,
  )

  pub behead-IsQueue :
      (x : ℕ) (xs : List ℕ)
      → AllNew xs ys
      → IsQueue next prev e (x ∷ xs)
      → IsQueue next (behead_prev (first xs) prev) (behead_ends (first xs) e) xs
        × IsQueue next (behead_prev (first xs) prev) e' ys
  behead-IsQueue x xs apart v = (
    dequeue-IsQueue next prev e x xs v,
    IsQueue-frame next prev next (behead_prev (first xs) prev) e' ys (Agree-same next ys)
        (behead-Agree prev xs ys apart) other,
  )
