-- ===== src/Sched/Shrink.antt =====
-- A search tree stays one when a task is taken out of it.
use feather_os.Prelude.{ℕ, ◌≡◌, sym, List, [], ◌∷◌, ◌++◌, arith}
use feather_os.Sched.{Sched}
use feather_os.Sched.Tree.{TaskTree, empty, fork, Branch, left_below, right_below, whole, members}
use feather_os.Sched.Seek.{remaining}
use feather_os.Sched.Search.{AllBelow, AllFrom, IsSearchTree, part-IsSearchTree}

-- A tree whose members are among those of another, as the bounds on vruntimes see it.
record Fewer (s : Sched) (t t' : TaskTree) : Type 0 where
  below : (k : ℕ) → AllBelow s k (members t) → AllBelow s k (members t')
  from : (k : ℕ) → AllFrom s k (members t) → AllFrom s k (members t')

AllBelow-split :
    (s : Sched) (k : ℕ) (xs ys : List ℕ)
    → AllBelow s k (xs ++ ys)
    → AllBelow s k xs × AllBelow s k ys
AllBelow-split s k [] ys a = (tt, a)
AllBelow-split s k (x ∷ xs) ys (h, a) =
    let (in_xs, in_ys) = AllBelow-split s k xs ys a in ((h, in_xs), in_ys)

AllBelow-append :
    (s : Sched) (k : ℕ) (xs ys : List ℕ)
    → AllBelow s k xs
    → AllBelow s k ys
    → AllBelow s k (xs ++ ys)
AllBelow-append s k [] ys a b = b
AllBelow-append s k (x ∷ xs) ys (h, a) b = (h, AllBelow-append s k xs ys a b)

AllFrom-split :
    (s : Sched) (k : ℕ) (xs ys : List ℕ) → AllFrom s k (xs ++ ys) → AllFrom s k xs × AllFrom s k ys
AllFrom-split s k [] ys a = (tt, a)
AllFrom-split s k (x ∷ xs) ys (h, a) =
    let (in_xs, in_ys) = AllFrom-split s k xs ys a in ((h, in_xs), in_ys)

AllFrom-append :
    (s : Sched) (k : ℕ) (xs ys : List ℕ) → AllFrom s k xs → AllFrom s k ys → AllFrom s k (xs ++ ys)
AllFrom-append s k [] ys a b = b
AllFrom-append s k (x ∷ xs) ys (h, a) b = (h, AllFrom-append s k xs ys a b)

Fewer-left :
    (s : Sched) (i : ℕ) (t t' r : TaskTree) → Fewer s t t' → Fewer s (fork t i r) (fork t' i r)
Fewer-left s i t t' r f = record {
  below = λ k a.
      let (in_t, rest) = AllBelow-split s k (members t) (i ∷ members r) a in
      AllBelow-append s k (members t') (i ∷ members r) (f.below k in_t) rest;
  from = λ k a.
      let (in_t, rest) = AllFrom-split s k (members t) (i ∷ members r) a in
      AllFrom-append s k (members t') (i ∷ members r) (f.from k in_t) rest;
}

Fewer-right :
    (s : Sched) (i : ℕ) (l t t' : TaskTree) → Fewer s t t' → Fewer s (fork l i t) (fork l i t')
Fewer-right s i l t t' f = record {
  below = λ k a.
      let (in_l, (h, in_t)) = AllBelow-split s k (members l) (i ∷ members t) a in
      AllBelow-append s k (members l) (i ∷ members t') in_l (h, f.below k in_t);
  from = λ k a.
      let (in_l, (h, in_t)) = AllFrom-split s k (members l) (i ∷ members t) a in
      AllFrom-append s k (members l) (i ∷ members t') in_l (h, f.from k in_t);
}

-- The part below the branches may be exchanged for one with fewer tasks.
whole-IsSearchTree :
    (s : Sched) (t t' : TaskTree) (fs : List Branch)
    → IsSearchTree s (whole t fs)
    → Fewer s t t'
    → IsSearchTree s t'
    → IsSearchTree s (whole t' fs)
whole-IsSearchTree s t t' [] v f v' = v'
whole-IsSearchTree s t t' (left_below i r ∷ fs) v f v' =
    let (low, high, in_t, in_r) = part-IsSearchTree s (fork t i r) fs v in
    whole-IsSearchTree s (fork t i r) (fork t' i r) fs v (Fewer-left s i t t' r f)
      (f.below _ low, high, v', in_r)
whole-IsSearchTree s t t' (right_below l i ∷ fs) v f v' =
    let (low, high, in_l, in_t) = part-IsSearchTree s (fork l i t) fs v in
    whole-IsSearchTree s (fork l i t) (fork l i t') fs v (Fewer-right s i l t t' f)
      (low, f.from _ high, in_l, v')

remaining-Fewer : (s : Sched) (task : ℕ) (l r : TaskTree) → Fewer s (fork l task r) (remaining l r)
remaining-Fewer s task empty r = record { below = λ k a. a.1; from = λ k a. a.1 }
remaining-Fewer s task (fork a j b) r = record {
  below = λ k h. (AllBelow-split s k (members (fork a j b)) (task ∷ members r) h).0;
  from = λ k h. (AllFrom-split s k (members (fork a j b)) (task ∷ members r) h).0;
}

kept-IsSearchTree :
    (s : Sched) (task : ℕ) (l r : TaskTree)
    → IsSearchTree s (fork l task r)
    → IsSearchTree s (remaining l r)
kept-IsSearchTree s task empty r v = v.3
kept-IsSearchTree s task (fork a j b) r v = v.2

AllBelow-same :
    (s s' : Sched) (k k' : ℕ) (xs : List ℕ)
    → ((j : ℕ) → (s'.tasks j).vruntime ≡ (s.tasks j).vruntime)
    → k ≡ k'
    → AllBelow s k xs
    → AllBelow s' k' xs
AllBelow-same s s' k k' [] e same a = tt
AllBelow-same s s' k k' (x ∷ xs) e same (h, a) =
    (omega (arith, h, e x, same), AllBelow-same s s' k k' xs e same a)

AllFrom-same :
    (s s' : Sched) (k k' : ℕ) (xs : List ℕ)
    → ((j : ℕ) → (s'.tasks j).vruntime ≡ (s.tasks j).vruntime)
    → k ≡ k'
    → AllFrom s k xs
    → AllFrom s' k' xs
AllFrom-same s s' k k' [] e same a = tt
AllFrom-same s s' k k' (x ∷ xs) e same (h, a) =
    (omega (arith, h, e x, same), AllFrom-same s s' k k' xs e same a)

IsSearchTree-same :
    (s s' : Sched) (t : TaskTree)
    → ((j : ℕ) → (s'.tasks j).vruntime ≡ (s.tasks j).vruntime)
    → IsSearchTree s t
    → IsSearchTree s' t
IsSearchTree-same s s' empty e v = tt
IsSearchTree-same s s' (fork l i r) e (low, high, in_l, in_r) = (
  AllBelow-same s s' _ _ (members l) e (sym (e i)) low,
  AllFrom-same s s' _ _ (members r) e (sym (e i)) high,
  IsSearchTree-same s s' l e in_l,
  IsSearchTree-same s s' r e in_r,
)

-- Where the vruntimes are the same, the tree without the task is in order again.
pub remaining-IsSearchTree :
    (s s' : Sched) (task : ℕ) (l r : TaskTree) (fs : List Branch)
    → ((j : ℕ) → (s'.tasks j).vruntime ≡ (s.tasks j).vruntime)
    → IsSearchTree s (whole (fork l task r) fs)
    → IsSearchTree s' (whole (remaining l r) fs)
remaining-IsSearchTree s s' task l r fs e v = IsSearchTree-same s s' (whole (remaining l r) fs) e (
    whole-IsSearchTree s (fork l task r) (remaining l r) fs v (remaining-Fewer s task l r)
      (kept-IsSearchTree s task l r (part-IsSearchTree s (fork l task r) fs v)))
