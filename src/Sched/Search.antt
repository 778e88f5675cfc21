-- ===== src/Sched/Search.antt =====
-- Search trees of tasks, in which the vruntime of a task leads to its place.
use mathlib.Core.Path.{subst}
use feather_os.Prelude.{
  ℕ, ◌≤◌, ◌<◌, ◌≡◌, refl, sym, ◌∙◌, ◌≢◌, ◌⊎◌, inl, inr, true, false, List, [], ◌∷◌, ◌++◌, arith,
  ◌==◌,
}
use feather_os.Sched.{Sched, goes_left}
use feather_os.Sched.Tree.{
  TaskTree, empty, fork, Branch, left_below, right_below, whole, members, NotIn, NotIn-split, NoDup,
  NoDup-around, NoDup-drop,
}
use feather_os.Sched.Seek.{remaining, remove_task, found_it}

-- The vruntimes of the tasks are below `k`, and at least `k`.
abbrev pub AllBelow : Sched → ℕ → List ℕ → Type 0
AllBelow s k [] = Unit
AllBelow s k (x ∷ xs) = ((s.tasks x).vruntime < k) × AllBelow s k xs

abbrev pub AllFrom : Sched → ℕ → List ℕ → Type 0
AllFrom s k [] = Unit
AllFrom s k (x ∷ xs) = (k ≤ (s.tasks x).vruntime) × AllFrom s k xs

-- On the left of every task are those with a lower vruntime, on its right the others.
abbrev pub IsSearchTree : Sched → TaskTree → Type 0
IsSearchTree s empty = Unit
IsSearchTree s (fork l i r) =
    AllBelow s (s.tasks i).vruntime (members l)
    × AllFrom s (s.tasks i).vruntime (members r)
    × IsSearchTree s l
    × IsSearchTree s r

abbrev IsIn : ℕ → List ℕ → Type 0
IsIn task [] = ⊥
IsIn task (x ∷ xs) = (x ≡ task) ⊎ IsIn task xs

IsIn-left : (task : ℕ) (xs ys : List ℕ) → IsIn task xs → IsIn task (xs ++ ys)
IsIn-left task [] ys h = absurd h
IsIn-left task (x ∷ xs) ys (inl e) = inl e
IsIn-left task (x ∷ xs) ys (inr h) = inr (IsIn-left task xs ys h)

IsIn-right : (task : ℕ) (xs ys : List ℕ) → IsIn task ys → IsIn task (xs ++ ys)
IsIn-right task [] ys h = h
IsIn-right task (x ∷ xs) ys h = inr (IsIn-right task xs ys h)

AllBelow-IsIn :
    (s : Sched) (k task : ℕ) (xs : List ℕ)
    → AllBelow s k xs
    → IsIn task xs
    → (s.tasks task).vruntime < k
AllBelow-IsIn s k task [] a h = absurd h
AllBelow-IsIn s k task (x ∷ xs) (lt, a) (inl e) = subst (λ j. (s.tasks j).vruntime < k) e lt
AllBelow-IsIn s k task (x ∷ xs) (lt, a) (inr h) = AllBelow-IsIn s k task xs a h

AllFrom-IsIn :
    (s : Sched) (k task : ℕ) (xs : List ℕ)
    → AllFrom s k xs
    → IsIn task xs
    → k ≤ (s.tasks task).vruntime
AllFrom-IsIn s k task [] a h = absurd h
AllFrom-IsIn s k task (x ∷ xs) (le, a) (inl e) = subst (λ j. k ≤ (s.tasks j).vruntime) e le
AllFrom-IsIn s k task (x ∷ xs) (le, a) (inr h) = AllFrom-IsIn s k task xs a h

NotIn-apart : (i task : ℕ) (xs : List ℕ) → NotIn i xs → IsIn task xs → i ≢ task
NotIn-apart i task [] n h = absurd h
NotIn-apart i task (x ∷ xs) (other, n) (inl e) = λ same. other (e ∙ sym same)
NotIn-apart i task (x ∷ xs) (other, n) (inr h) = NotIn-apart i task xs n h

-- What holds of the whole tree holds of the part below the branches.
pub part-IsSearchTree :
    (s : Sched) (t : TaskTree) (fs : List Branch) → IsSearchTree s (whole t fs) → IsSearchTree s t
part-IsSearchTree s t [] v = v
part-IsSearchTree s t (left_below i r ∷ fs) v = (part-IsSearchTree s (fork t i r) fs v).2
part-IsSearchTree s t (right_below l i ∷ fs) v = (part-IsSearchTree s (fork l i t) fs v).3

NoDup-front : (xs ys : List ℕ) → NoDup (xs ++ ys) → NoDup xs
NoDup-front [] ys d = tt
NoDup-front (x ∷ xs) ys (n, d) = ((NotIn-split x xs ys n).0, NoDup-front xs ys d)

part-NoDup : (t : TaskTree) (fs : List Branch) → NoDup (members (whole t fs)) → NoDup (members t)
part-NoDup t [] d = d
part-NoDup t (left_below i r ∷ fs) d =
    NoDup-front (members t) (i ∷ members r) (part-NoDup (fork t i r) fs d)
part-NoDup t (right_below l i ∷ fs) d =
    NoDup-drop [] (i ∷ []) (members t)
      (NoDup-drop [] (members l) (i ∷ members t) (part-NoDup (fork l i t) fs d))

-- In a search tree the vruntime of a task leads to it.
pub remove_task-whole :
    (s : Sched) (task : ℕ) (t : TaskTree) (fs : List Branch)
    → IsSearchTree s (whole t fs)
    → NoDup (members (whole t fs))
    → IsIn task (members t)
    → remove_task s task (whole t fs) ≡ whole (remove_task s task t) fs
remove_task-whole s task t [] v d here = refl
remove_task-whole s task t (left_below i r ∷ fs) v d here =
    let lower = AllBelow-IsIn s _ task (members t) (part-IsSearchTree s (fork t i r) fs v).0 here in
    let around = NoDup-around i (members t) (members r) (part-NoDup (fork t i r) fs d) in
    let other = NotIn-apart i task (members t) around.0 here in
    let missed : (i == task) ≡ false = ground (arith, other) in
    let left : goes_left s task i ≡ true = ground (arith, lower) in
    remove_task-whole s task (fork t i r) fs v d (IsIn-left task (members t) (i ∷ members r) here)
    ∙ rw (missed, left) refl
remove_task-whole s task t (right_below l i ∷ fs) v d here =
    let higher = AllFrom-IsIn s _ task (members t) (part-IsSearchTree s (fork l i t) fs v).1 here in
    let around = NoDup-around i (members l) (members t) (part-NoDup (fork l i t) fs d) in
    let other = NotIn-apart i task (members t) around.1 here in
    let missed : (i == task) ≡ false = ground (arith, other) in
    let right : goes_left s task i ≡ false = ground (arith, higher) in
    remove_task-whole s task (fork l i t) fs v d
      (IsIn-right task (members l) (i ∷ members t) (inr here))
    ∙ rw (missed, right) refl

-- A task in its place is taken out there.
pub remove_task-placed :
    (s : Sched) (task : ℕ) (l r : TaskTree) (fs : List Branch)
    → IsSearchTree s (whole (fork l task r) fs)
    → NoDup (members (whole (fork l task r) fs))
    → remove_task s task (whole (fork l task r) fs) ≡ whole (remaining l r) fs
remove_task-placed s task l r fs v d =
    remove_task-whole s task (fork l task r) fs v d
      (IsIn-right task (members l) (task ∷ members r) (inl refl))
    ∙ rw (found_it task) refl
