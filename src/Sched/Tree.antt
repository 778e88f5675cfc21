-- ===== src/Sched/Tree.antt =====
-- Search trees of tasks, and what it means that the links of the tasks make one.
use feather_os.Prelude.{ℕ, ◌<◌, ◌≡◌, refl, sym, ◌∙◌, ◌≢◌, List, [], ◌∷◌, ◌++◌}
use mathlib.Core.List.{append-nil, append_assoc}
use feather_os.Sched.{Task}

pub data TaskTree : Type 0 where
  empty : TaskTree
  fork : TaskTree → ℕ → TaskTree → TaskTree

-- A task above the one looked at, with its other subtree.
pub data Branch : Type 0 where
  left_below : ℕ → TaskTree → Branch
  right_below : TaskTree → ℕ → Branch

abbrev pub whole : TaskTree → List Branch → TaskTree
whole t [] = t
whole t (left_below i r ∷ fs) = whole (fork t i r) fs
whole t (right_below l i ∷ fs) = whole (fork l i t) fs

-- The tasks from left to right.
abbrev pub members : TaskTree → List ℕ
members empty = []
members (fork l i r) = members l ++ (i ∷ members r)

abbrev pub members_before : List Branch → List ℕ
members_before [] = []
members_before (left_below i r ∷ fs) = members_before fs
members_before (right_below l i ∷ fs) = members_before fs ++ (members l ++ (i ∷ []))

abbrev pub members_behind : List Branch → List ℕ
members_behind [] = []
members_behind (left_below i r ∷ fs) = i ∷ (members r ++ members_behind fs)
members_behind (right_below l i ∷ fs) = members_behind fs

pub members-whole :
    (t : TaskTree) (fs : List Branch)
    → members (whole t fs) ≡ members_before fs ++ (members t ++ members_behind fs)
members-whole t [] = sym (append-nil (members t))
members-whole t (left_below i r ∷ fs) = members-whole (fork t i r) fs ∙ simp append_assoc
members-whole t (right_below l i ∷ fs) = members-whole (fork l i t) fs ∙ simp append_assoc

-- `p` leads to a tree of tasks below `parent`.
abbrev pub Links : (ℕ → Task) → ℕ → ℕ → TaskTree → Type 0
Links tasks p parent empty = p ≡ 0
Links tasks p parent (fork l i r) =
    (p ≡ i)
    × (0 < i)
    × ((tasks i).parent ≡ parent)
    × Links tasks (tasks i).left i l
    × Links tasks (tasks i).right i r

-- The links above a subtree that `p` leads to from below `parent`.
abbrev pub LinksAbove : (ℕ → Task) → ℕ → List Branch → ℕ → ℕ → Type 0
LinksAbove tasks root [] p parent = (root ≡ p) × (parent ≡ 0)
LinksAbove tasks root (left_below i r ∷ fs) p parent =
    (parent ≡ i)
    × (0 < i)
    × ((tasks i).left ≡ p)
    × Links tasks (tasks i).right i r
    × LinksAbove tasks root fs i (tasks i).parent
LinksAbove tasks root (right_below l i ∷ fs) p parent =
    (parent ≡ i)
    × (0 < i)
    × ((tasks i).right ≡ p)
    × Links tasks (tasks i).left i l
    × LinksAbove tasks root fs i (tasks i).parent

pub Links-whole :
    (tasks : ℕ → Task) (root : ℕ) (t : TaskTree) (fs : List Branch) (p parent : ℕ)
    → Links tasks p parent t
    → LinksAbove tasks root fs p parent
    → Links tasks root 0 (whole t fs)
Links-whole tasks root t [] p parent l (e, top) = rw (e, sym top) l
Links-whole tasks root t (left_below i r ∷ fs) p parent l (e, some_i, e', other, above) =
    Links-whole tasks root (fork t i r) fs i (tasks i).parent
      (refl, some_i, refl, rw (e', sym e) l, other) above
Links-whole tasks root t (right_below k i ∷ fs) p parent l (e, some_i, e', other, above) =
    Links-whole tasks root (fork k i t) fs i (tasks i).parent
      (refl, some_i, refl, other, rw (e', sym e) l) above

-- `i` is none of the list.
abbrev pub NotIn : ℕ → List ℕ → Type 0
NotIn i [] = Unit
NotIn i (x ∷ xs) = (x ≢ i) × NotIn i xs

abbrev pub NoDup : List ℕ → Type 0
NoDup [] = Unit
NoDup (x ∷ xs) = NotIn x xs × NoDup xs

pub NotIn-append : (i : ℕ) (xs ys : List ℕ) → NotIn i xs → NotIn i ys → NotIn i (xs ++ ys)
NotIn-append i [] ys n m = m
NotIn-append i (x ∷ xs) ys (h, n) m = (h, NotIn-append i xs ys n m)

pub NotIn-split : (i : ℕ) (xs ys : List ℕ) → NotIn i (xs ++ ys) → NotIn i xs × NotIn i ys
NotIn-split i [] ys n = (tt, n)
NotIn-split i (x ∷ xs) ys (h, n) = let (in_xs, in_ys) = NotIn-split i xs ys n in ((h, in_xs), in_ys)

-- A member of a list without repetitions is neither before nor behind itself.
pub NoDup-around : (i : ℕ) (xs ys : List ℕ) → NoDup (xs ++ (i ∷ ys)) → NotIn i xs × NotIn i ys
NoDup-around i [] ys (n, d) = (tt, n)
NoDup-around i (x ∷ xs) ys (n, d) =
    let (in_xs, in_ys) = NoDup-around i xs ys d in
    let (in_front, (other, behind)) = NotIn-split x xs (i ∷ ys) n in
    ((λ e. other (sym e), in_xs), in_ys)

pub NoDup-insert :
    (i : ℕ) (xs ys : List ℕ) → NoDup (xs ++ ys) → NotIn i (xs ++ ys) → NoDup (xs ++ (i ∷ ys))
NoDup-insert i [] ys d n = (n, d)
NoDup-insert i (x ∷ xs) ys (m, d) (other, n) =
    let (in_front, behind) = NotIn-split x xs ys m in
    (NotIn-append x xs (i ∷ ys) in_front (λ e. other (sym e), behind), NoDup-insert i xs ys d n)

-- A part of the list left out.
pub NoDup-drop : (xs ms ys : List ℕ) → NoDup (xs ++ (ms ++ ys)) → NoDup (xs ++ ys)
NoDup-drop [] [] ys d = d
NoDup-drop [] (m ∷ ms) ys (n, d) = NoDup-drop [] ms ys d
NoDup-drop (x ∷ xs) ms ys (n, d) =
    let (in_xs, later) = NotIn-split x xs (ms ++ ys) n in
    let (in_ms, in_ys) = NotIn-split x ms ys later in
    (NotIn-append x xs ys in_xs in_ys, NoDup-drop xs ms ys d)
