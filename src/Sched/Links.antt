-- ===== src/Sched/Links.antt =====
-- Changes of a task and what they leave of the links of a tree.
use mathlib.Core.Path.{subst}
use native.Mathlib.Decide.{ℕ_discrete}
use feather_os.Prelude.{ℕ, ◌≡◌, refl, ◌∙◌, ◌≢◌, true, false, List, [], ◌∷◌, ◌++◌, arith, ◌==◌}
use mathlib.Core.List.{append_assoc}
use feather_os.Sched.{Task, Sched, set_task, Slot, at_root, at_left, at_right, read_slot, set_slot}
use mathlib.Core.List.{append_assoc}
use feather_os.Sched.Tree.{
  TaskTree, empty, fork, Branch, left_below, right_below, whole, members, members_before,
  members_behind, Links, LinksAbove, NotIn, NotIn-split, NoDup, NoDup-around, members-whole,
}

pub set_task-same : (tasks : ℕ → Task) (i : ℕ) (x : Task) → set_task tasks i x i ≡ x
set_task-same tasks i x = let same : (i == i) ≡ true = ground arith in rw same refl

pub set_task-other :
    (tasks : ℕ → Task) (i j : ℕ) (x : Task) → j ≢ i → set_task tasks i x j ≡ tasks j
set_task-other tasks i j x n = let other : (j == i) ≡ false = ground arith in rw other refl

-- A change of a task that is not in the tree.
pub Links-other :
    (tasks : ℕ → Task) (j : ℕ) (x : Task) (p parent : ℕ) (t : TaskTree)
    → NotIn j (members t)
    → Links tasks p parent t
    → Links (set_task tasks j x) p parent t
Links-other tasks j x p parent empty n l = l
Links-other tasks j x p parent (fork a i b) n (e, some_i, e', la, lb) =
    let (in_a, (other, in_b)) = NotIn-split j (members a) (i ∷ members b) n in
    let same = set_task-other tasks j i x other in
    rw same (
      e,
      some_i,
      e',
      Links-other tasks j x (tasks i).left i a in_a la,
      Links-other tasks j x (tasks i).right i b in_b lb,
    )

pub LinksAbove-other :
    (tasks : ℕ → Task) (root j : ℕ) (x : Task) (fs : List Branch) (p parent : ℕ)
    → NotIn j (members_before fs)
    → NotIn j (members_behind fs)
    → LinksAbove tasks root fs p parent
    → LinksAbove (set_task tasks j x) root fs p parent
LinksAbove-other tasks root j x [] p parent nb nh l = l
LinksAbove-other tasks root j x (left_below i r ∷ fs) p parent nb (other, nh)
      (e, some_i, e', lr, above) =
    let (in_r, in_behind) = NotIn-split j (members r) (members_behind fs) nh in
    let same = set_task-other tasks j i x other in
    rw same (
      e,
      some_i,
      e',
      Links-other tasks j x (tasks i).right i r in_r lr,
      LinksAbove-other tasks root j x fs i (tasks i).parent nb in_behind above,
    )
LinksAbove-other tasks root j x (right_below l i ∷ fs) p parent nb nh (e, some_i, e', ll, above) =
    let (in_before, in_left) = NotIn-split j (members_before fs) (members l ++ (i ∷ [])) nb in
    let (in_l, (other, nothing)) = NotIn-split j (members l) (i ∷ []) in_left in
    let same = set_task-other tasks j i x other in
    rw same (
      e,
      some_i,
      e',
      Links-other tasks j x (tasks i).left i l in_l ll,
      LinksAbove-other tasks root j x fs i (tasks i).parent in_before nh above,
    )

-- The slot below the branches, and the task that it belongs to.
abbrev pub slot_of : List Branch → Slot
slot_of [] = at_root
slot_of (left_below i r ∷ fs) = at_left i
slot_of (right_below l i ∷ fs) = at_right i

abbrev pub parent_of : List Branch → ℕ
parent_of [] = 0
parent_of (left_below i r ∷ fs) = i
parent_of (right_below l i ∷ fs) = i

pub read_slot-LinksAbove :
    (s : Sched) (fs : List Branch) (p parent : ℕ)
    → LinksAbove s.tasks s.rq.root fs p parent
    → read_slot s (slot_of fs) ≡ p
read_slot-LinksAbove s [] p parent (e, top) = e
read_slot-LinksAbove s (left_below i r ∷ fs) p parent (e, some_i, e', lr, above) = e'
read_slot-LinksAbove s (right_below l i ∷ fs) p parent (e, some_i, e', ll, above) = e'

pub parent_of-LinksAbove :
    (tasks : ℕ → Task) (root : ℕ) (fs : List Branch) (p parent : ℕ)
    → LinksAbove tasks root fs p parent
    → parent ≡ parent_of fs
parent_of-LinksAbove tasks root [] p parent (e, top) = top
parent_of-LinksAbove tasks root (left_below i r ∷ fs) p parent (e, some_i, e', other, above) = e
parent_of-LinksAbove tasks root (right_below l i ∷ fs) p parent (e, some_i, e', other, above) = e

-- The task that the slot belongs to, if any, is nowhere else above.
abbrev pub OwnerApart : List Branch → Type 0
OwnerApart [] = Unit
OwnerApart (left_below i r ∷ fs) =
    NotIn i (members r) × NotIn i (members_before fs) × NotIn i (members_behind fs)
OwnerApart (right_below l i ∷ fs) =
    NotIn i (members l) × NotIn i (members_before fs) × NotIn i (members_behind fs)

-- What is written into the slot below the branches.
pub set_slot-LinksAbove :
    (s : Sched) (fs : List Branch) (p q parent : ℕ)
    → OwnerApart fs
    → LinksAbove s.tasks s.rq.root fs p parent
    → LinksAbove
        ((set_slot s (slot_of fs) q).tasks)
        ((set_slot s (slot_of fs) q).rq.root)
        fs
        q
        parent
set_slot-LinksAbove s [] p q parent apart (e, top) = (refl, top)
set_slot-LinksAbove s (left_below i r ∷ fs) p q parent (nr, nb, nh) (e, some_i, e', lr, above) =
    let x : Task = record (s.tasks i) { left = q } in
    rw (set_task-same s.tasks i x) (
      e,
      some_i,
      refl,
      Links-other s.tasks i x (s.tasks i).right i r nr lr,
      LinksAbove-other s.tasks s.rq.root i x fs i (s.tasks i).parent nb nh above,
    )
set_slot-LinksAbove s (right_below l i ∷ fs) p q parent (nl, nb, nh) (e, some_i, e', ll, above) =
    let x : Task = record (s.tasks i) { right = q } in
    rw (set_task-same s.tasks i x) (
      e,
      some_i,
      refl,
      Links-other s.tasks i x (s.tasks i).left i l nl ll,
      LinksAbove-other s.tasks s.rq.root i x fs i (s.tasks i).parent nb nh above,
    )

-- A field that a change of a task leaves as it is.
pub set_task-field :
    {A : Type 0}
    → (f : Task → A) → (tasks : ℕ → Task) → (i : ℕ) → (x : Task) → f x ≡ f (tasks i)
    → (j : ℕ) → f (set_task tasks i x j) ≡ f (tasks j)
set_task-field f tasks i x e j = elim (ℕ_discrete j i) [
  | yes same ↦ rw (same, set_task-same tasks i x) e
  | no other ↦ rw (set_task-other tasks i j x other) refl
]

pub set_slot-vruntime :
    (s : Sched) (p : Slot) (q j : ℕ) → ((set_slot s p q).tasks j).vruntime ≡ (s.tasks j).vruntime
set_slot-vruntime s at_root q j = refl
set_slot-vruntime s (at_left i) q j =
    set_task-field (λ t. t.vruntime) s.tasks i (record (s.tasks i) { left = q }) refl j
set_slot-vruntime s (at_right i) q j =
    set_task-field (λ t. t.vruntime) s.tasks i (record (s.tasks i) { right = q }) refl j

-- The task at the top of a subtree is nowhere else in the tree.
pub top_apart :
    (a : TaskTree) (j : ℕ) (b : TaskTree) (fs : List Branch)
    → NoDup (members (whole (fork a j b) fs))
    → NotIn j (members_before fs)
      × NotIn j (members a)
      × NotIn j (members b)
      × NotIn j (members_behind fs)
top_apart a j b fs d =
    let listed : members (whole (fork a j b) fs)
        ≡ (members_before fs ++ members a) ++ (j ∷ (members b ++ members_behind fs)) =
      members-whole (fork a j b) fs ∙ simp append_assoc in
    let (front, back) =
      NoDup-around j (members_before fs ++ members a) (members b ++ members_behind fs)
        (subst NoDup listed d) in
    let (nb, na) = NotIn-split j (members_before fs) (members a) front in
    let (nb', nh) = NotIn-split j (members b) (members_behind fs) back in (nb, na, nb', nh)

abbrev pub OwnerNotIn : List Branch → List ℕ → Type 0
OwnerNotIn [] xs = Unit
OwnerNotIn (left_below i r ∷ fs) xs = NotIn i xs
OwnerNotIn (right_below l i ∷ fs) xs = NotIn i xs

-- The owner of the slot that a subtree hangs on.
pub owner_apart :
    (t : TaskTree) (fs : List Branch)
    → NoDup (members (whole t fs))
    → OwnerApart fs × OwnerNotIn fs (members t)
owner_apart t [] d = (tt, tt)
owner_apart t (left_below i r ∷ fs) d =
    let (nb, nt, nr, nh) = top_apart t i r fs d in ((nr, nb, nh), nt)
owner_apart t (right_below l i ∷ fs) d =
    let (nb, nl, nt, nh) = top_apart l i t fs d in ((nl, nb, nh), nt)

-- Writing into the slot that a subtree hangs on leaves the links of trees without its owner.
pub set_slot-Links :
    (s : Sched) (fs : List Branch) (q p parent : ℕ) (t : TaskTree)
    → OwnerNotIn fs (members t)
    → Links s.tasks p parent t
    → Links ((set_slot s (slot_of fs) q).tasks) p parent t
set_slot-Links s [] q p parent t n l = l
set_slot-Links s (left_below i r ∷ fs) q p parent t n l =
    Links-other s.tasks i (record (s.tasks i) { left = q }) p parent t n l
set_slot-Links s (right_below k i ∷ fs) q p parent t n l =
    Links-other s.tasks i (record (s.tasks i) { right = q }) p parent t n l
