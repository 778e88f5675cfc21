-- ===== src/Sched/Unlink.antt =====
-- What cfs_dequeue changes of the links.
use mathlib.Core.Path.{subst}
use feather_os.Prelude.{ℕ, ◌<◌, ◌≡◌, refl, sym, ◌∙◌, false, List, [], ◌∷◌, ◌++◌, arith, ◌==◌}
use feather_os.Sched.{Task, Sched, set_task, set_tasks, set_slot, successor, bypass, set_parent}
use feather_os.Sched.Tree.{
  TaskTree, empty, fork, Branch, left_below, right_below, whole, members, members_before, Links,
  LinksAbove, NotIn, NotIn-split, NoDup,
}
use feather_os.Sched.Links.{
  set_task-same, set_task-field, Links-other, LinksAbove-other, slot_of, parent_of, top_apart,
}
use feather_os.Sched.Seek.{remaining, found_it, not_null}

-- A task with the same links in place of another.
pub Links-relinked :
    (tasks : ℕ → Task) (i : ℕ) (x : Task) (p parent : ℕ) (t : TaskTree)
    → x.parent ≡ (tasks i).parent
    → x.left ≡ (tasks i).left
    → x.right ≡ (tasks i).right
    → Links tasks p parent t
    → Links (set_task tasks i x) p parent t
Links-relinked tasks i x p parent empty ep el er l = l
Links-relinked tasks i x p parent (fork a j b) ep el er (e, some_j, e', la, lb) = (
  e,
  some_j,
  set_task-field (λ k. k.parent) tasks i x ep j ∙ e',
  subst (λ k. Links (set_task tasks i x) k j a) (sym (set_task-field (λ k. k.left) tasks i x el j))
      (Links-relinked tasks i x (tasks j).left j a ep el er la),
  subst (λ k. Links (set_task tasks i x) k j b) (sym (set_task-field (λ k. k.right) tasks i x er j))
      (Links-relinked tasks i x (tasks j).right j b ep el er lb),
)

successor-right : (t : Task) → t.left ≡ 0 → successor t ≡ t.right
successor-right t e = rw e refl

successor-left : (t : Task) (j : ℕ) → t.left ≡ j → 0 < j → successor t ≡ j
successor-left t j e some_j = rw (e, not_null j some_j) refl

pub remaining-Links :
    (tasks : ℕ → Task) (task : ℕ) (l r : TaskTree)
    → Links tasks (tasks task).left task l
    → Links tasks (tasks task).right task r
    → Links tasks (successor (tasks task)) task (remaining l r)
remaining-Links tasks task empty r left right =
    subst (λ k. Links tasks k task r) (sym (successor-right (tasks task) left)) right
remaining-Links tasks task (fork a j b) r (e, some_j, e', la, lb) right =
    (successor-left (tasks task) j e some_j, some_j, e', la, lb)

abbrev with_parent : Task → ℕ → Task
with_parent t parent = record t { parent = parent }

set_parent-null : (s : Sched) (q parent : ℕ) → q ≡ 0 → set_parent s q parent ≡ s
set_parent-null s q parent e = rw e refl

set_parent-some :
    (s : Sched) (q j parent : ℕ)
    → q ≡ j
    → 0 < j
    → set_parent s q parent ≡ set_tasks s (set_task s.tasks j (with_parent (s.tasks j) parent))
set_parent-some s q j parent e some_j = rw (e, not_null j some_j) refl

-- The top of a subtree gets another parent.
pub set_parent-Links :
    (s : Sched) (q parent parent' : ℕ) (t : TaskTree) (fs : List Branch)
    → NoDup (members (whole t fs))
    → Links s.tasks q parent t
    → Links ((set_parent s q parent').tasks) q parent' t
set_parent-Links s q parent parent' empty fs d l = l
set_parent-Links s q parent parent' (fork a j b) fs d (e, some_j, e', la, lb) =
    let (nb, na, nb', nh) = top_apart a j b fs d in
    let x = with_parent (s.tasks j) parent' in
    subst (λ s'. Links s'.tasks q parent' (fork a j b))
      (sym (set_parent-some s q j parent' e some_j))
      (rw (set_task-same s.tasks j x) (
        e,
        some_j,
        refl,
        Links-other s.tasks j x (s.tasks j).left j a na la,
        Links-other s.tasks j x (s.tasks j).right j b nb' lb,
      ))

pub set_parent-LinksAbove :
    (s : Sched) (q parent parent' above : ℕ) (t : TaskTree) (fs : List Branch)
    → NoDup (members (whole t fs))
    → Links s.tasks q parent t
    → LinksAbove s.tasks s.rq.root fs q above
    → LinksAbove ((set_parent s q parent').tasks) ((set_parent s q parent').rq.root) fs q above
set_parent-LinksAbove s q parent parent' above empty fs d l k =
    subst (λ s'. LinksAbove s'.tasks s'.rq.root fs q above) (sym (set_parent-null s q parent' l)) k
set_parent-LinksAbove s q parent parent' above (fork a j b) fs d (e, some_j, e', la, lb) k =
    let (nb, na, nb', nh) = top_apart a j b fs d in
    subst (λ s'. LinksAbove s'.tasks s'.rq.root fs q above)
      (sym (set_parent-some s q j parent' e some_j))
      (LinksAbove-other s.tasks s.rq.root j (with_parent (s.tasks j) parent') fs q above nb nh k)

-- The top of a tree that a task is not in is another task.
pub top_other :
    (tasks : ℕ → Task) (p parent task : ℕ) (t : TaskTree)
    → 0 < task
    → NotIn task (members t)
    → Links tasks p parent t
    → (p == task) ≡ false
top_other tasks p parent task empty h n l = ground arith
top_other tasks p parent task (fork a j b) h n (e, some_j, e', la, lb) =
    let (in_a, (other, in_b)) = NotIn-split task (members a) (j ∷ members b) n in ground arith

-- The link that is changed is the one that the search ended with.
pub bypass-slot :
    (s : Sched) (task next : ℕ) (fs : List Branch)
    → 0 < task
    → NotIn task (members_before fs)
    → (s.tasks task).parent ≡ parent_of fs
    → LinksAbove s.tasks s.rq.root fs task (parent_of fs)
    → bypass s (slot_of fs) task next ≡ set_slot s (slot_of fs) next
bypass-slot s task next [] h n e (top, e') = rw e refl
bypass-slot s task next (left_below i r ∷ fs) h n e (e', some_i, link, lr, above) =
    rw (e, not_null i some_i, link, found_it task) refl
bypass-slot s task next (right_below l i ∷ fs) h n e (e', some_i, link, ll, above) =
    let (in_before, in_left) = NotIn-split task (members_before fs) (members l ++ (i ∷ [])) n in
    let (in_l, in_i) = NotIn-split task (members l) (i ∷ []) in_left in
    rw (e, not_null i some_i, top_other s.tasks (s.tasks i).left i task l h in_l ll) refl
