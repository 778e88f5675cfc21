-- ===== src/Sched/Enqueue.antt =====
-- cfs_enqueue against insertion into a search tree of tasks.
use mathlib.Core.Path.{subst}
use feather_os.Prelude.{
  ℕ, zero, suc, ◌+◌, ◌%◌, ◌^◌, ◌<◌, ◌≡◌, refl, sym, ap, ◌∙◌, inl, inr, false, Option, some, List,
  [], ◌∷◌, ◌++◌, arith, ◌==◌, if◌then◌else◌, Bool-cases,
}
use feather_os.Sched.{
  Sched, done, set_task, set_tasks, Slot, set_slot, goes_left, find_place, attached, count_enqueued,
  cfs_enqueue,
}
use feather_os.Sched.Tree.{
  TaskTree, empty, fork, Branch, left_below, right_below, whole, members, members_before,
  members_behind, members-whole, Links, LinksAbove, Links-whole, NotIn, NotIn-split, NoDup,
  NoDup-insert,
}
use feather_os.Sched.Links.{
  set_task-same, set_task-other, LinksAbove-other, slot_of, parent_of, read_slot-LinksAbove,
  set_slot-LinksAbove, set_slot-vruntime, set_task-field, owner_apart,
}

abbrev pub size : TaskTree → ℕ
size empty = 0
size (fork l i r) = suc (size l + size r)

-- Insertion below the tasks with the same vruntime.
abbrev pub insert_task : Sched → ℕ → TaskTree → TaskTree
insert_task s task empty = fork empty task empty
insert_task s task (fork l i r) =
    let in_left = fork (insert_task s task l) i r in
    let in_right = fork l i (insert_task s task r) in
    if goes_left s task i then in_left else in_right

-- The branches on the way down to the place of a task.
abbrev pub way : Sched → ℕ → TaskTree → List Branch → List Branch
way s task empty fs = fs
way s task (fork l i r) fs =
    let to_left = way s task l (left_below i r ∷ fs) in
    let to_right = way s task r (right_below l i ∷ fs) in
    if goes_left s task i then to_left else to_right

whole-way :
    (s : Sched) (task : ℕ) (t : TaskTree) (fs : List Branch)
    → whole (fork empty task empty) (way s task t fs) ≡ whole (insert_task s task t) fs
whole-way s task empty fs = refl
whole-way s task (fork l i r) fs = elim (Bool-cases (goes_left s task i)) [
  | inl e ↦ rw e (whole-way s task l (left_below i r ∷ fs))
  | inr e ↦ rw e (whole-way s task r (right_below l i ∷ fs))
]

whole-way_empty :
    (s : Sched) (task : ℕ) (t : TaskTree) (fs : List Branch)
    → whole empty (way s task t fs) ≡ whole t fs
whole-way_empty s task empty fs = refl
whole-way_empty s task (fork l i r) fs = elim (Bool-cases (goes_left s task i)) [
  | inl e ↦ rw e (whole-way_empty s task l (left_below i r ∷ fs))
  | inr e ↦ rw e (whole-way_empty s task r (right_below l i ∷ fs))
]

-- The place found.
abbrev place : List Branch → Option (Slot × ℕ)
place fs = some (slot_of fs, parent_of fs)

not_null : (i : ℕ) → 0 < i → (i == 0) ≡ false
not_null i h = ground arith

find_place-way :
    (n : ℕ) (s : Sched) (task : ℕ) (t : TaskTree) (fs : List Branch) (p : ℕ)
    → size t < n
    → Links s.tasks p (parent_of fs) t
    → LinksAbove s.tasks s.rq.root fs p (parent_of fs)
    → (find_place n s task (slot_of fs) (parent_of fs) ≡ place (way s task t fs))
      × LinksAbove s.tasks s.rq.root (way s task t fs) 0 (parent_of (way s task t fs))
unfolding find_place
find_place-way zero s task t fs p h l above = absurd (omega arith)
find_place-way (suc n) s task empty fs p h l above =
    let at_zero = read_slot-LinksAbove s fs p (parent_of fs) above ∙ l in
    (rw at_zero refl, rw (sym l) above)
find_place-way (suc n) s task (fork a i b) fs p h (e, some_i, e', la, lb) above =
    let at_i = read_slot-LinksAbove s fs p (parent_of fs) above ∙ e in
    let above_i : LinksAbove s.tasks s.rq.root fs i (s.tasks i).parent = rw (e', sym e) above in
    elim (Bool-cases (goes_left s task i)) [
      | inl left ↦
          rw (at_i, not_null i some_i, left)
            (find_place-way n s task a (left_below i b ∷ fs) (s.tasks i).left (omega arith) la
              (refl, some_i, refl, lb, above_i))
      | inr right ↦
          rw (at_i, not_null i some_i, right)
            (find_place-way n s task b (right_below a i ∷ fs) (s.tasks i).right (omega arith) lb
              (refl, some_i, refl, la, above_i))
    ]

-- The links of the run queue are those of a tree without repetitions.
pub record IsQueue (s : Sched) (t : TaskTree) : Type 0 where
  pub links : Links s.tasks s.rq.root 0 t
  pub distinct : NoDup (members t)

-- The tasks of the tree with a task in its free slot.
NotIn-around :
    (task : ℕ) (fs : List Branch)
    → NotIn task (members (whole empty fs))
    → NotIn task (members_before fs) × NotIn task (members_behind fs)
NotIn-around task fs n =
    NotIn-split task (members_before fs) (members_behind fs)
      (subst (NotIn task) (members-whole empty fs) n)

-- A task that is not in the tree, put into its free slot.
module _ (s : Sched) (task : ℕ) (fs : List Branch) where
  abbrev parent_set : Sched
  parent_set = set_tasks s (set_task s.tasks task (attached (s.tasks task) (parent_of fs)))

  abbrev linked : Sched
  linked = set_slot parent_set (slot_of fs) task

linked-task :
    (s : Sched) (task : ℕ) (fs : List Branch)
    → NotIn task (members_before fs)
    → NotIn task (members_behind fs)
    → (linked s task fs).tasks task ≡ attached (s.tasks task) (parent_of fs)
linked-task s task [] nb nh = set_task-same s.tasks task (attached (s.tasks task) 0)
linked-task s task (left_below i r ∷ fs) nb (other, nh) =
    set_task-other (parent_set s task (left_below i r ∷ fs)).tasks i task _ (λ e. other (sym e))
    ∙ set_task-same s.tasks task (attached (s.tasks task) i)
linked-task s task (right_below l i ∷ fs) nb nh =
    let (in_before, in_left) = NotIn-split task (members_before fs) (members l ++ (i ∷ [])) nb in
    let (in_l, (other, nothing)) = NotIn-split task (members l) (i ∷ []) in_left in
    set_task-other (parent_set s task (right_below l i ∷ fs)).tasks i task _ (λ e. other (sym e))
    ∙ set_task-same s.tasks task (attached (s.tasks task) i)

linked-Links :
    (s : Sched) (task : ℕ) (fs : List Branch)
    → 0 < task
    → NoDup (members (whole empty fs))
    → NotIn task (members (whole empty fs))
    → LinksAbove s.tasks s.rq.root fs 0 (parent_of fs)
    → Links (linked s task fs).tasks (linked s task fs).rq.root 0 (whole (fork empty task empty) fs)
linked-Links s task fs some_task d n above =
    let (nb, nh) = NotIn-around task fs n in
    let above' =
      LinksAbove-other s.tasks s.rq.root task (attached (s.tasks task) (parent_of fs)) fs 0
        (parent_of fs) nb nh above in
    let entered =
      set_slot-LinksAbove (parent_set s task fs) fs 0 task (parent_of fs)
        ((owner_apart empty fs d).0) above' in
    let e = linked-task s task fs nb nh in
    Links-whole (linked s task fs).tasks (linked s task fs).rq.root (fork empty task empty) fs task
      (parent_of fs) (refl, some_task, rw e refl, rw e refl, rw e refl) entered

linked-NoDup :
    (task : ℕ) (fs : List Branch)
    → NoDup (members (whole empty fs))
    → NotIn task (members (whole empty fs))
    → NoDup (members (whole (fork empty task empty) fs))
linked-NoDup task fs d n = subst NoDup (sym (members-whole (fork empty task empty) fs)) (
    NoDup-insert task (members_before fs) (members_behind fs)
      (subst NoDup (members-whole empty fs) d) (subst (NotIn task) (members-whole empty fs) n))

linked-vruntime :
    (s : Sched) (task : ℕ) (fs : List Branch) (j : ℕ)
    → ((linked s task fs).tasks j).vruntime ≡ (s.tasks j).vruntime
linked-vruntime s task fs j =
    set_slot-vruntime (parent_set s task fs) (slot_of fs) task j
    ∙ set_task-field (λ t. t.vruntime) s.tasks task (attached (s.tasks task) (parent_of fs)) refl j

linked-nr_running :
    (s : Sched) (task : ℕ) (fs : List Branch) → (linked s task fs).rq.nr_running ≡ s.rq.nr_running
linked-nr_running s task [] = refl
linked-nr_running s task (left_below i r ∷ fs) = refl
linked-nr_running s task (right_below l i ∷ fs) = refl

-- A run queue after cfs_enqueue of a task: the tree that insertion gives, and one more counted.
pub record Enqueued (rounds : ℕ) (s : Sched) (task : ℕ) (t : TaskTree) : Type 0 where
  pub after : Sched
  pub answered : cfs_enqueue rounds s task ≡ done after
  pub queue : IsQueue after (insert_task s task t)
  pub vruntimes : (j : ℕ) → (after.tasks j).vruntime ≡ (s.tasks j).vruntime
  pub counted : after.rq.nr_running ≡ (s.rq.nr_running + 1) % 2 ^ 32

-- With more rounds than the tree has tasks, cfs_enqueue of a task that is not in the tree ends, and the
-- links are then those of the tree with the task inserted.
pub cfs_enqueue-Enqueued :
    (rounds : ℕ) (s : Sched) (task : ℕ) (t : TaskTree)
    → IsQueue s t
    → 0 < task
    → NotIn task (members t)
    → size t < rounds
    → Enqueued rounds s task t
unfolding cfs_enqueue
cfs_enqueue-Enqueued rounds s task t q some_task n enough =
    let (found, above) = find_place-way rounds s task t [] s.rq.root enough q.links (refl, refl) in
    let fs = way s task t [] in
    let free = whole-way_empty s task t [] in
    let entered = whole-way s task t [] in
    let d : NoDup (members (whole empty fs)) = rw free q.distinct in
    let n' : NotIn task (members (whole empty fs)) = rw free n in
    record {
      after = count_enqueued (linked s task fs) task;
      answered = rw found refl;
      queue = record {
        links =
            subst (Links (linked s task fs).tasks (linked s task fs).rq.root 0) entered
              (linked-Links s task fs some_task d n' above);
        distinct = subst (λ k. NoDup (members k)) entered (linked-NoDup task fs d n');
      };
      vruntimes = linked-vruntime s task fs;
      counted = ap (λ k. (k + 1) % 2 ^ 32) (linked-nr_running s task fs);
    }
