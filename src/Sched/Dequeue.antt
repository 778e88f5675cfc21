-- ===== src/Sched/Dequeue.antt =====
-- cfs_dequeue against the removal of a task from a search tree.
use mathlib.Core.Path.{subst}
use feather_os.Prelude.{
  ℕ, ◌+◌, ◌-◌, ◌%◌, ◌^◌, ◌<◌, ◌≡◌, refl, sym, ap, ◌∙◌, true, false, List, [], ◌∷◌, ◌++◌, arith,
  ◌==◌, if◌then◌else◌,
}
use mathlib.Core.List.{append_assoc}
use feather_os.Sched.{
  Sched, done, Slot, read_slot, set_slot, successor, bypass, set_parent, unlink, count_dequeued,
  cfs_dequeue,
}
use feather_os.Sched.Tree.{
  TaskTree, empty, fork, Branch, whole, members, members_before, members_behind, members-whole,
  Links, LinksAbove, Links-whole, NoDup, NoDup-drop,
}
use feather_os.Sched.Links.{
  set_task-same, slot_of, parent_of, read_slot-LinksAbove, top_apart, owner_apart, set_slot-Links,
  set_slot-LinksAbove,
}
use feather_os.Sched.Enqueue.{size, IsQueue}
use feather_os.Sched.Seek.{remaining, remove_task, cut_top, TopIs, found_it, find_task-Sought}
use feather_os.Sched.Search.{IsSearchTree, remove_task-placed}
use feather_os.Sched.Kept.{unlink-nr_running, unlink-vruntime, count_dequeued-vruntime}
use feather_os.Sched.Shrink.{remaining-IsSearchTree}
use feather_os.Sched.Unlink.{
  Links-relinked, remaining-Links, set_parent-Links, set_parent-LinksAbove, bypass-slot,
}

-- The tasks that remain are tasks of the tree.
remaining-NoDup :
    (l r : TaskTree) (task : ℕ) (fs : List Branch)
    → NoDup (members (whole (fork l task r) fs))
    → NoDup (members (whole (remaining l r) fs))
remaining-NoDup empty r task fs d = subst NoDup (sym (members-whole r fs)) (
    NoDup-drop (members_before fs) (task ∷ []) (members r ++ members_behind fs)
      (subst NoDup (members-whole (fork empty task r) fs) d))
remaining-NoDup (fork a j b) r task fs d =
    let listed : members (whole (fork (fork a j b) task r) fs)
        ≡ (members_before fs ++ members (fork a j b)) ++ ((task ∷ members r) ++ members_behind fs) =
      members-whole (fork (fork a j b) task r) fs ∙ simp append_assoc in
    let shorter : members (whole (fork a j b) fs)
        ≡ (members_before fs ++ members (fork a j b)) ++ members_behind fs =
      members-whole (fork a j b) fs ∙ simp append_assoc in
    subst NoDup (sym shorter) (
      NoDup-drop (members_before fs ++ members (fork a j b)) (task ∷ members r) (members_behind fs)
        (subst NoDup listed d))

-- The search has ended at the task.
module _ (s : Sched) (task : ℕ) (l r : TaskTree) (fs : List Branch)
    (d : NoDup (members (whole (fork l task r) fs)))
    (links : Links s.tasks task (parent_of fs) (fork l task r))
    (above : LinksAbove s.tasks s.rq.root fs task (parent_of fs)) where
  abbrev next : ℕ
  next = successor (s.tasks task)

  unlink-hit :
      unlink s task (slot_of fs) ≡ set_parent (set_slot s (slot_of fs) next) next (parent_of fs)
  unlink-hit =
      let (e, some_task, e', ll, lr) = links in
      let (nb, nl, nr, nh) = top_apart l task r fs d in
      let reads = read_slot-LinksAbove s fs task (parent_of fs) above in
      if_hit (read_slot s (slot_of fs)) reads
      ∙ (ap (λ s'. set_parent s' next (s.tasks task).parent)
            (bypass-slot s task next fs some_task nb e' above)
          ∙ ap (set_parent (set_slot s (slot_of fs) next) next) e')
    where
      if_hit :
          (i : ℕ)
          → i ≡ task
          → (if i == task
              then set_parent (bypass s (slot_of fs) task next) next (s.tasks task).parent
              else s)
            ≡ set_parent (bypass s (slot_of fs) task next) next (s.tasks task).parent
      if_hit i e = rw (e, found_it task) refl

  unlinked-Links :
      Links
        ((unlink s task (slot_of fs)).tasks)
        ((unlink s task (slot_of fs)).rq.root)
        0
        (whole (remaining l r) fs)
  unlinked-Links =
      let (e, some_task, e', ll, lr) = links in
      let d' = remaining-NoDup l r task fs d in
      let (owner, none_below) = owner_apart (remaining l r) fs d' in
      let s' = set_slot s (slot_of fs) next in
      let above' = set_slot-LinksAbove s fs task next (parent_of fs) owner above in
      let links' =
        set_slot-Links s fs next next task (remaining l r) none_below
          (remaining-Links s.tasks task l r ll lr) in
      let s'' = set_parent s' next (parent_of fs) in
      subst (λ k. Links k.tasks k.rq.root 0 (whole (remaining l r) fs)) (sym unlink-hit)
        (Links-whole s''.tasks s''.rq.root (remaining l r) fs next (parent_of fs)
          (set_parent-Links s' next task (parent_of fs) (remaining l r) fs d' links')
          (set_parent-LinksAbove s' next task (parent_of fs) (parent_of fs) (remaining l r) fs d'
            links' above'))

-- The search has ended at a free slot.
unlink-miss : (s : Sched) (task : ℕ) (p : Slot) → 0 < task → read_slot s p ≡ 0 → unlink s task p ≡ s
unlink-miss s task p h e = let other : (0 == task) ≡ false = ground arith in rw (e, other) refl

unlink-IsQueue :
    (s : Sched) (task top : ℕ) (below : TaskTree) (fs : List Branch)
    → 0 < task
    → TopIs task below
    → NoDup (members (whole below fs))
    → Links s.tasks top (parent_of fs) below
    → LinksAbove s.tasks s.rq.root fs top (parent_of fs)
    → IsQueue (unlink s task (slot_of fs)) (whole (cut_top below) fs)
unlink-IsQueue s task top empty fs h on_top d links above =
    let miss =
      unlink-miss s task (slot_of fs) h
        (read_slot-LinksAbove s fs top (parent_of fs) above ∙ links) in
    subst (λ k. IsQueue k (whole empty fs)) (sym miss)
      (record {
        links = Links-whole s.tasks s.rq.root empty fs top (parent_of fs) links above;
        distinct = d;
      })
unlink-IsQueue s task top (fork l i r) fs h on_top d (e, some_i, e', ll, lr) above =
    let links' : Links s.tasks task (parent_of fs) (fork l task r) =
      subst (λ k. Links s.tasks k (parent_of fs) (fork l k r)) on_top (refl, some_i, e', ll, lr) in
    let above' = subst (λ k. LinksAbove s.tasks s.rq.root fs k (parent_of fs)) (e ∙ on_top) above in
    let d' = subst (λ k. NoDup (members (whole (fork l k r) fs))) on_top d in
    record {
      links = unlinked-Links s task l r fs d' links' above';
      distinct = remaining-NoDup l r task fs d';
    }

count_dequeued-IsQueue :
    (s : Sched) (task : ℕ) (t : TaskTree) → IsQueue s t → IsQueue (count_dequeued s task) t
count_dequeued-IsQueue s task t q = record {
  links =
      Links-relinked s.tasks task (record (s.tasks task) { my_q = false }) s.rq.root 0 t refl refl
        refl q.links;
  distinct = q.distinct;
}

-- What cfs_dequeue leaves of any tree of a run queue.
record Removed (rounds : ℕ) (s : Sched) (task : ℕ) (t : TaskTree) : Type 0 where
  after : Sched
  answered : cfs_dequeue rounds s task ≡ done after
  queue : IsQueue after (remove_task s task t)
  left_out : (after.tasks task).my_q ≡ false
  vruntimes : (j : ℕ) → (after.tasks j).vruntime ≡ (s.tasks j).vruntime
  counted : after.rq.nr_running ≡ (s.rq.nr_running + 2 ^ 32 - 1) % 2 ^ 32

cfs_dequeue-Removed :
    (rounds : ℕ) (s : Sched) (task : ℕ) (t : TaskTree)
    → IsQueue s t
    → 0 < task
    → (s.tasks task).my_q ≡ true
    → size t < rounds
    → Removed rounds s task t
unfolding cfs_dequeue
cfs_dequeue-Removed rounds s task t q h queued enough =
    let f = find_task-Sought rounds s task t [] s.rq.root enough q.links (refl, refl) in
    let u = unlink s task (slot_of f.branches) in
    let d = subst (λ k. NoDup (members k)) (sym f.same) q.distinct in
    let q' = unlink-IsQueue s task f.top f.below f.branches h f.on_top d f.links f.above in
    record {
      after = count_dequeued u task;
      answered = rw (queued, f.found) refl;
      queue = count_dequeued-IsQueue u task (remove_task s task t) (subst (IsQueue u) f.cut q');
      left_out =
          ap (λ k. k.my_q) (set_task-same u.tasks task (record (u.tasks task) { my_q = false }));
      vruntimes =
          λ j. count_dequeued-vruntime u task j ∙ unlink-vruntime s task (slot_of f.branches) j;
      counted = ap (λ k. (k + 2 ^ 32 - 1) % 2 ^ 32) (unlink-nr_running s task (slot_of f.branches));
    }

-- A run queue after cfs_dequeue of the task with the subtrees `l` and `r` below the branches `fs`.
pub record Dequeued (rounds : ℕ) (s : Sched) (task : ℕ) (l r : TaskTree) (fs : List Branch)
    : Type 0 where
  pub after : Sched
  pub answered : cfs_dequeue rounds s task ≡ done after
  pub queue : IsQueue after (whole (remaining l r) fs)
  pub left_out : (after.tasks task).my_q ≡ false
  pub in_order : IsSearchTree after (whole (remaining l r) fs)
  pub counted : after.rq.nr_running ≡ (s.rq.nr_running + 2 ^ 32 - 1) % 2 ^ 32

-- From a run queue whose tree is in order, to the left of every task the lower vruntimes and to its
-- right the others, and holds the task, marked as queued, with the subtrees `l` and `r`: with more
-- rounds than the tree has tasks cfs_dequeue ends, the mark is taken away, and the links are those
-- of the tree with `l` in the place of the task, or with `r` where `l` is empty. The task is out of
-- the tree, and so are the tasks of `r` where `l` has some; the tree is in order again, and the
-- count of running tasks falls by one.
pub cfs_dequeue-Dequeued :
    (rounds : ℕ) (s : Sched) (task : ℕ) (l r : TaskTree) (fs : List Branch)
    → IsQueue s (whole (fork l task r) fs)
    → IsSearchTree s (whole (fork l task r) fs)
    → 0 < task
    → (s.tasks task).my_q ≡ true
    → size (whole (fork l task r) fs) < rounds
    → Dequeued rounds s task l r fs
cfs_dequeue-Dequeued rounds s task l r fs q v h queued enough =
    let d = cfs_dequeue-Removed rounds s task (whole (fork l task r) fs) q h queued enough in
    record {
      after = d.after;
      answered = d.answered;
      queue = subst (IsQueue d.after) (remove_task-placed s task l r fs v q.distinct) d.queue;
      left_out = d.left_out;
      in_order = remaining-IsSearchTree s d.after task l r fs d.vruntimes v;
      counted = d.counted;
    }
