-- ===== src/Sched/Pick.antt =====
-- pick_next_cfs after any number of calls of cfs_enqueue.
use feather_os.Prelude.{
  ℕ, zero, suc, ◌+◌, ◌<◌, ◌≡◌, refl, sym, ap, ◌∙◌, ◌≢◌, inl, inr, false, some, List, [], ◌∷◌, ◌++◌,
  arith, ◌==◌, if◌then◌else◌, Bool-cases, length,
}
use feather_os.Sched.{
  Sched, CallResult, done, and_then, goes_left, cfs_enqueue, leftmost_from, pick_next_cfs,
}
use feather_os.Sched.Tree.{TaskTree, empty, fork, members, Links, NotIn, NoDup}
use feather_os.Sched.Enqueue.{size, insert_task, IsQueue, cfs_enqueue-Enqueued}
use feather_os.Sched.Order.{
  vruntime_of, Rising, insert_by, members-insert_task, Rising-insert_by, Rising-same,
  length-insert_by, size-members,
}

abbrev pub first : List ℕ → ℕ
first [] = 0
first (x ∷ xs) = x

some_task : (i : ℕ) → 0 < i → (i == 0) ≡ false
some_task i h = ground arith

first-longer : (xs ys zs : List ℕ) (j : ℕ) → first ((xs ++ (j ∷ ys)) ++ zs) ≡ first (xs ++ (j ∷ ys))
first-longer [] ys zs j = refl
first-longer (x ∷ xs) ys zs j = refl

leftmost_from-members :
    (n : ℕ) (s : Sched) (l r : TaskTree) (i parent : ℕ)
    → size (fork l i r) < n
    → Links s.tasks i parent (fork l i r)
    → leftmost_from n s i ≡ some (first (members (fork l i r)))
unfolding leftmost_from
leftmost_from-members zero s l r i parent h k = absurd (omega arith)
leftmost_from-members (suc n) s empty r i parent h (e, some_i, e', left, right) = rw left refl
leftmost_from-members (suc n) s (fork a j b) r i parent h
      (e, some_i, e', (at_j, some_j, above_j, left_j, right_j), right) =
    rw (at_j, some_task j some_j)
      (leftmost_from-members n s a b j i (omega arith) (refl, some_j, above_j, left_j, right_j)
        ∙ ap some (sym (first-longer (members a) (members b) (i ∷ members r) j)))

from_root :
    (rounds : ℕ) (s : Sched) (root i : ℕ)
    → root ≡ i
    → 0 < i
    → (if root == 0 then some 0 else leftmost_from rounds s root) ≡ leftmost_from rounds s i
from_root rounds s root i e some_i = rw (e, some_task i some_i) refl

-- With rounds enough pick_next_cfs answers the first task of the tree.
pick_next_cfs-first :
    (rounds : ℕ) (s : Sched) (t : TaskTree)
    → IsQueue s t
    → size t < rounds
    → pick_next_cfs rounds s ≡ some (first (members t))
unfolding pick_next_cfs
pick_next_cfs-first rounds s empty q h = rw q.links refl
pick_next_cfs-first rounds s (fork l i r) q h =
    let (e, some_i, above_i, left_i, right_i) = q.links in
    from_root rounds s s.rq.root i e some_i
    ∙ (leftmost_from-members rounds s l r i 0 h (refl, some_i, above_i, left_i, right_i))

-- cfs_enqueue of several tasks, the first one first.
abbrev pub enqueue_all : ℕ → Sched → List ℕ → CallResult
enqueue_all rounds s [] = done s
enqueue_all rounds s (task ∷ tasks) =
    and_then (cfs_enqueue rounds s task) (λ s'. enqueue_all rounds s' tasks)

-- The tasks sorted by vruntime, those with the same vruntime in the order of the list.
abbrev pub sort_onto : Sched → List ℕ → List ℕ → List ℕ
sort_onto s xs [] = xs
sort_onto s xs (task ∷ tasks) = sort_onto s (insert_by s task xs) tasks

-- Of the tasks with the lowest vruntime the first one; `best` is the one so far.
abbrev pub earliest : Sched → ℕ → List ℕ → ℕ
earliest s best [] = best
earliest s best (task ∷ tasks) =
    let newer = earliest s task tasks in
    let older = earliest s best tasks in if goes_left s task best then newer else older

insert_by-same :
    (s s' : Sched) (task : ℕ) (xs : List ℕ)
    → ((j : ℕ) → vruntime_of s' j ≡ vruntime_of s j)
    → insert_by s' task xs ≡ insert_by s task xs
insert_by-same s s' task [] e = refl
insert_by-same s s' task (x ∷ xs) e = rw (e task, e x, insert_by-same s s' task xs e) refl

sort_onto-same :
    (s s' : Sched) (xs tasks : List ℕ)
    → ((j : ℕ) → vruntime_of s' j ≡ vruntime_of s j)
    → sort_onto s' xs tasks ≡ sort_onto s xs tasks
sort_onto-same s s' xs [] e = refl
sort_onto-same s s' xs (task ∷ tasks) e =
    rw (insert_by-same s s' task xs e) (sort_onto-same s s' (insert_by s task xs) tasks e)

-- The tasks are there and in none of the places of the list.
abbrev pub AllNew : List ℕ → List ℕ → Type 0
AllNew xs [] = Unit
AllNew xs (task ∷ tasks) = (0 < task) × NotIn task xs × AllNew xs tasks

NotIn-insert_by :
    (s : Sched) (i task : ℕ) (xs : List ℕ) → task ≢ i → NotIn i xs → NotIn i (insert_by s task xs)
NotIn-insert_by s i task [] other n = (other, tt)
NotIn-insert_by s i task (x ∷ xs) other (h, n) = elim (Bool-cases (goes_left s task x)) [
  | inl e ↦ rw e (other, (h, n))
  | inr e ↦ rw e (h, NotIn-insert_by s i task xs other n)
]

AllNew-insert_by :
    (s : Sched) (task : ℕ) (xs tasks : List ℕ)
    → NotIn task tasks
    → AllNew xs tasks
    → AllNew (insert_by s task xs) tasks
AllNew-insert_by s task xs [] n f = tt
AllNew-insert_by s task xs (u ∷ tasks) (other, n) (some_u, nu, f) = (
  some_u,
  NotIn-insert_by s u task xs (λ e. other (sym e)) nu,
  AllNew-insert_by s task xs tasks n f,
)

-- A run queue after several calls of cfs_enqueue.
record AllEnqueued (rounds : ℕ) (s : Sched) (n : ℕ) (xs tasks : List ℕ) : Type 0 where
  after : Sched
  tree : TaskTree
  answered : enqueue_all rounds s tasks ≡ done after
  queue : IsQueue after tree
  listed : members tree ≡ sort_onto s xs tasks
  sized : size tree ≡ n + length tasks

enqueue_all-AllEnqueued :
    (rounds : ℕ) (s : Sched) (t : TaskTree) (tasks : List ℕ)
    → IsQueue s t
    → Rising s (members t)
    → AllNew (members t) tasks
    → NoDup tasks
    → size t + length tasks < rounds
    → AllEnqueued rounds s (size t) (members t) tasks
enqueue_all-AllEnqueued rounds s t [] q r new_ones d h = record {
  after = s;
  tree = t;
  answered = refl;
  queue = q;
  listed = refl;
  sized = omega arith;
}
enqueue_all-AllEnqueued rounds s t (task ∷ tasks) q r (there, n, new_ones) (nt, d) h =
    let e = cfs_enqueue-Enqueued rounds s task t q there n (omega arith) in
    let listed' = members-insert_task s task t r in
    let rising : Rising e.after (members (insert_task s task t)) = rw listed' (
      Rising-same s e.after (insert_by s task (members t)) e.vruntimes
        (Rising-insert_by s task (members t) r)) in
    let fresh : AllNew (members (insert_task s task t)) tasks =
      rw listed' (AllNew-insert_by s task (members t) tasks nt new_ones) in
    let more : size (insert_task s task t) ≡ suc (size t) =
      rw
        (
          size-members (insert_task s task t),
          listed',
          length-insert_by s task (members t),
          size-members t,
        )
        refl in
    let rest =
      enqueue_all-AllEnqueued rounds e.after (insert_task s task t) tasks e.queue rising fresh d
        (omega arith) in
    record {
      after = rest.after;
      tree = rest.tree;
      answered = rw e.answered rest.answered;
      queue = rest.queue;
      listed =
          rest.listed
          ∙ (rw listed'
              (sort_onto-same s e.after (insert_by s task (members t)) tasks e.vruntimes));
      sized = let rest_sized = rest.sized in omega arith;
    }

first-sort_onto :
    (s : Sched) (x : ℕ) (xs tasks : List ℕ)
    → first (sort_onto s (x ∷ xs) tasks) ≡ earliest s x tasks
first-sort_onto s x xs [] = refl
first-sort_onto s x xs (task ∷ tasks) = elim (Bool-cases (goes_left s task x)) [
  | inl e ↦ rw e (first-sort_onto s task (x ∷ xs) tasks)
  | inr e ↦ rw e (first-sort_onto s x (insert_by s task xs) tasks)
]

-- With more rounds than tasks, enqueueing different tasks into an empty run queue ends, and then
-- pick_next_cfs ends and answers, of those with the lowest vruntime, the one enqueued first.
pub pick_next_cfs-enqueue_all :
    (rounds : ℕ) (s : Sched) (task : ℕ) (tasks : List ℕ)
    → s.rq.root ≡ 0
    → AllNew [] (task ∷ tasks)
    → NoDup (task ∷ tasks)
    → suc (length tasks) < rounds
    → (after : Sched) × (enqueue_all rounds s (task ∷ tasks) ≡ done after)
      × (pick_next_cfs rounds after ≡ some (earliest s task tasks))
pick_next_cfs-enqueue_all rounds s task tasks root new_ones d h =
    let all =
      enqueue_all-AllEnqueued rounds s empty (task ∷ tasks) (record { links = root; distinct = tt })
        tt new_ones d (omega arith) in
    let sized : size all.tree ≡ 0 + length (task ∷ tasks) = all.sized in
    let few : size all.tree < rounds = omega arith in
    (
      all.after,
      all.answered,
      pick_next_cfs-first rounds all.after all.tree all.queue few
          ∙ ap some (ap first all.listed ∙ first-sort_onto s task [] tasks),
    )
