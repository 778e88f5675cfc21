-- ===== src/Sched/Seek.antt =====
-- The search of cfs_dequeue for a task in a search tree.
use feather_os.Prelude.{
  ℕ, zero, suc, ◌<◌, ◌≡◌, refl, sym, ◌∙◌, inl, inr, true, false, some, List, ◌∷◌, arith, ◌==◌,
  if◌then◌else◌, ==_iff, Bool-cases,
}
use feather_os.Sched.{Sched, goes_left, find_task}
use feather_os.Sched.Tree.{
  TaskTree, empty, fork, Branch, left_below, right_below, whole, Links, LinksAbove,
}
use feather_os.Sched.Links.{slot_of, parent_of, read_slot-LinksAbove}
use feather_os.Sched.Enqueue.{size}

-- What is left of a task's subtrees: the left one, and the right one only where there is no left one.
abbrev pub remaining : TaskTree → TaskTree → TaskTree
remaining empty r = r
remaining (fork a j b) r = fork a j b

-- The tree after the removal of a task, which is looked for by its vruntime.
abbrev pub remove_task : Sched → ℕ → TaskTree → TaskTree
remove_task s task empty = empty
remove_task s task (fork l i r) =
    let in_left = fork (remove_task s task l) i r in
    let in_right = fork l i (remove_task s task r) in
    if i == task then remaining l r else if goes_left s task i then in_left else in_right

abbrev pub cut_top : TaskTree → TaskTree
cut_top empty = empty
cut_top (fork l i r) = remaining l r

abbrev pub TopIs : ℕ → TaskTree → Type 0
TopIs task empty = Unit
TopIs task (fork l i r) = i ≡ task

-- What the search ends with.
pub record Sought (n : ℕ) (s : Sched) (task : ℕ) (t : TaskTree) (start : List Branch) : Type 0 where
  pub below : TaskTree
  pub branches : List Branch
  pub top : ℕ
  pub found : find_task n s task (slot_of start) ≡ some (slot_of branches)
  pub links : Links s.tasks top (parent_of branches) below
  pub above : LinksAbove s.tasks s.rq.root branches top (parent_of branches)
  pub same : whole below branches ≡ whole t start
  pub cut : whole (cut_top below) branches ≡ whole (remove_task s task t) start
  pub on_top : TopIs task below

pub found_it : (i : ℕ) → (i == i) ≡ true
found_it i = ground arith

pub not_null : (i : ℕ) → 0 < i → (i == 0) ≡ false
not_null i h = ground arith

pub find_task-Sought :
    (n : ℕ) (s : Sched) (task : ℕ) (t : TaskTree) (fs : List Branch) (p : ℕ)
    → size t < n
    → Links s.tasks p (parent_of fs) t
    → LinksAbove s.tasks s.rq.root fs p (parent_of fs)
    → Sought n s task t fs
unfolding find_task
find_task-Sought zero s task t fs p h l above = absurd (omega arith)
find_task-Sought (suc n) s task empty fs p h l above =
    let at_zero = read_slot-LinksAbove s fs p (parent_of fs) above ∙ l in
    record {
      below = empty;
      branches = fs;
      top = p;
      found = rw at_zero refl;
      links = l;
      above = above;
      same = refl;
      cut = refl;
      on_top = tt;
    }
find_task-Sought (suc n) s task (fork a i b) fs p h (e, some_i, e', la, lb) above =
    let at_i = read_slot-LinksAbove s fs p (parent_of fs) above ∙ e in
    let above_i : LinksAbove s.tasks s.rq.root fs i (s.tasks i).parent = rw (e', sym e) above in
    elim (Bool-cases (i == task)) [
      | inl hit ↦
          let is_task = (==_iff i task).0 hit in
          record {
            below = fork a i b;
            branches = fs;
            top = p;
            found = rw (at_i, not_null i some_i, hit) refl;
            links = (e, some_i, e', la, lb);
            above = above;
            same = refl;
            cut = rw hit refl;
            on_top = is_task;
          }
      | inr miss ↦ elim (Bool-cases (goes_left s task i)) [
        | inl left ↦
            let d =
              find_task-Sought n s task a (left_below i b ∷ fs) (s.tasks i).left (omega arith) la
                (refl, some_i, refl, lb, above_i) in
            record {
              below = d.below;
              branches = d.branches;
              top = d.top;
              found = rw (at_i, not_null i some_i, miss, left) d.found;
              links = d.links;
              above = d.above;
              same = d.same;
              cut = rw (miss, left) d.cut;
              on_top = d.on_top;
            }
        | inr right ↦
            let d =
              find_task-Sought n s task b (right_below a i ∷ fs) (s.tasks i).right (omega arith) lb
                (refl, some_i, refl, la, above_i) in
            record {
              below = d.below;
              branches = d.branches;
              top = d.top;
              found = rw (at_i, not_null i some_i, miss, right) d.found;
              links = d.links;
              above = d.above;
              same = d.same;
              cut = rw (miss, right) d.cut;
              on_top = d.on_top;
            }
      ]
    ]
