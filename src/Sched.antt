-- ===== src/Sched.antt =====
-- The scheduler of FeatherOS/kernel/sched/schedule.c: its state, and the run queue. A task is a number
-- that stands for its address, 0 for NULL, and the tasks are a function from those numbers; there is
-- one CPU and one run queue. A loop over the tree takes the rounds it may still make.
pub mod Tree
pub mod Links
pub mod Enqueue
pub mod Order
pub mod Pick
pub mod Seek
pub mod Search
pub mod Shrink
pub mod Kept
pub mod Unlink
pub mod Dequeue
pub mod Nice
pub mod Load
pub mod Run
pub mod Tick
mod Tests
use feather_os.Prelude.Words.{inc32, dec32, sub64}
use feather_os.Bitmap.{add64}
use mathlib.Core.Path.{subst, fun_ext}
use mathlib.Core.Logic.{dite, ite}
use native.Mathlib.Nat.{
  add_comm, add_assoc, le_refl, le_trans, mod-eq_of_lt, mod-lt, mod-eq-sub-mod, mod-add-mod,
}
use native.Mathlib.Decide.{ℕ_discrete, dec_lt, dec_le}
use feather_os.Prelude.{
  ℕ, zero, suc, ◌+◌, ◌-◌, ◌*◌, ◌/◌, ◌%◌, ◌^◌, ◌≤◌, ◌<◌, min, max, ◌≡◌, refl, sym, ap, ◌∙◌, ◌≢◌, ◌↔◌,
  ◌⊎◌, inl, inr, Bool, true, false, not, ◌&&◌, ◌||◌, Option, none, some, List, [], ◌∷◌, ◌++◌, map,
  arith, ltb, leb, ◌==◌, if◌then◌else◌, ltb→lt, lt→ltb, leb→le, ==_iff, tests, Bool-cases,
  Option-cases, length, get_or, set, take, drop, replicate,
}
use feather_os.Prelude.Int.{ℤ}

pub data TaskState : Type 0 where
  new ready running blocked sleeping stopped zombie exited : TaskState

-- `task_t`, the fields the scheduler uses; `my_q` says whether it points to the run queue or is NULL.
pub record Task : Type 0 where
  pub state : TaskState
  pub flags : ℕ
  pub priority : ℤ
  pub vruntime : ℕ
  pub my_q : Bool
  pub parent : ℕ
  pub left : ℕ
  pub right : ℕ
  pub load_weight : ℕ
  pub exec_start : ℕ
  pub sleep_deadline : ℕ
  pub utime : ℕ

-- `cfs_rq_t`; the array `tasks`, `avg_vruntime` and `last_update` are not used.
pub record CfsRq : Type 0 where
  pub root : ℕ
  pub idle_task : ℕ
  pub nr_running : ℕ
  pub min_vruntime : ℕ
  pub exec_clock : ℕ
  pub load_weight : ℕ

-- The run queue, `sched_state` and the tasks.
pub record Sched : Type 0 where
  pub tasks : ℕ → Task
  pub rq : CfsRq
  pub clock : ℕ
  pub total_switches : ℕ
  pub idle_calls : ℕ
  pub busy_time : ℕ

-- What a call comes to: a state, the processor's fault on a division by zero, or no end within the
-- rounds given.
pub data CallResult : Type 0 where
  done : Sched → CallResult
  divide_error : CallResult
  endless : CallResult

abbrev pub and_then : CallResult → (Sched → CallResult) → CallResult
and_then (done s) f = f s
and_then divide_error f = divide_error
and_then endless f = endless

-- `*task = x`
abbrev pub set_task : (ℕ → Task) → ℕ → Task → ℕ → Task
set_task tasks i x j = if j == i then x else tasks j

-- A `task_t **`: where a pointer to a task stands.
pub data Slot : Type 0 where
  at_root : Slot
  at_left at_right : ℕ → Slot

abbrev pub read_slot : Sched → Slot → ℕ
read_slot s at_root = s.rq.root
read_slot s (at_left i) = (s.tasks i).left
read_slot s (at_right i) = (s.tasks i).right

abbrev pub set_tasks : Sched → (ℕ → Task) → Sched
set_tasks s tasks = record s { tasks = tasks }

abbrev pub set_rq : Sched → CfsRq → Sched
set_rq s rq = record s { rq = rq }

abbrev pub set_slot : Sched → Slot → ℕ → Sched
set_slot s at_root t = record s { rq = record (s.rq) { root = t } }
set_slot s (at_left i) t = set_tasks s (set_task s.tasks i (record (s.tasks i) { left = t }))
set_slot s (at_right i) t = set_tasks s (set_task s.tasks i (record (s.tasks i) { right = t }))

-- `task->vruntime < (*p)->vruntime`
abbrev pub goes_left : Sched → ℕ → ℕ → Bool
goes_left s task i = ltb (s.tasks task).vruntime (s.tasks i).vruntime

-- The loop of cfs_enqueue from a slot below a parent: the free slot and the task above it.
unfoldable pub find_place : ℕ → Sched → ℕ → Slot → ℕ → Option (Slot × ℕ)
find_place zero s task p parent = none
find_place (suc n) s task p parent =
    let i = read_slot s p in
    let in_left = find_place n s task (at_left i) i in
    let in_right = find_place n s task (at_right i) i in
    if i == 0 then some (p, parent) else if goes_left s task i then in_left else in_right

-- The links of a task that has no children.
abbrev pub attached : Task → ℕ → Task
attached t parent = record t { my_q = true; parent = parent; left = 0; right = 0 }

abbrev pub lower_min : ℕ → ℕ → ℕ
lower_min min_vruntime vruntime =
    if (min_vruntime == 0) || ltb vruntime min_vruntime then vruntime else min_vruntime

-- The counts after a task was linked.
abbrev pub count_enqueued : Sched → ℕ → Sched
count_enqueued s task = set_rq s (record (s.rq) {
  nr_running = inc32 s.rq.nr_running;
  load_weight = add64 s.rq.load_weight (s.tasks task).load_weight;
  min_vruntime = lower_min s.rq.min_vruntime (s.tasks task).vruntime;
})

abbrev pub link_at : Sched → ℕ → Option (Slot × ℕ) → CallResult
link_at s task none = endless
link_at s task (some (p, parent)) = done (
    count_enqueued
      (set_slot (set_tasks s (set_task s.tasks task (attached (s.tasks task) parent))) p task) task)

unfoldable pub cfs_enqueue : ℕ → Sched → ℕ → CallResult
unfolding find_place
cfs_enqueue rounds s task = link_at s task (find_place rounds s task at_root 0)

-- The loop of cfs_dequeue from a slot on.
unfoldable pub find_task : ℕ → Sched → ℕ → Slot → Option Slot
find_task zero s task p = none
find_task (suc n) s task p =
    let i = read_slot s p in
    let in_left = find_task n s task (at_left i) in
    let in_right = find_task n s task (at_right i) in
    if (i == 0) || (i == task) then some p else if goes_left s task i then in_left else in_right

abbrev pub successor : Task → ℕ
successor t = if t.left == 0 then t.right else t.left

-- The link that leads to the task is set to its successor; `p` is the slot found.
abbrev pub bypass : Sched → Slot → ℕ → ℕ → Sched
bypass s p task next =
    let above = (s.tasks task).parent in
    if above == 0
    then set_slot s p next
    else if (s.tasks above).left == task
    then set_slot s (at_left above) next
    else set_slot s (at_right above) next

abbrev pub set_parent : Sched → ℕ → ℕ → Sched
set_parent s i parent =
    if i == 0 then s else set_tasks s (set_task s.tasks i (record (s.tasks i) { parent = parent }))

abbrev pub unlink : Sched → ℕ → Slot → Sched
unlink s task p =
    if read_slot s p == task
    then set_parent (bypass s p task (successor (s.tasks task))) (successor (s.tasks task))
        (s.tasks task).parent
    else s

abbrev pub count_dequeued : Sched → ℕ → Sched
count_dequeued s task = record s {
  tasks = set_task s.tasks task (record (s.tasks task) { my_q = false });
  rq = record (s.rq) {
    nr_running = dec32 s.rq.nr_running;
    load_weight = sub64 s.rq.load_weight (s.tasks task).load_weight;
  };
}

abbrev pub unlink_found : Sched → ℕ → Option Slot → CallResult
unlink_found s task none = endless
unlink_found s task (some p) = done (count_dequeued (unlink s task p) task)

unfoldable pub cfs_dequeue : ℕ → Sched → ℕ → CallResult
unfolding find_task
cfs_dequeue rounds s task =
    if (s.tasks task).my_q then unlink_found s task (find_task rounds s task at_root) else done s

-- The loop of pick_next_cfs at a task.
unfoldable pub leftmost_from : ℕ → Sched → ℕ → Option ℕ
leftmost_from zero s i = none
leftmost_from (suc n) s i =
    let further = leftmost_from n s (s.tasks i).left in
    if (s.tasks i).left == 0 then some i else further

-- The task with the lowest vruntime, 0 for NULL; `none` where the rounds run out.
unfoldable pub pick_next_cfs : ℕ → Sched → Option ℕ
unfolding leftmost_from
pick_next_cfs rounds s = if s.rq.root == 0 then some 0 else leftmost_from rounds s s.rq.root
