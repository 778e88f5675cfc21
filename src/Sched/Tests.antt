-- ===== src/Sched/Tests.antt =====
-- Runs of the scheduler.
use feather_os.Prelude.{ℕ, ◌≡◌, refl, ◌↔◌, true, some, [], ◌∷◌, arith, ◌==◌, if◌then◌else◌}
use mathlib.Core.Option
use feather_os.Prelude.Int.{pos, negsuc}
use feather_os.Sched.{running, Task, Sched, done, divide_error, pick_next_cfs}
use feather_os.Sched.Tree.{TaskTree, empty, fork}
use feather_os.Sched.Enqueue.{IsQueue, Enqueued, cfs_enqueue-Enqueued}
use feather_os.Sched.Seek.{remove_task}
use feather_os.Sched.Search.{IsSearchTree}
use feather_os.Sched.Tree.{right_below}
use feather_os.Sched.Dequeue.{Dequeued, cfs_dequeue-Dequeued}
use feather_os.Sched.Pick.{enqueue_all, pick_next_cfs-enqueue_all}
use feather_os.Sched.Nice.{add_int, update_curr_cfs, sys_nice}
use feather_os.Sched.Load.{sys_nice-divide_error_iff}
use feather_os.Sched.Tick.{NoSwitch, sched_tick, sched_tick-NoSwitch}

abbrev task_at : ℕ → ℕ → ℕ → ℕ → Task
task_at vruntime parent left right = record {
  state = running;
  flags = 0;
  priority = pos 0;
  vruntime = vruntime;
  my_q = true;
  parent = parent;
  left = left;
  right = right;
  load_weight = 1024;
  exec_start = 0;
  sleep_deadline = 0;
  utime = 0;
}

-- Task 1 with 2 on its left and 3 on its right; 4 and 5 are not linked.
abbrev linked_tasks : ℕ → Task
linked_tasks i =
    if i == 1
    then task_at 30 0 2 3
    else if i == 2
    then task_at 10 1 0 0
    else if i == 3
    then task_at 40 1 0 0
    else if i == 4
    then task_at 20 0 0 0
    else task_at 10 0 0 0

abbrev queue_at : ℕ → Sched
queue_at root = record {
  tasks = linked_tasks;
  rq = record {
    root = root;
    idle_task = 9;
    nr_running = 3;
    min_vruntime = 10;
    exec_clock = 0;
    load_weight = 3072;
  };
  clock = 7;
  total_switches = 0;
  idle_calls = 0;
  busy_time = 0;
}

abbrev three : TaskTree
three = fork (fork empty 2 empty) 1 (fork empty 3 empty)

three-IsQueue : IsQueue (queue_at 1) three
three-IsQueue = record {
  links = (
    refl,
    omega arith,
    refl,
    (refl, omega arith, refl, refl, refl),
    (refl, omega arith, refl, refl, refl),
  );
  distinct = (
    (λ e. absurd (omega arith), (λ e. absurd (omega arith), tt)),
    ((λ e. absurd (omega arith), tt), (tt, tt)),
  );
}

cfs_enqueue-Enqueued_example : Enqueued 4 (queue_at 1) 4 three
cfs_enqueue-Enqueued_example =
    cfs_enqueue-Enqueued 4 (queue_at 1) 4 three three-IsQueue (omega arith)
      (
        (λ e. absurd (omega arith)),
        ((λ e. absurd (omega arith)), ((λ e. absurd (omega arith)), tt)),
      )
      (omega arith)

three-IsSearchTree : IsSearchTree (queue_at 1) three
three-IsSearchTree = ((omega arith, tt), (omega arith, tt), (tt, tt, tt, tt), (tt, tt, tt, tt))

cfs_dequeue-Dequeued_example :
    Dequeued 4 (queue_at 1) 3 empty empty (right_below (fork empty 2 empty) 1 ∷ [])
cfs_dequeue-Dequeued_example =
    cfs_dequeue-Dequeued 4 (queue_at 1) 3 empty empty (right_below (fork empty 2 empty) 1 ∷ [])
      three-IsQueue three-IsSearchTree (omega arith) refl (omega arith)

-- The right subtree of task 1 is no longer in the tree.
lost : remove_task (queue_at 1) 1 three ≡ fork empty 2 empty
lost = refl

pick_next_cfs-enqueue_all_example :
    (after : Sched) × (enqueue_all 5 (queue_at 0) (3 ∷ 2 ∷ 4 ∷ 5 ∷ []) ≡ done after)
    × (pick_next_cfs 5 after ≡ some 2)
pick_next_cfs-enqueue_all_example =
    pick_next_cfs-enqueue_all 5 (queue_at 0) 3 (2 ∷ 4 ∷ 5 ∷ []) refl
      (omega arith, tt, (omega arith, tt, (omega arith, tt, (omega arith, tt, tt))))
      (
        (λ e. absurd (omega arith), (λ e. absurd (omega arith), (λ e. absurd (omega arith), tt))),
        (
          (λ e. absurd (omega arith), (λ e. absurd (omega arith), tt)),
          ((λ e. absurd (omega arith), tt), (tt, tt)),
        ),
      )
      (omega arith)

sched_tick-NoSwitch_example : NoSwitch (sched_tick 4 (queue_at 1) 1)
sched_tick-NoSwitch_example = sched_tick-NoSwitch 4 (queue_at 1) 1

sys_nice-divide_error_iff_example :
    (Option.map (λ s'. update_curr_cfs s' 1) (sys_nice (queue_at 1) 1 (pos 25)) ≡ some divide_error)
    ↔ (pos 19 ≡ pos 19)
unfolding add_int
sys_nice-divide_error_iff_example = sys_nice-divide_error_iff (queue_at 1) 0 (pos 25)

wraps_around :
    (add_int (pos 19) (negsuc 38) ≡ negsuc 19)
    × (add_int (pos 1) (pos 0x7FFF_FFFF) ≡ negsuc 0x7FFF_FFFF)
unfolding add_int
wraps_around = (refl, refl)
