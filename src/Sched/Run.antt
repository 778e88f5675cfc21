-- ===== src/Sched/Run.antt =====
-- The operations of the scheduler. get_current_task is the argument `current`, 0 for NULL. schedule
-- ends in switch_to, which is assembly: the result says between which tasks it switches.
use feather_os.Bitmap.{add64}
use feather_os.Memory.State.{inc64}
use feather_os.Prelude.{
  ℕ, zero, suc, ◌/◌, Bool, true, false, not, ◌&&◌, ◌||◌, Option, none, some, ltb, ◌==◌,
  if◌then◌else◌,
}
use feather_os.Prelude.Int.{is_zero}
use Prim.Native.Nat.{bit_and}
use feather_os.Sched.{
  TaskState, ready, running, blocked, sleeping, Task, Sched, CallResult, done, divide_error,
  endless, and_then, set_task, set_tasks, cfs_enqueue, cfs_dequeue, pick_next_cfs,
}
use feather_os.Sched.Nice.{nice_0_load, nice_to_load, update_curr_cfs}

abbrev pub update_sched_clock : Sched → Sched
update_sched_clock s = record s { clock = inc64 s.clock }

abbrev pub is_running : TaskState → Bool
is_running running = true
is_running _ = false

abbrev is_ready : TaskState → Bool
is_ready ready = true
is_ready _ = false

abbrev tf_zombie : ℕ
tf_zombie = 8

abbrev pub set_state : Sched → ℕ → TaskState → Sched
set_state s i state = set_tasks s (set_task s.tasks i (record (s.tasks i) { state = state }))

abbrev pub place_entity : Sched → ℕ → ℕ → Sched
place_entity s task vruntime =
    let target = s.rq.min_vruntime in
    let wanted = if vruntime == 0 then target else vruntime in
    set_tasks s (
      set_task s.tasks task
        (record (s.tasks task) { vruntime = if ltb wanted target then target else wanted }))

-- `if (prev->state == TASK_STATE_RUNNING) prev->state = TASK_STATE_READY;`
abbrev preempted : Sched → ℕ → Sched
preempted s prev = if is_running (s.tasks prev).state then set_state s prev ready else s

-- update_curr_cfs, cfs_dequeue and cfs_enqueue in turn.
abbrev pub requeue : ℕ → Sched → ℕ → CallResult
requeue rounds s task =
    and_then (update_curr_cfs s task)
      (λ s1. and_then (cfs_dequeue rounds s1 task) (λ s2. cfs_enqueue rounds s2 task))

-- Whether the task goes back into the run queue.
abbrev goes_back : Task → Bool
goes_back t = is_ready t.state && (bit_and t.flags tf_zombie == 0)

abbrev requeue_prev : ℕ → Sched → ℕ → CallResult
requeue_prev rounds s zero = done s
requeue_prev rounds s (suc k) =
    let s' = preempted s (suc k) in
    let queued = requeue rounds s' (suc k) in
    if goes_back (s'.tasks (suc k)) then queued else done s'

-- The state after a call, and the tasks that switch_to is called with.
pub data Switch : Type 0 where
  switched : Sched → ℕ → ℕ → Switch
  stays : Sched → Switch
  failed : CallResult → Switch

-- The task picked, or the idle task where there is none.
abbrev or_idle : Sched → ℕ → Sched × ℕ
or_idle s zero = (record s { idle_calls = inc64 s.idle_calls }, s.rq.idle_task)
or_idle s (suc k) = (s, suc k)

abbrev start_next : Sched → ℕ → Sched
start_next s zero = s
start_next s (suc k) =
    set_tasks s (
      set_task s.tasks (suc k) (record (s.tasks (suc k)) { exec_start = s.clock; state = running }))

abbrev switch_from : Sched → ℕ → ℕ → Switch
switch_from s prev next =
    let s' = start_next (record s { total_switches = inc64 s.total_switches }) next in
    if next == prev
    then stays s
    else if (prev == 0) || (next == 0)
    then stays s'
    else switched s' prev next

abbrev pick_and_switch : Sched → ℕ → Option ℕ → Switch
pick_and_switch s prev none = failed endless
pick_and_switch s prev (some i) = let chosen = or_idle s i in switch_from (chosen.0) prev (chosen.1)

abbrev after_requeue : ℕ → ℕ → CallResult → Switch
after_requeue rounds prev (done s) = pick_and_switch s prev (pick_next_cfs rounds s)
after_requeue rounds prev divide_error = failed divide_error
after_requeue rounds prev endless = failed endless

unfoldable pub schedule : ℕ → Sched → ℕ → Switch
schedule rounds s prev = after_requeue rounds prev (requeue_prev rounds (update_sched_clock s) prev)

abbrev then_schedule : ℕ → ℕ → CallResult → Switch
then_schedule rounds current (done s) = schedule rounds s current
then_schedule rounds current divide_error = failed divide_error
then_schedule rounds current endless = failed endless

unfoldable pub yield : ℕ → Sched → ℕ → Switch
unfolding schedule
yield rounds s zero = stays s
yield rounds s (suc k) =
    then_schedule rounds (suc k)
      (and_then (requeue rounds s (suc k)) (λ s'. done (set_state s' (suc k) ready)))

abbrev is_waiting : TaskState → Bool
is_waiting blocked = true
is_waiting sleeping = true
is_waiting _ = false

-- The outcome, and whether the result is 0 in place of -1.
unfoldable pub wake_up_process : ℕ → Sched → ℕ → CallResult × Bool
wake_up_process rounds s zero = (done s, false)
wake_up_process rounds s (suc k) =
    if is_waiting (s.tasks (suc k)).state
    then (cfs_enqueue rounds (set_state s (suc k) ready) (suc k), true)
    else (done s, false)

abbrev leave_queue : ℕ → Sched → ℕ → TaskState → CallResult
leave_queue rounds s task state =
    if is_running (s.tasks task).state && not (is_running state)
    then cfs_dequeue rounds s task
    else done s

unfoldable pub set_task_state : ℕ → Sched → ℕ → TaskState → CallResult
set_task_state rounds s zero state = done s
set_task_state rounds s (suc k) state = and_then (leave_queue rounds s (suc k) state) (λ s1.
    let s2 = set_state s1 (suc k) state in
    if is_running state then cfs_enqueue rounds s2 (suc k) else done s2)

unfoldable pub schedule_timeout : ℕ → Sched → ℕ → ℕ → Switch
unfolding schedule
schedule_timeout rounds s zero ns = stays s
schedule_timeout rounds s (suc k) ns =
    let t = s.tasks (suc k) in
    let asleep = record t { sleep_deadline = add64 s.clock (ns / 1000000); state = sleeping } in
    then_schedule rounds (suc k)
      (cfs_dequeue rounds (set_tasks s (set_task s.tasks (suc k) asleep)) (suc k))

abbrev forked : Task → Task
forked t = record t {
  my_q = false;
  parent = 0;
  left = 0;
  right = 0;
  exec_start = 0;
  vruntime = 0;
  load_weight = if is_zero t.priority then nice_0_load else nice_to_load t.priority;
}

unfoldable pub sched_fork : ℕ → Sched → ℕ → CallResult
sched_fork rounds s zero = done s
sched_fork rounds s (suc k) =
    cfs_enqueue rounds
      (place_entity (set_tasks s (set_task s.tasks (suc k) (forked (s.tasks (suc k))))) (suc k) 0)
      (suc k)

unfoldable pub sched_exit : ℕ → Sched → ℕ → CallResult
sched_exit rounds s zero = done s
sched_exit rounds s (suc k) = cfs_dequeue rounds s (suc k)
