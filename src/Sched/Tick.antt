-- ===== src/Sched/Tick.antt =====
-- The timer tick of the scheduler.
use feather_os.Prelude.Words.{sub64}
use feather_os.Memory.State.{inc64}
use feather_os.Prelude.{
  ℕ, zero, suc, ◌+◌, ◌-◌, ◌*◌, ◌/◌, ◌%◌, ◌^◌, ◌<◌, ◌≡◌, refl, inl, inr, true, false, Option, none,
  some, arith, ltb, leb, ◌==◌, if◌then◌else◌, Bool-cases,
}
use feather_os.Sched.{ready, CfsRq, Sched, CallResult, done, divide_error, endless, set_task}
use feather_os.Sched.Nice.{nice_0_load, update_curr_cfs, charged}
use feather_os.Sched.Run.{
  Switch, switched, stays, failed, is_running, update_sched_clock, set_state, schedule,
}

abbrev pub cfs_min_granularity_ns : ℕ
cfs_min_granularity_ns = 1000000

abbrev pub cfs_latency_ns : ℕ
cfs_latency_ns = 60000000

-- The time slice; `none` where it divides by a total load of 0.
abbrev pub time_slice : CfsRq → Option ℕ
time_slice rq =
    let slice = cfs_latency_ns * nice_0_load / rq.load_weight in
    if rq.nr_running == 0
    then some cfs_min_granularity_ns
    else if rq.load_weight == 0
    then none
    else some (if ltb slice cfs_min_granularity_ns then cfs_min_granularity_ns else slice)

-- `current->utime++; sched_state.busy_time++;`
abbrev pub account : Sched → ℕ → Sched
account s current = record s {
  tasks =
      set_task s.tasks current (record (s.tasks current) { utime = inc64 (s.tasks current).utime });
  busy_time = inc64 s.busy_time;
}

-- What follows the call of schedule runs at once where there was no switch, else when the task runs
-- again.
abbrev pub account_after : ℕ → Switch → Switch
account_after current (stays s) = stays (account s current)
account_after current (switched s prev next) = switched s prev next
account_after current (failed o) = failed o

abbrev pub end_slice : ℕ → Sched → ℕ → Option ℕ → Switch
end_slice rounds s current none = failed divide_error
end_slice rounds s current (some slice) =
    if leb slice (sub64 s.clock (s.tasks current).exec_start)
    then account_after current (schedule rounds (set_state s current ready) current)
    else stays (account s current)

abbrev pub tick_charged : ℕ → ℕ → CallResult → Switch
tick_charged rounds current (done s) = end_slice rounds s current (time_slice s.rq)
tick_charged rounds current divide_error = failed divide_error
tick_charged rounds current endless = failed endless

unfoldable pub sched_tick : ℕ → Sched → ℕ → Switch
unfolding schedule update_curr_cfs
sched_tick rounds s zero = stays (update_sched_clock s)
sched_tick rounds s (suc k) =
    let s' = update_sched_clock s in
    if is_running (s'.tasks (suc k)).state
    then tick_charged rounds (suc k) (update_curr_cfs s' (suc k))
    else stays (account s' (suc k))

-- The state runs on or the processor stops at a division by zero.
abbrev pub NoSwitch : Switch → Type 0
NoSwitch (switched s prev next) = ⊥
NoSwitch (stays s) = Unit
NoSwitch (failed divide_error) = Unit
NoSwitch (failed endless) = ⊥
NoSwitch (failed (done s)) = ⊥

-- A time slice that is given is not 0.
abbrev LongSlice : Option ℕ → Type 0
LongSlice none = Unit
LongSlice (some slice) = 0 < slice

at_least :
    (slice : ℕ) → 0 < (if ltb slice cfs_min_granularity_ns then cfs_min_granularity_ns else slice)
at_least slice = ground arith

time_slice-LongSlice : (rq : CfsRq) → LongSlice (time_slice rq)
time_slice-LongSlice rq = elim (Bool-cases (rq.nr_running == 0)) [
  | inl none_runs ↦ rw none_runs (omega arith)
  | inr some_run ↦ elim (Bool-cases (rq.load_weight == 0)) [
    | inl no_load ↦ rw (some_run, no_load) tt
    | inr load ↦ rw (some_run, load) (at_least (cfs_latency_ns * nice_0_load / rq.load_weight))
  ]
]

just_started : (clock slice : ℕ) → 0 < slice → leb slice ((clock + 2 ^ 64 - clock) % 2 ^ 64) ≡ false
just_started clock slice h = ground arith

-- update_curr_cfs has just set exec_start to the clock.
end_slice-NoSwitch :
    (rounds : ℕ) (s : Sched) (current : ℕ) (x : Option ℕ)
    → LongSlice x
    → (s.tasks current).exec_start ≡ s.clock
    → NoSwitch (end_slice rounds s current x)
end_slice-NoSwitch rounds s current none h e = tt
end_slice-NoSwitch rounds s current (some slice) h e = rw (e, just_started s.clock slice h) tt

exec_start-charged : (s : Sched) (i : ℕ) → ((charged s i).tasks i).exec_start ≡ s.clock
exec_start-charged s i = let same : (i == i) ≡ true = ground arith in rw same refl

-- A timer tick never switches to another task and never calls schedule without an end, however long
-- the current task has run: it goes on with the same task or faults at a division by a load weight
-- of 0.
pub sched_tick-NoSwitch :
    (rounds : ℕ) (s : Sched) (current : ℕ) → NoSwitch (sched_tick rounds s current)
unfolding sched_tick update_curr_cfs
sched_tick-NoSwitch rounds s zero = tt
sched_tick-NoSwitch rounds s (suc k) = elim (Bool-cases (is_running (s.tasks (suc k)).state)) [
  | inr idle ↦ rw idle tt
  | inl runs ↦ elim (Bool-cases ((s.tasks (suc k)).load_weight == 0)) [
    | inl weightless ↦ rw (runs, weightless) tt
    | inr weighted ↦
        let s' = charged (update_sched_clock s) (suc k) in
        rw (runs, weighted)
          (end_slice-NoSwitch rounds s' (suc k) (time_slice s'.rq) (time_slice-LongSlice s'.rq)
            (exec_start-charged (update_sched_clock s) (suc k)))
  ]
]
