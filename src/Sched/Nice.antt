-- ===== src/Sched/Nice.antt =====
-- Nice values, their weights and the load that the scheduler makes of them.
use feather_os.Prelude.Words.{sub64}
use feather_os.Bitmap.{add64}
use feather_os.Prelude.{
  ℕ, zero, suc, ◌+◌, ◌-◌, ◌*◌, ◌/◌, ◌%◌, ◌^◌, Option, none, some, List, [], ◌∷◌, ltb, ◌==◌,
  if◌then◌else◌, get_or,
}
use feather_os.Prelude.Int.{ℤ, pos, negsuc, to_int}
use feather_os.Sched.{Sched, CallResult, done, divide_error, set_task, set_tasks}

-- The weights of -20 to 19.
abbrev pub nice_to_weight : List ℕ
nice_to_weight =
    88761 ∷ 71755 ∷ 56483 ∷ 46273 ∷ 36291 ∷ 29154 ∷ 23254 ∷ 18705 ∷ 14949 ∷ 11916 ∷ 9548 ∷ 7620
    ∷ 6100 ∷ 4904 ∷ 3906 ∷ 3121 ∷ 2501 ∷ 1991 ∷ 1586 ∷ 1277 ∷ 1024 ∷ 820 ∷ 655 ∷ 526 ∷ 423 ∷ 335
    ∷ 272 ∷ 215 ∷ 172 ∷ 137 ∷ 110 ∷ 87 ∷ 70 ∷ 56 ∷ 45 ∷ 36 ∷ 29 ∷ 23 ∷ 18 ∷ 15 ∷ []

-- `nice + 20`, once nice is between -20 and 19.
abbrev pub nice_index : ℤ → ℕ
nice_index (pos n) = n + 20
nice_index (negsuc n) = 19 - n

abbrev pub clamp_nice : ℤ → ℤ
clamp_nice (pos n) = if ltb 19 n then pos 19 else pos n
clamp_nice (negsuc n) = if ltb 19 n then negsuc 19 else negsuc n

unfoldable pub nice_to_weight_val : ℤ → ℕ
nice_to_weight_val nice = get_or nice_to_weight (nice_index (clamp_nice nice)) 0

abbrev pub nice_0_load : ℕ
nice_0_load = 1024

abbrev pub cfs_load_shift : ℕ
cfs_load_shift = 6

unfoldable pub nice_to_load : ℤ → ℕ
unfolding nice_to_weight_val
nice_to_load nice = nice_to_weight_val nice * 2 ^ cfs_load_shift % 2 ^ 64 / nice_0_load

-- The 32 bits of an `int`.
abbrev int_bits : ℤ → ℕ
int_bits (pos n) = n % 2 ^ 32
int_bits (negsuc n) = 2 ^ 32 - 1 - n % 2 ^ 32

-- The addition of two `int`s, which wraps around at 32 bits as the machine's does; where it leaves
-- the range of `int`, C does not say what it gives.
unfoldable pub add_int : ℤ → ℤ → ℤ
add_int a b = to_int (int_bits a + int_bits b)

-- The task with another nice value.
abbrev pub reniced : Sched → ℕ → ℤ → Sched
reniced s i nice =
    set_tasks s
      (set_task s.tasks i (record (s.tasks i) { priority = nice; load_weight = nice_to_load nice }))

-- `none` where there is no current task, for which the result is -1.
unfoldable pub sys_nice : Sched → ℕ → ℤ → Option Sched
unfolding nice_to_load
sys_nice s zero increment = none
sys_nice s (suc k) increment =
    some (reniced s (suc k) (clamp_nice (add_int (s.tasks (suc k)).priority increment)))

-- The accounting of a time slice of the task, whose load weight is not 0.
abbrev pub charged : Sched → ℕ → Sched
charged s current =
    let t = s.tasks current in
    let delta_exec = sub64 s.clock t.exec_start in
    let vruntime = add64 t.vruntime (delta_exec * nice_0_load % 2 ^ 64 / t.load_weight) in
    record s {
      tasks = set_task s.tasks current (record t { exec_start = s.clock; vruntime = vruntime });
      rq = record (s.rq) {
        min_vruntime = if ltb vruntime s.rq.min_vruntime then vruntime else s.rq.min_vruntime;
        exec_clock = add64 s.rq.exec_clock delta_exec;
      };
    }

unfoldable pub update_curr_cfs : Sched → ℕ → CallResult
update_curr_cfs s current =
    if (s.tasks current).load_weight == 0 then divide_error else done (charged s current)
