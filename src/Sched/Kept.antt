-- ===== src/Sched/Kept.antt =====
-- What taking a task out of the links keeps: the vruntimes and, before they are counted, the tasks.
use feather_os.Prelude.{ℕ, ◌≡◌, refl, ◌∙◌, inl, inr, arith, ◌==◌, Bool-cases}
use feather_os.Sched.{
  Sched, Slot, at_root, at_left, at_right, read_slot, set_slot, successor, bypass, set_parent,
  unlink, count_dequeued,
}

set_slot-nr_running :
    (s : Sched) (p : Slot) (t : ℕ) → (set_slot s p t).rq.nr_running ≡ s.rq.nr_running
set_slot-nr_running s at_root t = refl
set_slot-nr_running s (at_left i) t = refl
set_slot-nr_running s (at_right i) t = refl

bypass-nr_running :
    (s : Sched) (p : Slot) (task next : ℕ) → (bypass s p task next).rq.nr_running ≡ s.rq.nr_running
bypass-nr_running s p task next = ground (arith, set_slot-nr_running s p next)

pub unlink-nr_running :
    (s : Sched) (task : ℕ) (p : Slot) → (unlink s task p).rq.nr_running ≡ s.rq.nr_running
unlink-nr_running s task p = ground (arith, bypass-nr_running s p task (successor (s.tasks task)))

set_slot-vruntime :
    (s : Sched) (p : Slot) (t j : ℕ) → ((set_slot s p t).tasks j).vruntime ≡ (s.tasks j).vruntime
set_slot-vruntime s at_root t j = refl
set_slot-vruntime s (at_left i) t j = ground arith
set_slot-vruntime s (at_right i) t j = ground arith

bypass-vruntime :
    (s : Sched) (p : Slot) (task next j : ℕ)
    → ((bypass s p task next).tasks j).vruntime ≡ (s.tasks j).vruntime
bypass-vruntime s p task next j = ground (arith, set_slot-vruntime s p next j)

set_parent-vruntime :
    (s : Sched) (i parent j : ℕ) → ((set_parent s i parent).tasks j).vruntime ≡ (s.tasks j).vruntime
set_parent-vruntime s i parent j = ground arith

pub unlink-vruntime :
    (s : Sched) (task : ℕ) (p : Slot) (j : ℕ)
    → ((unlink s task p).tasks j).vruntime ≡ (s.tasks j).vruntime
unlink-vruntime s task p j =
    let next = successor (s.tasks task) in
    let by = bypass s p task next in
    elim (Bool-cases (read_slot s p == task)) [
      | inl hit ↦
          rw hit
            (set_parent-vruntime by next (s.tasks task).parent j ∙ bypass-vruntime s p task next j)
      | inr miss ↦ rw miss refl
    ]

pub count_dequeued-vruntime :
    (s : Sched) (task j : ℕ) → ((count_dequeued s task).tasks j).vruntime ≡ (s.tasks j).vruntime
count_dequeued-vruntime s task j = ground arith
