-- ===== src/Sched/Load.antt =====
-- The load weight of a nice value, by which update_curr_cfs divides.
use native.Mathlib.Decide.{ℕ_discrete}
use feather_os.Prelude.{
  ℕ, zero, suc, ◌+◌, ◌-◌, ◌*◌, ◌/◌, ◌%◌, ◌^◌, ◌<◌, ◌≡◌, refl, sym, ap, ◌∙◌, ◌≢◌, ◌↔◌, inl, inr,
  Bool, true, false, ◌&&◌, some, List, [], ◌∷◌, arith, ltb, leb, ◌==◌, ==_iff, Bool-cases, get_or,
}
use mathlib.Core.Option
use mathlib.Core.Bool.{and-eq-true_iff}
use feather_os.Prelude.Int.{ℤ, pos, negsuc}
use feather_os.Sched.{Sched, done, divide_error}
use feather_os.Sched.Nice.{
  nice_to_weight, nice_index, clamp_nice, nice_to_weight_val, nice_to_load, add_int, reniced,
  sys_nice, charged, update_curr_cfs,
}

-- A test of the first entries of a list.
abbrev all_before : ℕ → (ℕ → Bool) → List ℕ → Bool
all_before zero f ws = true
all_before (suc n) f [] = false
all_before (suc n) f (w ∷ ws) = f w && all_before n f ws

all_before-get_or :
    (n : ℕ) (f : ℕ → Bool) (ws : List ℕ) (i : ℕ)
    → all_before n f ws ≡ true
    → i < n
    → f (get_or ws i 0) ≡ true
all_before-get_or zero f ws i e h = absurd (omega arith)
all_before-get_or (suc n) f [] i e h = absurd (cc e)
all_before-get_or (suc n) f (w ∷ ws) zero e h = ((and-eq-true_iff (f w) (all_before n f ws)).0 e).0
all_before-get_or (suc n) f (w ∷ ws) (suc i) e h =
    all_before-get_or n f ws i (((and-eq-true_iff (f w) (all_before n f ws)).0 e).1) (omega arith)

-- Heavy enough for a load that is not 0.
abbrev weighs : ℕ → Bool
weighs w = leb 16 w && ltb w 100000

weighs-load : (w : ℕ) → weighs w ≡ true → w * 2 ^ 6 % 2 ^ 64 / 1024 ≢ 0
weighs-load w h = ground arith

first_weigh : all_before 39 weighs nice_to_weight ≡ true
first_weigh = refl

load_at : (i : ℕ) → i < 39 → get_or nice_to_weight i 0 * 2 ^ 6 % 2 ^ 64 / 1024 ≢ 0
load_at i h =
    weighs-load (get_or nice_to_weight i 0)
      (all_before-get_or 39 weighs nice_to_weight i first_weigh h)

clamp_nice-small : (nice : ℤ) → nice_index (clamp_nice nice) < 40
clamp_nice-small (pos n) = elim (Bool-cases (ltb 19 n)) [
  | inl above ↦ rw above (omega arith)
  | inr within ↦ rw within (ground arith)
]
clamp_nice-small (negsuc n) = elim (Bool-cases (ltb 19 n)) [
  | inl below ↦ rw below (omega arith)
  | inr within ↦ rw within (omega arith)
]

-- The load weight is 0 for a nice value of 19 and above, and for no other.
nice_to_load-zero_iff : (nice : ℤ) → (nice_to_load nice ≡ 0) ↔ (clamp_nice nice ≡ pos 19)
unfolding nice_to_load nice_to_weight_val
nice_to_load-zero_iff nice = (zero_load (clamp_nice nice) (clamp_nice-small nice), λ e. rw e refl)
  where
    zero_load :
        (nice : ℤ)
        → nice_index nice < 40
        → get_or nice_to_weight (nice_index nice) 0 * 2 ^ 6 % 2 ^ 64 / 1024 ≡ 0
        → nice ≡ pos 19
    zero_load (pos n) h e = elim (ℕ_discrete n 19) [
      | yes same ↦ ap pos same
      | no other ↦ absurd (load_at (n + 20) (omega arith) e)
    ]
    zero_load (negsuc n) h e = absurd (load_at (19 - n) (omega arith) e)

update_curr_cfs-divide_error_iff :
    (s : Sched) (i : ℕ) → (update_curr_cfs s i ≡ divide_error) ↔ ((s.tasks i).load_weight ≡ 0)
unfolding update_curr_cfs
update_curr_cfs-divide_error_iff s i = elim (Bool-cases ((s.tasks i).load_weight == 0)) [
  | inl e ↦ (λ f. (==_iff (s.tasks i).load_weight 0).0 e, λ z. rw e refl)
  | inr e ↦
      let some_load : (s.tasks i).load_weight ≢ 0 = ground arith in
      (λ f. absurd (go (charged s i) (sym (charges e) ∙ f)), λ z. absurd (some_load z))
]
  where
    charges : ((s.tasks i).load_weight == 0) ≡ false → update_curr_cfs s i ≡ done (charged s i)
    charges e = rw e refl

    go : (s' : Sched) → done s' ≡ divide_error → ⊥
    go s' e = cc e

clamp_nice-twice : (nice : ℤ) → clamp_nice (clamp_nice nice) ≡ clamp_nice nice
clamp_nice-twice (pos n) = elim (Bool-cases (ltb 19 n)) [
  | inl above ↦ rw above refl
  | inr within ↦ rw (within, within) refl
]
clamp_nice-twice (negsuc n) = elim (Bool-cases (ltb 19 n)) [
  | inl below ↦ rw below refl
  | inr within ↦ rw (within, within) refl
]

load-reniced :
    (s : Sched) (i : ℕ) (nice : ℤ) → ((reniced s i nice).tasks i).load_weight ≡ nice_to_load nice
load-reniced s i nice = let same : (i == i) ≡ true = ground arith in rw same refl

-- For every nice value and increment: after sys_nice the accounting of the task divides by zero
-- exactly where their sum, as an `int` that wraps around at 32 bits, comes to 19, the largest nice
-- value, once it is brought into the range of nice values.
pub sys_nice-divide_error_iff :
    (s : Sched) (k : ℕ) (increment : ℤ)
    → (Option.map (λ s'. update_curr_cfs s' (suc k)) (sys_nice s (suc k) increment)
        ≡ some divide_error)
      ↔ (clamp_nice (add_int (s.tasks (suc k)).priority increment) ≡ pos 19)
unfolding sys_nice
sys_nice-divide_error_iff s k increment =
    let nice = clamp_nice (add_int (s.tasks (suc k)).priority increment) in
    let s' = reniced s (suc k) nice in
    let (stops, goes) = update_curr_cfs-divide_error_iff s' (suc k) in
    let (is_19, is_zero) = nice_to_load-zero_iff nice in
    let load = load-reniced s (suc k) nice in
    let twice = clamp_nice-twice (add_int (s.tasks (suc k)).priority increment) in
    (
      λ e.
          sym twice
          ∙ is_19 (
              sym load ∙ stops (Option.some-injective (update_curr_cfs s' (suc k)) divide_error e)),
      λ e. ap some (goes (load ∙ is_zero (twice ∙ e))),
    )
