-- ===== src/Sched/Order.antt =====
-- The order of the tasks in a tree, and the list of tasks that a tree stands for.
use feather_os.Prelude.Arrays.{length-append}
use feather_os.Prelude.{
  ℕ, suc, ◌≤◌, ◌≡◌, refl, ap, inl, inr, true, false, List, [], ◌∷◌, ◌++◌, arith, ltb, if◌then◌else◌,
  Bool-cases, length,
}
use feather_os.Sched.{Sched, goes_left}
use feather_os.Sched.Tree.{TaskTree, empty, fork, members}
use feather_os.Sched.Enqueue.{size, insert_task}

abbrev pub vruntime_of : Sched → ℕ → ℕ
vruntime_of s i = (s.tasks i).vruntime

abbrev pub AtLeast : Sched → ℕ → List ℕ → Type 0
AtLeast s k [] = Unit
AtLeast s k (x ∷ xs) = (k ≤ vruntime_of s x) × AtLeast s k xs

abbrev pub AtMost : Sched → ℕ → List ℕ → Type 0
AtMost s k [] = Unit
AtMost s k (x ∷ xs) = (vruntime_of s x ≤ k) × AtMost s k xs

-- The vruntimes do not fall.
abbrev pub Rising : Sched → List ℕ → Type 0
Rising s [] = Unit
Rising s (x ∷ xs) = AtLeast s (vruntime_of s x) xs × Rising s xs

-- Insertion behind the tasks with the same vruntime.
abbrev pub insert_by : Sched → ℕ → List ℕ → List ℕ
insert_by s task [] = task ∷ []
insert_by s task (x ∷ xs) =
    let further = insert_by s task xs in if goes_left s task x then task ∷ x ∷ xs else x ∷ further

AtLeast-split :
    (s : Sched) (k : ℕ) (xs ys : List ℕ) → AtLeast s k (xs ++ ys) → AtLeast s k xs × AtLeast s k ys
AtLeast-split s k [] ys a = (tt, a)
AtLeast-split s k (x ∷ xs) ys (h, a) =
    let (in_xs, in_ys) = AtLeast-split s k xs ys a in ((h, in_xs), in_ys)

Rising-split :
    (s : Sched) (i : ℕ) (xs ys : List ℕ)
    → Rising s (xs ++ (i ∷ ys))
    → AtMost s (vruntime_of s i) xs × Rising s xs × AtLeast s (vruntime_of s i) ys × Rising s ys
Rising-split s i [] ys (a, r) = (tt, tt, a, r)
Rising-split s i (x ∷ xs) ys (a, r) =
    let (most, xs_rise, least, ys_rise) = Rising-split s i xs ys r in
    let (in_xs, (h, in_ys)) = AtLeast-split s (vruntime_of s x) xs (i ∷ ys) a in
    ((h, most), (in_xs, xs_rise), least, ys_rise)

insert_by-left :
    (s : Sched) (task i : ℕ) (xs ys : List ℕ)
    → goes_left s task i ≡ true
    → insert_by s task (xs ++ (i ∷ ys)) ≡ insert_by s task xs ++ (i ∷ ys)
insert_by-left s task i [] ys h = rw h refl
insert_by-left s task i (x ∷ xs) ys h = elim (Bool-cases (goes_left s task x)) [
  | inl e ↦ rw e refl
  | inr e ↦ rw (e, insert_by-left s task i xs ys h) refl
]

stays_right : (a b c : ℕ) → ltb a b ≡ false → c ≤ b → ltb a c ≡ false
stays_right a b c h h' = ground arith

insert_by-right :
    (s : Sched) (task i : ℕ) (xs ys : List ℕ)
    → goes_left s task i ≡ false
    → AtMost s (vruntime_of s i) xs
    → insert_by s task (xs ++ (i ∷ ys)) ≡ xs ++ (i ∷ insert_by s task ys)
insert_by-right s task i [] ys h m = rw h refl
insert_by-right s task i (x ∷ xs) ys h (xm, m) =
    let later = stays_right (vruntime_of s task) (vruntime_of s i) (vruntime_of s x) h xm in
    rw (later, insert_by-right s task i xs ys h m) refl

pub members-insert_task :
    (s : Sched) (task : ℕ) (t : TaskTree)
    → Rising s (members t)
    → members (insert_task s task t) ≡ insert_by s task (members t)
members-insert_task s task empty r = refl
members-insert_task s task (fork a i b) r =
    let (most, a_rise, least, b_rise) = Rising-split s i (members a) (members b) r in
    elim (Bool-cases (goes_left s task i)) [
      | inl e ↦
          rw (e, insert_by-left s task i (members a) (members b) e)
            (ap (λ l. l ++ (i ∷ members b)) (members-insert_task s task a a_rise))
      | inr e ↦
          rw (e, insert_by-right s task i (members a) (members b) e most)
            (ap (λ l. members a ++ (i ∷ l)) (members-insert_task s task b b_rise))
    ]

AtLeast-trans : (s : Sched) (k m : ℕ) (xs : List ℕ) → k ≤ m → AtLeast s m xs → AtLeast s k xs
AtLeast-trans s k m [] h a = tt
AtLeast-trans s k m (x ∷ xs) h (xa, a) = (omega arith, AtLeast-trans s k m xs h a)

AtLeast-insert_by :
    (s : Sched) (k task : ℕ) (xs : List ℕ)
    → k ≤ vruntime_of s task
    → AtLeast s k xs
    → AtLeast s k (insert_by s task xs)
AtLeast-insert_by s k task [] h a = (h, tt)
AtLeast-insert_by s k task (x ∷ xs) h (xa, a) = elim (Bool-cases (goes_left s task x)) [
  | inl e ↦ rw e (h, (xa, a))
  | inr e ↦ rw e (xa, AtLeast-insert_by s k task xs h a)
]

ltb→le : (a b : ℕ) → ltb a b ≡ true → a ≤ b
ltb→le a b h = ground arith

not_ltb→le : (a b : ℕ) → ltb a b ≡ false → b ≤ a
not_ltb→le a b h = ground arith

pub Rising-insert_by :
    (s : Sched) (task : ℕ) (xs : List ℕ) → Rising s xs → Rising s (insert_by s task xs)
Rising-insert_by s task [] r = (tt, tt)
Rising-insert_by s task (x ∷ xs) (a, r) = elim (Bool-cases (goes_left s task x)) [
  | inl e ↦
      let h = ltb→le (vruntime_of s task) (vruntime_of s x) e in
      rw e ((h, AtLeast-trans s (vruntime_of s task) (vruntime_of s x) xs h a), (a, r))
  | inr e ↦ rw e (
    AtLeast-insert_by s (vruntime_of s x) task xs
        (not_ltb→le (vruntime_of s task) (vruntime_of s x) e) a,
    Rising-insert_by s task xs r,
  )
]

pub length-insert_by :
    (s : Sched) (task : ℕ) (xs : List ℕ) → length (insert_by s task xs) ≡ suc (length xs)
length-insert_by s task [] = refl
length-insert_by s task (x ∷ xs) = elim (Bool-cases (goes_left s task x)) [
  | inl e ↦ rw e refl
  | inr e ↦ rw e (ap suc (length-insert_by s task xs))
]

-- Only the vruntimes count.
pub Rising-same :
    (s s' : Sched) (xs : List ℕ)
    → ((j : ℕ) → vruntime_of s' j ≡ vruntime_of s j)
    → Rising s xs
    → Rising s' xs
Rising-same s s' [] e r = tt
Rising-same s s' (x ∷ xs) e (a, r) = (AtLeast-same xs a, Rising-same s s' xs e r)
  where
    AtLeast-same : (ys : List ℕ) → AtLeast s (vruntime_of s x) ys → AtLeast s' (vruntime_of s' x) ys
    AtLeast-same [] a = tt
    AtLeast-same (y ∷ ys) (h, a) = (rw (e x, e y) h, AtLeast-same ys a)

pub size-members : (t : TaskTree) → size t ≡ length (members t)
size-members empty = refl
size-members (fork a i b) =
    rw (length-append (members a) (i ∷ members b), size-members a, size-members b) (omega arith)
