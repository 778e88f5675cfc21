-- ===== src/Sync/Threads.antt =====
-- Sums over the threads of a system, one of which takes a step.
use feather_os.Prelude.{
  ℕ, zero, suc, ◌+◌, ◌≤◌, ◌<◌, ◌≡◌, refl, ap, ◌≢◌, List, [], ◌∷◌, arith, length, get_or, set,
  replicate,
}

pub total : {A : Type 0} → (A → ℕ) → List A → ℕ
total f [] = 0
total f (t ∷ ts) = f t + total f ts

-- The sum over all threads but the one at the index.
pub others : {A : Type 0} → (A → ℕ) → List A → ℕ → ℕ
others f [] i = 0
others f (t ∷ ts) zero = total f ts
others f (t ∷ ts) (suc i) = f t + others f ts i

pub total-others :
    {A : Type 0} (f : A → ℕ) (ts : List A) (i : ℕ) (dflt : A)
    → i < length ts
    → total f ts ≡ others f ts i + f (get_or ts i dflt)
unfolding total others
total-others f [] i dflt lt = absurd (omega arith)
total-others f (t ∷ ts) zero dflt lt = omega arith
total-others f (t ∷ ts) (suc i) dflt lt = omega (arith, total-others f ts i dflt (omega arith))

pub total-set :
    {A : Type 0} (f : A → ℕ) (ts : List A) (i : ℕ) (t' : A)
    → i < length ts
    → total f (set ts i t') ≡ others f ts i + f t'
unfolding total others
total-set f [] i t' lt = absurd (omega arith)
total-set f (t ∷ ts) zero t' lt = omega arith
total-set f (t ∷ ts) (suc i) t' lt = omega (arith, total-set f ts i t' (omega arith))

total-bound : {A : Type 0} (f : A → ℕ) (ts : List A) → ((t : A) → f t ≤ 1) → total f ts ≤ length ts
unfolding total
total-bound f [] small = omega arith
total-bound f (t ∷ ts) small = omega (arith, small t, total-bound f ts small)

pub others-bound :
    {A : Type 0} (f : A → ℕ) (ts : List A) (i : ℕ)
    → ((t : A) → f t ≤ 1)
    → i < length ts
    → others f ts i < length ts
unfolding total others
others-bound f [] i small lt = absurd (omega arith)
others-bound f (t ∷ ts) zero small lt = omega (arith, total-bound f ts small)
others-bound f (t ∷ ts) (suc i) small lt =
    omega (arith, small t, others-bound f ts i small (omega arith))

pub total-le :
    {A : Type 0} (f g h : A → ℕ) (ts : List A)
    → ((t : A) → f t + g t ≤ h t)
    → total f ts + total g ts ≤ total h ts
unfolding total
total-le f g h [] le = omega arith
total-le f g h (t ∷ ts) le = omega (arith, le t, total-le f g h ts le)

pub others-le :
    {A : Type 0} (f g h : A → ℕ) (ts : List A) (i : ℕ)
    → ((t : A) → f t + g t ≤ h t)
    → others f ts i + others g ts i ≤ others h ts i
unfolding total others
others-le f g h [] i le = omega arith
others-le f g h (t ∷ ts) zero le = total-le f g h ts le
others-le f g h (t ∷ ts) (suc i) le = omega (arith, le t, others-le f g h ts i le)

pub total-one :
    {A : Type 0} (f : A → ℕ) (ts : List A) (j : ℕ) (dflt : A)
    → f dflt ≡ 0
    → f (get_or ts j dflt) ≤ total f ts
unfolding total
total-one f [] j dflt z = omega (arith, z)
total-one f (t ∷ ts) zero dflt z = omega arith
total-one f (t ∷ ts) (suc j) dflt z = omega (arith, total-one f ts j dflt z)

-- Two different threads both count.
pub total-two :
    {A : Type 0} (f : A → ℕ) (ts : List A) (i j : ℕ) (dflt : A)
    → i ≢ j
    → f dflt ≡ 0
    → f (get_or ts i dflt) + f (get_or ts j dflt) ≤ total f ts
unfolding total
total-two f [] i j dflt ne z = omega (arith, z)
total-two f (t ∷ ts) zero zero dflt ne z = absurd (ne refl)
total-two f (t ∷ ts) zero (suc j) dflt ne z = omega (arith, total-one f ts j dflt z)
total-two f (t ∷ ts) (suc i) zero dflt ne z = omega (arith, total-one f ts i dflt z)
total-two f (t ∷ ts) (suc i) (suc j) dflt ne z =
    omega (arith, total-two f ts i j dflt (λ e. ne (ap suc e)) z)

pub total-replicate :
    {A : Type 0} (f : A → ℕ) (n : ℕ) (t : A) → f t ≡ 0 → total f (replicate n t) ≡ 0
unfolding total
total-replicate f zero t z = refl
total-replicate f (suc n) t z = omega (arith, z, total-replicate f n t z)

pub set_out : {A : Type 0} (ts : List A) (i : ℕ) (t : A) → length ts ≤ i → set ts i t ≡ ts
set_out [] i t le = refl
set_out (x ∷ ts) zero t le = absurd (omega arith)
set_out (x ∷ ts) (suc i) t le = ap (λ r. x ∷ r) (set_out ts i t (omega arith))
