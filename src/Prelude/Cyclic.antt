-- ===== src/Prelude/Cyclic.antt =====
-- Positions in an array that is walked round its end, and the first position that passes a test.
use mathlib.Core.Path.{subst, ◌≡◌, refl, sym}
use mathlib.Core.Logic.{inl, inr}
use native.Mathlib.Nat.{le_refl, mod-eq_of_lt, mod-eq-sub-mod}
use native.Mathlib.Decide.{ℕ_discrete, dec_lt}
use Prim.Native.Nat.{ℕ, zero, suc, ◌+◌, ◌-◌, ◌%◌, ◌≤◌, ◌<◌}
use mathlib.Core.Bool.{Bool, true, false}
use mathlib.Core.Option.{Option, none, some}
use native.Mathlib.Omega.{arith}
use feather_os.Prelude.Tests.{ltb, ◌==◌, if◌then◌else◌, Bool-cases}

-- The position `k` steps behind `h`, going round at `cap`.
abbrev pub place : ℕ → ℕ → ℕ → ℕ
place cap h k = (h + k) % cap

-- For at most one round the remainder is a subtraction.
pub place_wraps :
    (cap h k : ℕ)
    → h < cap
    → k ≤ cap
    → place cap h k ≡ (if ltb (h + k) cap then h + k else h + k - cap)
place_wraps cap h k hh hk = elim (dec_lt (h + k) cap) [
  | yes p ↦ ground (arith, mod-eq_of_lt p)
  | no p ↦ ground (
    arith,
    mod-eq-sub-mod {n = h + k} {m = cap} (omega arith),
    mod-eq_of_lt {n = h + k - cap} {m = cap} (omega arith),
  )
]

-- Two steps of one round lead to different positions.
pub place-injective :
    (cap h i j : ℕ) → h < cap → i < cap → j < cap → place cap h i ≡ place cap h j → i ≡ j
place-injective cap h i j hh hi hj e =
    ground (arith, place_wraps cap h i hh, place_wraps cap h j hh)

-- The next position, as a loop computes it.
pub place-suc : (cap h k : ℕ) → h < cap → k < cap → (place cap h k + 1) % cap ≡ place cap h (k + 1)
place-suc cap h k hh hk =
    ground (
      arith,
      place_wraps cap h k hh,
      place_wraps cap h (k + 1) hh,
      place_wraps cap (place cap h k) 1,
    )

-- A loop is back at its start after `cap` steps, and not before.
pub place-full : (cap h k : ℕ) → h < cap → k < cap → (place cap h (k + 1) == h) ≡ (k + 1 == cap)
place-full cap h k hh hk = ground (arith, place_wraps cap h (k + 1) hh)

pub place-lt : (cap h k : ℕ) → h < cap → place cap h k < cap
place-lt cap h k hh = omega arith

module _ (stop : ℕ → Bool) where
  -- The first number of `lo … lo + n - 1` that passes the test.
  pub first_from : ℕ → ℕ → Option ℕ
  first_from lo zero = none
  first_from lo (suc n) = elim (stop lo) [ true ↦ some lo | false ↦ first_from (lo + 1) n ]

  pub first_from-suc :
      (lo n : ℕ) → first_from lo (suc n) ≡ (if stop lo then some lo else first_from (lo + 1) n)
  unfolding first_from
  first_from-suc lo n = elim (Bool-cases (stop lo)) [
    | inl e ↦ rw (e, first_from)
    | inr e ↦ rw (e, first_from)
  ]

  abbrev pub NoneFrom : ℕ → ℕ → Type 0
  NoneFrom lo hi = (i : ℕ) → lo ≤ i → i < hi → stop i ≡ false

  pub first_from-found :
      (lo n p : ℕ) → lo ≤ p → p < lo + n → NoneFrom lo p → stop p ≡ true → first_from lo n ≡ some p
  unfolding first_from
  first_from-found lo zero p le lt before hit = absurd (omega arith)
  first_from-found lo (suc n) p le lt before hit = elim (ℕ_discrete lo p) [
    | yes e ↦ subst (λ x. first_from x (suc n) ≡ some p) (sym e) (rw (hit, first_from))
    | no ne ↦
        let miss = before lo (le_refl lo) (omega arith) in
        rw (miss, first_from)
          (first_from-found (lo + 1) n p (omega arith) (omega arith)
            (λ i a b. before i (omega arith) b) hit)
  ]

  pub first_from-missed : (lo n : ℕ) → NoneFrom lo (lo + n) → first_from lo n ≡ none
  unfolding first_from
  first_from-missed lo zero all = refl
  first_from-missed lo (suc n) all =
      let miss = all lo (le_refl lo) (omega arith) in
      rw (miss, first_from)
        (first_from-missed (lo + 1) n (λ i a b. all i (omega arith) (omega arith)))

  -- What an answer means.
  abbrev pub Answers : ℕ → ℕ → Option ℕ → Type 0
  Answers lo hi none = NoneFrom lo hi
  Answers lo hi (some p) = (lo ≤ p) × (p < hi) × NoneFrom lo p × (stop p ≡ true)

  Answers-later :
      (lo n : ℕ) (r : Option ℕ)
      → stop lo ≡ false
      → Answers (lo + 1) (lo + 1 + n) r
      → Answers lo (lo + suc n) r
  Answers-later lo n none miss a = λ i le lt. elim (ℕ_discrete lo i) [
    | yes e ↦ subst (λ x. stop x ≡ false) e miss
    | no ne ↦ a i (omega arith) (omega arith)
  ]
  Answers-later lo n (some p) miss a = (
    omega arith,
    omega arith,
    λ i le lt. elim (ℕ_discrete lo i) [
      | yes e ↦ subst (λ x. stop x ≡ false) e miss
      | no ne ↦ a.2 i (omega arith) lt
    ],
    a.3,
  )

  pub first_from-Answers : (lo n : ℕ) → Answers lo (lo + n) (first_from lo n)
  unfolding first_from
  first_from-Answers lo zero = λ i le lt. absurd (omega arith)
  first_from-Answers lo (suc n) = elim (Bool-cases (stop lo)) [
    | inl e ↦ rw (e, first_from) (le_refl lo, omega arith, (λ i le lt. absurd (omega arith)), e)
    | inr e ↦ rw (e, first_from) (Answers-later lo n _ e (first_from-Answers (lo + 1) n))
  ]
