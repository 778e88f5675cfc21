-- ===== src/Bitmap/Search.antt =====
-- find_first_free finds the first run of free bits, and answers -1 only where there is none.
use native.Mathlib.Nat.{le_refl}
use native.Mathlib.Decide.{ℕ_discrete}
use mathlib.Core.Path.{subst}
use feather_os.Prelude.{
  ℕ, zero, suc, ◌+◌, ◌^◌, ◌≤◌, ◌<◌, ◌≡◌, inl, inr, refl, true, false, arith, Bool-cases,
}
use feather_os.Prelude.Int.{ℤ, pos, negsuc, to_int-pos}
use feather_os.Bitmap.{Bitmap, bitmap_test, all_free, find_from, find_first_free}

-- The `n` bits from `p` on are off.
abbrev pub IsFreeRun : Bitmap → ℕ → ℕ → Type 0
IsFreeRun bm p n = (j : ℕ) → j < n → bitmap_test bm (p + j) ≡ false

-- What a search that starts at `lo` and ends below `hi` answers.
abbrev pub Finds : Bitmap → ℕ → ℕ → ℕ → ℤ → Type 0
Finds bm count lo hi (pos p) =
    (lo ≤ p) × (p < hi) × IsFreeRun bm p count × ((i : ℕ) → lo ≤ i → i < p → ¬ IsFreeRun bm i count)
Finds bm count lo hi (negsuc k) = (k ≡ 0) × ((i : ℕ) → lo ≤ i → i < hi → ¬ IsFreeRun bm i count)

all_free-at :
    (bm : Bitmap) (i j n k : ℕ)
    → i + j + n ≤ 2 ^ 64
    → all_free bm i j n ≡ true
    → k < n
    → bitmap_test bm (i + j + k) ≡ false
unfolding all_free
all_free-at bm i j zero k h e lt = absurd (omega arith)
all_free-at bm i j (suc n) zero h e lt = ground arith
all_free-at bm i j (suc n) (suc k) h e lt = ground (arith, all_free-at bm i (j + 1) n k)

IsFreeRun-all_free :
    (bm : Bitmap) (i j n : ℕ)
    → i + j + n ≤ 2 ^ 64
    → IsFreeRun bm (i + j) n
    → all_free bm i j n ≡ true
unfolding all_free
IsFreeRun-all_free bm i j zero h e = refl
IsFreeRun-all_free bm i j (suc n) h e =
    ground (arith, e 0, IsFreeRun-all_free bm i (j + 1) n (omega arith) shifted)
  where
    shifted : IsFreeRun bm (i + (j + 1)) n
    shifted k lt =
        let same : i + (j + 1) + k ≡ i + j + suc k = omega arith in
        rw same (e (suc k) (omega arith))

-- The run at `i` itself, as the outer loop asks for it.
run_free : (bm : Bitmap) (i n : ℕ) → i + n ≤ 2 ^ 64 → all_free bm i 0 n ≡ true → IsFreeRun bm i n
run_free bm i n h e k lt =
    let same : i + k ≡ i + 0 + k = omega arith in
    rw same (all_free-at bm i 0 n k (omega arith) e lt)

run_not_free :
    (bm : Bitmap) (i n : ℕ) → i + n ≤ 2 ^ 64 → all_free bm i 0 n ≡ false → ¬ IsFreeRun bm i n
run_not_free bm i n h e run = cc (
    IsFreeRun-all_free bm i 0 n (omega arith)
      (λ k lt. let same : i + 0 + k ≡ i + k = omega arith in rw same (run k lt)))

-- One more start that holds no run may be put in front.
none_from :
    (bm : Bitmap) (count i hi : ℕ)
    → ¬ IsFreeRun bm i count
    → ((p : ℕ) → i + 1 ≤ p → p < hi → ¬ IsFreeRun bm p count)
    → (p : ℕ) → i ≤ p
    → p < hi
    → ¬ IsFreeRun bm p count
none_from bm count i hi first rest p lo below = elim (ℕ_discrete i p) [
  | yes e ↦ subst (λ x. ¬ IsFreeRun bm x count) e first
  | no ne ↦ rest p (omega arith) below
]

Finds-widen :
    (bm : Bitmap) (count i n : ℕ) (r : ℤ)
    → ¬ IsFreeRun bm i count
    → Finds bm count (i + 1) (i + 1 + n) r
    → Finds bm count i (i + suc n) r
Finds-widen bm count i n (pos p) first f =
    (omega arith, omega arith, f.2, none_from bm count i p first f.3)
Finds-widen bm count i n (negsuc k) first f =
    (f.0, none_from bm count i (i + suc n) first (λ p lo hi. f.1 p lo (omega arith)))

find_from-Finds :
    (bm : Bitmap) (count i n : ℕ)
    → i + n ≤ 2 ^ 31
    → i + n + count ≤ 2 ^ 64
    → Finds bm count i (i + n) (find_from bm count i n)
unfolding find_from
find_from-Finds bm count i zero h k = (refl, λ p lo hi. absurd (omega arith))
find_from-Finds bm count i (suc n) h k = elim (Bool-cases (all_free bm i 0 count)) [
  | inl e ↦
      rw (e, find_from)
        (rw (to_int-pos i (omega arith)) (
          le_refl i,
          omega arith,
          run_free bm i count (omega arith) e,
          λ p lo hi. absurd (omega arith),
        ))
  | inr e ↦
      rw (e, find_from)
        (Finds-widen bm count i n _ (run_not_free bm i count (omega arith) e)
          (find_from-Finds bm count (i + 1) n (omega arith) (omega arith)))
]

-- The search over `max_bits` starts, none of whose runs wraps round `size_t`.
pub find_first_free-Finds :
    (bm : Bitmap) (max_bits count : ℕ)
    → max_bits ≤ 2 ^ 31
    → max_bits + count ≤ 2 ^ 64
    → Finds bm count 0 max_bits (find_first_free bm max_bits count)
unfolding find_first_free
find_first_free-Finds bm max_bits count h k =
    let same : 0 + max_bits ≡ max_bits = omega arith in
    subst (λ x. Finds bm count 0 x (find_from bm count 0 max_bits)) same
      (find_from-Finds bm count 0 max_bits (omega arith) (omega arith))
