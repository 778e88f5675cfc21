-- ===== src/Containers/Vector/Search.antt =====
-- vector_find answers the index of the first item that `cmp` takes for the one searched, or -1.
use mathlib.Core.Path.{subst}
use native.Mathlib.Nat.{le_refl}
use native.Mathlib.Decide.{ℕ_discrete}
use feather_os.Prelude.{
  ℕ, zero, suc, ◌+◌, ◌^◌, ◌≤◌, ◌<◌, ◌≡◌, refl, inl, inr, Bool, true, false, List, arith, Bool-cases,
  get_or,
}
use feather_os.Prelude.Int.{ℤ, pos, negsuc, to_int-pos, is_zero}
use feather_os.Containers.Vector.{Vector, vector_find, find_cell}

-- What a search answers that starts at `lo` and ends below `hi`, for a test of the cells.
abbrev pub IsFirst : (ℕ → Bool) → ℕ → ℕ → ℤ → Type 0
IsFirst hit lo hi (pos p) =
    (lo ≤ p) × (p < hi) × (hit p ≡ true) × ((i : ℕ) → lo ≤ i → i < p → hit i ≡ false)
IsFirst hit lo hi (negsuc k) = (k ≡ 0) × ((i : ℕ) → lo ≤ i → i < hi → hit i ≡ false)

IsFirst-later :
    (hit : ℕ → Bool) (lo n : ℕ) (r : ℤ)
    → hit lo ≡ false
    → IsFirst hit (lo + 1) (lo + 1 + n) r
    → IsFirst hit lo (lo + suc n) r
IsFirst-later hit lo n (pos p) miss f = (
  omega arith,
  omega arith,
  f.2,
  λ i le lt. elim (ℕ_discrete lo i) [
    | yes e ↦ subst (λ x. hit x ≡ false) e miss
    | no ne ↦ f.3 i (omega arith) lt
  ],
)
IsFirst-later hit lo n (negsuc k) miss f = (
  f.0,
  λ i le lt. elim (ℕ_discrete lo i) [
    | yes e ↦ subst (λ x. hit x ≡ false) e miss
    | no ne ↦ f.1 i (omega arith) (omega arith)
  ],
)

find_cell-IsFirst :
    (cmp : ℕ → ℕ → ℤ) (cells : List ℕ) (item lo n : ℕ)
    → lo + n ≤ 2 ^ 31
    → IsFirst
        (λ i. is_zero (cmp (get_or cells i 0) item))
        lo
        (lo + n)
        (find_cell cmp cells item lo n)
unfolding find_cell
find_cell-IsFirst cmp cells item lo zero h = (refl, λ i le lt. absurd (omega arith))
find_cell-IsFirst cmp cells item lo (suc n) h =
    elim (Bool-cases (is_zero (cmp (get_or cells lo 0) item))) [
      | inl e ↦
          rw (e, find_cell)
            (rw (to_int-pos lo (omega arith))
              (le_refl lo, omega arith, e, λ i le lt. absurd (omega arith)))
      | inr e ↦
          rw (e, find_cell)
            (IsFirst-later _ lo n _ e (find_cell-IsFirst cmp cells item (lo + 1) n (omega arith)))
    ]

-- Over a vector of at most 2^31 items, for any `cmp`.
vector_find-IsFirst :
    (cmp : ℕ → ℕ → ℤ) (v : Vector) (item : ℕ)
    → v.size ≤ 2 ^ 31
    → IsFirst (λ i. is_zero (cmp (get_or v.cells i 0) item)) 0 v.size (vector_find cmp v item)
unfolding vector_find
vector_find-IsFirst cmp v item h =
    let same : 0 + v.size ≡ v.size = omega arith in
    subst
      (λ x.
        IsFirst (λ i. is_zero (cmp (get_or v.cells i 0) item)) 0 x
          (find_cell cmp v.cells item 0 v.size))
      same (find_cell-IsFirst cmp v.cells item 0 v.size (omega arith))
