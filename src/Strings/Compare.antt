-- ===== src/Strings/Compare.antt =====
-- What memcmp and strncmp compare.
use mathlib.Core.Path.{subst}
use native.Mathlib.Decide.{ℕ_discrete}
use feather_os.Prelude.{
  ℕ, zero, suc, ◌+◌, ◌≤◌, ◌<◌, ◌≡◌, refl, ap, ◌↔◌, inl, inr, true, arith, ◌==◌, Bool-cases,
}
use feather_os.Prelude.Int.{pos, is_zero}
use feather_os.Strings.{RawMemory, byte_difference, compare_from, memcmp}

compare_from-same :
    (a b i n : ℕ) (m : RawMemory)
    → ((j : ℕ) → i ≤ j → j < i + n → m (a + j) ≡ m (b + j))
    → compare_from a b i n m ≡ pos 0
unfolding compare_from
compare_from-same a b i zero m same = refl
compare_from-same a b i (suc n) m same =
    let here : (m (a + i) == m (b + i)) ≡ true =
      ground (arith, same i (omega arith) (omega arith)) in
    rw (compare_from, here)
      (compare_from-same a b (i + 1) n m (λ j lo hi. same j (omega arith) (omega arith)))

difference-zero : (a b : ℕ) → is_zero (byte_difference a b) ≡ true → a ≡ b
difference-zero a b z = ground arith

compare_from-zero :
    (a b i n : ℕ) (m : RawMemory)
    → is_zero (compare_from a b i n m) ≡ true
    → (j : ℕ) → i ≤ j
    → j < i + n
    → m (a + j) ≡ m (b + j)
unfolding compare_from
compare_from-zero a b i zero m z j lo hi = absurd (omega arith)
compare_from-zero a b i (suc n) m z j lo hi = elim (Bool-cases (m (a + i) == m (b + i))) [
  | inr differ ↦
      let same = difference-zero (m (a + i)) (m (b + i)) (rw (compare_from, differ) at z) in
      absurd (ground (arith, same))
  | inl equal ↦ elim (ℕ_discrete i j) [
    | yes e ↦ subst (λ k. m (a + k) ≡ m (b + k)) e (ground arith)
    | no ne ↦
        compare_from-zero a b (i + 1) n m (rw (compare_from, equal) at z) j (omega arith)
          (omega arith)
  ]
]

-- memcmp answers 0 exactly where the two ranges hold the same bytes.
memcmp-zero_iff :
    (s1 s2 n : ℕ) (m : RawMemory)
    → (is_zero (memcmp s1 s2 n m) ≡ true) ↔ ((j : ℕ) → j < n → m (s1 + j) ≡ m (s2 + j))
unfolding memcmp
memcmp-zero_iff s1 s2 n m = (
  λ z j lt. compare_from-zero s1 s2 0 n m z j (omega arith) (omega arith),
  λ same. ap is_zero (compare_from-same s1 s2 0 n m (λ j lo hi. same j (omega arith))),
)
