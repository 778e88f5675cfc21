-- ===== src/Strings/Length.antt =====
-- What strlen counts.
use mathlib.Core.Path.{subst}
use native.Mathlib.Decide.{ℕ_discrete}
use feather_os.Prelude.{ℕ, zero, suc, ◌+◌, ◌≤◌, ◌<◌, ◌≡◌, sym, ap, true, false, some, arith, ◌==◌}
use feather_os.Strings.{RawMemory, length_from, strlen}

length_from-end :
    (s i k rounds : ℕ) (m : RawMemory)
    → i ≤ k
    → k < i + rounds
    → ((j : ℕ) → i ≤ j → j < k → 0 < m (s + j))
    → m (s + k) ≡ 0
    → length_from s i rounds m ≡ some k
unfolding length_from
length_from-end s i k zero m lo hi before end = absurd (omega arith)
length_from-end s i k (suc rounds) m lo hi before end = elim (ℕ_discrete i k) [
  | yes e ↦
      let here : (m (s + i) == 0) ≡ true = ground (arith, subst (λ x. m (s + x) ≡ 0) (sym e) end) in
      rw (length_from, here) (ap some e)
  | no ne ↦
      let on : (m (s + i) == 0) ≡ false = ground (arith, before i (omega arith) (omega arith)) in
      rw (length_from, on)
        (length_from-end s (i + 1) k rounds m (omega arith) (omega arith)
          (λ j a b. before j (omega arith) b) end)
]

-- On a string that ends at its byte `k`, more than `k` rounds give strlen its answer, `k`.
pub strlen_lem :
    (s k rounds : ℕ) (m : RawMemory)
    → k < rounds
    → ((j : ℕ) → j < k → 0 < m (s + j))
    → m (s + k) ≡ 0
    → strlen rounds s m ≡ some k
unfolding strlen
strlen_lem s k rounds m lt before end =
    length_from-end s 0 k rounds m (omega arith) (omega arith) (λ j lo hi. before j hi) end
