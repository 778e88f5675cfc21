-- ===== src/Bits.antt =====
-- Single bits of machine words: `x | (1 << b)`, `x & ~(1 << b)` and `(x & (1 << b)) != 0`, as the
-- bitmap macros of FeatherOS/kernel/mm/memory.c (BITMAP_SET, BITMAP_CLR, BITMAP_TEST) use them.
pub mod Laws
use Prim.Native.Nat.{bit_and, bit_or}
use feather_os.Prelude.{ℕ, ◌-◌, ◌^◌, Bool, not, ◌==◌}

-- The word that `1U << b` is.
abbrev pub one_shl : ℕ → ℕ
one_shl b = 2 ^ b

-- `~m` of a 32-bit word
abbrev pub complement32 : ℕ → ℕ
complement32 m = 2 ^ 32 - 1 - m

unfoldable pub set_bit : ℕ → ℕ → ℕ
set_bit w b = bit_or w (one_shl b)

unfoldable pub clear_bit : ℕ → ℕ → ℕ
clear_bit w b = bit_and w (complement32 (one_shl b))

unfoldable pub test_bit : ℕ → ℕ → Bool
test_bit w b = not (bit_and w (one_shl b) == 0)
