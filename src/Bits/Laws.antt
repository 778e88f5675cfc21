-- ===== src/Bits/Laws.antt =====
-- What a single-bit operation does to every bit of a word, proved from the digit recursion that the
-- native `bit_and` and `bit_or` stand for.
use Prim.Native.Nat.{bit_and, bit_or, digits, bit_and-bitwise, bit_or-bitwise}
use native.Mathlib.Nat.{pow-suc, le_refl}
use native.Mathlib.Decide.{dec_lt}
use feather_os.Prelude.{
  ℕ, zero, suc, ◌+◌, ◌-◌, ◌*◌, ◌/◌, ◌%◌, ◌^◌, ◌≤◌, ◌<◌, min, max, ◌≡◌, refl, sym, ap, ◌∙◌, true,
  false, arith, ◌==◌, if◌then◌else◌,
}
use feather_os.Bits.{set_bit, clear_bit, test_bit, complement32}

-- The binary digit of weight 2 ^ b, by recursion.
digit : ℕ → ℕ → ℕ
digit w zero = w % 2
digit w (suc b) = digit (w / 2) b

digit-le : (w b : ℕ) → digit w b ≤ 1
unfolding digit
digit-le w zero = omega arith
digit-le w (suc b) = digit-le (w / 2) b

-- Both native operations stand for one recursion over the binary digits of their first argument:
-- `out` combines two digits, and `rest` is what remains of the second argument at the end.
module _ (rest : ℕ → ℕ) (out : ℕ → ℕ → ℕ) where
  -- Fuel beyond the first argument changes nothing.
  enough_fuel :
      (spare extra x y : ℕ)
      → x ≤ min spare extra
      → digits rest out spare x y ≡ digits rest out extra x y
  enough_fuel zero zero zero y _ = refl
  enough_fuel zero (suc extra) zero y _ = refl
  enough_fuel (suc spare) zero zero y _ = refl
  enough_fuel (suc spare) (suc extra) zero y _ = refl
  enough_fuel zero extra (suc x) y short = absurd (omega arith)
  enough_fuel (suc spare) zero (suc x) y short = absurd (omega arith)
  enough_fuel (suc spare) (suc extra) (suc x) y fits =
      ap (λ t. t * 2 + out (suc x % 2) (y % 2))
        (enough_fuel spare extra (suc x / 2) (y / 2) (omega arith))

  -- The recursion takes the lowest digits off, if its end does so too.
  halve :
      (x y : ℕ)
      → rest y ≡ rest (y / 2) * 2 + out 0 (y % 2)
      → digits rest out x x y ≡ digits rest out (x / 2) (x / 2) (y / 2) * 2 + out (x % 2) (y % 2)
  halve zero y ends = ends
  halve (suc x) y _ =
      ap (λ t. t * 2 + out (suc x % 2) (y % 2))
        (enough_fuel x (suc x / 2) (suc x / 2) (y / 2) (omega arith))

bit_and_halve : (x y : ℕ) → bit_and x y ≡ bit_and (x / 2) (y / 2) * 2 + min (x % 2) (y % 2)
bit_and_halve x y =
    bit_and-bitwise x y
    ∙ halve (λ _. zero) min x y (omega arith)
    ∙ ap (λ t. t * 2 + min (x % 2) (y % 2)) (sym (bit_and-bitwise (x / 2) (y / 2)))

bit_or_halve : (x y : ℕ) → bit_or x y ≡ bit_or (x / 2) (y / 2) * 2 + max (x % 2) (y % 2)
bit_or_halve x y =
    bit_or-bitwise x y
    ∙ halve (λ t. t) max x y (omega arith)
    ∙ ap (λ t. t * 2 + max (x % 2) (y % 2)) (sym (bit_or-bitwise (x / 2) (y / 2)))

digit-bit_and : (b x y : ℕ) → digit (bit_and x y) b ≡ min (digit x b) (digit y b)
unfolding digit
digit-bit_and zero x y = omega (arith, bit_and_halve x y)
digit-bit_and (suc b) x y =
    let half : bit_and x y / 2 ≡ bit_and (x / 2) (y / 2) = omega (arith, bit_and_halve x y) in
    rw half (digit-bit_and b (x / 2) (y / 2))

digit-bit_or : (b x y : ℕ) → digit (bit_or x y) b ≡ max (digit x b) (digit y b)
unfolding digit
digit-bit_or zero x y = omega (arith, bit_or_halve x y)
digit-bit_or (suc b) x y =
    let half : bit_or x y / 2 ≡ bit_or (x / 2) (y / 2) = omega (arith, bit_or_halve x y) in
    rw half (digit-bit_or b (x / 2) (y / 2))

digit-zero : (c : ℕ) → digit 0 c ≡ 0
unfolding digit
digit-zero zero = refl
digit-zero (suc c) = digit-zero c

digit-one_shl : (b c : ℕ) → digit (2 ^ b) c ≡ (if b == c then 1 else 0)
unfolding digit
digit-one_shl zero zero = refl
digit-one_shl zero (suc c) = ground (arith, digit-zero c)
digit-one_shl (suc b) zero = ground (arith, pow-suc 2 b)
digit-one_shl (suc b) (suc c) =
    let half : 2 ^ suc b / 2 ≡ 2 ^ b = omega (arith, pow-suc 2 b) in
    rw half (ground (arith, digit-one_shl b c))

pow-pos : (k : ℕ) → 0 < 2 ^ k
pow-pos zero = omega arith
pow-pos (suc k) = omega (arith, pow-suc 2 k, pow-pos k)

digit_mask : (k c : ℕ) → c < k → digit (2 ^ k - 1) c ≡ 1
unfolding digit
digit_mask zero c h = absurd (omega arith)
digit_mask (suc k) zero h = omega (arith, pow-suc 2 k, pow-pos k)
digit_mask (suc k) (suc c) h =
    let half : (2 ^ suc k - 1) / 2 ≡ 2 ^ k - 1 = omega (arith, pow-suc 2 k, pow-pos k) in
    rw half (digit_mask k c (omega arith))

pow-lt : (b k : ℕ) → b < k → 2 ^ b < 2 ^ k
pow-lt b zero h = absurd (omega arith)
pow-lt zero (suc k) h = omega (arith, pow-suc 2 k, pow-pos k)
pow-lt (suc b) (suc k) h = omega (arith, pow-suc 2 k, pow-suc 2 b, pow-lt b k (omega arith))

-- The digits of a mask of `k` ones with the one at `b` taken out.
digit_hole : (k b c : ℕ) → b < k → c < k → digit (2 ^ k - 1 - 2 ^ b) c ≡ (if b == c then 0 else 1)
unfolding digit
digit_hole zero b c hb hc = absurd (omega arith)
digit_hole (suc k) zero zero hb hc = omega (arith, pow-suc 2 k, pow-pos k)
digit_hole (suc k) zero (suc c) hb hc =
    let half : (2 ^ suc k - 1 - 2 ^ 0) / 2 ≡ 2 ^ k - 1 = omega (arith, pow-suc 2 k, pow-pos k) in
    rw half (ground (arith, digit_mask k c (omega arith)))
digit_hole (suc k) (suc b) zero hb hc =
    ground (arith, pow-suc 2 k, pow-suc 2 b, pow-lt b k (omega arith))
digit_hole (suc k) (suc b) (suc c) hb hc =
    let half : (2 ^ suc k - 1 - 2 ^ suc b) / 2 ≡ 2 ^ k - 1 - 2 ^ b =
      omega (arith, pow-suc 2 k, pow-suc 2 b, pow-lt b k (omega arith)) in
    rw half (ground (arith, digit_hole k b c (omega arith) (omega arith)))

-- A word masked by nothing: strong induction, over a bound on the word.
bit_and_nothing : (bound x : ℕ) → x ≤ bound → bit_and x 0 ≡ 0
bit_and_nothing zero x h = let none_left : x ≡ 0 = omega arith in rw none_left
bit_and_nothing (suc bound) x h = elim (dec_lt 0 x) [
  | yes p ↦ omega (arith, bit_and_halve x 0, bit_and_nothing bound (x / 2) (omega arith))
  | no p ↦ let none_left : x ≡ 0 = omega arith in rw none_left
]

-- A word masked by one bit is that digit at its weight.
bit_and-one_shl : (b w : ℕ) → bit_and w (2 ^ b) ≡ digit w b * 2 ^ b
unfolding digit
bit_and-one_shl zero w =
    omega (arith, bit_and_halve w 1, bit_and_nothing (w / 2) (w / 2) (le_refl _))
bit_and-one_shl (suc b) w =
    let half : 2 ^ suc b / 2 ≡ 2 ^ b = omega (arith, pow-suc 2 b) in
    let even : 2 ^ suc b % 2 ≡ 0 = omega (arith, pow-suc 2 b) in
    bit_and_halve w (2 ^ suc b) ∙ rw (half, even, bit_and-one_shl b (w / 2), pow-suc) (grind arith)

test_bit-digit : (w b : ℕ) → test_bit w b ≡ (digit w b == 1)
unfolding test_bit
test_bit-digit w b = grind (arith, bit_and-one_shl b w, digit-le w b, pow-pos b)

-- After a set, the bit is on and every other bit is as before.
pub test_bit-set_bit :
    (w b c : ℕ) → test_bit (set_bit w b) c ≡ (if b == c then true else test_bit w c)
unfolding set_bit
test_bit-set_bit w b c = ground (
  arith,
  test_bit-digit (bit_or w (2 ^ b)) c,
  test_bit-digit w c,
  digit-bit_or c w (2 ^ b),
  digit-one_shl b c,
  digit-le w c,
)

-- After a clear, the bit is off and every other bit of the word is as before.
pub test_bit-clear_bit :
    (w b c : ℕ)
    → b < 32
    → c < 32
    → test_bit (clear_bit w b) c ≡ (if b == c then false else test_bit w c)
unfolding clear_bit
test_bit-clear_bit w b c hb hc = ground (
  arith,
  test_bit-digit (bit_and w (complement32 (2 ^ b))) c,
  test_bit-digit w c,
  digit-bit_and c w (complement32 (2 ^ b)),
  digit_hole 32 b c hb hc,
  digit-le w c,
)

-- The word of 32 ones, which `memset(…, 0xFF, …)` leaves, has every bit on.
pub test_bit_ones : (c : ℕ) → c < 32 → test_bit 0xFFFF_FFFF c ≡ true
test_bit_ones c h = ground (arith, test_bit-digit 0xFFFF_FFFF c, digit_mask 32 c h)
