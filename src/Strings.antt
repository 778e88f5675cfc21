-- ===== src/Strings.antt =====
-- The functions of FeatherOS/kernel/string.c over raw memory, a function from addresses to bytes. A
-- loop that looks for the end of a string takes the rounds it may still make.
pub mod Copy
pub mod Compare
pub mod Length
mod Tests
use mathlib.Core.Path.{subst, fun_ext}
use mathlib.Core.Logic.{dite, ite}
use native.Mathlib.Nat.{
  add_comm, add_assoc, le_refl, le_trans, mod-eq_of_lt, mod-lt, mod-eq-sub-mod, mod-add-mod,
}
use native.Mathlib.Decide.{ℕ_discrete, dec_lt, dec_le}
use feather_os.Prelude.{
  ℕ, zero, suc, ◌+◌, ◌-◌, ◌*◌, ◌/◌, ◌%◌, ◌^◌, ◌≤◌, ◌<◌, min, max, ◌≡◌, refl, sym, ap, ◌∙◌, ◌≢◌, ◌↔◌,
  ◌⊎◌, inl, inr, Bool, true, false, not, ◌&&◌, ◌||◌, Option, none, some, List, [], ◌∷◌, ◌++◌, map,
  arith, ltb, leb, ◌==◌, if◌then◌else◌, ltb→lt, lt→ltb, leb→le, ==_iff, tests, Bool-cases,
  Option-cases, length, get_or, set, take, drop, replicate,
}
use feather_os.Prelude.Int.{ℤ, pos, negsuc}

abbrev pub RawMemory : Type 0
RawMemory = ℕ → ℕ

abbrev pub store : RawMemory → ℕ → ℕ → RawMemory
store m address byte = λ x. if x == address then byte else m x

-- `for (size_t i = 0; i < n; i++) d[i] = s[i];` from `i` on, `n` rounds left.
unfoldable pub copy_up : ℕ → ℕ → ℕ → ℕ → RawMemory → RawMemory
copy_up d s i zero m = m
copy_up d s i (suc n) m = copy_up d s (i + 1) n (store m (d + i) (m (s + i)))

-- `for (size_t i = n; i > 0; i--) d[i-1] = s[i-1];`
unfoldable pub copy_down : ℕ → ℕ → ℕ → RawMemory → RawMemory
copy_down d s zero m = m
copy_down d s (suc i) m = copy_down d s i (store m (d + i) (m (s + i)))

unfoldable pub memcpy : ℕ → ℕ → ℕ → RawMemory → RawMemory × ℕ
memcpy dest src n m = (copy_up dest src 0 n m, dest)

unfoldable pub memmove : ℕ → ℕ → ℕ → RawMemory → RawMemory × ℕ
memmove dest src n m =
    (if ltb dest src then copy_up dest src 0 n m else copy_down dest src n m, dest)

unfoldable pub fill : ℕ → ℕ → ℕ → ℕ → RawMemory → RawMemory
fill p byte i zero m = m
fill p byte i (suc n) m = fill p byte (i + 1) n (store m (p + i) byte)

-- `c` is an `int`, given by its two's complement, and `(uint8_t)c` its lowest byte.
unfoldable pub memset : ℕ → ℕ → ℕ → RawMemory → RawMemory × ℕ
memset s c n m = (fill s (c % 2 ^ 8) 0 n m, s)

-- The difference of two bytes, an `int`.
abbrev pub byte_difference : ℕ → ℕ → ℤ
byte_difference a b = if leb b a then pos (a - b) else negsuc (b - a - 1)

unfoldable pub compare_from : ℕ → ℕ → ℕ → ℕ → RawMemory → ℤ
compare_from a b i zero m = pos 0
compare_from a b i (suc n) m = elim (m (a + i) == m (b + i)) [
  | false ↦ byte_difference (m (a + i)) (m (b + i))
  | true ↦ compare_from a b (i + 1) n m
]

unfoldable pub memcmp : ℕ → ℕ → ℕ → RawMemory → ℤ
memcmp s1 s2 n m = compare_from s1 s2 0 n m

-- `while (s[len]) len++;` with `rounds` left.
unfoldable pub length_from : ℕ → ℕ → ℕ → RawMemory → Option ℕ
length_from s len zero m = none
length_from s len (suc rounds) m = elim (m (s + len) == 0) [
  | true ↦ some len
  | false ↦ length_from s (len + 1) rounds m
]

unfoldable pub strlen : ℕ → ℕ → RawMemory → Option ℕ
strlen rounds s m = length_from s 0 rounds m

-- `while (src[i]) { dest[i] = src[i]; i++; } dest[i] = '\0';`
unfoldable pub string_copy_from : ℕ → ℕ → ℕ → ℕ → RawMemory → Option RawMemory
string_copy_from d s i zero m = none
string_copy_from d s i (suc rounds) m = elim (m (s + i) == 0) [
  | true ↦ some (store m (d + i) 0)
  | false ↦ string_copy_from d s (i + 1) rounds (store m (d + i) (m (s + i)))
]

unfoldable pub strcpy : ℕ → ℕ → ℕ → RawMemory → Option (RawMemory × ℕ)
strcpy rounds dest src m = elim (string_copy_from dest src 0 rounds m) [
  | none ↦ none
  | some m' ↦ some (m', dest)
]

unfoldable pub strncmp_from : ℕ → ℕ → ℕ → ℕ → RawMemory → ℤ
strncmp_from a b i zero m = pos 0
strncmp_from a b i (suc n) m = elim (not (m (a + i) == m (b + i)) || (m (a + i) == 0)) [
  | true ↦ byte_difference (m (a + i)) (m (b + i))
  | false ↦ strncmp_from a b (i + 1) n m
]

unfoldable pub strncmp : ℕ → ℕ → ℕ → RawMemory → ℤ
strncmp s1 s2 n m = strncmp_from s1 s2 0 n m
