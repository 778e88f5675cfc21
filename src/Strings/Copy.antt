-- ===== src/Strings/Copy.antt =====
-- What memcpy, memmove and memset leave in memory.
use native.Mathlib.Decide.{ℕ_discrete, dec_lt}
use feather_os.Prelude.{
  ℕ, zero, suc, ◌+◌, ◌-◌, ◌%◌, ◌^◌, ◌≤◌, ◌<◌, ◌≡◌, refl, sym, ap, ◌∙◌, ◌⊎◌, inl, inr, true, false,
  arith, ltb,
}
use feather_os.Strings.{RawMemory, store, copy_up, copy_down, memcpy, memmove, fill, memset}

copy_up-outside :
    (d s i n x : ℕ) (m : RawMemory) → (x < d + i) ⊎ (d + i + n ≤ x) → copy_up d s i n m x ≡ m x
unfolding copy_up
copy_up-outside d s i zero x m out = refl
copy_up-outside d s i (suc n) x m out =
    copy_up-outside d s (i + 1) n x (store m (d + i) (m (s + i))) (ground arith) ∙ ground arith

copy_up-inside :
    (d s i n k : ℕ) (m : RawMemory)
    → i ≤ k
    → k < i + n
    → (d ≤ s) ⊎ (s + (i + n) ≤ d)
    → copy_up d s i n m (d + k) ≡ m (s + k)
unfolding copy_up
copy_up-inside d s i zero k m lo hi way = absurd (omega arith)
copy_up-inside d s i (suc n) k m lo hi way = elim (ℕ_discrete i k) [
  | yes e ↦
      copy_up-outside d s (i + 1) n (d + k) (store m (d + i) (m (s + i))) (inl (omega arith))
      ∙ ground (arith, e, ap (λ j. m (s + j)) e)
  | no ne ↦
      copy_up-inside d s (i + 1) n k (store m (d + i) (m (s + i))) (omega arith) (omega arith)
        (ground arith)
      ∙ ground arith
]

copy_down-outside :
    (d s n x : ℕ) (m : RawMemory) → (x < d) ⊎ (d + n ≤ x) → copy_down d s n m x ≡ m x
unfolding copy_down
copy_down-outside d s zero x m out = refl
copy_down-outside d s (suc i) x m out =
    copy_down-outside d s i x (store m (d + i) (m (s + i))) (ground arith) ∙ ground arith

copy_down-inside :
    (d s n k : ℕ) (m : RawMemory) → k < n → s ≤ d → copy_down d s n m (d + k) ≡ m (s + k)
unfolding copy_down
copy_down-inside d s zero k m hi way = absurd (omega arith)
copy_down-inside d s (suc i) k m hi way = elim (ℕ_discrete i k) [
  | yes e ↦
      copy_down-outside d s i (d + k) (store m (d + i) (m (s + i))) (inr (omega arith))
      ∙ ground (arith, e, ap (λ j. m (s + j)) e)
  | no ne ↦ copy_down-inside d s i k (store m (d + i) (m (s + i))) (omega arith) way ∙ ground arith
]

-- memmove leaves at the destination what stood at the source, however the two ranges overlap, and
-- nothing else changes.
pub memmove_lem :
    (dest src n k x : ℕ) (m : RawMemory)
    → k < n
    → (x < dest) ⊎ (dest + n ≤ x)
    → ((memmove dest src n m).0 (dest + k) ≡ m (src + k)) × ((memmove dest src n m).0 x ≡ m x)
unfolding memmove
memmove_lem dest src n k x m lt out = elim (dec_lt dest src) [
  | yes below ↦
      let up : ltb dest src ≡ true = ground arith in
      (
        rw up (copy_up-inside dest src 0 n k m (omega arith) (omega arith) (inl (omega arith))),
        rw up (copy_up-outside dest src 0 n x m (ground arith)),
      )
  | no above ↦
      let down : ltb dest src ≡ false = ground arith in
      (
        rw down (copy_down-inside dest src n k m lt (omega arith)),
        rw down (copy_down-outside dest src n x m out),
      )
]

same_byte :
    (dest src n x : ℕ) (m : RawMemory)
    → src ≤ dest
    → (dest ≤ src) ⊎ (src + n ≤ dest)
    → copy_up dest src 0 n m x ≡ copy_down dest src n m x
same_byte dest src n x m le way = elim (dec_lt x dest) [
  | yes under ↦
      copy_up-outside dest src 0 n x m (inl (omega arith))
      ∙ sym (copy_down-outside dest src n x m (inl under))
  | no over ↦ elim (dec_lt x (dest + n)) [
    | yes within ↦
        let e : x ≡ dest + (x - dest) = omega arith in
        ap (copy_up dest src 0 n m) e
        ∙ copy_up-inside dest src 0 n (x - dest) m (omega arith) (omega arith) (ground arith)
        ∙ sym (copy_down-inside dest src n (x - dest) m (omega arith) le)
        ∙ ap (copy_down dest src n m) (sym e)
    | no beyond ↦
        copy_up-outside dest src 0 n x m (inr (omega arith))
        ∙ sym (copy_down-outside dest src n x m (inr (omega arith)))
  ]
]

-- memcpy gives every byte that memmove gives, where the destination starts at or before the source
-- or the two ranges are apart.
memcpy-memmove :
    (dest src n x : ℕ) (m : RawMemory)
    → (dest ≤ src) ⊎ (src + n ≤ dest)
    → (memcpy dest src n m).0 x ≡ (memmove dest src n m).0 x
unfolding memcpy memmove
memcpy-memmove dest src n x m way = elim (dec_lt dest src) [
  | yes below ↦ let up : ltb dest src ≡ true = ground arith in rw up refl
  | no above ↦
      let down : ltb dest src ≡ false = ground arith in
      rw down (same_byte dest src n x m (omega (arith, above)) way)
]

fill_outside :
    (p byte i n x : ℕ) (m : RawMemory) → (x < p + i) ⊎ (p + i + n ≤ x) → fill p byte i n m x ≡ m x
unfolding fill
fill_outside p byte i zero x m out = refl
fill_outside p byte i (suc n) x m out =
    fill_outside p byte (i + 1) n x (store m (p + i) byte) (ground arith) ∙ ground arith

fill_inside :
    (p byte i n k : ℕ) (m : RawMemory) → i ≤ k → k < i + n → fill p byte i n m (p + k) ≡ byte
unfolding fill
fill_inside p byte i zero k m lo hi = absurd (omega arith)
fill_inside p byte i (suc n) k m lo hi = elim (ℕ_discrete i k) [
  | yes e ↦
      fill_outside p byte (i + 1) n (p + k) (store m (p + i) byte) (inl (omega arith))
      ∙ ground arith
  | no ne ↦ fill_inside p byte (i + 1) n k (store m (p + i) byte) (omega arith) (omega arith)
]

-- memset sets every byte of the range to the lowest byte of `c`, and no other.
memset_lem :
    (s c n k x : ℕ) (m : RawMemory)
    → k < n
    → (x < s) ⊎ (s + n ≤ x)
    → ((memset s c n m).0 (s + k) ≡ c % 2 ^ 8) × ((memset s c n m).0 x ≡ m x)
unfolding memset
memset_lem s c n k x m lt out = (
  fill_inside s (c % 2 ^ 8) 0 n k m (omega arith) (omega arith),
  fill_outside s (c % 2 ^ 8) 0 n x m (ground arith),
)
