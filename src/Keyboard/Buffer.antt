-- ===== src/Keyboard/Buffer.antt =====
-- The buffer of the keyboard driver as a queue of characters.
use mathlib.Core.Path.{subst}
use feather_os.Prelude.{
  ℕ, zero, suc, ◌+◌, ◌-◌, ◌%◌, ◌<◌, ◌≡◌, refl, ap, ◌∙◌, ◌≢◌, inl, inr, true, false, not, Option,
  none, some, List, [], ◌∷◌, ◌++◌, arith, ltb, ◌==◌, if◌then◌else◌, ltb→lt, lt→ltb, Bool-cases,
  length, get_or, set, drop,
}
use feather_os.Prelude.Arrays.{length-set, get_or-set}
use feather_os.Keyboard.{Keyboard, next_cell, put_char, keyboard_getchar_nb}

pub record IsKeyboard (k : Keyboard) : Type 0 where
  pub cells : length k.buffer ≡ 64
  pub head_fits : k.head < 64
  pub tail_fits : k.tail < 64

-- `n` cells from cell `i` on, around the end.
abbrev pub span : List ℕ → ℕ → ℕ → List ℕ
span cells i zero = []
span cells i (suc n) = get_or cells i 0 ∷ span cells (next_cell i) n

abbrev pub held : Keyboard → ℕ
held k = (k.head + 64 - k.tail) % 64

-- The characters that wait to be read, the oldest first.
abbrev pub waiting : Keyboard → List ℕ
waiting k = span k.buffer k.tail (held k)

span-snoc :
    (cells : List ℕ) (i n : ℕ)
    → i < 64
    → span cells i (suc n) ≡ span cells i n ++ (get_or cells ((i + n) % 64) 0 ∷ [])
span-snoc cells i zero h = let same : (i + 0) % 64 ≡ i = omega arith in rw same refl
span-snoc cells i (suc n) h =
    let shifted : (next_cell i + n) % 64 ≡ (i + suc n) % 64 = omega arith in
    ap (λ l. get_or cells i 0 ∷ l) (span-snoc cells (next_cell i) n (omega arith) ∙ rw shifted refl)

-- A change of a cell behind the span.
span-set :
    (cells : List ℕ) (i n j c : ℕ)
    → i < 64
    → ((m : ℕ) → m < n → j ≢ (i + m) % 64)
    → span (set cells j c) i n ≡ span cells i n
span-set cells i zero j c h apart = refl
span-set cells i (suc n) j c h apart =
    let here : (i + 0) % 64 ≡ i = omega arith in
    let other : j ≢ i = subst (λ x. j ≢ x) here (apart 0 (omega arith)) in
    let miss : (j == i) ≡ false = ground arith in
    rw
      (
        get_or-set cells j i c 0,
        miss,
        span-set cells (next_cell i) n j c (omega arith)
            (λ m h'. subst (λ x. j ≢ x) (shifted m) (apart (suc m) (omega arith))),
      )
      refl
  where
    shifted : (m : ℕ) → (i + suc m) % 64 ≡ (next_cell i + m) % 64
    shifted m = omega arith

-- What a queue with room for 63 makes of a character.
abbrev pub enqueue_char : List ℕ → ℕ → List ℕ
enqueue_char cs c = if ltb (length cs) 63 then cs ++ (c ∷ []) else cs

length-span : (cells : List ℕ) (i n : ℕ) → length (span cells i n) ≡ n
length-span cells i zero = refl
length-span cells i (suc n) = ap suc (length-span cells (next_cell i) n)

full_or_room :
    (head tail : ℕ)
    → head < 64
    → tail < 64
    → ((next_cell head == tail) ≡ not (ltb ((head + 64 - tail) % 64) 63))
full_or_room head tail h h' = ground arith

apart_from_head :
    (head tail m : ℕ) → head < 64 → tail < 64 → m < (head + 64 - tail) % 64 → head ≢ (tail + m) % 64
apart_from_head head tail m h h' b e = absurd (omega arith)

written : (cells : List ℕ) (i c : ℕ) → i < length cells → get_or (set cells i c) i 0 ≡ c
written cells i c h =
    let same : (i == i) ≡ true = ground arith in
    rw (get_or-set cells i i c 0, same, lt→ltb i (length cells) h) refl

span-put :
    (cells : List ℕ) (head tail c : ℕ)
    → length cells ≡ 64
    → head < 64
    → tail < 64
    → (head + 64 - tail) % 64 < 63
    → span (set cells head c) tail ((next_cell head + 64 - tail) % 64)
      ≡ span cells tail ((head + 64 - tail) % 64) ++ (c ∷ [])
span-put cells head tail c size h h' room =
    let n = (head + 64 - tail) % 64 in
    let grown : (next_cell head + 64 - tail) % 64 ≡ suc n = omega arith in
    let at_head : (tail + n) % 64 ≡ head = omega arith in
    let inside : head < length cells = omega arith in
    ap (span (set cells head c) tail) grown
    ∙ (span-snoc (set cells head c) tail n h'
        ∙ rw
            (
              span-set cells tail n head c h' (λ m b. apart_from_head head tail m h h' b),
              at_head,
              written cells head c inside,
            )
            refl)

pub put_char-waiting :
    (k : Keyboard) (c : ℕ) → IsKeyboard k → waiting (put_char k c) ≡ enqueue_char (waiting k) c
put_char-waiting k c ok =
    let step = full_or_room k.head k.tail ok.head_fits ok.tail_fits in
    elim (Bool-cases (ltb (held k) 63)) [
      | inr full ↦
          let e : (next_cell k.head == k.tail) ≡ true = step ∙ rw full refl in
          rw (e, length-span k.buffer k.tail (held k), full) refl
      | inl room ↦
          let e : (next_cell k.head == k.tail) ≡ false = step ∙ rw room refl in
          rw (e, length-span k.buffer k.tail (held k), room)
            (span-put k.buffer k.head k.tail c ok.cells ok.head_fits ok.tail_fits
              (ltb→lt (held k) 63 room))
    ]

pub put_char-IsKeyboard : (k : Keyboard) (c : ℕ) → IsKeyboard k → IsKeyboard (put_char k c)
put_char-IsKeyboard k c ok = elim (Bool-cases (next_cell k.head == k.tail)) [
  | inl e ↦ rw e (record { cells = ok.cells; head_fits = ok.head_fits; tail_fits = ok.tail_fits })
  | inr e ↦ rw e (record {
    cells = length-set k.buffer k.head c ∙ ok.cells;
    head_fits = omega arith;
    tail_fits = ok.tail_fits;
  })
]

-- Reading answers the oldest character.
abbrev pub first_char : List ℕ → Option ℕ
first_char [] = none
first_char (c ∷ cs) = some c

-- A read takes the first of the characters that wait, in their order, and answers -1 where none does.
pub keyboard_getchar_nb-waiting :
    (k : Keyboard)
    → IsKeyboard k
    → IsKeyboard ((keyboard_getchar_nb k).0)
      × ((keyboard_getchar_nb k).1 ≡ first_char (waiting k))
      × (waiting ((keyboard_getchar_nb k).0) ≡ drop 1 (waiting k))
unfolding keyboard_getchar_nb
keyboard_getchar_nb-waiting k ok = elim (Bool-cases (k.head == k.tail)) [
  | inl e ↦
      let none_held : held k ≡ 0 = ground arith in rw e (ok, rw none_held refl, rw none_held refl)
  | inr e ↦
      let some_held : held k ≡ suc ((k.head + 64 - next_cell k.tail) % 64) = ground arith in
      rw e (
        record { cells = ok.cells; head_fits = ok.head_fits; tail_fits = omega arith },
        rw some_held refl,
        rw some_held refl,
      )
]
