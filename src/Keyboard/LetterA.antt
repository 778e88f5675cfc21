-- ===== src/Keyboard/LetterA.antt =====
-- What can be read from the keyboard over a sequence of bytes and reads.
use mathlib.Core.Bool.{and-eq-true_iff}
use mathlib.Core.Path.{subst}
use feather_os.Prelude.{
  ℕ, zero, suc, ◌+◌, ◌≡◌, refl, ◌≢◌, inl, inr, Bool, true, false, not, ◌&&◌, ◌||◌, Option, none,
  some, List, [], ◌∷◌, ◌++◌, arith, ltb, ◌==◌, if◌then◌else◌, Bool-cases, length, get_or, drop,
}
use Prim.Native.Nat.{bit_and}
use feather_os.Keyboard.{
  Keyboard, kbd_us_normal, kbd_us_shift, scancode_to_ascii, keyboard_interrupt_handler,
  keyboard_getchar_nb, kbd_scan_a, kbd_key_extended, kbd_key_break,
}
use feather_os.Keyboard.Buffer.{
  IsKeyboard, waiting, enqueue_char, first_char, keyboard_getchar_nb-waiting,
}
use feather_os.Keyboard.Letters.{enters, is_mode_key, keyboard_interrupt_handler-waiting}

-- What happens to the keyboard: a byte comes, or a character is read.
pub data KeyboardEvent : Type 0 where
  byte : ℕ → KeyboardEvent
  read : KeyboardEvent

abbrev pub push_read : Option ℕ → List ℕ → List ℕ
push_read none cs = cs
push_read (some c) cs = c ∷ cs

-- The characters read in a sequence of events.
abbrev pub read_all : Keyboard → List KeyboardEvent → List ℕ
read_all k [] = []
read_all k (byte b ∷ events) = read_all ((keyboard_interrupt_handler k b).0) events
read_all k (read ∷ events) =
    push_read ((keyboard_getchar_nb k).1) (read_all ((keyboard_getchar_nb k).0) events)

abbrev pub HasNo : ℕ → List ℕ → Type 0
HasNo c [] = Unit
HasNo c (x ∷ xs) = (x ≢ c) × HasNo c xs

HasNo-snoc : (c x : ℕ) (xs : List ℕ) → x ≢ c → HasNo c xs → HasNo c (xs ++ (x ∷ []))
HasNo-snoc c x [] h n = (h, tt)
HasNo-snoc c x (y ∷ ys) h (hy, n) = (hy, HasNo-snoc c x ys h n)

HasNo-drop : (c : ℕ) (xs : List ℕ) → HasNo c xs → HasNo c (drop 1 xs)
HasNo-drop c [] n = tt
HasNo-drop c (x ∷ xs) (h, n) = n

-- The entries of a table other than the one for the key A.
abbrev no_small_a : ℕ → List ℕ → Bool
no_small_a i [] = true
no_small_a i (c ∷ cs) = ((i == kbd_scan_a) || not (c == 97)) && no_small_a (suc i) cs

no_small_a-get_or :
    (i j : ℕ) (cs : List ℕ) → no_small_a i cs ≡ true → i + j ≢ kbd_scan_a → get_or cs j 0 ≢ 97
no_small_a-get_or i j [] e h = λ z. absurd (omega arith)
no_small_a-get_or i zero (c ∷ cs) e h =
    let t =
      ((and-eq-true_iff ((i == kbd_scan_a) || not (c == 97)) (no_small_a (suc i) cs)).0 e).0 in
    λ z. absurd (ground arith)
no_small_a-get_or i (suc j) (c ∷ cs) e h =
    let t =
      ((and-eq-true_iff ((i == kbd_scan_a) || not (c == 97)) (no_small_a (suc i) cs)).0 e).1 in
    no_small_a-get_or (suc i) j cs t (λ z. h (omega arith))

normal_table : no_small_a 0 kbd_us_normal ≡ true
normal_table = refl

shift_table : no_small_a 0 kbd_us_shift ≡ true
shift_table = refl

either_not : (b : Bool) (x y : ℕ) → x ≢ 97 → y ≢ 97 → (if b then x else y) ≢ 97
either_not true x y hx hy = hx
either_not false x y hx hy = hy

other_key : (key : ℕ) → key ≢ kbd_scan_a → 0 + key ≢ kbd_scan_a
other_key key h e = h (omega arith)

zero_char : zero ≢ 97
zero_char e = absurd (omega arith)

scancode_to_ascii-not_a : (k : Keyboard) (key : ℕ) → key ≢ kbd_scan_a → scancode_to_ascii k key ≢ 97
scancode_to_ascii-not_a k key h =
    either_not (ltb key 88) _ 0
      (either_not _ (get_or kbd_us_shift key 0) (get_or kbd_us_normal key 0)
        (no_small_a-get_or 0 key kbd_us_shift shift_table (other_key key h))
        (no_small_a-get_or 0 key kbd_us_normal normal_table (other_key key h)))
      zero_char

enters-not_a : (scancode : ℕ) → enters scancode ≡ true → bit_and scancode 127 ≢ kbd_scan_a
enters-not_a scancode e h =
    let key = bit_and scancode 127 in
    let typed =
      ((and-eq-true_iff (not (scancode == kbd_key_extended))
          ((bit_and scancode kbd_key_break == 0) && not (is_mode_key key))).0
        e).1 in
    let plain =
      ((and-eq-true_iff (bit_and scancode kbd_key_break == 0) (not (is_mode_key key))).0 typed).1 in
    let wrong : not (is_mode_key kbd_scan_a) ≡ true =
      subst (λ i. not (is_mode_key i) ≡ true) h plain in
    absurd (cc wrong)

enqueue_char-HasNo : (c x : ℕ) (xs : List ℕ) → x ≢ c → HasNo c xs → HasNo c (enqueue_char xs x)
enqueue_char-HasNo c x xs h n = elim (Bool-cases (ltb (length xs) 63)) [
  | inl room ↦ rw room (HasNo-snoc c x xs h n)
  | inr full ↦ rw full n
]

push_read-HasNo :
    (c : ℕ) (xs ys : List ℕ) → HasNo c xs → HasNo c ys → HasNo c (push_read (first_char xs) ys)
push_read-HasNo c [] ys n m = m
push_read-HasNo c (x ∷ xs) ys (h, n) m = (h, m)

handled-HasNo :
    (k : Keyboard) (b : ℕ)
    → HasNo 97 (waiting k)
    → HasNo 97 (
        if enters b
        then enqueue_char (waiting k) (scancode_to_ascii k (bit_and b 127))
        else waiting k)
handled-HasNo k b n = elim (Bool-cases (enters b)) [
  | inl e ↦ rw e (
      enqueue_char-HasNo 97 (scancode_to_ascii k (bit_and b 127)) (waiting k)
        (scancode_to_ascii-not_a k (bit_and b 127) (enters-not_a b e)) n)
  | inr e ↦ rw e n
]

-- Where no small letter a waits at the start, none is ever read, whatever bytes come and however the
-- reads are mixed with them.
pub read_all-HasNo :
    (k : Keyboard) (events : List KeyboardEvent)
    → IsKeyboard k
    → HasNo 97 (waiting k)
    → HasNo 97 (read_all k events)
read_all-HasNo k [] ok n = tt
read_all-HasNo k (byte b ∷ events) ok n =
    let (ok', w) = keyboard_interrupt_handler-waiting k b ok in
    read_all-HasNo ((keyboard_interrupt_handler k b).0) events ok' (rw w (handled-HasNo k b n))
read_all-HasNo k (read ∷ events) ok n =
    let (ok', answered, left) = keyboard_getchar_nb-waiting k ok in
    rw answered (
      push_read-HasNo 97 (waiting k) (read_all ((keyboard_getchar_nb k).0) events) n (
        read_all-HasNo ((keyboard_getchar_nb k).0) events ok'
          (rw left (HasNo-drop 97 (waiting k) n))))
