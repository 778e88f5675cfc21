-- ===== src/Keyboard/Letters.antt =====
-- The characters that the keyboard's bytes enter into the buffer.
use feather_os.Prelude.{
  ℕ, ◌+◌, ◌-◌, ◌%◌, ◌^◌, ◌≡◌, refl, ap, ◌∙◌, inl, inr, Bool, true, false, not, ◌&&◌, ◌||◌, Option,
  none, List, ◌==◌, if◌then◌else◌, Bool-cases, length,
}
use Prim.Native.Nat.{bit_and}
use feather_os.Keyboard.{
  Keyboard, set_modifier, toggle_if, put_char, scancode_to_ascii, type_key, handle_key,
  count_released, keyboard_interrupt_handler, kbd_scan_lshift, kbd_scan_rshift, kbd_scan_lctrl,
  kbd_scan_a, kbd_scan_numlock, kbd_scan_scrolllock, kbd_key_extended, kbd_key_break,
}
use feather_os.Keyboard.Buffer.{
  IsKeyboard, waiting, enqueue_char, put_char-waiting, put_char-IsKeyboard,
}

-- The keys that only change the state of the driver.
abbrev pub is_mode_key : ℕ → Bool
is_mode_key key =
    (key == kbd_scan_lshift)
    || ((key == kbd_scan_rshift)
        || ((key == kbd_scan_lctrl)
            || ((key == kbd_scan_a)
                || ((key == kbd_scan_numlock) || ((key == kbd_scan_scrolllock) || false)))))

-- The byte is the press of a key that enters a character.
abbrev pub enters : ℕ → Bool
enters scancode =
    not (scancode == kbd_key_extended)
    && ((bit_and scancode kbd_key_break == 0)
        && not (is_mode_key (bit_and scancode (255 - kbd_key_break))))

-- The characters of a keyboard are these.
abbrev Waits : Keyboard × Option ℕ → List ℕ → Type 0
Waits q cs = IsKeyboard (q.0) × (waiting (q.0) ≡ cs)

either-Waits :
    (b m : Bool) (x y : Keyboard × Option ℕ) (kept put : List ℕ)
    → Waits x kept
    → Waits y (if m then kept else put)
    → Waits (if b then x else y) (if b || m then kept else put)
either-Waits true m x y kept put wx wy = wx
either-Waits false m x y kept put wx wy = wy

-- The fields that do not belong to the buffer may change.
same_buffer :
    (k k' : Keyboard)
    → k'.buffer ≡ k.buffer
    → k'.head ≡ k.head
    → k'.tail ≡ k.tail
    → IsKeyboard k
    → IsKeyboard k'
same_buffer k k' b h t ok = record {
  cells = ap length b ∙ ok.cells;
  head_fits = rw h ok.head_fits;
  tail_fits = rw t ok.tail_fits;
}

toggle_if-Waits :
    (pressed : Bool) (k toggled : Keyboard)
    → toggled.buffer ≡ k.buffer
    → toggled.head ≡ k.head
    → toggled.tail ≡ k.tail
    → IsKeyboard k
    → Waits (toggle_if pressed k toggled) (waiting k)
toggle_if-Waits true k toggled b h t ok = (same_buffer k toggled b h t ok, rw (b, h, t) refl)
toggle_if-Waits false k toggled b h t ok = (ok, refl)

-- A key that is typed.
abbrev put_if : Bool → List ℕ → ℕ → List ℕ
put_if pressed cs c = if pressed then enqueue_char cs c else cs

type_key-Waits :
    (k : Keyboard) (pressed : Bool) (key : ℕ)
    → IsKeyboard k
    → Waits (type_key k pressed key, none) (put_if pressed (waiting k) (scancode_to_ascii k key))
type_key-Waits k true key ok =
    let put = put_char-IsKeyboard k (scancode_to_ascii k key) ok in
    (
      same_buffer (put_char k (scancode_to_ascii k key)) (type_key k true key) refl refl refl put,
      put_char-waiting k (scancode_to_ascii k key) ok,
    )
type_key-Waits k false key ok = (same_buffer k (type_key k false key) refl refl refl ok, refl)

handle_key-Waits :
    (k : Keyboard) (pressed : Bool) (key : ℕ)
    → IsKeyboard k
    → Waits (handle_key k pressed key) (
        if is_mode_key key then waiting k else put_if pressed (waiting k) (scancode_to_ascii k key))
handle_key-Waits k pressed key ok =
    let kept = waiting k in
    let put = put_if pressed (waiting k) (scancode_to_ascii k key) in
    either-Waits (key == kbd_scan_lshift) _ _ _ kept put (unmoved 1) (
      either-Waits (key == kbd_scan_rshift) _ _ _ kept put (unmoved 2) (
        either-Waits (key == kbd_scan_lctrl) _ _ _ kept put (unmoved 4) (
          either-Waits (key == kbd_scan_a) _ _ _ kept put
            (toggle_if-Waits pressed k _ refl refl refl ok)
            (either-Waits (key == kbd_scan_numlock) _ _ _ kept put
              (toggle_if-Waits pressed k _ refl refl refl ok)
              (either-Waits (key == kbd_scan_scrolllock) false _ _ kept put
                (toggle_if-Waits pressed k _ refl refl refl ok)
                (type_key-Waits k pressed key ok))))))
  where
    unmoved : (flag : ℕ) → Waits (set_modifier k pressed flag, none) (waiting k)
    unmoved flag = (same_buffer k (set_modifier k pressed flag) refl refl refl ok, refl)

count_released-Waits :
    (k : Keyboard) (pressed : Bool) (key : ℕ)
    → IsKeyboard k
    → Waits (handle_key (count_released k pressed) pressed key) (
        if is_mode_key key then waiting k else put_if pressed (waiting k) (scancode_to_ascii k key))
count_released-Waits k true key ok = handle_key-Waits k true key ok
count_released-Waits k false key ok =
    handle_key-Waits (count_released k false) false key
      (same_buffer k (count_released k false) refl refl refl ok)

swap_tests :
    (pressed mode : Bool) (cs : List ℕ) (c : ℕ)
    → (if mode then cs else put_if pressed cs c) ≡ put_if (pressed && not mode) cs c
swap_tests true true cs c = refl
swap_tests true false cs c = refl
swap_tests false true cs c = refl
swap_tests false false cs c = refl

-- A byte enters a character at the end of the queue, if it is the press of a key that enters one and
-- fewer than 63 characters wait; else the queue stays as it is.
pub keyboard_interrupt_handler-waiting :
    (k : Keyboard) (scancode : ℕ)
    → IsKeyboard k
    → IsKeyboard ((keyboard_interrupt_handler k scancode).0)
      × (waiting ((keyboard_interrupt_handler k scancode).0) ≡ (
          if enters scancode
          then enqueue_char (waiting k) (scancode_to_ascii k (bit_and scancode 127))
          else waiting k))
unfolding keyboard_interrupt_handler
keyboard_interrupt_handler-waiting k scancode ok =
    let pressed = bit_and scancode kbd_key_break == 0 in
    let key = bit_and scancode (255 - kbd_key_break) in
    let k1 : Keyboard = record k { keys_pressed = (k.keys_pressed + 1) % 2 ^ 64 } in
    let ok1 = same_buffer k k1 refl refl refl ok in
    elim (Bool-cases (scancode == kbd_key_extended)) [
      | inl e ↦ rw e (same_buffer k (record k1 { extended = true }) refl refl refl ok, refl)
      | inr e ↦
          let (ok', w) = count_released-Waits k1 pressed key ok1 in
          rw e (ok', w ∙ swap_tests pressed (is_mode_key key) (waiting k) (scancode_to_ascii k key))
    ]
