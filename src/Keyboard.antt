-- ===== src/Keyboard.antt =====
-- The keyboard driver FeatherOS/kernel/drivers/keyboard.c: what the interrupt handler makes of a byte
-- from the keyboard, and the buffer of characters. The byte that inb answers is an argument, and the
-- setting of the lamps, which goes to the port, is a result.
pub mod Buffer
pub mod Letters
pub mod LetterA
mod Tests
use mathlib.Core.Path.{subst, fun_ext}
use mathlib.Core.Logic.{dite, ite}
use native.Mathlib.Nat.{
  add_comm, add_assoc, le_refl, le_trans, mod-eq_of_lt, mod-lt, mod-eq-sub-mod, mod-add-mod,
}
use native.Mathlib.Decide.{ℕ_discrete, dec_lt, dec_le}
use feather_os.Prelude.{
  ℕ, zero, suc, ◌+◌, ◌-◌, ◌*◌, ◌/◌, ◌%◌, ◌^◌, ◌≤◌, ◌<◌, min, max, ◌≡◌, refl, sym, ap, ◌∙◌, ◌≢◌, ◌↔◌,
  ◌⊎◌, inl, inr, Bool, true, false, not, ◌&&◌, ◌||◌, Option, none, some, List, [], ◌∷◌, ◌++◌, map,
  arith, ltb, leb, ◌==◌, if◌then◌else◌, ltb→lt, lt→ltb, leb→le, ==_iff, tests, Bool-cases,
  Option-cases, length, get_or, set, take, drop, replicate,
}
use Prim.Native.Nat.{bit_and, bit_or}
use feather_os.Memory.State.{inc64}

-- `kbd_buffer` with its 64 cells, the modifier state and the counters of `input_stats` for keys.
pub record Keyboard : Type 0 where
  pub buffer : List ℕ
  pub head : ℕ
  pub tail : ℕ
  pub modifiers : ℕ
  pub capslock : Bool
  pub numlock : Bool
  pub scrolllock : Bool
  pub extended : Bool
  pub keys_pressed : ℕ
  pub keys_released : ℕ
  pub buffer_overflows : ℕ

abbrev pub keyboard_buffer_size : ℕ
keyboard_buffer_size = 64

-- The characters by key, as their codes; the keys without a character have their scan code.
abbrev pub kbd_us_normal : List ℕ
kbd_us_normal =
    0 ∷ 1 ∷ 49 ∷ 50 ∷ 51 ∷ 52 ∷ 53 ∷ 54 ∷ 55 ∷ 56 ∷ 57 ∷ 48 ∷ 45 ∷ 61 ∷ 8 ∷ 9 ∷ 113 ∷ 119 ∷ 101
    ∷ 114 ∷ 116 ∷ 121 ∷ 117 ∷ 105 ∷ 111 ∷ 112 ∷ 91 ∷ 93 ∷ 10 ∷ 29 ∷ 97 ∷ 115 ∷ 100 ∷ 102 ∷ 103 ∷ 104
    ∷ 106 ∷ 107 ∷ 108 ∷ 59 ∷ 39 ∷ 96 ∷ 42 ∷ 92 ∷ 122 ∷ 120 ∷ 99 ∷ 118 ∷ 98 ∷ 110 ∷ 109 ∷ 44 ∷ 46
    ∷ 47 ∷ 54 ∷ 42 ∷ 56 ∷ 32 ∷ 58 ∷ 59 ∷ 60 ∷ 61 ∷ 62 ∷ 63 ∷ 64 ∷ 65 ∷ 66 ∷ 67 ∷ 68 ∷ 69 ∷ 70 ∷ 55
    ∷ 56 ∷ 57 ∷ 45 ∷ 52 ∷ 53 ∷ 54 ∷ 43 ∷ 49 ∷ 50 ∷ 51 ∷ 48 ∷ 46 ∷ 0 ∷ 0 ∷ 87 ∷ 88 ∷ []

abbrev pub kbd_us_shift : List ℕ
kbd_us_shift =
    0 ∷ 1 ∷ 33 ∷ 64 ∷ 35 ∷ 36 ∷ 37 ∷ 94 ∷ 38 ∷ 42 ∷ 40 ∷ 41 ∷ 95 ∷ 43 ∷ 8 ∷ 9 ∷ 81 ∷ 87 ∷ 69 ∷ 82
    ∷ 84 ∷ 89 ∷ 85 ∷ 73 ∷ 79 ∷ 80 ∷ 123 ∷ 125 ∷ 10 ∷ 29 ∷ 65 ∷ 83 ∷ 68 ∷ 70 ∷ 71 ∷ 72 ∷ 74 ∷ 75 ∷ 76
    ∷ 58 ∷ 34 ∷ 126 ∷ 42 ∷ 124 ∷ 90 ∷ 88 ∷ 67 ∷ 86 ∷ 66 ∷ 78 ∷ 77 ∷ 60 ∷ 62 ∷ 63 ∷ 54 ∷ 42 ∷ 56 ∷ 32
    ∷ 58 ∷ 59 ∷ 60 ∷ 61 ∷ 62 ∷ 63 ∷ 64 ∷ 65 ∷ 66 ∷ 67 ∷ 68 ∷ 69 ∷ 70 ∷ 55 ∷ 56 ∷ 57 ∷ 45 ∷ 52 ∷ 53
    ∷ 54 ∷ 43 ∷ 49 ∷ 50 ∷ 51 ∷ 48 ∷ 46 ∷ 0 ∷ 0 ∷ 87 ∷ 88 ∷ []

abbrev pub kbd_mod_lshift : ℕ
kbd_mod_lshift = 1

abbrev pub kbd_mod_rshift : ℕ
kbd_mod_rshift = 2

abbrev pub kbd_mod_lctrl : ℕ
kbd_mod_lctrl = 4

abbrev pub kbd_scan_lctrl : ℕ
kbd_scan_lctrl = 0x1D

abbrev pub kbd_scan_a : ℕ
kbd_scan_a = 0x1E

abbrev pub kbd_scan_lshift : ℕ
kbd_scan_lshift = 0x2A

abbrev pub kbd_scan_z : ℕ
kbd_scan_z = 0x2C

abbrev pub kbd_scan_rshift : ℕ
kbd_scan_rshift = 0x36

abbrev pub kbd_scan_numlock : ℕ
kbd_scan_numlock = 0x45

abbrev pub kbd_scan_scrolllock : ℕ
kbd_scan_scrolllock = 0x46

abbrev pub kbd_key_extended : ℕ
kbd_key_extended = 0xE0

abbrev pub kbd_key_break : ℕ
kbd_key_break = 0x80

-- `kbd_modifiers & KBD_MOD_SHIFT`
abbrev pub shift_held : Keyboard → Bool
shift_held k = not (bit_and k.modifiers (bit_or kbd_mod_lshift kbd_mod_rshift) == 0)

abbrev pub scancode_to_ascii : Keyboard → ℕ → ℕ
scancode_to_ascii k scancode =
    let letter = leb kbd_scan_a scancode && leb scancode kbd_scan_z in
    let shift = shift_held k || (k.capslock && (not (shift_held k) && letter)) in
    if ltb scancode (length kbd_us_normal)
    then if shift then get_or kbd_us_shift scancode 0 else get_or kbd_us_normal scancode 0
    else 0

-- A modifier of 8 bits set or taken away.
abbrev pub set_modifier : Keyboard → Bool → ℕ → Keyboard
set_modifier k pressed flag = record k {
  modifiers = if pressed then bit_or k.modifiers flag else bit_and k.modifiers (255 - flag);
}

-- The argument of keyboard_set_leds.
abbrev lamps : Keyboard → ℕ
lamps k =
    bit_or (bit_or (if k.scrolllock then 1 else 0) (if k.numlock then 2 else 0))
      (if k.capslock then 4 else 0)

abbrev pub with_lamps : Keyboard → Keyboard × Option ℕ
with_lamps k = (k, some (lamps k))

abbrev pub toggle_if : Bool → Keyboard → Keyboard → Keyboard × Option ℕ
toggle_if pressed k toggled = if pressed then with_lamps toggled else (k, none)

abbrev pub next_cell : ℕ → ℕ
next_cell i = (i + 1) % keyboard_buffer_size

-- The character goes into the buffer where there is room.
abbrev pub put_char : Keyboard → ℕ → Keyboard
put_char k c =
    if next_cell k.head == k.tail
    then record k { buffer_overflows = inc64 k.buffer_overflows }
    else record k { buffer = set k.buffer k.head c; head = next_cell k.head }

-- A key that is no modifier.
abbrev pub type_key : Keyboard → Bool → ℕ → Keyboard
type_key k pressed key =
    let typed = if pressed then put_char k (scancode_to_ascii k key) else k in
    record typed { extended = false }

-- The key is in one of the cases of the switch.
abbrev pub handle_key : Keyboard → Bool → ℕ → Keyboard × Option ℕ
handle_key k pressed key =
    if key == kbd_scan_lshift
    then (set_modifier k pressed kbd_mod_lshift, none)
    else if key == kbd_scan_rshift
    then (set_modifier k pressed kbd_mod_rshift, none)
    else if key == kbd_scan_lctrl
    then (set_modifier k pressed kbd_mod_lctrl, none)
    else if key == kbd_scan_a
    then toggle_if pressed k (record k { capslock = not k.capslock })
    else if key == kbd_scan_numlock
    then toggle_if pressed k (record k { numlock = not k.numlock })
    else if key == kbd_scan_scrolllock
    then toggle_if pressed k (record k { scrolllock = not k.scrolllock })
    else (type_key k pressed key, none)

abbrev pub count_released : Keyboard → Bool → Keyboard
count_released k pressed = if pressed then k else record k { keys_released = inc64 k.keys_released }

-- The keyboard after a byte, and the lamps where they are set.
unfoldable pub keyboard_interrupt_handler : Keyboard → ℕ → Keyboard × Option ℕ
keyboard_interrupt_handler k scancode =
    let k1 = record k { keys_pressed = inc64 k.keys_pressed } in
    let pressed = bit_and scancode kbd_key_break == 0 in
    let key = bit_and scancode (255 - kbd_key_break) in
    if scancode == kbd_key_extended
    then (record k1 { extended = true }, none)
    else handle_key (count_released k1 pressed) pressed key

-- `none` where the result is -1. keyboard_getchar does the same once a character has come.
unfoldable pub keyboard_getchar_nb : Keyboard → Keyboard × Option ℕ
keyboard_getchar_nb k =
    if k.head == k.tail
    then (k, none)
    else (record k { tail = next_cell k.tail }, some (get_or k.buffer k.tail 0))

abbrev pub keyboard_has_input : Keyboard → Bool
keyboard_has_input k = not (k.head == k.tail)

abbrev pub keyboard_clear_buffer : Keyboard → Keyboard
keyboard_clear_buffer k = record k { head = 0; tail = 0 }
