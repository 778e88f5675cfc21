-- ===== src/Keyboard/Tests.antt =====
-- Runs of the keyboard driver.
use feather_os.Prelude.{◌≡◌, refl, false, List, [], ◌∷◌, arith, replicate}
use feather_os.Keyboard.{Keyboard, keyboard_interrupt_handler, keyboard_getchar_nb}
use feather_os.Keyboard.Buffer.{IsKeyboard, waiting}
use feather_os.Keyboard.Letters.{keyboard_interrupt_handler-waiting}
use feather_os.Keyboard.LetterA.{KeyboardEvent, byte, read, read_all, HasNo, read_all-HasNo}

abbrev fresh : Keyboard
fresh = record {
  buffer = replicate 64 0;
  head = 0;
  tail = 0;
  modifiers = 0;
  capslock = false;
  numlock = false;
  scrolllock = false;
  extended = false;
  keys_pressed = 0;
  keys_released = 0;
  buffer_overflows = 0;
}

fresh-IsKeyboard : IsKeyboard fresh
fresh-IsKeyboard = record { cells = refl; head_fits = omega arith; tail_fits = omega arith }

-- The keys S, A and Q, each pressed and released: A only toggles caps lock.
abbrev keys : List KeyboardEvent
keys =
    byte 0x1F ∷ byte 0x9F ∷ byte 0x1E ∷ byte 0x9E ∷ byte 0x10 ∷ byte 0x90 ∷ read ∷ read ∷ read ∷ []

typed : read_all fresh keys ≡ 115 ∷ 113 ∷ []
unfolding keyboard_interrupt_handler keyboard_getchar_nb
typed = refl

-- The key F7 reads as a capital A.
f7 : read_all fresh (byte 0x41 ∷ read ∷ []) ≡ 65 ∷ []
unfolding keyboard_interrupt_handler keyboard_getchar_nb
f7 = refl

read_all-HasNo_example : HasNo 97 (read_all fresh keys)
read_all-HasNo_example = read_all-HasNo fresh keys fresh-IsKeyboard tt

keyboard_interrupt_handler-waiting_example :
    IsKeyboard ((keyboard_interrupt_handler fresh 0x1F).0)
    × (waiting ((keyboard_interrupt_handler fresh 0x1F).0) ≡ 115 ∷ [])
keyboard_interrupt_handler-waiting_example =
    keyboard_interrupt_handler-waiting fresh 0x1F fresh-IsKeyboard
