-- ===== src/Strings/Tests.antt =====
-- A memory in which each address holds its own low byte, and the theorems at it.
use feather_os.Prelude.{◌%◌, ◌≡◌, refl, inr, some, arith}
use feather_os.Strings.{RawMemory, memmove, strlen}
use feather_os.Strings.Copy.{memmove_lem}
use feather_os.Strings.Length.{strlen_lem}

abbrev bytes : RawMemory
bytes x = x % 256

memmove_example : ((memmove 12 10 5 bytes).0 14 ≡ 12) × ((memmove 12 10 5 bytes).0 20 ≡ 20)
memmove_example = memmove_lem 12 10 5 2 20 bytes (omega arith) (inr (omega arith))

strlen_example : strlen 300 250 bytes ≡ some 6
strlen_example = strlen_lem 250 6 300 bytes (omega arith) (λ j lt. ground arith) refl
