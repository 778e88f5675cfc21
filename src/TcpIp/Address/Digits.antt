-- ===== src/TcpIp/Address/Digits.antt =====
-- The digits that ip_addr_to_str writes for an octet, and how ip_addr_from_str reads them.
use mathlib.Core.Path.{subst}
use feather_os.Prelude.{
  ℕ, suc, ◌+◌, ◌-◌, ◌*◌, ◌/◌, ◌%◌, ◌≤◌, ◌<◌, ◌≡◌, refl, sym, ap, ◌∙◌, Bool, true, false, not, ◌&&◌,
  ◌||◌, some, List, [], ◌∷◌, ◌++◌, arith, ltb, leb, if◌then◌else◌, length,
}
use feather_os.TcpIp.Address.{
  octet_to_str, read_number, subst, read_octets, octets_to_str, skip_dot, take_number,
}

-- A text at which a number ends.
abbrev Ends : List ℕ → Type 0
Ends [] = Unit
Ends (c ∷ cs) = (leb b'0' c && leb c b'9') ≡ false

-- The number that a reader finds in the characters written for the first octet: the zero of the
-- tens is missing between hundreds and units.
abbrev pub written_first : ℕ → ℕ
written_first v = if leb 100 v && ltb (v % 100) 10 then v / 100 * 10 + v % 10 else v

read_number-Ends : (val : ℕ) (rest : List ℕ) → Ends rest → read_number val rest ≡ (val, rest)
unfolding read_number
read_number-Ends val [] e = refl
read_number-Ends val (c ∷ cs) e = rw e refl

read_digit :
    (val d : ℕ) (rest : List ℕ)
    → d < 10
    → read_number val ((b'0' + d) ∷ rest) ≡ read_number (val * 10 + d) rest
unfolding read_number
read_digit val d rest lt =
    let e : (48 + d) - 48 ≡ d = omega arith in
    ground (arith, ap (λ x. read_number (val * 10 + x) rest) e)

-- The digits of a number below 1000.
abbrev hundreds : ℕ → List ℕ
hundreds v = (b'0' + v / 100) ∷ (b'0' + v % 100 / 10) ∷ (b'0' + v % 10) ∷ []

abbrev tens : ℕ → List ℕ
tens v = (b'0' + v / 10) ∷ (b'0' + v % 10) ∷ []

octet_digits :
    (first : Bool) (v : ℕ)
    → v < 256
    → octet_to_str first v ≡ (
        if leb 100 v
        then (if leb 10 (v % 100) || not first
            then hundreds v
            else (b'0' + v / 100) ∷ (b'0' + v % 100) ∷ [])
        else if leb 10 v
        then tens v
        else (b'0' + v) ∷ [])
unfolding octet_to_str
octet_digits true v lt = ground arith
octet_digits false v lt = ground arith

read_hundreds :
    (v : ℕ) (rest : List ℕ) → v < 256 → Ends rest → read_number 0 (hundreds v ++ rest) ≡ (v, rest)
read_hundreds v rest lt e =
    read_digit 0 (v / 100) _ (omega arith)
    ∙ read_digit _ (v % 100 / 10) _ (omega arith)
    ∙ read_digit _ (v % 10) rest (omega arith)
    ∙ read_number-Ends _ rest e
    ∙ ap (λ n. (n, rest)) (omega arith)

read_tens :
    (v : ℕ) (rest : List ℕ) → v < 100 → Ends rest → read_number 0 (tens v ++ rest) ≡ (v, rest)
read_tens v rest lt e =
    read_digit 0 (v / 10) _ (omega arith)
    ∙ read_digit _ (v % 10) rest (omega arith)
    ∙ read_number-Ends _ rest e
    ∙ ap (λ n. (n, rest)) (omega arith)

read_unit :
    (v : ℕ) (rest : List ℕ) → v < 10 → Ends rest → read_number 0 ((b'0' + v) ∷ rest) ≡ (v, rest)
read_unit v rest lt e =
    read_digit 0 v rest lt ∙ read_number-Ends _ rest e ∙ ap (λ n. (n, rest)) (omega arith)

read_short :
    (v : ℕ) (rest : List ℕ)
    → v < 256
    → v % 100 < 10
    → Ends rest
    → read_number 0 ((b'0' + v / 100) ∷ (b'0' + v % 100) ∷ rest) ≡ (v / 100 * 10 + v % 10, rest)
read_short v rest lt few e =
    read_digit 0 (v / 100) _ (omega arith)
    ∙ read_digit _ (v % 100) rest (omega arith)
    ∙ read_number-Ends _ rest e
    ∙ ap (λ n. (n, rest)) (omega arith)

octet_number :
    (v : ℕ) (rest : List ℕ)
    → v < 256
    → Ends rest
    → read_number 0 (octet_to_str false v ++ rest) ≡ (v, rest)
octet_number v rest lt e =
    ap (λ s. read_number 0 (s ++ rest)) (octet_digits false v lt)
    ∙ ground (arith, read_hundreds v rest, read_tens v rest, read_unit v rest)

first_number :
    (v : ℕ) (rest : List ℕ)
    → v < 256
    → Ends rest
    → read_number 0 (octet_to_str true v ++ rest) ≡ (written_first v, rest)
first_number v rest lt e =
    ap (λ s. read_number 0 (s ++ rest)) (octet_digits true v lt)
    ∙ ground (arith, read_hundreds v rest, read_tens v rest, read_unit v rest, read_short v rest)

pub length-octet : (first : Bool) (v : ℕ) → v < 256 → length (octet_to_str first v) ≤ 3
length-octet first v lt = ground (arith, octet_digits first v lt)

octet_nonempty :
    (first : Bool) (v : ℕ) (rest : List ℕ) → v < 256 → 0 < length (octet_to_str first v ++ rest)
octet_nonempty first v rest lt =
    subst (λ s. 0 < length (s ++ rest)) (sym (octet_digits first v lt)) (ground arith)

pub octets_to_str-cons :
    (octet : ℕ) (octets : List ℕ) (first : Bool) (pos len : ℕ)
    → pos + 1 < len
    → octets_to_str (octet ∷ octets) first pos len
      ≡ ((if first then [] else b'.' ∷ []) ++ octet_to_str first octet)
        ++ octets_to_str octets false
            (pos + length ((if first then [] else b'.' ∷ []) ++ octet_to_str first octet))
            len
unfolding octets_to_str
octets_to_str-cons octet octets first pos len room =
    let go : ltb pos (len - 1) ≡ true = ground arith in rw go refl

-- The number before a rest, and what the reader goes on with.
read_octets-number :
    (n v : ℕ) (str rest : List ℕ)
    → 0 < length str
    → read_number 0 str ≡ (v, rest)
    → read_octets (suc n) str ≡ take_number (read_octets n) (v, rest)
unfolding read_octets
read_octets-number n v [] rest nonempty e = absurd (omega arith)
read_octets-number n v (c ∷ cs) rest nonempty e = ap (take_number (read_octets n)) e

taken :
    (n v : ℕ) (text : List ℕ) (r : List ℕ × List ℕ)
    → v < 256
    → read_octets n (skip_dot text) ≡ some r
    → take_number (read_octets n) (v, text) ≡ some (v ∷ r.0, r.1)
taken n v text r lt e =
    let small : ltb 255 v ≡ false = ground arith in rw (take_number, small, e) refl

pub last_octet : (v : ℕ) → v < 256 → read_octets 1 (octet_to_str false v ++ []) ≡ some (v ∷ [], [])
unfolding read_octets
last_octet v lt =
    read_octets-number 0 v _ [] (octet_nonempty false v [] lt) (octet_number v [] lt tt)
    ∙ taken 0 v [] ([], []) lt refl

pub next_octet :
    (n v : ℕ) (text vals : List ℕ)
    → v < 256
    → read_octets n text ≡ some (vals, [])
    → read_octets (suc n) (octet_to_str false v ++ (b'.' ∷ text)) ≡ some (v ∷ vals, [])
next_octet n v text vals lt e =
    read_octets-number n v _ (b'.' ∷ text) (octet_nonempty false v _ lt) (octet_number v _ lt refl)
    ∙ taken n v (b'.' ∷ text) (vals, []) lt e

pub first_octet :
    (n v : ℕ) (text vals : List ℕ)
    → v < 256
    → read_octets n text ≡ some (vals, [])
    → read_octets (suc n) (octet_to_str true v ++ (b'.' ∷ text)) ≡ some (written_first v ∷ vals, [])
first_octet n v text vals lt e =
    read_octets-number n (written_first v) _ (b'.' ∷ text) (octet_nonempty true v _ lt)
      (first_number v _ lt refl)
    ∙ taken n (written_first v) (b'.' ∷ text) (vals, []) (ground arith) e
