-- ===== src/TcpIp/Address.antt =====
-- The address functions at the end of FeatherOS/kernel/net/tcpip.c. A text is the list of its
-- characters before the terminating zero.
pub mod Digits
pub mod RoundTrip
mod Tests
use mathlib.Core.Path.{subst, fun_ext}
use mathlib.Core.Logic.{dite, ite}
use native.Mathlib.Nat.{
  add_comm, add_assoc, le_refl, le_trans, mod-eq_of_lt, mod-lt, mod-eq-sub-mod, mod-add-mod,
}
use native.Mathlib.Decide.{ℕ_discrete, dec_lt, dec_le}
use feather_os.Prelude.{
  ℕ, zero, suc, ◌+◌, ◌-◌, ◌*◌, ◌/◌, ◌%◌, ◌^◌, ◌≤◌, ◌<◌, min, max, ◌≡◌, refl, sym, ap, ◌∙◌, ◌≢◌, ◌↔◌,
  ◌⊎◌, inl, inr, Bool, true, false, not, ◌&&◌, ◌||◌, Option, none, some, List, [], ◌∷◌, ◌++◌, map,
  arith, ltb, leb, ◌==◌, if◌then◌else◌, ltb→lt, lt→ltb, leb→le, ==_iff, tests, Bool-cases,
  Option-cases, length, get_or, set, take, drop, replicate,
}
use Prim.Native.Nat.{bit_and}

-- `uint8_t addr[4]`
pub record IpAddr : Type 0 where
  pub b0 : ℕ
  pub b1 : ℕ
  pub b2 : ℕ
  pub b3 : ℕ

-- A pointer to an address is an Option: `none` is NULL.
unfoldable pub ip_addr_equal : Option IpAddr → Option IpAddr → Bool
ip_addr_equal (some a) (some b) =
    (a.b0 == b.b0) && (a.b1 == b.b1) && (a.b2 == b.b2) && (a.b3 == b.b3)
ip_addr_equal _ _ = false

pub ip_addr_is_broadcast : Option IpAddr → Bool
ip_addr_is_broadcast none = false
ip_addr_is_broadcast (some a) = (a.b0 == 255) && (a.b1 == 255) && (a.b2 == 255) && (a.b3 == 255)

pub ip_addr_is_multicast : Option IpAddr → Bool
ip_addr_is_multicast none = false
ip_addr_is_multicast (some a) = bit_and a.b0 0xF0 == 0xE0

-- The characters that one round of the loop of ip_addr_to_str writes for its number: `first` where
-- the round's `i` is 0.
unfoldable pub octet_to_str : Bool → ℕ → List ℕ
octet_to_str first octet =
    let has_hundreds = leb 100 octet in
    let rest = if has_hundreds then octet % 100 else octet in
    let has_tens = leb 10 rest || (not first && leb 10 octet) in
    let last = if has_tens then rest % 10 else rest in
    (if has_hundreds then (b'0' + octet / 100) ∷ [] else [])
    ++ ((if has_tens then (b'0' + rest / 10) ∷ [] else []) ++ ((b'0' + last) ∷ []))

-- The loop over the octets that are left, with `pos` characters written. The result is what is
-- written from `buf` on, without the zero behind it: the buffer has `len` characters, of which only
-- the head of the loop takes account, so that what is written at `len` or past it, up to 15
-- characters and the zero in all, lies behind the buffer.
unfoldable pub octets_to_str : List ℕ → Bool → ℕ → ℕ → List ℕ
octets_to_str [] first pos len = []
octets_to_str (octet ∷ octets) first pos len =
    let written = (if first then [] else b'.' ∷ []) ++ octet_to_str first octet in
    let rest = octets_to_str octets false (pos + length written) len in
    if ltb pos (len - 1) then written ++ rest else []

-- `(int)len`, and 0 in place of a negative number, for which the loop does not run either.
abbrev int_len : ℕ → ℕ
int_len len = let w = len % 2 ^ 32 in if ltb w (2 ^ 31) then w else 0

unfoldable pub ip_addr_to_str : IpAddr → ℕ → List ℕ
ip_addr_to_str addr len =
    octets_to_str (addr.b0 ∷ addr.b1 ∷ addr.b2 ∷ addr.b3 ∷ []) true 0 (int_len len)

-- `while (*p >= '0' && *p <= '9')`: the number, and what is left of the text. An `int` that
-- overflows has no meaning in C; here the number grows on.
unfoldable pub read_number : ℕ → List ℕ → ℕ × List ℕ
read_number val [] = (val, [])
read_number val (c ∷ cs) =
    if leb b'0' c && leb c b'9' then read_number (val * 10 + (c - b'0')) cs else (val, c ∷ cs)

abbrev pub skip_dot : List ℕ → List ℕ
skip_dot [] = []
skip_dot (c ∷ cs) = if c == b'.' then cs else c ∷ cs

-- What a round makes of the number and the rest of the text that it read.
abbrev pub take_number : (List ℕ → Option (List ℕ × List ℕ)) → ℕ × List ℕ → Option (List ℕ × List ℕ)
take_number next (val, p) = elim (ltb 255 val) [
  | true ↦ none
  | false ↦ elim (next (skip_dot p)) [ none ↦ none | some (vals, rest) ↦ some (val ∷ vals, rest) ]
]

-- `while (*p && i < 4)`, with `rounds` left until `i` is 4: the numbers read, and the text left.
unfoldable pub read_octets : ℕ → List ℕ → Option (List ℕ × List ℕ)
read_octets zero p = some ([], p)
read_octets (suc rounds) [] = some ([], [])
read_octets (suc rounds) (c ∷ cs) = take_number (read_octets rounds) (read_number 0 (c ∷ cs))

-- `if (i != 4 || *p != '\0') return -1;` and the assignments
abbrev pub four_octets : List ℕ → List ℕ → Option IpAddr
four_octets (a ∷ b ∷ c ∷ d ∷ []) [] = some (record { b0 = a; b1 = b; b2 = c; b3 = d })
four_octets _ _ = none

-- The address stored, and `none` where the result is -1.
unfoldable pub ip_addr_from_str : List ℕ → Option IpAddr
ip_addr_from_str str = elim (read_octets 4 str) [
  | none ↦ none
  | some (vals, rest) ↦ four_octets vals rest
]
