-- ===== src/TcpIp/Checksum.antt =====
-- The header checksum of FeatherOS/kernel/net/tcpip.c, and the header that ip_build_header builds.
pub mod Verify
mod Tests
use mathlib.Core.Path.{subst, fun_ext}
use mathlib.Core.Logic.{dite, ite}
use native.Mathlib.Nat.{
  add_comm, add_assoc, le_refl, le_trans, mod-eq_of_lt, mod-lt, mod-eq-sub-mod, mod-add-mod,
}
use native.Mathlib.Decide.{ℕ_discrete, dec_lt, dec_le}
use feather_os.Prelude.{
  ℕ, zero, suc, ◌+◌, ◌-◌, ◌*◌, ◌/◌, ◌%◌, ◌^◌, ◌≤◌, ◌<◌, min, max, ◌≡◌, refl, sym, ap, ◌∙◌, ◌≢◌, ◌↔◌,
  ◌⊎◌, inl, inr, Bool, true, false, not, ◌&&◌, ◌||◌, Option, none, some, List, [], ◌∷◌, ◌++◌, map,
  arith, ltb, leb, ◌==◌, if◌then◌else◌, ltb→lt, lt→ltb, leb→le, ==_iff, tests, Bool-cases,
  Option-cases, length, get_or, set, take, drop, replicate,
}
use Prim.Native.Nat.{bit_and, bit_or}
use feather_os.TcpIp.Address.{IpAddr}

-- `while (len > 1)` and `if (len)`, over the bytes that are left: 16-bit words, low byte first as
-- on x86, added up in a `uint32_t`.
unfoldable pub sum_words : ℕ → List ℕ → ℕ
sum_words sum [] = sum
sum_words sum (b ∷ []) = (sum + b) % 2 ^ 32
sum_words sum (lo ∷ hi ∷ bytes) = sum_words ((sum + (lo + 256 * hi)) % 2 ^ 32) bytes

-- `while (sum >> 16)` with `rounds` left.
unfoldable pub fold_carries : ℕ → ℕ → Option ℕ
fold_carries zero sum = none
fold_carries (suc rounds) sum = elim (sum / 2 ^ 16 == 0) [
  | true ↦ some sum
  | false ↦ fold_carries rounds (sum % 2 ^ 16 + sum / 2 ^ 16)
]

-- `return ~sum;`, cut to 16 bits. Three rounds are as many as the loop makes.
unfoldable pub ip_checksum : List ℕ → ℕ → Option ℕ
ip_checksum bytes len = elim (fold_carries 3 (sum_words 0 (take len bytes))) [
  | none ↦ none
  | some sum ↦ some (2 ^ 16 - 1 - sum % 2 ^ 16)
]

pub record IpHeader : Type 0 where
  pub ver_ihl : ℕ
  pub tos : ℕ
  pub total_len : ℕ
  pub id : ℕ
  pub frag_offset : ℕ
  pub ttl : ℕ
  pub proto : ℕ
  pub checksum : ℕ
  pub src_addr : IpAddr
  pub dest_addr : IpAddr

-- The fields in memory, in the order of the packed struct; a `uint16_t` has its low byte first.
abbrev pub word_bytes : ℕ → List ℕ → List ℕ
word_bytes w rest = (w % 256) ∷ (w / 256) ∷ rest

abbrev pub address_bytes : IpAddr → List ℕ → List ℕ
address_bytes a rest = a.b0 ∷ a.b1 ∷ a.b2 ∷ a.b3 ∷ rest

unfoldable pub header_bytes : IpHeader → List ℕ
header_bytes h =
    h.ver_ihl
    ∷ h.tos
    ∷ word_bytes h.total_len (
        word_bytes h.id (
          word_bytes h.frag_offset (
            h.ttl
            ∷ h.proto
            ∷ word_bytes h.checksum (address_bytes h.src_addr (address_bytes h.dest_addr [])))))

-- `((x & 0xFF) << 8) | ((x >> 8) & 0xFF)`, a sum since the two parts share no bit.
unfoldable pub ip_htons : ℕ → ℕ
ip_htons x = x % 256 * 256 + x / 256 % 256

abbrev pub ip_df : ℕ
ip_df = 0x4000

-- The header without its checksum, and with it.
unfoldable pub blank_header : IpAddr → IpAddr → ℕ → ℕ → IpHeader
blank_header src dest proto payload_len = record {
  ver_ihl = 0x45;
  tos = 0;
  total_len = ip_htons ((20 + payload_len) % 2 ^ 16);
  id = ip_htons 0;
  frag_offset = ip_htons ip_df;
  ttl = 64;
  proto = proto;
  checksum = 0;
  src_addr = src;
  dest_addr = dest;
}

unfoldable pub ip_build_header : IpAddr → IpAddr → ℕ → ℕ → Option IpHeader
ip_build_header src dest proto payload_len =
    let hdr = blank_header src dest proto payload_len in
    elim (ip_checksum (header_bytes hdr) 20) [
      | none ↦ none
      | some sum ↦ some (record hdr { checksum = sum })
    ]
