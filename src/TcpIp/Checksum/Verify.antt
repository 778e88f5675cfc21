-- ===== src/TcpIp/Checksum/Verify.antt =====
-- The checksum of a built header.
use feather_os.Prelude.{
  ℕ, ◌+◌, ◌-◌, ◌*◌, ◌/◌, ◌%◌, ◌^◌, ◌<◌, ◌≡◌, refl, ap, ◌∙◌, Option, none, some, List, [], ◌∷◌,
  arith, take,
}
use feather_os.TcpIp.Address.{IpAddr}
use feather_os.TcpIp.Address.RoundTrip.{IsAddress}
use feather_os.TcpIp.Checksum.{
  sum_words, fold_carries, ip_checksum, IpHeader, header_bytes, ip_htons, blank_header,
  ip_build_header,
}

-- The value of the fold: at most two rounds.
abbrev once : ℕ → ℕ
once s = s % 2 ^ 16 + s / 2 ^ 16

fold_carries-twice : (s : ℕ) → s < 2 ^ 32 → fold_carries 3 s ≡ some (once (once s))
unfolding fold_carries
fold_carries-twice s lt = ground arith

-- A sum with the complement of its fold added folds to all ones.
fold_complement :
    (s : ℕ)
    → 0 < s
    → s < 2 ^ 20
    → once (once (s + (2 ^ 16 - 1 - once (once s) % 2 ^ 16))) ≡ 2 ^ 16 - 1
fold_complement s pos lt = omega arith

-- The fields fit their widths.
pub record IsHeader (h : IpHeader) : Type 0 where
  pub ver_ihl_byte : h.ver_ihl < 256
  pub tos_byte : h.tos < 256
  pub total_word : h.total_len < 2 ^ 16
  pub id_word : h.id < 2 ^ 16
  pub frag_word : h.frag_offset < 2 ^ 16
  pub ttl_byte : h.ttl < 256
  pub proto_byte : h.proto < 256
  pub checksum_word : h.checksum < 2 ^ 16
  pub source : IsAddress h.src_addr
  pub destination : IsAddress h.dest_addr

abbrev address_sum : IpAddr → ℕ
address_sum a = (a.b0 + 256 * a.b1) + (a.b2 + 256 * a.b3)

abbrev rest_sum : IpHeader → ℕ
rest_sum h =
    (h.ver_ihl + 256 * h.tos)
    + h.total_len
    + h.id
    + h.frag_offset
    + (h.ttl + 256 * h.proto)
    + address_sum h.src_addr
    + address_sum h.dest_addr

sum_words_header :
    (h : IpHeader) → IsHeader h → sum_words 0 (take 20 (header_bytes h)) ≡ rest_sum h + h.checksum
unfolding sum_words header_bytes
sum_words_header h v = omega (
  arith, v.source.byte0, v.source.byte1, v.source.byte2, v.source.byte3, v.destination.byte0,
  v.destination.byte1, v.destination.byte2, v.destination.byte3,
)

rest_sum-lt : (h : IpHeader) → IsHeader h → rest_sum h + 2 ^ 16 < 2 ^ 20
rest_sum-lt h v = omega (
  arith, v.source.byte0, v.source.byte1, v.source.byte2, v.source.byte3, v.destination.byte0,
  v.destination.byte1, v.destination.byte2, v.destination.byte3,
)

ip_checksum_header :
    (h : IpHeader)
    → IsHeader h
    → ip_checksum (header_bytes h) 20
      ≡ some (2 ^ 16 - 1 - once (once (rest_sum h + h.checksum)) % 2 ^ 16)
unfolding ip_checksum
ip_checksum_header h v =
    let few = rest_sum-lt h v in
    ap (λ (r : Option ℕ). elim r [ none ↦ none | some s ↦ some (2 ^ 16 - 1 - s % 2 ^ 16) ])
      (ap (fold_carries 3) (sum_words_header h v)
        ∙ fold_carries-twice _ (omega (arith, v.checksum_word)))

abbrev filled : IpHeader → IpHeader
filled h = record h { checksum = 2 ^ 16 - 1 - once (once (rest_sum h)) % 2 ^ 16 }

filled-IsHeader : (h : IpHeader) → IsHeader h → IsHeader (filled h)
filled-IsHeader h v = record {
  ver_ihl_byte = v.ver_ihl_byte;
  tos_byte = v.tos_byte;
  total_word = v.total_word;
  id_word = v.id_word;
  frag_word = v.frag_word;
  ttl_byte = v.ttl_byte;
  proto_byte = v.proto_byte;
  checksum_word = omega arith;
  source = v.source;
  destination = v.destination;
}

blank_header-IsHeader :
    (src dest : IpAddr) (proto payload_len : ℕ)
    → IsAddress src
    → IsAddress dest
    → proto < 256
    → IsHeader (blank_header src dest proto payload_len)
unfolding blank_header ip_htons
blank_header-IsHeader src dest proto payload_len vs vd p = record {
  ver_ihl_byte = omega arith;
  tos_byte = omega arith;
  total_word = omega arith;
  id_word = omega arith;
  frag_word = omega arith;
  ttl_byte = omega arith;
  proto_byte = p;
  checksum_word = omega arith;
  source = vs;
  destination = vd;
}

blank_sum :
    (src dest : IpAddr) (proto payload_len : ℕ)
    → let h = blank_header src dest proto payload_len in rest_sum h + h.checksum ≡ rest_sum h
unfolding blank_header
blank_sum src dest proto payload_len = omega arith

blank_pos :
    (src dest : IpAddr) (proto payload_len : ℕ)
    → 0 < rest_sum (blank_header src dest proto payload_len)
unfolding blank_header
blank_pos src dest proto payload_len = omega arith

blank_fields :
    (src dest : IpAddr) (proto payload_len : ℕ)
    → let hdr = filled (blank_header src dest proto payload_len) in
      (hdr.src_addr ≡ src) × (hdr.dest_addr ≡ dest) × (hdr.proto ≡ proto)
unfolding blank_header
blank_fields src dest proto payload_len = (refl, refl, refl)

-- For addresses of bytes and a protocol number of a byte, ip_build_header builds a header whose
-- checksum ip_checksum verifies: over the 20 bytes of the header in memory it answers 0. The
-- header holds the addresses and the protocol that it was given.
pub ip_checksum-build_header :
    (src dest : IpAddr) (proto payload_len : ℕ)
    → IsAddress src
    → IsAddress dest
    → proto < 256
    → (hdr : IpHeader) × (ip_build_header src dest proto payload_len ≡ some hdr)
      × (ip_checksum (header_bytes hdr) 20 ≡ some 0)
      × (hdr.src_addr ≡ src)
      × (hdr.dest_addr ≡ dest)
      × (hdr.proto ≡ proto)
unfolding ip_build_header
ip_checksum-build_header src dest proto payload_len vs vd p =
    let h = blank_header src dest proto payload_len in
    let v = blank_header-IsHeader src dest proto payload_len vs vd p in
    let few = rest_sum-lt h v in
    (
      filled h,
      ap (λ (r : Option ℕ). elim r [ none ↦ none | some s ↦ some (record h { checksum = s }) ])
          (ip_checksum_header h v
            ∙ ap (λ s. some (2 ^ 16 - 1 - once (once s) % 2 ^ 16))
                (blank_sum src dest proto payload_len)),
      ip_checksum_header (filled h) (filled-IsHeader h v)
          ∙ ap (λ s. some (2 ^ 16 - 1 - s % 2 ^ 16))
              (fold_complement (rest_sum h) (blank_pos src dest proto payload_len) (omega arith)),
      (blank_fields src dest proto payload_len).0,
      (blank_fields src dest proto payload_len).1,
      (blank_fields src dest proto payload_len).2,
    )

sum_words-lt : (sum : ℕ) (bytes : List ℕ) → sum < 2 ^ 32 → sum_words sum bytes < 2 ^ 32
unfolding sum_words
sum_words-lt sum [] lt = lt
sum_words-lt sum (b ∷ []) lt = omega arith
sum_words-lt sum (lo ∷ hi ∷ bytes) lt =
    sum_words-lt ((sum + (lo + 256 * hi)) % 2 ^ 32) bytes (omega arith)

-- Over any bytes, the loops of ip_checksum end within their rounds, and the answer is a 16-bit word.
ip_checksum_total :
    (bytes : List ℕ) (len : ℕ) → (c : ℕ) × (ip_checksum bytes len ≡ some c) × (c < 2 ^ 16)
unfolding ip_checksum
ip_checksum_total bytes len =
    let s = sum_words 0 (take len bytes) in
    (
      2 ^ 16 - 1 - once (once s) % 2 ^ 16,
      ap (λ (r : Option ℕ). elim r [ none ↦ none | some s ↦ some (2 ^ 16 - 1 - s % 2 ^ 16) ])
          (fold_carries-twice s (sum_words-lt 0 (take len bytes) (omega arith))),
      omega arith,
    )
