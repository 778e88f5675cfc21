-- ===== src/TcpIp/Address/RoundTrip.antt =====
-- What ip_addr_from_str reads from the text that ip_addr_to_str writes.
use feather_os.Prelude.{
  ℕ, ◌+◌, ◌%◌, ◌^◌, ◌≤◌, ◌<◌, ◌≡◌, ap, ◌∙◌, true, false, Option, none, some, List, [], ◌∷◌, ◌++◌,
  arith, ltb, length,
}
use feather_os.Prelude.Arrays.{length-append}
use feather_os.TcpIp.Address.{
  octet_to_str, octets_to_str, ip_addr_from_str, ip_addr_to_str, IpAddr, four_octets,
}
use feather_os.TcpIp.Address.Digits.{
  first_octet, next_octet, last_octet, length-octet, octets_to_str-cons, written_first,
}

-- The text behind the second number, and behind the first.
abbrev behind_second : IpAddr → List ℕ
behind_second a = octet_to_str false a.b2 ++ (b'.' ∷ (octet_to_str false a.b3 ++ []))

abbrev behind_first : IpAddr → List ℕ
behind_first a = octet_to_str false a.b1 ++ (b'.' ∷ behind_second a)

-- The whole text.
abbrev pub dotted : IpAddr → List ℕ
dotted a = octet_to_str true a.b0 ++ (b'.' ∷ behind_first a)

pub record IsAddress (a : IpAddr) : Type 0 where
  pub byte0 : a.b0 < 256
  pub byte1 : a.b1 < 256
  pub byte2 : a.b2 < 256
  pub byte3 : a.b3 < 256

octets_to_str-dotted :
    (a : IpAddr) (len : ℕ)
    → IsAddress a
    → 16 ≤ len
    → octets_to_str (a.b0 ∷ a.b1 ∷ a.b2 ∷ a.b3 ∷ []) true 0 len ≡ dotted a
unfolding octets_to_str
octets_to_str-dotted a len v room =
    let l0 = length-octet true a.b0 v.byte0 in
    let l1 = length-octet false a.b1 v.byte1 in
    let l2 = length-octet false a.b2 v.byte2 in
    let p1 = 0 + length (octet_to_str true a.b0) in
    let p2 = p1 + length (b'.' ∷ octet_to_str false a.b1) in
    let p3 = p2 + length (b'.' ∷ octet_to_str false a.b2) in
    octets_to_str-cons a.b0 (a.b1 ∷ a.b2 ∷ a.b3 ∷ []) true 0 len (omega arith)
    ∙ ap (λ t. octet_to_str true a.b0 ++ t)
        (octets_to_str-cons a.b1 (a.b2 ∷ a.b3 ∷ []) false p1 len (omega arith)
          ∙ ap (λ t. b'.' ∷ (octet_to_str false a.b1 ++ t))
              (octets_to_str-cons a.b2 (a.b3 ∷ []) false p2 len (omega arith)
                ∙ ap (λ t. b'.' ∷ (octet_to_str false a.b2 ++ t))
                    (octets_to_str-cons a.b3 [] false p3 len (omega arith))))

ip_addr_to_str-dotted :
    (a : IpAddr) (len : ℕ) → IsAddress a → 16 ≤ len → len < 2 ^ 31 → ip_addr_to_str a len ≡ dotted a
unfolding ip_addr_to_str
ip_addr_to_str-dotted a len v room small =
    let whole : len % 2 ^ 32 ≡ len = omega arith in
    let in_int : ltb len (2 ^ 31) ≡ true = ground arith in
    rw (whole, in_int) (octets_to_str-dotted a len v room)

length-dotted : (a : IpAddr) → IsAddress a → length (dotted a) ≤ 15
length-dotted a v = omega (
  arith,
  length-append (octet_to_str true a.b0) (b'.' ∷ behind_first a),
  length-append (octet_to_str false a.b1) (b'.' ∷ behind_second a),
  length-append (octet_to_str false a.b2) (b'.' ∷ (octet_to_str false a.b3 ++ [])),
  length-append (octet_to_str false a.b3) [],
  length-octet true a.b0 v.byte0,
  length-octet false a.b1 v.byte1,
  length-octet false a.b2 v.byte2,
  length-octet false a.b3 v.byte3,
)

ip_addr_from_str-dotted :
    (a : IpAddr)
    → IsAddress a
    → ip_addr_from_str (dotted a) ≡ some (record a { b0 = written_first a.b0 })
unfolding ip_addr_from_str
ip_addr_from_str-dotted a v =
    ap
      (λ (r : Option (List ℕ × List ℕ)). elim r [
        | none ↦ none
        | some (vals, rest) ↦ four_octets vals rest
      ])
      (first_octet 3 a.b0 _ _ v.byte0
        (next_octet 2 a.b1 _ _ v.byte1 (next_octet 1 a.b2 _ _ v.byte2 (last_octet a.b3 v.byte3))))

-- With a buffer of 16 characters or more, and fewer than 2 ^ 31, the text that ip_addr_to_str writes
-- fits into the buffer with the zero behind it, and ip_addr_from_str reads it back as the same
-- address, but for a first number with hundreds and a units digit only, of which the zero between
-- is lost: 105 is read as 15.
pub ip_addr_from_str-to_str :
    (a : IpAddr) (len : ℕ)
    → IsAddress a
    → 16 ≤ len
    → len < 2 ^ 31
    → (length (ip_addr_to_str a len) < len)
      × (ip_addr_from_str (ip_addr_to_str a len) ≡ some (record a { b0 = written_first a.b0 }))
ip_addr_from_str-to_str a len v room small =
    rw (ip_addr_to_str-dotted a len v room small)
      (omega (arith, length-dotted a v), ip_addr_from_str-dotted a v)
