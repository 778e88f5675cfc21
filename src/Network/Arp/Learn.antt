-- ===== src/Network/Arp/Learn.antt =====
-- What the cache learns from received packets.
use feather_os.Prelude.{
  ℕ, ◌+◌, ◌%◌, ◌^◌, ◌≡◌, refl, sym, ap, ◌∙◌, inl, inr, Bool, not, ◌&&◌, ◌||◌, some, ltb, ◌==◌,
  if◌then◌else◌, Bool-cases,
}
use feather_os.TcpIp.Address.{IpAddr, ip_addr_equal}
use feather_os.Network.Arp.{
  MacAddr, ArpCache, lookup_entries, arp_lookup, arp_add, ArpHeader, is_arp, arp_rx,
}
use feather_os.Network.Arp.Cache.{has_room, answer, answer_lem, arp_lookup-add}

-- A packet that arp_rx learns from.
abbrev pub is_learned : ArpHeader → Bool
is_learned arp = not (ltb arp.len 28) && is_arp arp && ((arp.op == 1) || (arp.op == 2))

-- arp_add to a cache with another count.
arp_lookup-counted :
    (ip ip' : IpAddr) (mac : MacAddr) (now : ℕ) (c c' : ArpCache)
    → c'.entries ≡ c.entries
    → answer ip' (arp_add (some ip) (some mac) now c')
      ≡ (if has_room ip c && ip_addr_equal (some ip) (some ip') then some mac else answer ip' c)
arp_lookup-counted ip ip' mac now c c' e =
    let same : answer ip' c' ≡ answer ip' c =
      answer_lem ip' c' ∙ ap (lookup_entries ip') e ∙ sym (answer_lem ip' c) in
    arp_lookup-add ip ip' mac now c' ∙ rw (same, e) refl

-- After arp_rx of a packet that is long enough, for Ethernet and IPv4, and a request or a reply,
-- asked for or not, arp_lookup answers the sender's hardware address for the sender's address, if the
-- cache has room for it. All other answers stay, and every other packet leaves all answers.
pub arp_rx-lookup :
    (arp : ArpHeader) (ip' : IpAddr) (now : ℕ) (c : ArpCache)
    → (arp_lookup (some ip') (arp_rx arp now c).0).1 ≡ (
        if is_learned arp
          && (has_room arp.sip_addr c && ip_addr_equal (some arp.sip_addr) (some ip'))
        then some arp.shw_addr
        else (arp_lookup (some ip') c).1)
unfolding arp_rx
arp_rx-lookup arp ip' now c = elim (Bool-cases (ltb arp.len 28)) [
  | inl short ↦ rw short refl
  | inr long ↦ elim (Bool-cases (is_arp arp)) [
    | inr bad ↦ rw (long, bad) refl
    | inl good ↦ elim (Bool-cases (arp.op == 1)) [
      | inl request ↦
          rw (long, good, request)
            (arp_lookup-counted arp.sip_addr ip' arp.shw_addr now c
              (record c { arp_requests = (c.arp_requests + 1) % 2 ^ 64 }) refl)
      | inr no_request ↦ elim (Bool-cases (arp.op == 2)) [
        | inl reply ↦
            rw (long, good, no_request, reply)
              (arp_lookup-counted arp.sip_addr ip' arp.shw_addr now c
                (record c { arp_replies = (c.arp_replies + 1) % 2 ^ 64 }) refl)
        | inr neither ↦ rw (long, good, no_request, neither) refl
      ]
    ]
  ]
]
