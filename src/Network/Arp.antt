-- ===== src/Network/Arp.antt =====
-- The ARP cache of FeatherOS/kernel/net/network.c. The spinlock around each operation and the prints
-- are left out.
pub mod Cache
pub mod Learn
mod Tests
use mathlib.Core.Path.{subst, fun_ext}
use mathlib.Core.Logic.{dite, ite}
use native.Mathlib.Nat.{
  add_comm, add_assoc, le_refl, le_trans, mod-eq_of_lt, mod-lt, mod-eq-sub-mod, mod-add-mod,
}
use native.Mathlib.Decide.{ℕ_discrete, dec_lt, dec_le}
use feather_os.Prelude.{
  ℕ, zero, suc, ◌+◌, ◌-◌, ◌*◌, ◌/◌, ◌%◌, ◌^◌, ◌≤◌, ◌<◌, min, max, ◌≡◌, refl, sym, ap, ◌∙◌, ◌≢◌, ◌↔◌,
  ◌⊎◌, inl, inr, Bool, true, false, not, ◌&&◌, ◌||◌, Option, none, some, List, [], ◌∷◌, ◌++◌, map,
  arith, ltb, leb, ◌==◌, if◌then◌else◌, ltb→lt, lt→ltb, leb→le, ==_iff, tests, Bool-cases,
  Option-cases, length, get_or, set, take, drop, replicate,
}
use feather_os.Prelude.Int.{ℤ, pos, negsuc}
use feather_os.TcpIp.Address.{IpAddr, ip_addr_equal}

-- `mac_addr_t`, six bytes
pub record MacAddr : Type 0 where
  pub m0 : ℕ
  pub m1 : ℕ
  pub m2 : ℕ
  pub m3 : ℕ
  pub m4 : ℕ
  pub m5 : ℕ

pub record ArpCacheEntry : Type 0 where
  pub ip_addr : IpAddr
  pub mac_addr : MacAddr
  pub expires : ℕ
  pub valid : Bool

abbrev pub arp_cache_size : ℕ
arp_cache_size = 64

abbrev pub zero_entry : ArpCacheEntry
zero_entry = record {
  ip_addr = record { b0 = 0; b1 = 0; b2 = 0; b3 = 0 };
  mac_addr = record { m0 = 0; m1 = 0; m2 = 0; m3 = 0; m4 = 0; m5 = 0 };
  expires = 0;
  valid = false;
}

-- The static array, and the counters of network_stats_t that the ARP functions change.
pub record ArpCache : Type 0 where
  pub entries : List ArpCacheEntry
  pub arp_requests : ℕ
  pub arp_replies : ℕ
  pub arp_cache_hits : ℕ
  pub arp_cache_misses : ℕ

unfoldable pub arp_init : ArpCache → ArpCache
arp_init c = record c { entries = replicate arp_cache_size zero_entry }

-- `arp_cache[i].valid && memcmp(arp_cache[i].ip_addr, ip_addr, 4) == 0`
abbrev pub is_for : IpAddr → ArpCacheEntry → Bool
is_for ip e = e.valid && ip_addr_equal (some e.ip_addr) (some ip)

-- The loop of arp_lookup over the entries that are left: the address stored through `mac`.
unfoldable pub lookup_entries : IpAddr → List ArpCacheEntry → Option MacAddr
lookup_entries ip [] = none
lookup_entries ip (e ∷ es) =
    let rest = lookup_entries ip es in if is_for ip e then some e.mac_addr else rest

-- The counters of hits and misses.
abbrev pub count_lookup : Option MacAddr → ArpCache → ArpCache × Option MacAddr
count_lookup none c = (record c { arp_cache_misses = (c.arp_cache_misses + 1) % 2 ^ 64 }, none)
count_lookup (some mac) c =
    (record c { arp_cache_hits = (c.arp_cache_hits + 1) % 2 ^ 64 }, some mac)

-- The result is true where an address is answered.
unfoldable pub arp_lookup : Option IpAddr → ArpCache → ArpCache × Option MacAddr
arp_lookup none c = (c, none)
arp_lookup (some ip) c = count_lookup (lookup_entries ip c.entries) c

-- `if (!arp_cache[i].valid && free_slot < 0) free_slot = i;`, where `none` stands for -1
abbrev pub note_slot : ArpCacheEntry → ℕ → Option ℕ → Option ℕ
note_slot e i none = if e.valid then none else some i
note_slot e i (some slot) = some slot

-- The loop of arp_add from the entry `i` on.
unfoldable pub find_slot : IpAddr → List ArpCacheEntry → ℕ → Option ℕ → Option ℕ
find_slot ip [] i free_slot = free_slot
find_slot ip (e ∷ es) i free_slot =
    let rest = find_slot ip es (i + 1) (note_slot e i free_slot) in
    if is_for ip e then some i else rest

-- `now` is what get_uptime_ms answers; `expires` is a `uint32_t`.
abbrev pub new_entry : IpAddr → MacAddr → ℕ → ArpCacheEntry
new_entry ip mac now = record {
  ip_addr = ip;
  mac_addr = mac;
  expires = (now + 60000) % 2 ^ 32;
  valid = true;
}

-- The entry goes into the slot found.
abbrev pub write_entry : Option ℕ → ArpCacheEntry → ArpCache → ArpCache
write_entry none new c = c
write_entry (some slot) new c = record c { entries = set c.entries slot new }

unfoldable pub arp_add : Option IpAddr → Option MacAddr → ℕ → ArpCache → ArpCache
arp_add (some ip) (some mac) now c =
    write_entry (find_slot ip c.entries 0 none) (new_entry ip mac now) c
arp_add _ _ now c = c

-- The fields of a received ARP packet that are read, and `skb->len`.
pub record ArpHeader : Type 0 where
  pub hw_type : ℕ
  pub proto : ℕ
  pub hw_len : ℕ
  pub proto_len : ℕ
  pub op : ℕ
  pub shw_addr : MacAddr
  pub sip_addr : IpAddr
  pub len : ℕ

abbrev pub is_arp : ArpHeader → Bool
is_arp arp =
    (arp.hw_type == 1) && (arp.proto == 0x0800) && (arp.hw_len == 6) && (arp.proto_len == 4)

-- A header has 28 bytes. The packet is freed on every path.
unfoldable pub arp_rx : ArpHeader → ℕ → ArpCache → ArpCache × ℤ
arp_rx arp now c =
    if ltb arp.len 28
    then (c, negsuc 0)
    else (if not (is_arp arp)
        then (c, negsuc 0)
        else (if arp.op == 1
            then (
              arp_add (some arp.sip_addr) (some arp.shw_addr) now
                  (record c { arp_requests = (c.arp_requests + 1) % 2 ^ 64 }),
              pos 0,
            )
            else if arp.op == 2
            then (
              arp_add (some arp.sip_addr) (some arp.shw_addr) now
                  (record c { arp_replies = (c.arp_replies + 1) % 2 ^ 64 }),
              pos 0,
            )
            else (c, pos 0)))
