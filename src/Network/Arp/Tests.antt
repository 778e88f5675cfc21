-- ===== src/Network/Arp/Tests.antt =====
-- A reply that fills an empty cache, and the theorems at it.
use feather_os.Prelude.{◌≡◌, refl, ◌&&◌, some, if◌then◌else◌, replicate}
use feather_os.TcpIp.Address.{IpAddr, ip_addr_equal}
use feather_os.Network.Arp.{
  MacAddr, ArpCache, ArpHeader, arp_cache_size, zero_entry, arp_lookup, arp_add, arp_rx,
  lookup_entries, find_slot,
}
use feather_os.Network.Arp.Cache.{has_room}
use feather_os.Network.Arp.Learn.{is_learned, arp_rx-lookup}

abbrev router : IpAddr
router = record { b0 = 10; b1 = 0; b2 = 2; b3 = 2 }

abbrev host : IpAddr
host = record { b0 = 10; b1 = 0; b2 = 2; b3 = 15 }

abbrev card : MacAddr
card = record { m0 = 82; m1 = 84; m2 = 0; m3 = 18; m4 = 52; m5 = 86 }

abbrev empty_cache : ArpCache
empty_cache = record {
  entries = replicate arp_cache_size zero_entry;
  arp_requests = 0;
  arp_replies = 0;
  arp_cache_hits = 0;
  arp_cache_misses = 0;
}

abbrev reply : ArpHeader
reply = record {
  hw_type = 1;
  proto = 0x0800;
  hw_len = 6;
  proto_len = 4;
  op = 2;
  shw_addr = card;
  sip_addr = router;
  len = 28;
}

learned : (arp_lookup (some router) (arp_rx reply 5 empty_cache).0).1 ≡ some card
unfolding arp_lookup arp_rx arp_add lookup_entries find_slot ip_addr_equal
learned = refl

arp_rx-lookup_example : (arp_lookup (some router) (arp_rx reply 5 empty_cache).0).1 ≡ (
    if is_learned reply
      && (has_room router empty_cache && ip_addr_equal (some router) (some router))
    then some card
    else (arp_lookup (some router) empty_cache).1)
arp_rx-lookup_example = arp_rx-lookup reply router 5 empty_cache
