-- ===== src/Network.antt =====
-- The network core of FeatherOS/kernel/net/network.c: packet buffers, the queues of packets, and the
-- ARP cache.
pub mod Queue
pub mod Arp
pub mod Skb
