-- ===== src/TcpIp.antt =====
-- The Internet protocols of FeatherOS/kernel/net/tcpip.c: addresses, the header checksum, the routing
-- table, and the sockets.
pub mod Address
pub mod Checksum
pub mod Route
pub mod Socket
pub mod Stack
