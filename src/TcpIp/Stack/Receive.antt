-- ===== src/TcpIp/Stack/Receive.antt =====
-- What arrives from the network: socket_lookup, tcp_rx and udp_rx of FeatherOS/kernel/net/tcpip.c.
use feather_os.Prelude.{
  ℕ, ◌+◌, ◌-◌, ◌%◌, ◌^◌, Bool, true, ◌&&◌, ◌||◌, Option, none, some, List, [], ◌∷◌, ltb, leb, ◌==◌,
  if◌then◌else◌,
}
use feather_os.Prelude.Int.{ℤ, pos, negsuc}
use feather_os.TcpIp.Address.{IpAddr, ip_addr_equal}
use feather_os.TcpIp.Route.{zero_address}
use feather_os.TcpIp.Socket.{Socket, tcp_buf_size, copy_in, copy_out, Segment, tcp_segment}
use feather_os.TcpIp.Stack.{NetStack, with_socket}

-- A NULL address of socket_lookup fits every socket.
abbrev pub ip_fits : Option IpAddr → IpAddr → Bool
ip_fits none addr = true
ip_fits (some ip) addr = ip_addr_equal (some addr) (some ip)

abbrev pub answers_to : Option IpAddr → ℕ → Option IpAddr → ℕ → Socket → Bool
answers_to local_ip local_port remote_ip remote_port s =
    (s.local_port == local_port)
    && ip_fits local_ip s.local_addr
    && ((remote_port == 0) || ((s.remote_port == remote_port) && ip_fits remote_ip s.remote_addr))

-- The first socket of the list that fits.
unfoldable pub socket_lookup : Option IpAddr → ℕ → Option IpAddr → ℕ → List Socket → Option ℕ
socket_lookup local_ip local_port remote_ip remote_port [] = none
socket_lookup local_ip local_port remote_ip remote_port (s ∷ ss) =
    let rest = socket_lookup local_ip local_port remote_ip remote_port ss in
    if answers_to local_ip local_port remote_ip remote_port s then some s.fd else rest

-- What is done with the socket that the lookup finds.
unfoldable pub deliver : Option ℕ → (Socket → Socket × ℤ) → NetStack → NetStack × ℤ
deliver none op st = (st, negsuc 0)
deliver (some fd) op st = with_socket fd op st

-- The addresses that tcp_rx and udp_rx look up are variables of their own, all zero. The source
-- returns at the first guard where `skb` is shorter than a header.
unfoldable pub tcp_rx : Segment → NetStack → NetStack × ℤ
tcp_rx seg st =
    if ltb seg.len 20
    then (st, negsuc 0)
    else (deliver
        (socket_lookup (some zero_address) seg.dest_port (some zero_address) seg.src_port
          st.sockets)
        (tcp_segment seg) st)

-- A received UDP datagram: the fields of its header in the order of the machine, `skb->len`, and
-- the memory from `skb->data` on.
pub record Datagram : Type 0 where
  pub src_port : ℕ
  pub dest_port : ℕ
  pub length : ℕ
  pub len : ℕ
  pub bytes : ℕ → ℕ

-- `ip_ntohs(hdr->length) - sizeof(udp_header_t)`, a `uint32_t`
abbrev pub udp_data_len : Datagram → ℕ
udp_data_len d = (d.length + 2 ^ 32 - 8) % 2 ^ 32

-- memcpy copies `data_len` bytes, whether or not the datagram has so many, and where the sum of the
-- lengths wraps, more than `recv_buf` has room for.
unfoldable pub udp_datagram : Datagram → Socket → Socket × ℤ
udp_datagram d s =
    if leb ((s.recv_len + udp_data_len d) % 2 ^ 32) tcp_buf_size
    then (
      record s {
        recv_buf = copy_in s.recv_buf s.recv_len (copy_out d.bytes 8 (udp_data_len d));
        recv_len = (s.recv_len + udp_data_len d) % 2 ^ 32;
      },
      pos 0,
    )
    else (s, pos 0)

unfoldable pub udp_rx : Datagram → NetStack → NetStack × ℤ
udp_rx d st =
    if ltb d.len 8
    then (st, negsuc 0)
    else (deliver
        (socket_lookup (some zero_address) d.dest_port (some zero_address) d.src_port st.sockets)
        (udp_datagram d) st)
