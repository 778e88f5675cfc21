-- ===== src/TcpIp/Stack/Events.antt =====
-- The calls of the stack and what arrives from the network, as one sequence of events.
use feather_os.Prelude.{ℕ, Option, List, [], ◌∷◌}
use feather_os.Prelude.Int.{ℤ}
use feather_os.TcpIp.Address.{IpAddr}
use feather_os.TcpIp.Socket.{Socket, Segment, tcp_send, socket_recv}
use feather_os.TcpIp.Stack.{
  NetStack, Memory, with_socket, socket_create, tcp_socket, socket_bind, tcp_listen, tcp_accept,
  socket_connect, socket_close, tcp_close,
}
use feather_os.TcpIp.Stack.Receive.{Datagram, tcp_rx, udp_rx}

abbrev read_socket : ℕ → Socket → Socket × ℤ
read_socket len s = let r = socket_recv s len in (r.0, r.2)

-- The calls of the stack, and what arrives from the network.
pub data NetEvent : Type 0 where
  creates : Memory → ℕ → ℕ → ℕ → NetEvent
  creates_tcp : Memory → ℕ → ℕ → NetEvent
  binds : ℕ → Option IpAddr → ℕ → NetEvent
  listens : ℕ → NetEvent
  accepts : ℕ → NetEvent
  connects : ℕ → Option IpAddr → ℕ → NetEvent
  sends : ℕ → Option (ℕ → ℕ) → ℕ → NetEvent
  receives : ℕ → ℕ → NetEvent
  closes : ℕ → NetEvent
  closes_tcp : ℕ → NetEvent
  segment : Segment → NetEvent
  datagram : Datagram → NetEvent

unfoldable pub handle : NetEvent → NetStack → NetStack
handle (creates mem family type protocol) st = (socket_create mem family type protocol st).0
handle (creates_tcp mem type protocol) st = (tcp_socket mem type protocol st).0
handle (binds fd addr port) st = (with_socket fd (socket_bind addr port) st).0
handle (listens fd) st = (with_socket fd tcp_listen st).0
handle (accepts fd) st = (tcp_accept fd st).0
handle (connects fd addr port) st = (socket_connect fd addr port st).0
handle (sends fd bytes len) st = (with_socket fd (λ s. tcp_send s bytes len) st).0
handle (receives fd len) st = (with_socket fd (read_socket len) st).0
handle (closes fd) st = (socket_close fd st).0
handle (closes_tcp fd) st = (tcp_close fd st).0
handle (segment seg) st = (tcp_rx seg st).0
handle (datagram d) st = (udp_rx d st).0

unfoldable pub handle_all : List NetEvent → NetStack → NetStack
handle_all [] st = st
handle_all (e ∷ es) st = handle_all es (handle e st)
