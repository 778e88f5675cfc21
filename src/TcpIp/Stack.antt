-- ===== src/TcpIp/Stack.antt =====
-- The list of sockets of FeatherOS/kernel/net/tcpip.c and the operations on it. Where a descriptor
-- stands in no socket of the list the pointer is NULL, and the operation answers -1.
pub mod Receive
pub mod Events
mod Sane
mod Calls
pub mod Runs
pub mod Deaf
mod Tests
use mathlib.Core.Path.{subst, fun_ext}
use mathlib.Core.Logic.{dite, ite}
use native.Mathlib.Nat.{
  add_comm, add_assoc, le_refl, le_trans, mod-eq_of_lt, mod-lt, mod-eq-sub-mod, mod-add-mod,
}
use native.Mathlib.Decide.{ℕ_discrete, dec_lt, dec_le}
use feather_os.Prelude.{
  ℕ, zero, suc, ◌+◌, ◌-◌, ◌*◌, ◌/◌, ◌%◌, ◌^◌, ◌≤◌, ◌<◌, min, max, ◌≡◌, refl, sym, ap, ◌∙◌, ◌≢◌, ◌↔◌,
  ◌⊎◌, inl, inr, Bool, true, false, not, ◌&&◌, ◌||◌, Option, none, some, List, [], ◌∷◌, ◌++◌, map,
  arith, ltb, leb, ◌==◌, if◌then◌else◌, ltb→lt, lt→ltb, leb→le, ==_iff, tests, Bool-cases,
  Option-cases, length, get_or, set, take, drop, replicate,
}
use feather_os.Prelude.Int.{ℤ, pos, negsuc, to_int}
use feather_os.TcpIp.Address.{IpAddr, ip_addr_equal}
use feather_os.TcpIp.Route.{zero_address}
use feather_os.TcpIp.Socket.{
  TcpState, closed, listen, syn_sent, syn_received, established, close_wait, fin_wait_1, last_ack,
  SocketState, free, alloc, bound, listening, connected, opened, Socket, socket_type_stream,
  tcp_wnd, tcp_buf_size, copy_in, tcp_set_state, tcp_send, tcp_recv, Segment, tcp_segment,
}

-- The front of the list is the newest socket.
pub record NetStack : Type 0 where
  pub sockets : List Socket
  pub socket_count : ℕ
  pub next_fd : ℕ
  pub tcp_isn : ℕ

unfoldable pub socket_init : NetStack
socket_init = record { sockets = []; socket_count = 0; next_fd = 1; tcp_isn = 0x10000000 }

unfoldable pub find : ℕ → List Socket → Option Socket
find fd [] = none
find fd (s ∷ ss) = let rest = find fd ss in if s.fd == fd then some s else rest

-- The change of the socket that a pointer points to.
unfoldable pub put : Socket → List Socket → List Socket
put s [] = []
put s (t ∷ ts) = if t.fd == s.fd then s ∷ ts else t ∷ put s ts

unfoldable pub change : Option Socket → (Socket → Socket × ℤ) → NetStack → NetStack × ℤ
change none op st = (st, negsuc 0)
change (some s) op st = (record st { sockets = put (op s).0 st.sockets }, (op s).1)

unfoldable pub with_socket : ℕ → (Socket → Socket × ℤ) → NetStack → NetStack × ℤ
unfolding change
with_socket fd op st = change (find fd st.sockets) op st

-- After `memset`, and with the fields that socket_create sets.
unfoldable pub new_socket : ℕ → ℕ → ℕ → ℕ → (ℕ → ℕ) → (ℕ → ℕ) → Socket
new_socket fd family type protocol send_buf recv_buf = record {
  fd = fd;
  type = type;
  family = family;
  protocol = protocol;
  state = alloc;
  local_addr = zero_address;
  local_port = 0;
  remote_addr = zero_address;
  remote_port = 0;
  tcp_state = closed;
  snd_una = 0;
  snd_nxt = 0;
  snd_wnd = 0;
  rcv_nxt = 0;
  rcv_wnd = 0;
  iss = 0;
  irs = 0;
  send_buf = send_buf;
  send_len = 0;
  recv_buf = recv_buf;
  recv_len = 0;
  accept_queue = replicate 16 0;
  accept_count = 0;
  refcount = 1;
}

-- What the calls of kmalloc give: the socket and the two buffers, with what they hold.
pub record Memory : Type 0 where
  pub has_socket : Bool
  pub has_buffers : Bool
  pub send_cells : ℕ → ℕ
  pub recv_cells : ℕ → ℕ

unfoldable pub socket_create : Memory → ℕ → ℕ → ℕ → NetStack → NetStack × Option ℕ
socket_create mem family type protocol st =
    if not mem.has_socket
    then (st, none)
    else (if not mem.has_buffers then (record st { next_fd = st.next_fd + 1 }, none) else (
      record st {
        sockets =
            new_socket st.next_fd family type protocol mem.send_cells mem.recv_cells ∷ st.sockets;
        socket_count = st.socket_count + 1;
        next_fd = st.next_fd + 1;
      },
      some st.next_fd,
    ))

-- The windows that tcp_socket sets on the new socket, the front of the list.
unfoldable pub set_windows : List Socket → List Socket
set_windows [] = []
set_windows (s ∷ ss) = record s { tcp_state = closed; snd_wnd = tcp_wnd; rcv_wnd = tcp_wnd } ∷ ss

unfoldable pub tcp_socket : Memory → ℕ → ℕ → NetStack → NetStack × Option ℕ
tcp_socket mem type protocol st =
    let r = socket_create mem 2 type protocol st in
    elim r.1 [ none ↦ r | some fd ↦ (record (r.0) { sockets = set_windows r.0.sockets }, some fd) ]

unfoldable pub socket_bind : Option IpAddr → ℕ → Socket → Socket × ℤ
socket_bind none port s = (record s { local_port = port; state = bound }, pos 0)
socket_bind (some addr) port s =
    (record s { local_addr = addr; local_port = port; state = bound }, pos 0)

unfoldable pub tcp_listen : Socket → Socket × ℤ
tcp_listen s = (record s { tcp_state = listen; state = listening; accept_count = 0 }, pos 0)

abbrev pub is_listen : TcpState → Bool
is_listen listen = true
is_listen _ = false

-- `for (int i = 0; i < accept_count - 1; i++) accept_queue[i] = accept_queue[i + 1];`
unfoldable pub shift_queue : ℕ → ℕ → List ℕ → List ℕ
shift_queue i zero queue = queue
shift_queue i (suc rounds) queue = shift_queue (i + 1) rounds (set queue i (get_or queue (i + 1) 0))

abbrev pub open_socket : Socket → Socket × ℤ
open_socket s = (record s { tcp_state = established; state = opened }, pos 0)

-- The part of tcp_accept behind the pointer.
unfoldable pub accept_from : Option Socket → NetStack → NetStack × Option ℕ
accept_from none st = (st, none)
accept_from (some s) st =
    if not (is_listen s.tcp_state) || (s.accept_count == 0)
    then (st, none)
    else (let s' = record s {
      accept_queue = shift_queue 0 (s.accept_count - 1) s.accept_queue;
      accept_count = s.accept_count - 1;
    } in
        let new_fd = get_or s.accept_queue 0 0 in
        (
          (with_socket new_fd open_socket (record st { sockets = put s' st.sockets })).0,
          some new_fd,
        ))

unfoldable pub tcp_accept : ℕ → NetStack → NetStack × Option ℕ
unfolding accept_from
tcp_accept fd st = accept_from (find fd st.sockets) st

-- The part of tcp_connect behind the pointer.
unfoldable pub connect_from : Option Socket → IpAddr → ℕ → NetStack → NetStack × ℤ
connect_from none addr port st = (st, negsuc 0)
connect_from (some s) addr port st =
    let isn = (st.tcp_isn + 1) % 2 ^ 32 in
    (
      record st {
        tcp_isn = isn;
        sockets =
            put
              (record s {
                remote_addr = addr;
                remote_port = port;
                tcp_state = syn_sent;
                iss = isn;
                snd_una = isn;
                snd_nxt = isn;
                snd_wnd = tcp_wnd;
              })
              st.sockets;
      },
      pos 0,
    )

unfoldable pub tcp_connect : ℕ → Option IpAddr → ℕ → NetStack → NetStack × ℤ
unfolding connect_from
tcp_connect fd none port st = (st, negsuc 0)
tcp_connect fd (some addr) port st = connect_from (find fd st.sockets) addr port st

-- `*prev = cur->next` at the socket.
unfoldable pub remove : ℕ → List Socket → List Socket
remove fd [] = []
remove fd (s ∷ ss) = if s.fd == fd then ss else s ∷ remove fd ss

unfoldable pub close_from : Option Socket → ℕ → NetStack → NetStack × ℤ
close_from none fd st = (st, negsuc 0)
close_from (some s) fd st =
    if ltb 0 (s.refcount - 1)
    then (record st { sockets = put (record s { refcount = s.refcount - 1 }) st.sockets }, pos 0)
    else (record st { sockets = remove fd st.sockets; socket_count = st.socket_count - 1 }, pos 0)

unfoldable pub socket_close : ℕ → NetStack → NetStack × ℤ
unfolding close_from
socket_close fd st = close_from (find fd st.sockets) fd st

-- The switch of tcp_close.
abbrev pub closing_state : TcpState → TcpState
closing_state listen = closed
closing_state syn_sent = closed
closing_state established = fin_wait_1
closing_state close_wait = last_ack
closing_state s = s

unfoldable pub close_tcp_from : Option Socket → ℕ → NetStack → NetStack × ℤ
unfolding tcp_set_state
close_tcp_from none fd st = (st, negsuc 0)
close_tcp_from (some s) fd st =
    socket_close fd
      (record st { sockets = put (tcp_set_state s (closing_state s.tcp_state)) st.sockets })

unfoldable pub tcp_close : ℕ → NetStack → NetStack × ℤ
unfolding close_tcp_from
tcp_close fd st = close_tcp_from (find fd st.sockets) fd st

-- Where `addr` is NULL, which C gives no meaning, the old address stays.
abbrev pub note_remote : Option IpAddr → ℕ → Socket → Socket × ℤ
note_remote none port s = (record s { remote_port = port; state = connected }, pos 0)
note_remote (some addr) port s =
    (record s { remote_addr = addr; remote_port = port; state = connected }, pos 0)

-- socket_connect: a stream connects, any other socket keeps the address.
unfoldable pub socket_connect_from : Option Socket → ℕ → Option IpAddr → ℕ → NetStack → NetStack × ℤ
socket_connect_from none fd addr port st = (st, negsuc 0)
socket_connect_from (some s) fd addr port st =
    if s.type == socket_type_stream
    then tcp_connect fd addr port st
    else with_socket fd (note_remote addr port) st

unfoldable pub socket_connect : ℕ → Option IpAddr → ℕ → NetStack → NetStack × ℤ
unfolding socket_connect_from
socket_connect fd addr port st = socket_connect_from (find fd st.sockets) fd addr port st
