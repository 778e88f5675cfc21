-- ===== src/TcpIp/Stack/Calls.antt =====
-- Each call of the stack, and each packet, keeps its invariant.
use feather_os.Prelude.{
  ℕ, suc, ◌-◌, ◌≡◌, refl, sym, ◌∙◌, inl, inr, false, Option, none, some, List, [], ◌∷◌, arith, ltb,
  ◌==◌, Bool-cases, length,
}
use feather_os.TcpIp.Stack.Sane.{
  is_established, IsSane, AllSane, Found, find-Found, length-remove, put-AllSane, length-put,
  remove-AllSane, IsSaneStack, tcp_segment-IsSane, udp_datagram-IsSane,
}
use feather_os.TcpIp.Socket.{
  TcpState, closed, listen, syn_sent, syn_received, established, close_wait, fin_wait_1, closing,
  last_ack, fin_wait_2, time_wait, socket_type_stream, Socket, tcp_set_state, Segment, tcp_segment,
}
use feather_os.Prelude.Int.{ℤ}
use feather_os.TcpIp.Address.{IpAddr}
use feather_os.TcpIp.Stack.{
  change, accept_from, connect_from, close_from, close_tcp_from, socket_connect_from, NetStack,
  find, put, with_socket, new_socket, Memory, socket_create, set_windows, tcp_socket, tcp_connect,
  remove, socket_close, closing_state, note_remote, socket_connect,
}
use feather_os.TcpIp.Stack.Receive.{deliver, tcp_rx, Datagram, udp_datagram, udp_rx}

-- A change of one socket.
put-IsSane :
    (s : Socket) (st : NetStack)
    → IsSane s
    → IsSaneStack st
    → IsSaneStack (record st { sockets = put s st.sockets })
put-IsSane s st sane v = record {
  all_sane = put-AllSane s st.sockets sane v.all_sane;
  counted = v.counted ∙ sym (length-put s st.sockets);
}

pub socket_create-IsSane :
    (mem : Memory) (family type protocol : ℕ) (st : NetStack)
    → IsSaneStack st
    → IsSaneStack (socket_create mem family type protocol st).0
unfolding socket_create new_socket
socket_create-IsSane mem family type protocol st v = ground (arith, v.all_sane, v.counted)

set_windows-IsSane :
    (st : NetStack) → IsSaneStack st → IsSaneStack (record st { sockets = set_windows st.sockets })
unfolding set_windows
set_windows-IsSane st v = go st.sockets v.all_sane v.counted
  where
    go :
        (ss : List Socket)
        → AllSane ss
        → st.socket_count ≡ length ss
        → IsSaneStack (record st { sockets = set_windows ss })
    go [] all c = record { all_sane = tt; counted = c }
    go (s ∷ ss) all c = record {
      all_sane = (
        record {
          quiet = all.0.quiet;
          unestablished = refl;
          send_fits = all.0.send_fits;
          recv_fits = all.0.recv_fits;
        },
        all.1,
      );
      counted = c;
    }

pub tcp_socket-IsSane :
    (mem : Memory) (type protocol : ℕ) (st : NetStack)
    → IsSaneStack st
    → IsSaneStack (tcp_socket mem type protocol st).0
unfolding tcp_socket
tcp_socket-IsSane mem type protocol st v =
    go (socket_create mem 2 type protocol st) (socket_create-IsSane mem 2 type protocol st v)
  where
    go :
        (r : NetStack × Option ℕ)
        → IsSaneStack r.0
        → IsSaneStack
            (elim r.1 as (λ _. NetStack × Option ℕ) [
              | none ↦ r
              | some fd ↦ (record (r.0) { sockets = set_windows r.0.sockets }, some fd)
            ]).0
    go (s', none) sane = sane
    go (s', some fd) sane = set_windows-IsSane s' sane

change-IsSane :
    (r : Option Socket) (op : Socket → Socket × ℤ) (st : NetStack)
    → ((s : Socket) → IsSane s → IsSane (op s).0)
    → Found r
    → IsSaneStack st
    → IsSaneStack (change r op st).0
unfolding change
change-IsSane none op st keep f v = v
change-IsSane (some s) op st keep f v = put-IsSane (op s).0 st (keep s f) v

pub with_socket-IsSane :
    (fd : ℕ) (op : Socket → Socket × ℤ) (st : NetStack)
    → ((s : Socket) → IsSane s → IsSane (op s).0)
    → IsSaneStack st
    → IsSaneStack (with_socket fd op st).0
unfolding with_socket
with_socket-IsSane fd op st keep v =
    change-IsSane (find fd st.sockets) op st keep (find-Found fd st.sockets v.all_sane) v

-- The queue of connections is always empty, so there is nothing to accept.
pub accept_from-none : (r : Option Socket) (st : NetStack) → Found r → accept_from r st ≡ (st, none)
unfolding accept_from
accept_from-none none st f = refl
accept_from-none (some s) st f = ground (arith, f.quiet)

connect_from-IsSane :
    (r : Option Socket) (addr : IpAddr) (port : ℕ) (st : NetStack)
    → Found r
    → IsSaneStack st
    → IsSaneStack (connect_from r addr port st).0
unfolding connect_from
connect_from-IsSane none addr port st f v = v
connect_from-IsSane (some s) addr port st f v = record {
  all_sane =
      put-AllSane _ st.sockets
        (record {
          quiet = f.quiet;
          unestablished = refl;
          send_fits = f.send_fits;
          recv_fits = f.recv_fits;
        })
        v.all_sane;
  counted = v.counted ∙ sym (length-put _ st.sockets);
}

tcp_connect-IsSane :
    (fd : ℕ) (addr : Option IpAddr) (port : ℕ) (st : NetStack)
    → IsSaneStack st
    → IsSaneStack (tcp_connect fd addr port st).0
unfolding tcp_connect
tcp_connect-IsSane fd none port st v = v
tcp_connect-IsSane fd (some addr) port st v =
    connect_from-IsSane (find fd st.sockets) addr port st (find-Found fd st.sockets v.all_sane) v

note_remote-IsSane :
    (addr : Option IpAddr) (port : ℕ) (s : Socket) → IsSane s → IsSane (note_remote addr port s).0
note_remote-IsSane none port s v = record {
  quiet = v.quiet;
  unestablished = v.unestablished;
  send_fits = v.send_fits;
  recv_fits = v.recv_fits;
}
note_remote-IsSane (some a) port s v = record {
  quiet = v.quiet;
  unestablished = v.unestablished;
  send_fits = v.send_fits;
  recv_fits = v.recv_fits;
}

pub socket_connect-IsSane :
    (fd : ℕ) (addr : Option IpAddr) (port : ℕ) (st : NetStack)
    → IsSaneStack st
    → IsSaneStack (socket_connect fd addr port st).0
unfolding socket_connect
socket_connect-IsSane fd addr port st v = go (find fd st.sockets)
  where
    go : (r : Option Socket) → IsSaneStack (socket_connect_from r fd addr port st).0
    go none = v
    go (some s) = elim (Bool-cases (s.type == socket_type_stream)) [
      | inl stream ↦ rw (socket_connect_from, stream) (tcp_connect-IsSane fd addr port st v)
      | inr other ↦
          rw (socket_connect_from, other)
            (with_socket-IsSane fd (note_remote addr port) st (note_remote-IsSane addr port) v)
    ]

close_from-IsSane :
    (r : Option Socket) (fd : ℕ) (st : NetStack)
    → ((s : Socket) → r ≡ some s → suc (length (remove fd st.sockets)) ≡ length st.sockets)
    → Found r
    → IsSaneStack st
    → IsSaneStack (close_from r fd st).0
unfolding close_from
close_from-IsSane none fd st taken f v = v
close_from-IsSane (some s) fd st taken f v = elim (Bool-cases (ltb 0 (s.refcount - 1))) [
  | inl shared ↦ rw shared (
      put-IsSane (record s { refcount = s.refcount - 1 }) st
        (record {
          quiet = f.quiet;
          unestablished = f.unestablished;
          send_fits = f.send_fits;
          recv_fits = f.recv_fits;
        })
        v)
  | inr last ↦ rw last (record {
    all_sane = remove-AllSane fd st.sockets v.all_sane;
    counted = omega (arith, taken s refl, v.counted);
  })
]

pub socket_close-IsSane :
    (fd : ℕ) (st : NetStack) → IsSaneStack st → IsSaneStack (socket_close fd st).0
unfolding socket_close
socket_close-IsSane fd st v =
    close_from-IsSane (find fd st.sockets) fd st (length-remove fd st.sockets)
      (find-Found fd st.sockets v.all_sane) v

closing_state-unestablished : (s : TcpState) → is_established (closing_state s) ≡ false
closing_state-unestablished closed = refl
closing_state-unestablished listen = refl
closing_state-unestablished syn_sent = refl
closing_state-unestablished syn_received = refl
closing_state-unestablished established = refl
closing_state-unestablished close_wait = refl
closing_state-unestablished fin_wait_1 = refl
closing_state-unestablished closing = refl
closing_state-unestablished last_ack = refl
closing_state-unestablished fin_wait_2 = refl
closing_state-unestablished time_wait = refl

pub close_tcp_from-IsSane :
    (r : Option Socket) (fd : ℕ) (st : NetStack)
    → Found r
    → IsSaneStack st
    → IsSaneStack (close_tcp_from r fd st).0
unfolding close_tcp_from tcp_set_state
close_tcp_from-IsSane none fd st f v = v
close_tcp_from-IsSane (some s) fd st f v = socket_close-IsSane fd _ (
    put-IsSane (record s { tcp_state = closing_state s.tcp_state }) st
      (record {
        quiet = f.quiet;
        unestablished = closing_state-unestablished s.tcp_state;
        send_fits = f.send_fits;
        recv_fits = f.recv_fits;
      })
      v)

delivered-IsSane :
    (r : Option ℕ) (op : Socket → Socket × ℤ) (st : NetStack)
    → ((s : Socket) → IsSane s → IsSane (op s).0)
    → IsSaneStack st
    → IsSaneStack (deliver r op st).0
unfolding deliver
delivered-IsSane none op st keep v = v
delivered-IsSane (some fd) op st keep v = with_socket-IsSane fd op st keep v

pub tcp_rx-IsSane : (seg : Segment) (st : NetStack) → IsSaneStack st → IsSaneStack (tcp_rx seg st).0
unfolding tcp_rx
tcp_rx-IsSane seg st v = elim (Bool-cases (ltb seg.len 20)) [
  | inl short ↦ rw short v
  | inr long ↦ rw long (delivered-IsSane _ (tcp_segment seg) st (tcp_segment-IsSane seg) v)
]

pub udp_rx-IsSane : (d : Datagram) (st : NetStack) → IsSaneStack st → IsSaneStack (udp_rx d st).0
unfolding udp_rx
udp_rx-IsSane d st v = elim (Bool-cases (ltb d.len 8)) [
  | inl short ↦ rw short v
  | inr long ↦ rw long (delivered-IsSane _ (udp_datagram d) st (udp_datagram-IsSane d) v)
]
