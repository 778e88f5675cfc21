-- ===== src/TcpIp/Stack/Sane.antt =====
-- An invariant of the sockets, kept by every call and every packet.
use feather_os.Prelude.{
  ℕ, suc, ◌≤◌, ◌≡◌, refl, ap, ◌∙◌, inl, inr, Bool, true, false, Option, none, some, List, [], ◌∷◌,
  arith, ◌==◌, Bool-cases, length,
}
use feather_os.TcpIp.Address.{IpAddr}
use feather_os.TcpIp.Socket.{
  TcpState, established, Socket, tcp_buf_size, tcp_send, tcp_recv, udp_recvfrom, socket_recv,
  Segment, tcp_segment,
}
use feather_os.TcpIp.Stack.{NetStack, find, put, socket_bind, tcp_listen, remove}
use feather_os.TcpIp.Stack.Receive.{Datagram, udp_datagram}

abbrev pub is_established : TcpState → Bool
is_established established = true
is_established _ = false

-- No connection waits to be accepted, none is established, and the lengths are within the buffers.
pub record IsSane (s : Socket) : Type 0 where
  pub quiet : s.accept_count ≡ 0
  pub unestablished : is_established s.tcp_state ≡ false
  pub send_fits : s.send_len ≤ tcp_buf_size
  pub recv_fits : s.recv_len ≤ tcp_buf_size

abbrev pub AllSane : List Socket → Type 0
AllSane [] = Unit
AllSane (s ∷ ss) = IsSane s × AllSane ss

-- What a pointer leads to: a sane socket.
abbrev pub Found : Option Socket → Type 0
Found none = Unit
Found (some s) = IsSane s

pub find-Found : (fd : ℕ) (ss : List Socket) → AllSane ss → Found (find fd ss)
unfolding find
find-Found fd [] all = tt
find-Found fd (s ∷ ss) (sane, all) = elim (Bool-cases (s.fd == fd)) [
  | inl here ↦ rw here sane
  | inr on ↦ rw on (find-Found fd ss all)
]

-- A socket that is found can be taken out of the list.
pub length-remove :
    (fd : ℕ) (ss : List Socket) (s : Socket)
    → find fd ss ≡ some s
    → suc (length (remove fd ss)) ≡ length ss
unfolding find remove
length-remove fd [] s e = absurd (ground arith)
length-remove fd (t ∷ ts) s e = elim (Bool-cases (t.fd == fd)) [
  | inl here ↦
      let taken : remove fd (t ∷ ts) ≡ ts = rw (remove, here) refl in ap (λ l. suc (length l)) taken
  | inr on ↦
      let kept : remove fd (t ∷ ts) ≡ t ∷ remove fd ts = rw (remove, on) refl in
      let found : find fd ts ≡ some s = rw (find, on) at e in
      ap (λ l. suc (length l)) kept ∙ ap suc (length-remove fd ts s found)
]

pub put-AllSane : (s : Socket) (ss : List Socket) → IsSane s → AllSane ss → AllSane (put s ss)
unfolding put
put-AllSane s [] sane all = tt
put-AllSane s (t ∷ ts) sane all = elim (Bool-cases (t.fd == s.fd)) [
  | inl here ↦ rw here (sane, all.1)
  | inr on ↦ rw on (all.0, put-AllSane s ts sane all.1)
]

pub length-put : (s : Socket) (ss : List Socket) → length (put s ss) ≡ length ss
unfolding put
length-put s [] = refl
length-put s (t ∷ ts) = elim (Bool-cases (t.fd == s.fd)) [
  | inl here ↦ rw here refl
  | inr on ↦ rw on (ap suc (length-put s ts))
]

pub remove-AllSane : (fd : ℕ) (ss : List Socket) → AllSane ss → AllSane (remove fd ss)
unfolding remove
remove-AllSane fd [] all = tt
remove-AllSane fd (s ∷ ss) all = elim (Bool-cases (s.fd == fd)) [
  | inl here ↦ rw here all.1
  | inr on ↦ rw on (all.0, remove-AllSane fd ss all.1)
]

-- The sockets are sane, and `socket_count` counts them.
pub record IsSaneStack (st : NetStack) : Type 0 where
  pub all_sane : AllSane st.sockets
  pub counted : st.socket_count ≡ length st.sockets

pub socket_bind-IsSane :
    (addr : Option IpAddr) (port : ℕ) (s : Socket) → IsSane s → IsSane (socket_bind addr port s).0
unfolding socket_bind
socket_bind-IsSane none port s v = record {
  quiet = v.quiet;
  unestablished = v.unestablished;
  send_fits = v.send_fits;
  recv_fits = v.recv_fits;
}
socket_bind-IsSane (some a) port s v = record {
  quiet = v.quiet;
  unestablished = v.unestablished;
  send_fits = v.send_fits;
  recv_fits = v.recv_fits;
}

pub tcp_send-IsSane :
    (bytes : Option (ℕ → ℕ)) (len : ℕ) (s : Socket) → IsSane s → IsSane (tcp_send s bytes len).0
unfolding tcp_send
tcp_send-IsSane none len s v = v
tcp_send-IsSane (some bytes) len s v = ground arith

pub socket_recv-IsSane : (len : ℕ) (s : Socket) → IsSane s → IsSane (socket_recv s len).0
unfolding socket_recv tcp_recv udp_recvfrom
socket_recv-IsSane len s v = ground arith

pub tcp_segment-IsSane : (seg : Segment) (s : Socket) → IsSane s → IsSane (tcp_segment seg s).0
unfolding tcp_segment
tcp_segment-IsSane seg s v = ground arith

pub udp_datagram-IsSane : (d : Datagram) (s : Socket) → IsSane s → IsSane (udp_datagram d s).0
unfolding udp_datagram
udp_datagram-IsSane d s v = ground arith

pub tcp_listen-IsSane : (s : Socket) → IsSane s → IsSane (tcp_listen s).0
unfolding tcp_listen
tcp_listen-IsSane s v = record {
  quiet = refl;
  unestablished = refl;
  send_fits = v.send_fits;
  recv_fits = v.recv_fits;
}
