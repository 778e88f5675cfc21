-- ===== src/TcpIp/Socket.antt =====
-- The sockets of FeatherOS/kernel/net/tcpip.c. A pointer to a socket is its descriptor `fd`, which
-- no two sockets share. The spinlock and the statistics are left out, and what the stack prints.
pub mod Buffer
mod Tests
use mathlib.Core.Path.{subst, fun_ext}
use mathlib.Core.Logic.{dite, ite}
use native.Mathlib.Nat.{
  add_comm, add_assoc, le_refl, le_trans, mod-eq_of_lt, mod-lt, mod-eq-sub-mod, mod-add-mod,
}
use native.Mathlib.Decide.{ℕ_discrete, dec_lt, dec_le}
use feather_os.Prelude.{
  ℕ, zero, suc, ◌+◌, ◌-◌, ◌*◌, ◌/◌, ◌%◌, ◌^◌, ◌≤◌, ◌<◌, min, max, ◌≡◌, refl, sym, ap, ◌∙◌, ◌≢◌, ◌↔◌,
  ◌⊎◌, inl, inr, Bool, true, false, not, ◌&&◌, ◌||◌, Option, none, some, List, [], ◌∷◌, ◌++◌, map,
  arith, ltb, leb, ◌==◌, if◌then◌else◌, ltb→lt, lt→ltb, leb→le, ==_iff, tests, Bool-cases,
  Option-cases, length, get_or, set, take, drop, replicate,
}
use Prim.Native.Nat.{bit_and}
use feather_os.Prelude.Int.{ℤ, pos, negsuc, to_int}
use feather_os.TcpIp.Address.{IpAddr, ip_addr_equal}

pub data TcpState : Type 0 where
  closed listen syn_sent syn_received established close_wait fin_wait_1 closing last_ack fin_wait_2
        time_wait :
      TcpState

abbrev pub socket_type_stream : ℕ
socket_type_stream = 1

pub data SocketState : Type 0 where
  free alloc bound listening connected opened : SocketState

-- `send_buf` and `recv_buf` are functions from an index to a byte.
pub record Socket : Type 0 where
  pub fd : ℕ
  pub type : ℕ
  pub family : ℕ
  pub protocol : ℕ
  pub state : SocketState
  pub local_addr : IpAddr
  pub local_port : ℕ
  pub remote_addr : IpAddr
  pub remote_port : ℕ
  pub tcp_state : TcpState
  pub snd_una : ℕ
  pub snd_nxt : ℕ
  pub snd_wnd : ℕ
  pub rcv_nxt : ℕ
  pub rcv_wnd : ℕ
  pub iss : ℕ
  pub irs : ℕ
  pub send_buf : ℕ → ℕ
  pub send_len : ℕ
  pub recv_buf : ℕ → ℕ
  pub recv_len : ℕ
  pub accept_queue : List ℕ
  pub accept_count : ℕ
  pub refcount : ℕ

abbrev pub tcp_buf_size : ℕ
tcp_buf_size = 64 * 1024

abbrev pub tcp_wnd : ℕ
tcp_wnd = 65535

-- `memcpy(buf + at, bytes, length of bytes)`, where `buf` is the memory from the buffer's first
-- byte on: what is written at or past the buffer's size lies behind it.
unfoldable pub copy_in : (ℕ → ℕ) → ℕ → List ℕ → ℕ → ℕ
copy_in buf at [] = buf
copy_in buf at (b ∷ bytes) = copy_in (λ x. if x == at then b else buf x) (at + 1) bytes

-- The bytes of `buf` from `i` on, `n` of them.
unfoldable pub copy_out : (ℕ → ℕ) → ℕ → ℕ → List ℕ
copy_out buf i zero = []
copy_out buf i (suc n) = buf i ∷ copy_out buf (i + 1) n

unfoldable pub tcp_set_state : Socket → TcpState → Socket
tcp_set_state sock state = record sock { tcp_state = state }

abbrev pub may_send : TcpState → Bool
may_send established = true
may_send close_wait = true
may_send _ = false

-- `data`, here `bytes`, is NULL or the memory from its first byte on, of which memcpy reads as many
-- bytes as it stores. The sum of the lengths is a `uint32_t`: where it wraps, more bytes are copied
-- than `send_buf` has room for, and they land behind it.
unfoldable pub tcp_send : Socket → Option (ℕ → ℕ) → ℕ → Socket × ℤ
tcp_send sock none len = (sock, negsuc 0)
tcp_send sock (some bytes) len =
    if not (may_send sock.tcp_state)
    then (sock, negsuc 0)
    else (let len' =
          if ltb tcp_buf_size ((sock.send_len + len) % 2 ^ 32)
          then tcp_buf_size - sock.send_len
          else len in
        if len' == 0 then (sock, negsuc 0) else (
          record sock {
            send_buf = copy_in sock.send_buf sock.send_len (copy_out bytes 0 len');
            send_len = (sock.send_len + len') % 2 ^ 32;
          },
          to_int len',
        ))

-- What remains is moved to the front of the buffer.
abbrev pub shift_down : ℕ → ℕ → (ℕ → ℕ) → ℕ → ℕ
shift_down len rest buf = λ x. if ltb x rest then buf (x + len) else buf x

-- The socket, the bytes stored through `buf`, which is not NULL, and the result.
unfoldable pub tcp_recv : Socket → ℕ → Socket × List ℕ × ℤ
tcp_recv sock len =
    if sock.recv_len == 0
    then (sock, [], pos 0)
    else (let len' = if ltb sock.recv_len len then sock.recv_len else len in
        let rest = sock.recv_len - len' in
        (
          record sock { recv_len = rest; recv_buf = shift_down len' rest sock.recv_buf },
          copy_out sock.recv_buf 0 len',
          to_int len',
        ))

unfoldable pub udp_recvfrom : Socket → ℕ → Socket × List ℕ × ℤ
udp_recvfrom sock len =
    if sock.recv_len == 0
    then (sock, [], pos 0)
    else (let recv_len = if ltb len sock.recv_len then len else sock.recv_len in
        let rest = sock.recv_len - recv_len in
        (
          record sock { recv_len = rest; recv_buf = shift_down recv_len rest sock.recv_buf },
          copy_out sock.recv_buf 0 recv_len,
          to_int recv_len,
        ))

unfoldable pub socket_recv : Socket → ℕ → Socket × List ℕ × ℤ
socket_recv sock len =
    if sock.type == socket_type_stream then tcp_recv sock len else udp_recvfrom sock len

-- A received TCP segment: the fields of its header that are read, `skb->len`, and the memory from
-- `skb->data` on, which goes on behind the segment's last byte.
pub record Segment : Type 0 where
  pub src_port : ℕ
  pub dest_port : ℕ
  pub seq_num : ℕ
  pub ack_num : ℕ
  pub data_offset : ℕ
  pub fin : Bool
  pub syn : Bool
  pub rst : Bool
  pub psh : Bool
  pub ack : Bool
  pub len : ℕ
  pub bytes : ℕ → ℕ

-- `skb->len - (hdr->data_offset >> 2)`, a `uint32_t`
abbrev pub data_len : Segment → ℕ
data_len seg = (seg.len + 2 ^ 32 - seg.data_offset / 4) % 2 ^ 32

-- The `data_len` bytes that memcpy reads, whether or not the segment has so many.
abbrev pub payload : Segment → List ℕ
payload seg = copy_out seg.bytes (seg.data_offset / 4) (data_len seg)

abbrev pub on_syn : Segment → Socket → Socket
on_syn seg sock =
    if seg.syn
    then record sock {
      irs = seg.seq_num;
      rcv_nxt = (seg.seq_num + 1) % 2 ^ 32;
      tcp_state = syn_received;
    }
    else sock

abbrev pub on_ack : Segment → Socket → Socket
on_ack seg sock = if seg.ack then record sock { snd_una = seg.ack_num } else sock

abbrev pub on_data : Segment → Socket → Socket
on_data seg sock =
    if ltb 0 (data_len seg) && seg.psh
    then (if leb ((sock.recv_len + data_len seg) % 2 ^ 32) tcp_buf_size
        then record sock {
          recv_buf = copy_in sock.recv_buf sock.recv_len (payload seg);
          recv_len = (sock.recv_len + data_len seg) % 2 ^ 32;
        }
        else sock)
    else sock

abbrev pub on_fin : Segment → Socket → Socket
on_fin seg sock = if seg.fin then record sock { tcp_state = close_wait } else sock

-- The part of tcp_rx after the lookup: the socket and the result.
unfoldable pub tcp_segment : Segment → Socket → Socket × ℤ
tcp_segment seg sock =
    if seg.rst
    then (record sock { tcp_state = closed }, negsuc 0)
    else (on_fin seg (on_data seg (on_ack seg (on_syn seg sock))), pos 0)
