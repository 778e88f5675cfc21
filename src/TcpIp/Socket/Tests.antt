-- ===== src/TcpIp/Socket/Tests.antt =====
-- A socket that two segments arrive for, and the theorems at it.
use feather_os.Prelude.{◌+◌, ◌≡◌, refl, true, false, List, [], ◌∷◌, ◌++◌, arith, replicate, get_or}
use feather_os.TcpIp.Route.{zero_address}
use feather_os.TcpIp.Socket.{
  Socket, syn_received, bound, copy_in, copy_out, tcp_recv, Segment, tcp_segment,
}
use feather_os.TcpIp.Socket.Buffer.{waiting, StreamEvent, arrives, reads, stream, tcp_recv-stream}

abbrev sock : Socket
sock = record {
  fd = 1;
  type = 1;
  family = 2;
  protocol = 6;
  state = bound;
  local_addr = zero_address;
  local_port = 7;
  remote_addr = zero_address;
  remote_port = 9;
  tcp_state = syn_received;
  snd_una = 0;
  snd_nxt = 0;
  snd_wnd = 65535;
  rcv_nxt = 0;
  rcv_wnd = 65535;
  iss = 0;
  irs = 0;
  send_buf = λ x. 0;
  send_len = 0;
  recv_buf = λ x. x + 100;
  recv_len = 3;
  accept_queue = replicate 16 0;
  accept_count = 0;
  refcount = 1;
}

-- 20 bytes of header, and two of data
abbrev seg : Segment
seg = record {
  src_port = 9;
  dest_port = 7;
  seq_num = 1;
  ack_num = 0;
  data_offset = 80;
  fin = false;
  syn = false;
  rst = false;
  psh = true;
  ack = true;
  len = 22;
  bytes = λ i. get_or (replicate 20 0 ++ (b'h' ∷ b'i' ∷ [])) i 0;
}

abbrev events : List StreamEvent
events = reads 2 ∷ arrives seg ∷ reads 2 ∷ []

read_so_far : (stream events sock).2 ≡ 100 ∷ 101 ∷ 102 ∷ b'h' ∷ []
unfolding stream tcp_recv tcp_segment copy_in copy_out
read_so_far = refl

tcp_recv-stream_example :
    (stream events sock).2 ++ waiting (stream events sock).0
    ≡ waiting sock ++ (stream events sock).1
tcp_recv-stream_example =
    tcp_recv-stream events sock (record { header_fits = omega arith; small = omega arith }, tt)
      (omega arith)

abbrev broken : Segment
broken = record seg { data_offset = 92; len = 22 }
