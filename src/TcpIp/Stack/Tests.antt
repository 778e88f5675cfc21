-- ===== src/TcpIp/Stack/Tests.antt =====
-- A server that listens and gets a segment, and the theorems at it.
use feather_os.Prelude.{◌≡◌, refl, inl, true, false, some, List, [], ◌∷◌, arith}
use feather_os.Prelude.Int.{negsuc}
use feather_os.TcpIp.Route.{zero_address}
use feather_os.TcpIp.Socket.{Socket, listen, listening, tcp_wnd, Segment}
use feather_os.TcpIp.Stack.{NetStack, new_socket, Memory}
use feather_os.TcpIp.Stack.Receive.{tcp_rx}
use feather_os.TcpIp.Stack.Events.{NetEvent, creates_tcp, binds, listens}
use feather_os.TcpIp.Stack.Deaf.{tcp_rx_deaf}

abbrev memory : Memory
memory = record { has_socket = true; has_buffers = true; send_cells = λ x. 0; recv_cells = λ x. 0 }

abbrev echo : List NetEvent
echo = creates_tcp memory 1 0 ∷ binds 1 (some zero_address) 7 ∷ listens 1 ∷ []

abbrev server : Socket
server = record (new_socket 1 2 1 0 (λ x. 0) (λ x. 0)) {
  local_port = 7;
  state = listening;
  tcp_state = listen;
  snd_wnd = tcp_wnd;
  rcv_wnd = tcp_wnd;
}

abbrev syn_segment : Segment
syn_segment = record {
  src_port = 40000;
  dest_port = 7;
  seq_num = 1;
  ack_num = 0;
  data_offset = 80;
  fin = false;
  syn = true;
  rst = false;
  psh = false;
  ack = false;
  len = 20;
  bytes = λ i. 0;
}

abbrev one_server : NetStack
one_server = record { sockets = server ∷ []; socket_count = 1; next_fd = 2; tcp_isn = 0x10000000 }

tcp_rx_deaf_example : tcp_rx syn_segment one_server ≡ (one_server, negsuc 0)
unfolding new_socket
tcp_rx_deaf_example = tcp_rx_deaf syn_segment one_server (omega arith) (inl refl, tt)
