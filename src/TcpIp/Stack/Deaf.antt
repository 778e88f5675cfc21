-- ===== src/TcpIp/Stack/Deaf.antt =====
-- The segments that tcp_rx drops because it looks up addresses of its own.
use feather_os.Prelude.{ℕ, ◌<◌, ◌≡◌, refl, ◌⊎◌, inl, inr, false, none, some, List, [], ◌∷◌, arith}
use feather_os.Prelude.Int.{negsuc}
use feather_os.TcpIp.Address.{ip_addr_equal}
use feather_os.TcpIp.Route.{zero_address}
use feather_os.TcpIp.Socket.{Socket, Segment}
use feather_os.TcpIp.Stack.{NetStack}
use feather_os.TcpIp.Stack.Receive.{socket_lookup, deliver, tcp_rx}

-- Not connected, or connected to an address other than 0.0.0.0.
abbrev pub IsReal : Socket → Type 0
IsReal s = (s.remote_port ≡ 0) ⊎ (ip_addr_equal (some s.remote_addr) (some zero_address) ≡ false)

abbrev pub AllReal : List Socket → Type 0
AllReal [] = Unit
AllReal (s ∷ ss) = IsReal s × AllReal ss

lookup-none :
    (dest src : ℕ) (ss : List Socket)
    → 0 < src
    → AllReal ss
    → socket_lookup (some zero_address) dest (some zero_address) src ss ≡ none
unfolding socket_lookup
lookup-none dest src [] p all = refl
lookup-none dest src (s ∷ ss) p (inl free, all) = ground (arith, lookup-none dest src ss p all)
lookup-none dest src (s ∷ ss) p (inr far, all) = ground (arith, lookup-none dest src ss p all)

-- Where each socket is either not connected or connected to an address other than 0.0.0.0, tcp_rx
-- drops every segment with a nonzero source port: it answers -1 and changes no socket.
pub tcp_rx_deaf :
    (seg : Segment) (st : NetStack)
    → 0 < seg.src_port
    → AllReal st.sockets
    → tcp_rx seg st ≡ (st, negsuc 0)
unfolding tcp_rx deliver
tcp_rx_deaf seg st p all = ground (arith, lookup-none seg.dest_port seg.src_port st.sockets p all)
