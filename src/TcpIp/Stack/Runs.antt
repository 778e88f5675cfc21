-- ===== src/TcpIp/Stack/Runs.antt =====
-- The invariant over every sequence of calls and packets.
use feather_os.TcpIp.Socket.{Socket}
