-- ===== src/Tests/Net.antt =====
-- kernel/net: one connection, and a socket that connects.
use trade_kernel.Base.{
  ℕ, ◌+◌, ◌%◌, ◌^◌, ◌<◌, ◌≡◌, ◌≢◌, ◌⊎◌, true, false, List, [], ◌∷◌, none, some, refl, arith,
  test_bit,
}
use trade_kernel.Net.Checksum.{sum_words, fold_sum, net_checksum}
use trade_kernel.Net.Checksum.Complement.{word_sum, net_checksum-complement}
use trade_kernel.Net.Ip.{
  net_success, net_invalid, ipv4_header, ipv4_checksum, ipv4_bytes, ipv4_handle_packet,
}
use trade_kernel.Net.Ip.Validation.{ipv4_handle_packet-ipv4_header}
use trade_kernel.Net.Tcp.{
  TcpConnection, TcpHeader, Net, Memory, tcp_listen, tcp_syn_sent, tcp_established, state_at,
  has_ack, has_fin, tcp_find_connection, tcp_handle_packet,
}
use trade_kernel.Net.Tcp.States.{IsStep, tcp_handle_packet-Moves}
use trade_kernel.Net.Socket.{Socket, Sockets, SockAddr, socket_bind, socket_connect}
use trade_kernel.Net.Socket.Connect.{socket_connect-tcp_handle_packet}
use trade_kernel.Net.Socket.Peers.{tcp_find_connection-socket_bind}

abbrev ours : List ℕ
ours = 10 ∷ 0 ∷ 0 ∷ 2 ∷ []

abbrev theirs : List ℕ
theirs = 10 ∷ 0 ∷ 0 ∷ 9 ∷ []

abbrev plenty : Memory
plenty = record { packet = true; buffer = true; frame = true }

abbrev listening : TcpConnection
listening = record {
  addr = 4096;
  state = tcp_listen;
  local_ip = ours;
  remote_ip = theirs;
  local_port = 80;
  remote_port = 5000;
  seq_num = 1000;
  ack_num = 0;
  window_size = 65535;
}

abbrev net : Net
net = record {
  tcp_connections = listening ∷ [];
  next_seq_num = 1001;
  our_ip = ours;
  dev = record { initialized = true; rx_buffer_pos = 0; sent = [] };
}

-- SYN is flag 2, ACK 16.
abbrev header : ℕ → ℕ → ℕ → TcpHeader
header src_port dst_port flags = record {
  src_port = src_port;
  dst_port = dst_port;
  seq_num = 7;
  ack_num = 0;
  flags = flags;
  window = 65535;
  checksum = 0;
  urgent_ptr = 0;
}

tcp_handle_packet-Moves_example :
    ((tcp_find_connection theirs ours 5000 80 net.tcp_connections ≡ none)
      × (tcp_handle_packet plenty plenty plenty (header 5000 80 2) theirs ours net ≡ net))
    ⊎ ((c : TcpConnection) × (tcp_find_connection theirs ours 5000 80 net.tcp_connections ≡ some c)
        × IsStep c.addr net
            (tcp_handle_packet plenty plenty plenty (header 5000 80 2) theirs ours net))
tcp_handle_packet-Moves_example =
    tcp_handle_packet-Moves plenty plenty plenty (header 5000 80 2) theirs ours net

net_checksum-complement_example :
    (fold_sum 2 (sum_words ours 0) < 2 ^ 16)
    × (net_checksum ours < 2 ^ 16)
    × ((word_sum ours + net_checksum ours) % 65535 ≡ 0)
net_checksum-complement_example = net_checksum-complement ours (omega arith) (omega arith)

wrong_checksum : 77 ≢ (ipv4_header theirs ours 6 40).checksum
unfolding ipv4_header ipv4_checksum ipv4_bytes net_checksum sum_words fold_sum
wrong_checksum e = omega (arith, e)

ipv4_handle_packet-ipv4_header_example :
    let h = ipv4_header theirs ours 6 40 in
    (ipv4_handle_packet ours h 60 ≡ net_success)
    × (ipv4_handle_packet ours (record h { checksum = 77 }) 60 ≡ net_invalid)
    × (ipv4_handle_packet ours (record h { ttl = 63 }) 60 ≡ net_invalid)
ipv4_handle_packet-ipv4_header_example =
    ipv4_handle_packet-ipv4_header theirs ours 6 40 60 77 63 (ground arith) refl (omega arith)
      wrong_checksum (omega arith) (omega arith)

abbrev stream : Socket
stream = record { addr = 8192; domain = 2; kind = 1; protocol = 0; tcp_conn = 0 }

abbrev one_socket : Sockets
one_socket = record {
  sockets = stream ∷ [];
  next_fd = 4;
  net = record net { tcp_connections = [] };
}

abbrev peer : SockAddr
peer = record { sin_port = 443; sin_addr = theirs }

-- The peer answers with SYN and ACK.
acked : has_ack 18 ≡ true
unfolding test_bit
acked = refl

not_finished : has_fin 18 ≡ false
unfolding test_bit
not_finished = refl

socket_connect-tcp_handle_packet_example :
    let (result, t) = socket_connect plenty 4096 3 peer one_socket in
    (result ≡ some 0)
    × (state_at 4096 t.net ≡ tcp_syn_sent)
    × (state_at 4096 (tcp_handle_packet plenty plenty plenty (header 443 0 18) theirs ours t.net)
        ≡ tcp_established)
socket_connect-tcp_handle_packet_example =
    socket_connect-tcp_handle_packet plenty plenty plenty plenty 4096 3 peer stream []
      (header 443 0 18) one_socket refl refl (omega arith) refl refl acked not_finished

no_connection : tcp_find_connection theirs ours 5000 443 [] ≡ none
unfolding tcp_find_connection
no_connection = refl

tcp_find_connection-socket_bind_example :
    let (result, t) = socket_bind 4096 3 (record { sin_port = 443; sin_addr = ours }) one_socket in
    (result ≡ some 0) × (tcp_find_connection theirs ours 5000 443 t.net.tcp_connections ≡ none)
tcp_find_connection-socket_bind_example =
    tcp_find_connection-socket_bind 4096 3 (record { sin_port = 443; sin_addr = ours }) stream []
      one_socket theirs ours 5000 443 refl refl (omega arith) (omega arith) no_connection
