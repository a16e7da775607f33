-- ===== src/Net/Socket.antt =====
-- kernel/net/socket.c: the list of sockets and their calls of TCP. A call that answers -1 gives `none`.
pub mod Peers
pub mod Connect
use trade_kernel.Base.{
  ℕ, ◌+◌, ◌^◌, ltb, Bool, true, false, not, ◌&&◌, ◌||◌, List, [], ◌∷◌, Option, none, some,
  if◌then◌else◌, ◌==◌, add32,
}
use trade_kernel.Net.Ip.{NetStatus}
use trade_kernel.Net.Tcp.{
  TcpState, tcp_closed, tcp_listen, tcp_syn_sent, tcp_syn_received, tcp_established, tcp_fin_wait_1,
  tcp_fin_wait_2, tcp_close_wait, tcp_closing, tcp_last_ack, tcp_time_wait, TcpConnection, Net,
  Memory, connection_at, state_at, set_state, tcp_create_connection, tcp_close_connection,
  tcp_send_packet, reply_from,
}

-- SOCK_STREAM
abbrev pub sock_stream : ℕ
sock_stream = 1

-- AF_INET
abbrev pub af_inet : ℕ
af_inet = 2

-- socket_t; `tcp_conn` is a pointer, and the order of the list is `next`
pub record Socket : Type 0 where
  pub addr : ℕ
  pub domain : ℕ
  pub kind : ℕ
  pub protocol : ℕ
  pub tcp_conn : ℕ

-- The static variables of socket.c, and those of the layers below
pub record Sockets : Type 0 where
  pub sockets : List Socket
  pub next_fd : ℕ
  pub net : Net

-- sockaddr_in_t
pub record SockAddr : Type 0 where
  pub sin_port : ℕ
  pub sin_addr : List ℕ

-- `sock` is what kmalloc returned, `held` what the memory held where the pointer to the connection is. next_fd is
-- the 32 bits of an int, which wraps; where it is negative the socket is freed and stays in the list.
unfoldable pub socket_create : ℕ → ℕ → ℕ → ℕ → ℕ → Sockets → Option ℕ × Sockets
socket_create sock held domain kind protocol s =
    if not (domain == af_inet) || sock == 0 then (none, s) else (
      if ltb s.next_fd (2 ^ 31) then some s.next_fd else none,
      record s {
        sockets =
            record {
              addr = sock;
              domain = domain;
              kind = kind;
              protocol = protocol;
              tcp_conn = held;
            }
            ∷ s.sockets;
        next_fd = add32 s.next_fd 1;
      },
    )

-- The code returns the first socket whatever the number is.
abbrev pub socket_get : ℕ → Sockets → Option Socket
socket_get sockfd s = elim s.sockets [ [] ↦ none | sock ∷ rest ↦ some sock ]

-- The write of the connection's pointer to the first socket
unfoldable pub store_connection : ℕ → List Socket → List Socket
store_connection conn [] = []
store_connection conn (sock ∷ rest) = record sock { tcp_conn = conn } ∷ rest

-- A new connection for the first socket, and the state that it is put into; `conn` is what kmalloc returned.
unfoldable pub new_connection : ℕ → List ℕ → ℕ → ℕ → TcpState → Sockets → Sockets
new_connection conn remote_ip remote_port local_port st s =
    let (c, net) = tcp_create_connection conn remote_ip remote_port local_port s.net in
    record s {
      sockets = store_connection c s.sockets;
      net = if c == 0 then net else set_state c st net;
    }

unfoldable pub socket_bind : ℕ → ℕ → SockAddr → Sockets → Option ℕ × Sockets
socket_bind conn sockfd to s = elim s.sockets [
  | [] ↦ (none, s)
  | sock ∷ rest ↦
      if sock.kind == sock_stream
      then (
        if conn == 0 then none else some 0,
        new_connection conn to.sin_addr to.sin_port to.sin_port tcp_listen s,
      )
      else (some 0, s)
]

unfoldable pub socket_listen : ℕ → ℕ → Sockets → Option ℕ
socket_listen sockfd backlog s = elim s.sockets [
  | [] ↦ none
  | sock ∷ rest ↦ if sock.kind == sock_stream then some 0 else none
]

-- The result, and the peer's address that is filled in; a pointer to a connection that is gone gives no address.
unfoldable pub socket_accept : ℕ → Sockets → Option ℕ × Option SockAddr
socket_accept sockfd s = elim s.sockets [
  | [] ↦ (none, none)
  | sock ∷ rest ↦
      let peer : Option SockAddr = elim (connection_at sock.tcp_conn s.net.tcp_connections) [
        | none ↦ none
        | some c ↦ some (record { sin_port = c.remote_port; sin_addr = c.remote_ip })
      ] in
      if sock.kind == sock_stream then (some sockfd, peer) else (none, none)
]

-- The segment with SYN, flag 2, that the new connection sends
unfoldable pub send_syn : Memory → ℕ → Sockets → Sockets
send_syn memory conn s =
    if conn == 0
    then s
    else record s { net = reply_from memory 2 (connection_at conn s.net.tcp_connections) s.net }

unfoldable pub socket_connect : Memory → ℕ → ℕ → SockAddr → Sockets → Option ℕ × Sockets
socket_connect memory conn sockfd to s = elim s.sockets [
  | [] ↦ (none, s)
  | sock ∷ rest ↦
      if sock.kind == sock_stream
      then (
        if conn == 0 then none else some 0,
        send_syn memory conn (new_connection conn to.sin_addr to.sin_port 0 tcp_syn_sent s),
      )
      else (some 0, s)
]

abbrev pub is_established : TcpState → Bool
is_established tcp_established = true
is_established tcp_closed = false
is_established tcp_listen = false
is_established tcp_syn_sent = false
is_established tcp_syn_received = false
is_established tcp_fin_wait_1 = false
is_established tcp_fin_wait_2 = false
is_established tcp_close_wait = false
is_established tcp_closing = false
is_established tcp_last_ack = false
is_established tcp_time_wait = false

-- Flag 16 is ACK.
unfoldable pub send_from :
    Memory → List ℕ → Option TcpConnection → Sockets → Option NetStatus × Sockets
send_from memory buf none s = (none, s)
send_from memory buf (some c) s =
    let (status, net) = tcp_send_packet memory c 16 buf s.net in
    if is_established c.state then (some status, record s { net = net }) else (none, s)

-- `none` is the -1 of the function itself, `some` a result of tcp_send_packet.
unfoldable pub socket_send : Memory → ℕ → List ℕ → Sockets → Option NetStatus × Sockets
socket_send memory sockfd buf s = elim s.sockets [
  | [] ↦ (none, s)
  | sock ∷ rest ↦
      if sock.kind == sock_stream && not (sock.tcp_conn == 0)
      then send_from memory buf (connection_at sock.tcp_conn s.net.tcp_connections) s
      else (none, s)
]

-- The first socket is always the one that is removed.
unfoldable pub socket_close : ℕ → Sockets → Option ℕ × Sockets
socket_close sockfd s = elim s.sockets [
  | [] ↦ (none, s)
  | sock ∷ rest ↦ (
    some 0,
    record s {
      sockets = rest;
      net =
          if sock.kind == sock_stream && not (sock.tcp_conn == 0)
          then tcp_close_connection sock.tcp_conn s.net
          else s.net;
    },
  )
]
