-- ===== src/Net/Socket/Connect.antt =====
-- kernel/net/socket.c and tcp.c: socket_connect and the answer of the peer.
use trade_kernel.Base.{
  ℕ, ◌+◌, ◌%◌, ◌^◌, ◌≡◌, ◌≢◌, ◌∙◌, refl, ap, inl, inr, Bool, true, false, List, ◌∷◌, Option, none,
  some, if◌then◌else◌, ◌==◌, ne→==, ==-refl, Bool-cases,
}
use mathlib.Core.Option as Option
use trade_kernel.Net.Ip.Validation.{same_bytes_refl}
use trade_kernel.Net.Tcp.{
  tcp_syn_sent, tcp_established, TcpConnection, TcpHeader, Net, Memory, connection_at, state_of,
  state_at, set_state, advance, has_syn, has_ack, has_fin, reply_from, tcp_send_packet,
  tcp_find_connection, tcp_create_connection, fresh_connection, on_syn, on_ack, handle_syn,
  handle_ack, handle_fin, tcp_handle_packet,
}
use trade_kernel.Net.Tcp.Connections.{connection_at-update_connection_self}
use trade_kernel.Net.Tcp.States.{set_state_state, reply_from_state}
use trade_kernel.Net.Socket.{
  Sockets, SockAddr, Socket, sock_stream, socket_connect, new_connection, send_syn,
}
use trade_kernel.Net.Socket.Peers.{find_after_update}

-- A segment with ACK and without FIN in SYN_SENT
syn_sent_ack :
    (m1 m2 m3 : Memory) (a : ℕ) (h : TcpHeader) (s : Net)
    → state_at a s ≡ tcp_syn_sent
    → has_ack h.flags ≡ true
    → has_fin h.flags ≡ false
    → state_at a (handle_fin m2 m3 a h (handle_ack a h (handle_syn m1 a h s))) ≡ tcp_established
unfolding handle_syn handle_ack handle_fin on_syn on_ack
syn_sent_ack m1 m2 m3 a h s e ack fin = elim (Bool-cases (has_syn h.flags)) [
  | inl y ↦ rw (y, ack, fin, e, e) (set_state_state a tcp_syn_sent tcp_established s e (λ x. cc))
  | inr y ↦ rw (y, ack, fin, e) (set_state_state a tcp_syn_sent tcp_established s e (λ x. cc))
]

module _ (conn : ℕ) (to : SockAddr) (s : Net) where
  abbrev sent : TcpConnection → TcpConnection
  sent c = record c { state = tcp_syn_sent }

  abbrev new : TcpConnection
  new = fresh_connection conn to.sin_addr to.sin_port 0 s

  -- The connections before the SYN is sent
  abbrev before : Net
  before = set_state conn tcp_syn_sent (record s {
    tcp_connections = new ∷ s.tcp_connections;
    next_seq_num = (s.next_seq_num + 1) % 2 ^ 32;
  })

  here : connection_at conn (new ∷ s.tcp_connections) ≡ some new
  unfolding connection_at
  here = rw (==-refl conn) refl

  state_before : state_at conn before ≡ tcp_syn_sent
  state_before = ap state_of (
      connection_at-update_connection_self conn sent (new ∷ s.tcp_connections) (λ c. refl)
      ∙ ap (Option.map sent) here)

  found_first :
      tcp_find_connection to.sin_addr s.our_ip to.sin_port 0 (new ∷ s.tcp_connections) ≡ some new
  unfolding tcp_find_connection
  found_first = rw (same_bytes_refl s.our_ip, same_bytes_refl to.sin_addr, ==-refl to.sin_port) refl

  found_before :
      (c : TcpConnection) × (tcp_find_connection to.sin_addr s.our_ip to.sin_port 0
          before.tcp_connections
        ≡ some c)
      × (c.addr ≡ conn)
  found_before = (
    _,
    find_after_update to.sin_addr s.our_ip to.sin_port 0 conn sent (λ c. refl)
          (new ∷ s.tcp_connections)
        ∙ ap (Option.map (λ (c : TcpConnection). if c.addr == conn then sent c else c)) found_first,
    rw (==-refl conn) refl,
  )

  abbrev after : Memory → Net
  after m = reply_from m 2 (connection_at conn before.tcp_connections) before

  state_after : (m : Memory) → state_at conn (after m) ≡ tcp_syn_sent
  state_after m =
      reply_from_state m conn 2 (connection_at conn before.tcp_connections) before refl
      ∙ state_before

  kept_addr : (b : Bool) (c : TcpConnection) → (if b then advance 2 0 c else c).addr ≡ c.addr
  kept_addr true c = refl
  kept_addr false c = refl

  found_after :
      (m : Memory) (o : Option TcpConnection) (c : TcpConnection)
      → tcp_find_connection to.sin_addr s.our_ip to.sin_port 0 before.tcp_connections ≡ some c
      → c.addr ≡ conn
      → (d : TcpConnection) × (tcp_find_connection to.sin_addr s.our_ip to.sin_port 0
            (reply_from m 2 o before).tcp_connections
          ≡ some d)
        × (d.addr ≡ conn)
  unfolding reply_from tcp_send_packet
  found_after m none c f e = (c, f, e)
  found_after m (some p) c f e = elim (Bool-cases m.packet) [
    | inl t ↦ rw t (
      (if c.addr == p.addr then advance 2 0 c else c),
      find_after_update to.sin_addr s.our_ip to.sin_port 0 p.addr (advance 2 0) (λ x. refl)
            before.tcp_connections
          ∙ ap (Option.map (λ (x : TcpConnection). if x.addr == p.addr then advance 2 0 x else x))
              f,
      kept_addr (c.addr == p.addr) c ∙ e,
    )
    | inr t ↦ rw t (c, f, e)
  ]

-- socket_connect on a stream socket that is first in the list, where kmalloc gives the memory of the connection,
-- answers 0 and leaves the connection in SYN_SENT. A segment of the peer to local port 0, with ACK and without FIN,
-- then makes it ESTABLISHED, whatever connections there were before and whether or not there is memory for the
-- packets that are sent.
pub socket_connect-tcp_handle_packet :
    (m m1 m2 m3 : Memory) (conn sockfd : ℕ) (to : SockAddr) (sock : Socket) (rest : List Socket)
    (h : TcpHeader) (s : Sockets)
    → s.sockets ≡ sock ∷ rest
    → sock.kind ≡ sock_stream
    → conn ≢ 0
    → h.src_port ≡ to.sin_port
    → h.dst_port ≡ 0
    → has_ack h.flags ≡ true
    → has_fin h.flags ≡ false
    → let (result, t) = socket_connect m conn sockfd to s in
      (result ≡ some 0)
      × (state_at conn t.net ≡ tcp_syn_sent)
      × (state_at conn (tcp_handle_packet m1 m2 m3 h to.sin_addr s.net.our_ip t.net)
          ≡ tcp_established)
unfolding socket_connect new_connection send_syn tcp_create_connection tcp_handle_packet
socket_connect-tcp_handle_packet m m1 m2 m3 conn sockfd to sock rest h s e k nz src dst ack fin =
    let z : (conn == 0) ≡ false = ne→== conn 0 nz in
    let kind : (sock.kind == sock_stream) ≡ true = rw k refl in
    let t = after conn to s.net m in
    let (c, f, a) = found_before conn to s.net in
    let (d, g, b) =
      found_after conn to s.net m (connection_at conn (before conn to s.net).tcp_connections) c f
        a in
    let st : state_at conn t ≡ tcp_syn_sent = state_after conn to s.net m in
    let found : tcp_find_connection to.sin_addr s.net.our_ip h.src_port h.dst_port t.tcp_connections
        ≡ some d =
      rw (src, dst) g in
    let done : state_at conn (tcp_handle_packet m1 m2 m3 h to.sin_addr s.net.our_ip t)
        ≡ tcp_established =
      rw (found, tcp_handle_packet, b) (syn_sent_ack m1 m2 m3 conn h t st ack fin) in
    rw (e, socket_connect, kind, z, z) (refl, st, done)
