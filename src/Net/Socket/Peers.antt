-- ===== src/Net/Socket/Peers.antt =====
-- kernel/net/socket.c: which segments the connection of a bound socket gets.
use trade_kernel.Base.{
  ℕ, ◌≡◌, ◌≢◌, ◌∙◌, refl, sym, ap, inl, inr, true, false, List, [], ◌∷◌, none, some, if◌then◌else◌,
  ◌==◌, ne→==, Bool-cases,
}
use mathlib.Core.Option as Option
use trade_kernel.Net.Ip.{same_bytes}
use trade_kernel.Net.Tcp.{
  tcp_listen, TcpConnection, update_connection, tcp_find_connection, tcp_create_connection,
  fresh_connection, is_between,
}
use trade_kernel.Net.Socket.{Sockets, SockAddr, Socket, sock_stream, socket_bind, new_connection}

-- A write that leaves the ends of a connection does not change which connection a segment finds.
module _ (src_ip dst_ip : List ℕ) (src_port dst_port a : ℕ) (f : TcpConnection → TcpConnection)
    (keep : (c : TcpConnection)
      → is_between src_ip dst_ip src_port dst_port (f c)
        ≡ is_between src_ip dst_ip src_port dst_port c) where
  pub find_after_update :
      (cs : List TcpConnection)
      → tcp_find_connection src_ip dst_ip src_port dst_port (update_connection a f cs)
        ≡ Option.map
            (λ c. if c.addr == a then f c else c)
            (tcp_find_connection src_ip dst_ip src_port dst_port cs)
  unfolding tcp_find_connection update_connection
  find_after_update [] = refl
  find_after_update (c ∷ cs) = elim (Bool-cases (c.addr == a)) [
    | inl e ↦ elim (Bool-cases (is_between src_ip dst_ip src_port dst_port c)) [
      | inl g ↦
          let h : is_between src_ip dst_ip src_port dst_port (f c) ≡ true = keep c ∙ g in
          rw (e, h, g) (ap some (rw e refl))
      | inr g ↦
          let h : is_between src_ip dst_ip src_port dst_port (f c) ≡ false = keep c ∙ g in
          rw (e, h, g) (find_after_update cs)
    ]
    | inr e ↦ elim (Bool-cases (is_between src_ip dst_ip src_port dst_port c)) [
      | inl g ↦ rw (e, g) (ap some (rw e refl))
      | inr g ↦ rw (e, g) (find_after_update cs)
    ]
  ]

other_port :
    (src_ip dst_ip : List ℕ) (src_port dst_port : ℕ) (c : TcpConnection)
    → c.remote_port ≢ src_port
    → is_between src_ip dst_ip src_port dst_port c ≡ false
other_port src_ip dst_ip src_port dst_port c ne =
    let e : (c.remote_port == src_port) ≡ false = ne→== c.remote_port src_port ne in
    elim (Bool-cases (same_bytes c.local_ip dst_ip)) [
      | inl p ↦ elim (Bool-cases (same_bytes c.remote_ip src_ip)) [
        | inl q ↦ elim (Bool-cases (c.local_port == dst_port)) [
          | inl r ↦ rw (p, q, r, e) refl
          | inr r ↦ rw (p, q, r) refl
        ]
        | inr q ↦ rw (p, q) refl
      ]
      | inr p ↦ rw p refl
    ]

-- The connection that socket_bind makes for listening has the bound address as its remote end: a segment from any
-- other port that belonged to no connection before the call belongs to none after it, so that a client's
-- SYN is not answered.
pub tcp_find_connection-socket_bind :
    (conn sockfd : ℕ) (to : SockAddr) (sock : Socket) (rest : List Socket) (s : Sockets)
    (src_ip dst_ip : List ℕ) (src_port dst_port : ℕ)
    → s.sockets ≡ sock ∷ rest
    → sock.kind ≡ sock_stream
    → conn ≢ 0
    → src_port ≢ to.sin_port
    → tcp_find_connection src_ip dst_ip src_port dst_port s.net.tcp_connections ≡ none
    → let (result, t) = socket_bind conn sockfd to s in
      (result ≡ some 0)
      × (tcp_find_connection src_ip dst_ip src_port dst_port t.net.tcp_connections ≡ none)
unfolding socket_bind new_connection tcp_create_connection
tcp_find_connection-socket_bind conn sockfd to sock rest s src_ip dst_ip src_port dst_port e k nz ne
      f =
    let z : (conn == 0) ≡ false = ne→== conn 0 nz in
    let kind : (sock.kind == sock_stream) ≡ true = rw k refl in
    let new = fresh_connection conn to.sin_addr to.sin_port to.sin_port s.net in
    let made = new ∷ s.net.tcp_connections in
    let skipped : tcp_find_connection src_ip dst_ip src_port dst_port made ≡ none =
      unfold tcp_find_connection in
      rw (other_port src_ip dst_ip src_port dst_port new (λ q. ne (sym q))) f in
    rw (e, socket_bind, kind, z, z)
      (
        refl,
        find_after_update src_ip dst_ip src_port dst_port conn
              (λ c. record c { state = tcp_listen }) (λ c. refl) made
            ∙ ap
                (Option.map (λ (c : TcpConnection).
                  if c.addr == conn then record c { state = tcp_listen } else c))
                skipped,
      )
