-- ===== src/Net/Tcp/Connections.antt =====
-- kernel/net/tcp.c: the list of connections under creation, look-up, writes and removal.
use trade_kernel.Base.{
  ℕ, ◌≡◌, ◌≢◌, refl, inl, inr, true, false, List, [], ◌∷◌, some, ◌==◌, ==-refl, ne→==, arith,
  Bool-cases,
}
use mathlib.Core.Option as Option
use trade_kernel.Net.Ip.Validation.{same_bytes_refl}
use trade_kernel.Net.Tcp.{
  TcpConnection, Net, update_connection, connection_at, tcp_create_connection, tcp_close_connection,
  tcp_find_connection, unlink,
}

-- A write through one pointer leaves the connections at other addresses.
pub connection_at-update_connection_ne :
    (a b : ℕ) (f : TcpConnection → TcpConnection) (cs : List TcpConnection)
    → ((c : TcpConnection) → (f c).addr ≡ c.addr)
    → b ≢ a
    → connection_at b (update_connection a f cs) ≡ connection_at b cs
unfolding connection_at update_connection
connection_at-update_connection_ne a b f [] keep ne = refl
connection_at-update_connection_ne a b f (c ∷ cs) keep ne = elim (Bool-cases (c.addr == a)) [
  | inl e ↦
      let n : (c.addr == b) ≡ false = ground arith in
      let m : ((f c).addr == b) ≡ false = rw (keep c) n in
      rw (e, n, m) (connection_at-update_connection_ne a b f cs keep ne)
  | inr e ↦ rw (e, connection_at-update_connection_ne a b f cs keep ne) refl
]

pub connection_at-update_connection_self :
    (a : ℕ) (f : TcpConnection → TcpConnection) (cs : List TcpConnection)
    → ((c : TcpConnection) → (f c).addr ≡ c.addr)
    → connection_at a (update_connection a f cs) ≡ Option.map f (connection_at a cs)
unfolding connection_at update_connection
connection_at-update_connection_self a f [] keep = refl
connection_at-update_connection_self a f (c ∷ cs) keep = elim (Bool-cases (c.addr == a)) [
  | inl e ↦ let m : ((f c).addr == a) ≡ true = rw (keep c) e in rw (e, m) refl
  | inr e ↦ rw (e, e) (connection_at-update_connection_self a f cs keep)
]

pub connection_at_addr :
    (a : ℕ) (cs : List TcpConnection) {c : TcpConnection} → connection_at a cs ≡ some c → c.addr ≡ a
unfolding connection_at
connection_at_addr a [] e = absurd (cc)
connection_at_addr a (d ∷ ds) {c} e = elim (Bool-cases (d.addr == a)) [
  | inl x ↦ ground arith
  | inr x ↦ connection_at_addr a ds {c = c} (rw x at e)
]

-- A connection that tcp_create_connection makes is found for the segments that come from its remote end,
-- whatever connections there were before, and after tcp_close_connection of it the list is as before.
pub tcp_find_connection-tcp_create_connection :
    (conn : ℕ) (remote_ip : List ℕ) (remote_port local_port : ℕ) (s : Net)
    → conn ≢ 0
    → let (a, t) = tcp_create_connection conn remote_ip remote_port local_port s in
      (a ≡ conn)
      × ((c : TcpConnection) × (tcp_find_connection remote_ip s.our_ip remote_port local_port
              t.tcp_connections
            ≡ some c)
          × (c.addr ≡ conn)
          × (c.seq_num ≡ s.next_seq_num))
      × ((tcp_close_connection conn t).tcp_connections ≡ s.tcp_connections)
unfolding tcp_create_connection tcp_find_connection tcp_close_connection unlink
tcp_find_connection-tcp_create_connection conn remote_ip remote_port local_port s nz =
    rw
      (
        ne→== conn 0 nz,
        same_bytes_refl s.our_ip,
        same_bytes_refl remote_ip,
        ==-refl local_port,
        ==-refl remote_port,
        ==-refl conn,
      )
      (refl, (_, refl, refl, refl), refl)
