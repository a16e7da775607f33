-- ===== src/Net/Tcp.antt =====
-- kernel/net/tcp.c: the list of connections, the segments that are sent, and the handling of a segment.
-- A connection is named by its address; NULL is 0.
pub mod States
pub mod Connections
use trade_kernel.Base.{
  ℕ, ◌+◌, ◌-◌, ◌*◌, ◌/◌, ◌%◌, ◌^◌, Bool, true, false, not, ◌&&◌, ◌||◌, List, [], ◌∷◌, ◌++◌, Option,
  none, some, ltb, leb, ◌==◌, if◌then◌else◌, length, add32, sub32, map, test_bit,
}
use trade_kernel.Net.Checksum.{net_checksum}
use trade_kernel.Net.Ip.{
  NetStatus, net_success, net_error, net_no_memory, Rtl8139, ipv4_send_packet, bytes16, same_bytes,
}

-- tcp_state_t
pub data TcpState : Type 0 where
  tcp_closed tcp_listen tcp_syn_sent tcp_syn_received tcp_established tcp_fin_wait_1 tcp_fin_wait_2
        tcp_close_wait tcp_closing tcp_last_ack tcp_time_wait :
      TcpState

-- tcp_connection_t; the order of the list is `next`
pub record TcpConnection : Type 0 where
  pub addr : ℕ
  pub state : TcpState
  pub local_ip : List ℕ
  pub remote_ip : List ℕ
  pub local_port : ℕ
  pub remote_port : ℕ
  pub seq_num : ℕ
  pub ack_num : ℕ
  pub window_size : ℕ

-- tcp_header_t
pub record TcpHeader : Type 0 where
  pub src_port : ℕ
  pub dst_port : ℕ
  pub seq_num : ℕ
  pub ack_num : ℕ
  pub flags : ℕ
  pub window : ℕ
  pub checksum : ℕ
  pub urgent_ptr : ℕ

-- The static variables of tcp.c and ip.c, and the card
pub record Net : Type 0 where
  pub tcp_connections : List TcpConnection
  pub next_seq_num : ℕ
  pub our_ip : List ℕ
  pub dev : Rtl8139

-- Which of the three calls of kmalloc in tcp_send_packet, tcp_checksum and ipv4_send_packet succeed
pub record Memory : Type 0 where
  pub packet : Bool
  pub buffer : Bool
  pub frame : Bool

abbrev pub bytes32 : ℕ → List ℕ → List ℕ
bytes32 n bs = bytes16 (n % 2 ^ 16) (bytes16 (n / 2 ^ 16 % 2 ^ 16) bs)

unfoldable pub tcp_bytes : TcpHeader → List ℕ → List ℕ
tcp_bytes h payload = bytes16 h.src_port (
    bytes16 h.dst_port (
      bytes32 h.seq_num (
        bytes32 h.ack_num (
          bytes16 h.flags (bytes16 h.window (bytes16 h.checksum (bytes16 h.urgent_ptr payload)))))))

-- The checksum covers the pseudo-header; 0 where kmalloc fails.
unfoldable pub tcp_checksum : Bool → TcpHeader → List ℕ → List ℕ → List ℕ → ℕ
tcp_checksum memory h payload src_ip dst_ip =
    if memory
    then net_checksum (
        src_ip
        ++ (dst_ip ++ (0 ∷ 6 ∷ bytes16 ((20 + length payload) % 2 ^ 16) (tcp_bytes h payload))))
    else 0

-- TCP_FLAG_FIN, TCP_FLAG_SYN and TCP_FLAG_ACK are the bits 0, 1 and 4.
abbrev pub has_fin : ℕ → Bool
has_fin flags = test_bit flags 0

abbrev pub has_syn : ℕ → Bool
has_syn flags = test_bit flags 1

abbrev pub has_ack : ℕ → Bool
has_ack flags = test_bit flags 4

-- A write through the pointer `a`
unfoldable pub update_connection :
    ℕ → (TcpConnection → TcpConnection) → List TcpConnection → List TcpConnection
update_connection a f cs = map (λ c. if c.addr == a then f c else c) cs

-- The connection at `a`, read through the pointer
unfoldable pub connection_at : ℕ → List TcpConnection → Option TcpConnection
connection_at a [] = none
connection_at a (c ∷ cs) = if c.addr == a then some c else connection_at a cs

-- The sequence number behind a segment
abbrev pub advance : ℕ → ℕ → TcpConnection → TcpConnection
advance flags data_len c = record c {
  seq_num =
      add32 c.seq_num
        ((if has_syn flags then 1 else 0) + (if has_fin flags then 1 else 0) + data_len);
}

abbrev pub segment_header : TcpConnection → ℕ → TcpHeader
segment_header c flags = record {
  src_port = c.local_port;
  dst_port = c.remote_port;
  seq_num = c.seq_num;
  ack_num = c.ack_num;
  flags = flags;
  window = 65535;
  checksum = 0;
  urgent_ptr = 0;
}

-- The segment of a connection, with its checksum
unfoldable pub segment : Bool → TcpConnection → ℕ → List ℕ → List ℕ
segment memory c flags payload =
    let h = segment_header c flags in
    tcp_bytes (record h { checksum = tcp_checksum memory h payload c.local_ip c.remote_ip }) payload

-- `c` is the connection as it is when the call starts. The sum of the sequence number is 0 where the
-- code skips it.
unfoldable pub tcp_send_packet : Memory → TcpConnection → ℕ → List ℕ → Net → NetStatus × Net
tcp_send_packet memory c flags payload s =
    let sent =
      ipv4_send_packet memory.frame s.our_ip c.remote_ip 6 (segment memory.buffer c flags payload)
        s.dev in
    if memory.packet
    then (
      sent.0,
      record s {
        dev = sent.1;
        tcp_connections =
            update_connection c.addr (advance flags (length payload)) s.tcp_connections;
      },
    )
    else (net_no_memory, s)

abbrev pub fresh_connection : ℕ → List ℕ → ℕ → ℕ → Net → TcpConnection
fresh_connection conn remote_ip remote_port local_port s = record {
  addr = conn;
  state = tcp_closed;
  local_ip = s.our_ip;
  remote_ip = remote_ip;
  local_port = local_port;
  remote_port = remote_port;
  seq_num = s.next_seq_num;
  ack_num = 0;
  window_size = 65535;
}

-- `conn` is what kmalloc returned.
unfoldable pub tcp_create_connection : ℕ → List ℕ → ℕ → ℕ → Net → ℕ × Net
tcp_create_connection conn remote_ip remote_port local_port s = if conn == 0 then (0, s) else (
  conn,
  record s {
    tcp_connections = fresh_connection conn remote_ip remote_port local_port s ∷ s.tcp_connections;
    next_seq_num = add32 s.next_seq_num 1;
  },
)

-- The walk that unlinks the connection
unfoldable pub unlink : ℕ → List TcpConnection → List TcpConnection
unlink a [] = []
unlink a (c ∷ cs) = let rest = unlink a cs in if c.addr == a then cs else c ∷ rest

unfoldable pub tcp_close_connection : ℕ → Net → Net
tcp_close_connection conn s =
    if conn == 0 then s else record s { tcp_connections = unlink conn s.tcp_connections }

abbrev pub is_between : List ℕ → List ℕ → ℕ → ℕ → TcpConnection → Bool
is_between src_ip dst_ip src_port dst_port c =
    same_bytes c.local_ip dst_ip
    && same_bytes c.remote_ip src_ip
    && c.local_port == dst_port
    && c.remote_port == src_port

unfoldable pub tcp_find_connection :
    List ℕ → List ℕ → ℕ → ℕ → List TcpConnection → Option TcpConnection
tcp_find_connection src_ip dst_ip src_port dst_port [] = none
tcp_find_connection src_ip dst_ip src_port dst_port (c ∷ cs) =
    let rest = tcp_find_connection src_ip dst_ip src_port dst_port cs in
    if is_between src_ip dst_ip src_port dst_port c then some c else rest

-- A segment without data from a connection
unfoldable pub reply_from : Memory → ℕ → Option TcpConnection → Net → Net
reply_from memory flags none s = s
reply_from memory flags (some c) s = (tcp_send_packet memory c flags [] s).1

-- A change of the connection at `a` and a segment with `flags` from it
unfoldable pub reply : Memory → ℕ → (TcpConnection → TcpConnection) → ℕ → Net → Net
reply memory a f flags s =
    let t = record s { tcp_connections = update_connection a f s.tcp_connections } in
    reply_from memory flags (connection_at a t.tcp_connections) t

abbrev pub state_of : Option TcpConnection → TcpState
state_of none = tcp_closed
state_of (some c) = c.state

abbrev pub state_at : ℕ → Net → TcpState
state_at a s = state_of (connection_at a s.tcp_connections)

abbrev pub set_state : ℕ → TcpState → Net → Net
set_state a st s = record s {
  tcp_connections = update_connection a (λ c. record c { state = st }) s.tcp_connections;
}

-- The three tests of tcp_handle_packet, on the state in which each one finds the connection
unfoldable pub on_syn : Memory → ℕ → TcpHeader → TcpState → Net → Net
on_syn m a h tcp_listen s =
    reply m a (λ c. record c { state = tcp_syn_received; ack_num = add32 h.seq_num 1 }) 18 s
on_syn m a h tcp_closed s = s
on_syn m a h tcp_syn_sent s = s
on_syn m a h tcp_syn_received s = s
on_syn m a h tcp_established s = s
on_syn m a h tcp_fin_wait_1 s = s
on_syn m a h tcp_fin_wait_2 s = s
on_syn m a h tcp_close_wait s = s
on_syn m a h tcp_closing s = s
on_syn m a h tcp_last_ack s = s
on_syn m a h tcp_time_wait s = s

unfoldable pub on_ack : ℕ → TcpState → Net → Net
on_ack a tcp_syn_sent s = set_state a tcp_established s
on_ack a tcp_syn_received s = set_state a tcp_established s
on_ack a tcp_closed s = s
on_ack a tcp_listen s = s
on_ack a tcp_established s = s
on_ack a tcp_fin_wait_1 s = s
on_ack a tcp_fin_wait_2 s = s
on_ack a tcp_close_wait s = s
on_ack a tcp_closing s = s
on_ack a tcp_last_ack s = s
on_ack a tcp_time_wait s = s

-- The first argument is for the ACK, the second for the FIN.
unfoldable pub on_fin : Memory → Memory → ℕ → TcpHeader → TcpState → Net → Net
on_fin m n a h tcp_established s =
    let t =
      reply m a (λ c. record c { state = tcp_close_wait; ack_num = add32 h.seq_num 1 }) 16 s in
    set_state a tcp_last_ack (reply n a (λ c. c) 17 t)
on_fin m n a h tcp_closed s = s
on_fin m n a h tcp_listen s = s
on_fin m n a h tcp_syn_sent s = s
on_fin m n a h tcp_syn_received s = s
on_fin m n a h tcp_fin_wait_1 s = s
on_fin m n a h tcp_fin_wait_2 s = s
on_fin m n a h tcp_close_wait s = s
on_fin m n a h tcp_closing s = s
on_fin m n a h tcp_last_ack s = s
on_fin m n a h tcp_time_wait s = s

unfoldable pub handle_syn : Memory → ℕ → TcpHeader → Net → Net
handle_syn m a h s = if has_syn h.flags then on_syn m a h (state_at a s) s else s

unfoldable pub handle_ack : ℕ → TcpHeader → Net → Net
handle_ack a h s = if has_ack h.flags then on_ack a (state_at a s) s else s

unfoldable pub handle_fin : Memory → Memory → ℕ → TcpHeader → Net → Net
handle_fin m n a h s = if has_fin h.flags then on_fin m n a h (state_at a s) s else s

-- The result is NET_SUCCESS in every case. The three arguments are for the segments that may be sent.
unfoldable pub tcp_handle_packet :
    Memory → Memory → Memory → TcpHeader → List ℕ → List ℕ → Net → Net
tcp_handle_packet m1 m2 m3 h src_ip dst_ip s =
    elim (tcp_find_connection src_ip dst_ip h.src_port h.dst_port s.tcp_connections) [
      | none ↦ s
      | some c ↦ handle_fin m2 m3 c.addr h (handle_ack c.addr h (handle_syn m1 c.addr h s))
    ]
