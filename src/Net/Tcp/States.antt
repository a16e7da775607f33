-- ===== src/Net/Tcp/States.antt =====
-- kernel/net/tcp.c: which changes of state a segment causes.
use trade_kernel.Base.{
  ℕ, ◌≡◌, ◌≢◌, ◌⊎◌, ◌∙◌, sym, ap, subst, refl, inl, inr, Bool, true, false, List, [], Option, none,
  some, if◌then◌else◌, Bool-cases, Option-cases, add32,
}
use mathlib.Core.Option as Option
use trade_kernel.Net.Tcp.{
  TcpState, tcp_closed, tcp_listen, tcp_syn_sent, tcp_syn_received, tcp_established, tcp_fin_wait_1,
  tcp_fin_wait_2, tcp_close_wait, tcp_closing, tcp_last_ack, tcp_time_wait, TcpConnection,
  TcpHeader, Net, Memory, update_connection, connection_at, advance, tcp_send_packet, reply,
  reply_from, state_of, state_at, set_state, on_syn, on_ack, on_fin, handle_syn, handle_ack,
  handle_fin, tcp_handle_packet, tcp_find_connection, has_syn, has_ack, has_fin,
}
use trade_kernel.Net.Tcp.Connections.{
  connection_at-update_connection_ne, connection_at-update_connection_self, connection_at_addr,
}

-- The arrows of the TCP state diagram that the code takes on a segment; the passive close goes through
-- CLOSE_WAIT to LAST_ACK at once.
pub data Move : TcpState → TcpState → Type 0 where
  syn_arrives : Move tcp_listen tcp_syn_received
  ack_of_syn : Move tcp_syn_sent tcp_established
  ack_of_syn_ack : Move tcp_syn_received tcp_established
  fin_arrives : Move tcp_established tcp_last_ack

pub data Moves (st : TcpState) : TcpState → Type 0 where
  stay : Moves st st
  then_move : {u v : TcpState} → Moves st u → Move u v → Moves st v

-- Writes that leave the state, or set it
state_kept :
    (f : TcpConnection → TcpConnection) (o : Option TcpConnection)
    → ((c : TcpConnection) → (f c).state ≡ c.state)
    → state_of (Option.map f o) ≡ state_of o
state_kept f none k = refl
state_kept f (some c) k = k c

state_written :
    (f : TcpConnection → TcpConnection) (o : Option TcpConnection) (st st' : TcpState)
    → ((c : TcpConnection) → (f c).state ≡ st')
    → state_of o ≡ st
    → st ≢ tcp_closed
    → state_of (Option.map f o) ≡ st'
state_written f none st st' k e ne = absurd (ne (sym e))
state_written f (some c) st st' k e ne = k c

-- Sending does not change a state, nor another connection.
send_state :
    (m : Memory) (a flags : ℕ) (c : TcpConnection) (s : Net)
    → c.addr ≡ a
    → state_at a (tcp_send_packet m c flags [] s).1 ≡ state_at a s
unfolding tcp_send_packet
send_state m a flags c s e = elim (Bool-cases m.packet) [
  | inl p ↦
      rw
        (
          p,
          e,
          connection_at-update_connection_self a (advance flags 0) s.tcp_connections (λ d. refl),
        )
        (state_kept (advance flags 0) (connection_at a s.tcp_connections) (λ d. refl))
  | inr p ↦ rw p refl
]

send_others :
    (m : Memory) (a b flags : ℕ) (c : TcpConnection) (s : Net)
    → c.addr ≡ a
    → b ≢ a
    → connection_at b (tcp_send_packet m c flags [] s).1.tcp_connections
      ≡ connection_at b s.tcp_connections
unfolding tcp_send_packet
send_others m a b flags c s e ne = elim (Bool-cases m.packet) [
  | inl p ↦
      rw (p, e)
        (connection_at-update_connection_ne a b (advance flags 0) s.tcp_connections (λ d. refl) ne)
  | inr p ↦ rw p refl
]

pub reply_from_state :
    (m : Memory) (a flags : ℕ) (o : Option TcpConnection) (s : Net)
    → connection_at a s.tcp_connections ≡ o
    → state_at a (reply_from m flags o s) ≡ state_at a s
unfolding reply_from
reply_from_state m a flags none s e = refl
reply_from_state m a flags (some c) s e =
    send_state m a flags c s (connection_at_addr a s.tcp_connections {c = c} e)

reply_from_others :
    (m : Memory) (a b flags : ℕ) (o : Option TcpConnection) (s : Net)
    → connection_at a s.tcp_connections ≡ o
    → b ≢ a
    → connection_at b (reply_from m flags o s).tcp_connections ≡ connection_at b s.tcp_connections
unfolding reply_from
reply_from_others m a b flags none s e ne = refl
reply_from_others m a b flags (some c) s e ne =
    send_others m a b flags c s (connection_at_addr a s.tcp_connections {c = c} e) ne

-- A write and a reply, for writes that keep the address
module _ (f : TcpConnection → TcpConnection)
    (keep : (c : TcpConnection) → (f c).addr ≡ c.addr) where
  reply_state :
      (m : Memory) (a flags : ℕ) (s : Net)
      → state_at a (reply m a f flags s)
        ≡ state_of (Option.map f (connection_at a s.tcp_connections))
  unfolding reply
  reply_state m a flags s =
      let t = record s { tcp_connections = update_connection a f s.tcp_connections } in
      reply_from_state m a flags (connection_at a t.tcp_connections) t refl
      ∙ ap state_of (connection_at-update_connection_self a f s.tcp_connections keep)

  reply_others :
      (m : Memory) (a b flags : ℕ) (s : Net)
      → b ≢ a
      → connection_at b (reply m a f flags s).tcp_connections ≡ connection_at b s.tcp_connections
  unfolding reply
  reply_others m a b flags s ne =
      let t = record s { tcp_connections = update_connection a f s.tcp_connections } in
      reply_from_others m a b flags (connection_at a t.tcp_connections) t refl ne
      ∙ connection_at-update_connection_ne a b f s.tcp_connections keep ne

pub set_state_state :
    (a : ℕ) (st st' : TcpState) (s : Net)
    → state_at a s ≡ st
    → st ≢ tcp_closed
    → state_at a (set_state a st' s) ≡ st'
set_state_state a st st' s e ne =
    ap state_of (
      connection_at-update_connection_self a (λ c. record c { state = st' }) s.tcp_connections
        (λ c. refl))
    ∙ state_written (λ c. record c { state = st' }) (connection_at a s.tcp_connections) st st'
        (λ c. refl) e ne

-- What one of the three tests may do to the connections
pub IsStep : ℕ → Net → Net → Type 0
IsStep a s t =
    Moves (state_at a s) (state_at a t)
    × ((b : ℕ) → b ≢ a → connection_at b t.tcp_connections ≡ connection_at b s.tcp_connections)

nothing : (a : ℕ) (s : Net) → IsStep a s s
unfolding IsStep
nothing a s = (stay, λ b ne. refl)

on_syn-IsStep :
    (m : Memory) (a : ℕ) (h : TcpHeader) (st : TcpState) (s : Net)
    → state_at a s ≡ st
    → IsStep a s (on_syn m a h st s)
unfolding IsStep on_syn
on_syn-IsStep m a h tcp_listen s e =
    let f : TcpConnection → TcpConnection =
      λ c. record c { state = tcp_syn_received; ack_num = add32 h.seq_num 1 } in
    (
      subst (λ u. Moves u (state_at a (reply m a f 18 s))) (sym e)
          (subst (λ v. Moves tcp_listen v)
            (sym (
              reply_state f (λ c. refl) m a 18 s
              ∙ state_written f (connection_at a s.tcp_connections) tcp_listen tcp_syn_received
                  (λ c. refl) e (λ x. cc)))
            (then_move stay syn_arrives)),
      (λ b ne. reply_others f (λ c. refl) m a b 18 s ne),
    )
on_syn-IsStep m a h tcp_closed s e = nothing a s
on_syn-IsStep m a h tcp_syn_sent s e = nothing a s
on_syn-IsStep m a h tcp_syn_received s e = nothing a s
on_syn-IsStep m a h tcp_established s e = nothing a s
on_syn-IsStep m a h tcp_fin_wait_1 s e = nothing a s
on_syn-IsStep m a h tcp_fin_wait_2 s e = nothing a s
on_syn-IsStep m a h tcp_close_wait s e = nothing a s
on_syn-IsStep m a h tcp_closing s e = nothing a s
on_syn-IsStep m a h tcp_last_ack s e = nothing a s
on_syn-IsStep m a h tcp_time_wait s e = nothing a s

written-IsStep :
    (a : ℕ) (st st' : TcpState) (s : Net)
    → state_at a s ≡ st
    → st ≢ tcp_closed
    → Move st st'
    → IsStep a s (set_state a st' s)
unfolding IsStep
written-IsStep a st st' s e ne move = (
  subst (λ u. Moves u (state_at a (set_state a st' s))) (sym e)
      (subst (λ v. Moves st v) (sym (set_state_state a st st' s e ne)) (then_move stay move)),
  (λ b ne.
      connection_at-update_connection_ne a b (λ c. record c { state = st' }) s.tcp_connections
        (λ c. refl) ne),
)

on_ack-IsStep : (a : ℕ) (st : TcpState) (s : Net) → state_at a s ≡ st → IsStep a s (on_ack a st s)
unfolding on_ack
on_ack-IsStep a tcp_syn_sent s e =
    written-IsStep a tcp_syn_sent tcp_established s e (λ x. cc) ack_of_syn
on_ack-IsStep a tcp_syn_received s e =
    written-IsStep a tcp_syn_received tcp_established s e (λ x. cc) ack_of_syn_ack
on_ack-IsStep a tcp_closed s e = nothing a s
on_ack-IsStep a tcp_listen s e = nothing a s
on_ack-IsStep a tcp_established s e = nothing a s
on_ack-IsStep a tcp_fin_wait_1 s e = nothing a s
on_ack-IsStep a tcp_fin_wait_2 s e = nothing a s
on_ack-IsStep a tcp_close_wait s e = nothing a s
on_ack-IsStep a tcp_closing s e = nothing a s
on_ack-IsStep a tcp_last_ack s e = nothing a s
on_ack-IsStep a tcp_time_wait s e = nothing a s

state_same : (o : Option TcpConnection) → state_of (Option.map (λ c. c) o) ≡ state_of o
state_same none = refl
state_same (some c) = refl

on_fin-IsStep :
    (m n : Memory) (a : ℕ) (h : TcpHeader) (st : TcpState) (s : Net)
    → state_at a s ≡ st
    → IsStep a s (on_fin m n a h st s)
unfolding IsStep on_fin
on_fin-IsStep m n a h tcp_established s e =
    let f : TcpConnection → TcpConnection =
      λ c. record c { state = tcp_close_wait; ack_num = add32 h.seq_num 1 } in
    let t = reply m a f 16 s in
    let u = reply n a (λ c. c) 17 t in
    let at_t : state_at a t ≡ tcp_close_wait =
      reply_state f (λ c. refl) m a 16 s
      ∙ state_written f (connection_at a s.tcp_connections) tcp_established tcp_close_wait
          (λ c. refl) e (λ x. cc) in
    let at_u : state_at a u ≡ tcp_close_wait =
      reply_state (λ c. c) (λ c. refl) n a 17 t
      ∙ state_same (connection_at a t.tcp_connections)
      ∙ at_t in
    (
      subst (λ w. Moves w (state_at a (set_state a tcp_last_ack u))) (sym e)
          (subst (λ v. Moves tcp_established v)
            (sym (set_state_state a tcp_close_wait tcp_last_ack u at_u (λ x. cc)))
            (then_move stay fin_arrives)),
      (λ b ne.
          connection_at-update_connection_ne a b (λ c. record c { state = tcp_last_ack })
            u.tcp_connections (λ c. refl) ne
          ∙ reply_others (λ c. c) (λ c. refl) n a b 17 t ne
          ∙ reply_others f (λ c. refl) m a b 16 s ne),
    )
on_fin-IsStep m n a h tcp_closed s e = nothing a s
on_fin-IsStep m n a h tcp_listen s e = nothing a s
on_fin-IsStep m n a h tcp_syn_sent s e = nothing a s
on_fin-IsStep m n a h tcp_syn_received s e = nothing a s
on_fin-IsStep m n a h tcp_fin_wait_1 s e = nothing a s
on_fin-IsStep m n a h tcp_fin_wait_2 s e = nothing a s
on_fin-IsStep m n a h tcp_close_wait s e = nothing a s
on_fin-IsStep m n a h tcp_closing s e = nothing a s
on_fin-IsStep m n a h tcp_last_ack s e = nothing a s
on_fin-IsStep m n a h tcp_time_wait s e = nothing a s

-- The three tests one after the other
Moves-trans : {st u v : TcpState} → Moves st u → Moves u v → Moves st v
Moves-trans p stay = p
Moves-trans p (then_move q move) = then_move (Moves-trans p q) move

IsStep-trans : (a : ℕ) (s t u : Net) → IsStep a s t → IsStep a t u → IsStep a s u
unfolding IsStep
IsStep-trans a s t u (p, k) (q, l) = (Moves-trans p q, λ b ne. l b ne ∙ k b ne)

guarded-IsStep : (b : Bool) (a : ℕ) (s t : Net) → IsStep a s t → IsStep a s (if b then t else s)
guarded-IsStep true a s t p = p
guarded-IsStep false a s t p = nothing a s

handled-IsStep :
    (m n k : Memory) (a : ℕ) (h : TcpHeader) (s : Net)
    → IsStep a s (handle_fin n k a h (handle_ack a h (handle_syn m a h s)))
unfolding handle_fin handle_ack handle_syn
handled-IsStep m n k a h s =
    let s1 = handle_syn m a h s in
    let s2 = handle_ack a h s1 in
    IsStep-trans a s s2 (handle_fin n k a h s2)
      (IsStep-trans a s s1 s2
        (guarded-IsStep (has_syn h.flags) a s (on_syn m a h (state_at a s) s)
          (on_syn-IsStep m a h (state_at a s) s refl))
        (guarded-IsStep (has_ack h.flags) a s1 (on_ack a (state_at a s1) s1)
          (on_ack-IsStep a (state_at a s1) s1 refl)))
      (guarded-IsStep (has_fin h.flags) a s2 (on_fin n k a h (state_at a s2) s2)
        (on_fin-IsStep n k a h (state_at a s2) s2 refl))

-- A segment that belongs to no connection changes nothing. Otherwise it moves the connection that it is
-- found to belong to along the arrows LISTEN → SYN_RECEIVED → ESTABLISHED → LAST_ACK and SYN_SENT →
-- ESTABLISHED, in this order and possibly none, and every connection at another address stays as it is.
pub tcp_handle_packet-Moves :
    (m n k : Memory) (h : TcpHeader) (src_ip dst_ip : List ℕ) (s : Net)
    → ((tcp_find_connection src_ip dst_ip h.src_port h.dst_port s.tcp_connections ≡ none)
        × (tcp_handle_packet m n k h src_ip dst_ip s ≡ s))
      ⊎ ((c : TcpConnection) × (tcp_find_connection src_ip dst_ip h.src_port h.dst_port
              s.tcp_connections
            ≡ some c)
          × IsStep c.addr s (tcp_handle_packet m n k h src_ip dst_ip s))
unfolding tcp_handle_packet
tcp_handle_packet-Moves m n k h src_ip dst_ip s =
    elim (Option-cases
      (tcp_find_connection src_ip dst_ip h.src_port h.dst_port s.tcp_connections)) [
        | inl e ↦ inl (e, rw (e, tcp_handle_packet) refl)
        | inr (c, e) ↦ inr (c, e, rw (e, tcp_handle_packet) (handled-IsStep m n k c.addr h s))
      ]
