-- ===== src/Ipc/Trading.antt =====
-- kernel/proc/ipc.c: the trading messages. A market_data_t, an order_t and other data are their bytes in
-- memory. The message on the caller's stack, which is not initialised, is an argument.
use trade_kernel.Base.{ℕ, ltb, Bool, List, Option, none, some, if◌then◌else◌}
use trade_kernel.Fs.Layout.{slice, store}
use trade_kernel.Ipc.Queues.{Message, Queues, msgsnd, msgrcv}

-- sizeof(market_data_t), and sizeof(order_t) with the alignment of -m32
abbrev pub market_data_size : ℕ
market_data_size = 24

abbrev pub order_size : ℕ
order_size = 36

abbrev pub msg_market_data : ℕ
msg_market_data = 1

abbrev pub msg_order_request : ℕ
msg_order_request = 2

-- The message with its type, its priority and a copy of the content, which fits into the 1024 bytes of the
-- field `data`.
abbrev pub filled : Message → ℕ → ℕ → List ℕ → Message
filled msg type priority content = record msg {
  type = type;
  priority = priority;
  bytes = store 0 content msg.bytes;
}

-- What the caller gets of a message that came out of the queue; `none` is the result -1.
abbrev pub copied : Option Message → Option (List ℕ)
copied none = none
copied (some m) = if ltb 0 m.size then some (slice m.bytes 0 m.size) else none

unfoldable pub send_market_data : Message → ℕ → List ℕ → ℕ → ℕ → Queues → Bool × Queues
send_market_data msg queue_id content pid ticks s =
    msgsnd queue_id (filled msg msg_market_data 1 content) market_data_size pid ticks s

unfoldable pub send_order : Message → ℕ → List ℕ → ℕ → ℕ → Queues → Bool × Queues
send_order msg queue_id order pid ticks s =
    msgsnd queue_id (filled msg msg_order_request 0 order) order_size pid ticks s

unfoldable pub send_priority_message :
    Message → ℕ → ℕ → List ℕ → ℕ → ℕ → ℕ → ℕ → Queues → Bool × Queues
send_priority_message msg queue_id type content size priority pid ticks s =
    msgsnd queue_id (filled msg type priority content) size pid ticks s

-- The copy to the caller has the size of the structure, whatever the message's size is.
abbrev pub structure : ℕ → Option Message → Option (List ℕ)
structure n none = none
structure n (some m) = if ltb 0 m.size then some (slice m.bytes 0 n) else none

unfoldable pub receive_market_data : ℕ → Queues → Option (List ℕ) × Queues
receive_market_data queue_id s =
    let (out, t) = msgrcv queue_id market_data_size msg_market_data s in
    (structure market_data_size out, t)

unfoldable pub receive_order : ℕ → Queues → Option (List ℕ) × Queues
receive_order queue_id s =
    let (out, t) = msgrcv queue_id order_size msg_order_request s in (structure order_size out, t)

unfoldable pub receive_priority_message : ℕ → ℕ → ℕ → Queues → Option (List ℕ) × Queues
receive_priority_message queue_id type max_size s =
    let (out, t) = msgrcv queue_id max_size type s in (copied out, t)
