-- ===== src/Tests/Ipc.antt =====
-- kernel/proc/ipc.c: a ring of four slots and a queue of two messages.
use trade_kernel.Base.{
  ◌<◌, ◌≤◌, ◌⊎◌, false, ◌-◌, ◌≤◌, ◌≡◌, ◌⊎◌, refl, true, [], ◌∷◌, ◌++◌, none, some, arith, get_or,
  find_from,
}
use trade_kernel.Ipc.Fifo as Fifo
use trade_kernel.Ipc.Ring.{RingBuf, ringbuf_push, ringbuf_pop}
use trade_kernel.Ipc.Ring.Index.{distance, ringbuf_count-eq}
use trade_kernel.Ipc.Ring.Index as Index
use trade_kernel.Ipc.Ring.Refine.{contents, ringbuf_push-refines, ringbuf_pop-refines}
use trade_kernel.Ipc.Queues.{Message, MessageQueue, no_message, send, receive}
use trade_kernel.Ipc.Queues.Queue as Queue
use trade_kernel.Ipc.Queues.Queue.{InStep, held, send-IsValid, send-append}
use trade_kernel.Ipc.Queues.Receive.{Received, Refused, receive-Received, send-after_receive}
use trade_kernel.Mm.Heap.Blocks.{Heap}

-- One element at the last slot; the next one goes to slot 0.
abbrev ring : RingBuf
ring = record {
  head = 3;
  tail = 0;
  size = 4;
  mask = 3;
  buffer = [] ∷ [] ∷ [] ∷ (7 ∷ []) ∷ [];
  element_size = 1;
}

ring-IsValid : Index.IsValid ring
ring-IsValid = record {
  bits = 2;
  few_bits = omega arith;
  sized = refl;
  masked = refl;
  room = refl;
  head_in = omega arith;
  tail_in = omega arith;
}

ringbuf_push-refines_example :
    let (r', done) = ringbuf_push ring (8 ∷ []) in
    Index.IsValid r' × ((contents r', done) ≡ Fifo.push (4 - 1) (contents ring) (8 ∷ []))
ringbuf_push-refines_example = ringbuf_push-refines ring (8 ∷ []) ring-IsValid

ringbuf_pop-refines_example :
    let (r', out) = ringbuf_pop ring in
    Index.IsValid r' × ((contents r', out) ≡ Fifo.pop (contents ring))
ringbuf_pop-refines_example = ringbuf_pop-refines ring ring-IsValid

abbrev heap : Heap
heap = record {
  blocks =
      record {
        addr = 1048576;
        magic = 0xdead_beef;
        size = 4194272;
        free = true;
        file = 7;
        line = 0;
        alloc_id = 0;
      }
      ∷ [];
  stats = record {
    total_memory = 4194304;
    used_memory = 32;
    free_memory = 4194272;
    total_allocations = 0;
    active_allocations = 0;
    failed_allocations = 0;
    free_operations = 0;
    coalesce_operations = 0;
    largest_free_block = 4194272;
    fragmentation_ratio = 0;
  };
  allocations = [];
  next_alloc_id = 1;
}

abbrev first : Message
first = record {
  type = 1;
  sender_pid = 4;
  size = 2;
  bytes = 5 ∷ 6 ∷ [];
  timestamp = 9;
  priority = 0;
}

abbrev second : Message
second = record { type = 2; sender_pid = 4; size = 1; bytes = 7 ∷ []; timestamp = 9; priority = 0 }

-- Two messages in an array of four
abbrev queue : MessageQueue
queue = record {
  id = 1;
  key = 77;
  messages = first ∷ second ∷ no_message ∷ no_message ∷ [];
  head = 0;
  tail = 2;
  count = 2;
  max_size = 4;
  permissions = 0;
  creator_pid = 4;
  in_use = true;
}

queue-IsValid : Queue.IsValid queue
queue-IsValid = record {
  head_zero = refl;
  some_room = omega arith;
  small = omega arith;
  array = refl;
  fits = omega arith;
  tail_in = omega arith;
}

send-append_example :
    let (done, q') = send queue second in
    ((2 < 4) × (done ≡ true) × (held q' ≡ held queue ++ (second ∷ [])) × InStep q')
    ⊎ ((4 ≤ 2) × (done ≡ false) × (q' ≡ queue))
send-append_example = send-append queue second queue-IsValid refl

receive-Received_example :
    let (out, q') = receive queue 10 2 in
    Queue.IsValid q'
    × ((out ≡ none) × (q' ≡ queue) × Refused 10 2 (held queue)
        ⊎ ((m : Message) × (out ≡ some m) × (m.size ≤ 10) × Received 2 (held queue) (held q') m))
receive-Received_example = receive-Received queue 10 2 queue-IsValid

received : (receive queue 10 1).0 ≡ some first
unfolding receive find_from
received = refl

send-after_receive_example :
    let q' = (receive queue 10 1).1 in
    let (done, q'') = send q' first in
    (done ≡ true) × (held q'' ≡ held q' ++ (get_or queue.messages (2 - 1) no_message ∷ []))
send-after_receive_example =
    send-after_receive queue 10 1 first first queue-IsValid refl (omega arith) received
