-- ===== src/Ipc/Queues.antt =====
-- kernel/proc/ipc.c: the table of message queues, with msgget, msgsnd, msgrcv and msgctl. The message
-- and queue pointers are not NULL; NULL for a message gives -1 at once.
pub mod Queue
pub mod Receive
pub mod Table
use trade_kernel.Base.{
  ℕ, zero, suc, ◌+◌, ◌-◌, ◌%◌, Bool, true, false, not, ◌&&◌, ◌||◌, List, [], Option, none, some,
  ltb, leb, ◌==◌, if◌then◌else◌, get_or, set, add32, sub32, minus_one32, find_from, test_bit,
}

abbrev pub max_message_queues : ℕ
max_message_queues = 32

abbrev pub max_message_size : ℕ
max_message_size = 1024

abbrev pub max_queue_size : ℕ
max_queue_size = 64

-- message_t; `bytes` is its field `data`.
pub record Message : Type 0 where
  pub type : ℕ
  pub sender_pid : ℕ
  pub size : ℕ
  pub bytes : List ℕ
  pub timestamp : ℕ
  pub priority : ℕ

-- message_queue_t
pub record MessageQueue : Type 0 where
  pub id : ℕ
  pub key : ℕ
  pub messages : List Message
  pub head : ℕ
  pub tail : ℕ
  pub count : ℕ
  pub max_size : ℕ
  pub permissions : ℕ
  pub creator_pid : ℕ
  pub in_use : Bool

-- message_queues and next_msgq_id
pub record Queues : Type 0 where
  pub message_queues : List MessageQueue
  pub next_msgq_id : ℕ

abbrev pub no_message : Message
no_message = record { type = 0; sender_pid = 0; size = 0; bytes = []; timestamp = 0; priority = 0 }

abbrev pub no_queue : MessageQueue
no_queue = record {
  id = 0;
  key = 0;
  messages = [];
  head = 0;
  tail = 0;
  count = 0;
  max_size = 0;
  permissions = 0;
  creator_pid = 0;
  in_use = false;
}

abbrev pub queue_at : Queues → ℕ → MessageQueue
queue_at s i = get_or s.message_queues i no_queue

abbrev pub store_queue : Queues → ℕ → MessageQueue → Queues
store_queue s i q = record s { message_queues = set s.message_queues i q }

-- The searches of the table: by key, by id, for a free entry.
unfoldable pub find_key : Queues → ℕ → Option ℕ
find_key s key =
    find_from (λ i. (queue_at s i).in_use && (queue_at s i).key == key) max_message_queues 0

unfoldable pub find_id : Queues → ℕ → Option ℕ
find_id s id =
    find_from (λ i. (queue_at s i).in_use && (queue_at s i).id == id) max_message_queues 0

unfoldable pub find_unused : Queues → Option ℕ
find_unused s = find_from (λ i. not (queue_at s i).in_use) max_message_queues 0

-- The entry that msgget fills; the messages stay as they are.
abbrev pub created : ℕ → ℕ → ℕ → ℕ → MessageQueue → MessageQueue
created id key flags pid q = record q {
  in_use = true;
  id = id;
  key = key;
  head = 0;
  tail = 0;
  count = 0;
  max_size = max_queue_size;
  permissions = flags % 512;
  creator_pid = pid;
}

-- `pid` is the pid of current_process, 0 without one. IPC_CREAT is bit 9 of the flags.
unfoldable pub msgget : ℕ → ℕ → ℕ → Queues → ℕ × Queues
msgget key flags pid s = elim (find_key s key) [
  | some i ↦ ((queue_at s i).id, s)
  | none ↦
      if test_bit flags 9
      then elim (find_unused s) [
        | some i ↦ (
          s.next_msgq_id,
          record {
            message_queues =
                set s.message_queues i (created s.next_msgq_id key flags pid (queue_at s i));
            next_msgq_id = add32 s.next_msgq_id 1;
          },
        )
        | none ↦ (minus_one32, s)
      ]
      else (minus_one32, s)
]

-- What msgsnd writes into the slot.
abbrev pub stamped : Message → ℕ → ℕ → ℕ → Message
stamped m size pid ticks = record m { sender_pid = pid; timestamp = ticks; size = size }

-- The part of msgsnd behind the search; `false` is the result -1.
unfoldable pub send : MessageQueue → Message → Bool × MessageQueue
send q m = if leb q.max_size q.count then (false, q) else (
  true,
  record q {
    messages = set q.messages q.tail m;
    tail = add32 q.tail 1 % q.max_size;
    count = add32 q.count 1;
  },
)

-- With a full queue msgsnd returns -1 whether or not IPC_NOWAIT is given, so it has no flags here.
unfoldable pub msgsnd : ℕ → Message → ℕ → ℕ → ℕ → Queues → Bool × Queues
msgsnd msgid m size pid ticks s =
    if ltb max_message_size size then (false, s) else elim (find_id s msgid) [
      | none ↦ (false, s)
      | some i ↦
          let (done, q) = send (queue_at s i) (stamped m size pid ticks) in
          (done, store_queue s i q)
    ]

-- The slot of the message `i` places behind the head.
abbrev pub slot : MessageQueue → ℕ → ℕ
slot q i = add32 q.head i % q.max_size

abbrev pub candidate : MessageQueue → ℕ → Message
candidate q i = get_or q.messages (slot q i) no_message

abbrev pub matches : ℕ → Message → Bool
matches type m = type == 0 || m.type == type

-- The loop that closes the gap: `n` rounds from message `j` on.
unfoldable pub shift : MessageQueue → ℕ → ℕ → List Message → List Message
shift q zero j ms = ms
shift q (suc n) j ms = shift q n (j + 1) (set ms (slot q j) (get_or ms (slot q (j + 1)) no_message))

-- The part of msgrcv behind the search: the message copied out, if any, and the queue. The result of the
-- call is the size of the message, or -1.
unfoldable pub receive : MessageQueue → ℕ → ℕ → Option Message × MessageQueue
receive q size type = elim (find_from (λ i. matches type (candidate q i)) q.count 0) [
  | none ↦ (none, q)
  | some i ↦ if ltb size (candidate q i).size then (none, q) else (
    some (candidate q i),
    record q { messages = shift q (q.count - 1 - i) i q.messages; count = sub32 q.count 1 },
  )
]

unfoldable pub msgrcv : ℕ → ℕ → ℕ → Queues → Option Message × Queues
msgrcv msgid size type s = elim (find_id s msgid) [
  | none ↦ (none, s)
  | some i ↦ let (out, q) = receive (queue_at s i) size type in (out, store_queue s i q)
]

-- IPC_RMID is command 0.
unfoldable pub msgctl : ℕ → ℕ → Queues → Bool × Queues
msgctl msgid cmd s = elim (find_id s msgid) [
  | none ↦ (false, s)
  | some i ↦
      if cmd == 0
      then (true, store_queue s i (record (queue_at s i) { in_use = false }))
      else (false, s)
]
