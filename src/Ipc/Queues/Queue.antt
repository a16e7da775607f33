-- ===== src/Ipc/Queues/Queue.antt =====
-- kernel/proc/ipc.c: one message queue. head is set to 0 when the queue is made and never moved, so
-- the messages held are the first `count` ones of the array.
use trade_kernel.Base.{
  take-set, ℕ, suc, ◌+◌, ◌%◌, ◌^◌, ◌≤◌, ◌<◌, ◌≡◌, ◌⊎◌, ◌∙◌, ap, refl, inl, inr, true, false, List,
  [], ◌∷◌, ◌++◌, ltb, leb, set, take, length, length-set, arith, ltb→lt, add32, Bool-cases,
}
use native.Mathlib.Nat.{mod-eq_of_lt, mod-lt}
use trade_kernel.Ipc.Queues.{Message, MessageQueue, send, slot}

pub record IsValid (q : MessageQueue) : Type 0 where
  pub head_zero : q.head ≡ 0
  pub some_room : 0 < q.max_size
  pub small : q.max_size ≤ 2 ^ 31
  pub array : length q.messages ≡ q.max_size
  pub fits : q.count ≤ q.max_size
  pub tail_in : q.tail < q.max_size

-- The next message goes behind the last one.
abbrev pub InStep : MessageQueue → Type 0
InStep q = q.tail ≡ q.count % q.max_size

abbrev pub held : MessageQueue → List Message
held q = take q.count q.messages

pub slot-eq : (q : MessageQueue) (i : ℕ) → IsValid q → i < q.max_size → slot q i ≡ i
slot-eq q i v h = rw v.head_zero (small i q.max_size h v.small)
  where
    small : (i n : ℕ) → i < n → n ≤ 2 ^ 31 → (0 + i) % 2 ^ 32 % n ≡ i
    small i n h k = let e : (0 + i) % 2 ^ 32 ≡ i = omega arith in rw e (mod-eq_of_lt h)

pub send-eq :
    (q : MessageQueue) (m : Message)
    → IsValid q
    → q.count < q.max_size
    → send q m ≡ (
      true,
      record q {
        messages = set q.messages q.tail m;
        tail = (q.tail + 1) % q.max_size;
        count = q.count + 1;
      },
    )
unfolding send
send-eq q m v h =
    let t : add32 q.tail 1 ≡ q.tail + 1 = omega (arith, v.tail_in, v.small) in
    let c : add32 q.count 1 ≡ q.count + 1 = omega (arith, v.small) in
    let full : leb q.max_size q.count ≡ false = ground arith in rw (full, t, c)

send-full : (q : MessageQueue) (m : Message) → q.max_size ≤ q.count → send q m ≡ (false, q)
send-full q m h = unfold send in ground arith

-- The part of msgsnd behind the search keeps a valid queue valid, whether the queue is full or not.
pub send-IsValid : (q : MessageQueue) (m : Message) → IsValid q → IsValid (send q m).1
send-IsValid q m v = elim (Bool-cases (ltb q.count q.max_size)) [
  | inl t ↦ rw (send-eq q m v (ltb→lt q.count q.max_size t)) (record {
    head_zero = v.head_zero;
    some_room = v.some_room;
    small = v.small;
    array = length-set q.messages q.tail m ∙ v.array;
    fits = ground arith;
    tail_in = mod-lt (q.tail + 1) v.some_room;
  })
  | inr f ↦ rw (send-full q m (ground arith)) v
]

-- On a valid queue in step, a send with room returns 0, appends the message to those held and leaves the queue in
-- step; without room the queue does not change and the result is -1.
pub send-append :
    (q : MessageQueue) (m : Message)
    → IsValid q
    → InStep q
    → let (done, q') = send q m in
      ((q.count < q.max_size) × (done ≡ true) × (held q' ≡ held q ++ (m ∷ [])) × InStep q')
      ⊎ ((q.max_size ≤ q.count) × (done ≡ false) × (q' ≡ q))
send-append q m v s = elim (Bool-cases (ltb q.count q.max_size)) [
  | inl l ↦ inl (with_room (ltb→lt q.count q.max_size l))
  | inr f ↦
      let full : q.max_size ≤ q.count = ground arith in
      rw (send-full q m full) (inr (full, refl, refl))
]
  where
    one_more :
        q.count < q.max_size
        → (k : ℕ) → k ≡ suc q.count
        → take k (set q.messages q.count m) ≡ held q ++ (m ∷ [])
    one_more h k e = rw e (take-set q.messages q.count m (omega (arith, v.array)))

    with_room :
        q.count < q.max_size
        → let (done, q') = send q m in
          (q.count < q.max_size) × (done ≡ true) × (held q' ≡ held q ++ (m ∷ [])) × InStep q'
    with_room h =
        let t : q.tail ≡ q.count = s ∙ mod-eq_of_lt h in
        rw (send-eq q m v h)
          (h, refl, rw t (one_more h (q.count + 1) (omega arith)), ap (λ k. (k + 1) % q.max_size) t)
