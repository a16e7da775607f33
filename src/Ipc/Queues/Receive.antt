-- ===== src/Ipc/Queues/Receive.antt =====
-- kernel/proc/ipc.c: what msgrcv takes out of a message queue, and what a later msgsnd does to it.
use trade_kernel.Base.{
  take-set_behind, take-snoc, erase_at, get_or-take, length-take_of_le, ℕ, zero, suc, ◌+◌, ◌-◌, ◌≤◌,
  ◌<◌, ◌≡◌, ◌⊎◌, ◌∙◌, sym, ap, subst, refl, inl, inr, true, false, List, [], ◌∷◌, ◌++◌, none, some,
  ltb, get_or, set, take, length, length-set, get_or-set_ne, arith, sub32, Bool-cases, Option-cases,
  find_from, find_from_sound, find_from_first, find_from-none, ltb→lt,
}
use native.Mathlib.Nat.{mod-eq_of_lt}
use trade_kernel.Ipc.Queues.{
  Message, MessageQueue, no_message, send, receive, shift, candidate, matches,
}
use trade_kernel.Ipc.Queues.Queue.{IsValid, InStep, held, slot-eq, send-eq}

-- The gap at `j` closed by `n` moves.
abbrev close : ℕ → ℕ → List Message → List Message
close zero j ms = ms
close (suc n) j ms = close n (suc j) (set ms j (get_or ms (suc j) no_message))

shift-eq :
    (q : MessageQueue) (n j : ℕ) (ms : List Message)
    → IsValid q
    → j + n < q.max_size
    → shift q n j ms ≡ close n j ms
unfolding shift
shift-eq q zero j ms v h = refl
shift-eq q (suc n) j ms v h =
    let one : j + 1 ≡ suc j = omega arith in
    rw (one, slot-eq q j v (omega arith), slot-eq q (suc j) v (omega arith))
      (shift-eq q n (suc j) (set ms j (get_or ms (suc j) no_message)) v (omega arith))

close-cons :
    (n j : ℕ) (x : Message) (xs : List Message) → close n (suc j) (x ∷ xs) ≡ x ∷ close n j xs
close-cons zero j x xs = refl
close-cons (suc n) j x xs = close-cons n (suc j) x (set xs j (get_or xs (suc j) no_message))

take-close_front :
    (n : ℕ) (x : Message) (xs : List Message)
    → n ≤ length xs
    → take n (close n 0 (x ∷ xs)) ≡ take n xs
take-close_front zero x xs h = refl
take-close_front (suc n) x [] h = absurd (omega arith)
take-close_front (suc n) x (y ∷ ys) h =
    rw (close-cons n 0 y (y ∷ ys)) (ap (◌∷◌ y) (take-close_front n y ys (omega arith)))

take-close :
    (j n k : ℕ) (ms : List Message)
    → k ≡ j + n
    → k < length ms
    → take k (close n j ms) ≡ erase_at j (take (suc k) ms)
take-close j n k [] e h = absurd (omega arith)
take-close zero n k (x ∷ xs) e h =
    let q : k ≡ n = omega arith in rw q (take-close_front n x xs (omega arith))
take-close (suc j) n zero (x ∷ xs) e h = absurd (omega arith)
take-close (suc j) n (suc k) (x ∷ xs) e h =
    rw (close-cons n j x xs) (ap (◌∷◌ x) (take-close j n k xs (omega arith) (omega arith)))

-- What a successful msgrcv takes out of the messages held: the first one that matches.
pub record Received (type : ℕ) (before after : List Message) (m : Message) : Type 0 where
  pub index : ℕ
  pub in_range : index < length before
  pub copied : m ≡ get_or before index no_message
  pub matching : matches type m ≡ true
  pub first : (j : ℕ) → j < index → matches type (get_or before j no_message) ≡ false
  pub rest : after ≡ erase_at index before

receive-eq :
    (q : MessageQueue) (size type i : ℕ)
    → find_from (λ j. matches type (candidate q j)) q.count 0 ≡ some i
    → (candidate q i).size ≤ size
    → receive q size type ≡ (
      some (candidate q i),
      record q { messages = shift q (q.count - 1 - i) i q.messages; count = sub32 q.count 1 },
    )
unfolding receive
receive-eq q size type i e h =
    let fits : ltb size (candidate q i).size ≡ false = ground arith in rw (e, receive, fits)

-- Why a msgrcv takes nothing: no message held has the type, or the first one that has is too large for the caller.
pub data Refused (size type : ℕ) (before : List Message) : Type 0 where
  no_match :
      ((j : ℕ) → j < length before → matches type (get_or before j no_message) ≡ false)
      → Refused size type before
  too_large :
      (i : ℕ)
      → i < length before
      → matches type (get_or before i no_message) ≡ true
      → ((j : ℕ) → j < i → matches type (get_or before j no_message) ≡ false)
      → size < (get_or before i no_message).size
      → Refused size type before

-- A search of the first `count` messages is one of the messages held.
candidate-eq :
    (q : MessageQueue) (j : ℕ)
    → IsValid q
    → j < q.count
    → candidate q j ≡ get_or (held q) j no_message
candidate-eq q j v l =
    ap (λ k. get_or q.messages k no_message) (slot-eq q j v (omega (arith, v.fits)))
    ∙ sym (get_or-take q.messages q.count j no_message l)

length-held : (q : MessageQueue) → IsValid q → length (held q) ≡ q.count
length-held q v = length-take_of_le q.messages q.count (omega (arith, v.array, v.fits))

none-Refused :
    (q : MessageQueue) (size type : ℕ)
    → IsValid q
    → find_from (λ j. matches type (candidate q j)) q.count 0 ≡ none
    → Refused size type (held q)
none-Refused q size type v e = no_match (λ j l.
    let low : j < q.count = omega (arith, l, length-held q v) in
    ap (matches type) (sym (candidate-eq q j v low))
    ∙ find_from-none (λ j. matches type (candidate q j)) q.count 0 j e (omega arith) (omega arith))

some-Refused :
    (q : MessageQueue) (size type i : ℕ)
    → IsValid q
    → find_from (λ j. matches type (candidate q j)) q.count 0 ≡ some i
    → size < (candidate q i).size
    → Refused size type (held q)
some-Refused q size type i v e h =
    let (m, a, b) = find_from_sound (λ j. matches type (candidate q j)) q.count 0 e in
    let low : i < q.count = omega arith in
    let same = candidate-eq q i v low in
    too_large i (omega (arith, length-held q v)) (ap (matches type) (sym same) ∙ m)
      (λ j l.
        ap (matches type) (sym (candidate-eq q j v (omega arith)))
        ∙ find_from_first (λ j. matches type (candidate q j)) q.count 0 j e (omega arith) l)
      (subst (λ m. size < m.size) same h)

-- msgrcv changes nothing, and there is a reason for it, or it takes a message.
receive_cases :
    (q : MessageQueue) (size type : ℕ)
    → IsValid q
    → ((receive q size type ≡ (none, q)) × Refused size type (held q))
      ⊎ ((i : ℕ) × (find_from (λ j. matches type (candidate q j)) q.count 0 ≡ some i)
          × ((candidate q i).size ≤ size))
unfolding receive
receive_cases q size type v =
    elim (Option-cases (find_from (λ j. matches type (candidate q j)) q.count 0)) [
      | inl e ↦ inl (rw (e, receive) refl, none-Refused q size type v e)
      | inr (i, e) ↦ elim (Bool-cases (ltb size (candidate q i).size)) [
        | inl t ↦ inl (
          rw (e, receive, t) refl,
          some-Refused q size type i v e (ltb→lt size (candidate q i).size t),
        )
        | inr f ↦ inr (i, e, ground arith)
      ]
    ]

-- The queue that msgrcv leaves after it has taken message `i`.
abbrev taken : MessageQueue → ℕ → MessageQueue
taken q i = record q { messages = close (q.count - 1 - i) i q.messages; count = q.count - 1 }

length-close : (n j : ℕ) (ms : List Message) → length (close n j ms) ≡ length ms
length-close zero j ms = refl
length-close (suc n) j ms =
    length-close n (suc j) (set ms j (get_or ms (suc j) no_message)) ∙ length-set ms j _

taken-IsValid : (q : MessageQueue) (i : ℕ) → IsValid q → IsValid (taken q i)
taken-IsValid q i v = record {
  head_zero = v.head_zero;
  some_room = v.some_room;
  small = v.small;
  array = length-close (q.count - 1 - i) i q.messages ∙ v.array;
  fits = omega (arith, v.fits);
  tail_in = v.tail_in;
}

receive-taken :
    (q : MessageQueue) (size type i : ℕ)
    → IsValid q
    → find_from (λ j. matches type (candidate q j)) q.count 0 ≡ some i
    → (candidate q i).size ≤ size
    → (receive q size type ≡ (some (get_or q.messages i no_message), taken q i))
      × Received type (held q) (held (taken q i)) (get_or q.messages i no_message)
receive-taken q size type i v e h = (
  rw (receive-eq q size type i e h) (rw (at i in_range, moved, less) refl),
  record {
    index = i;
    in_range = rw (length-take_of_le q.messages q.count (omega (arith, v.array))) in_range;
    copied = sym (get_or-take q.messages q.count i no_message in_range);
    matching = rw (← at i in_range) (find_from_sound _ q.count 0 e).0;
    first = λ j l.
        rw
          (
            get_or-take q.messages q.count j no_message (omega (arith, in_range)),
            ← at j (omega (arith, in_range)),
          )
          (find_from_first _ q.count 0 j e (omega arith) l);
    rest = rest;
  },
)
  where
    in_range : i < q.count
    in_range = omega (arith, (find_from_sound (λ j. matches type (candidate q j)) q.count 0 e).2)

    at : (j : ℕ) → j < q.count → candidate q j ≡ get_or q.messages j no_message
    at j l = ap (λ k. get_or q.messages k no_message) (slot-eq q j v (omega (arith, v.fits)))

    moved : shift q (q.count - 1 - i) i q.messages ≡ close (q.count - 1 - i) i q.messages
    moved = shift-eq q (q.count - 1 - i) i q.messages v (omega (arith, v.fits, in_range))

    less : sub32 q.count 1 ≡ q.count - 1
    less = omega (arith, v.fits, v.small, in_range)

    rest : held (taken q i) ≡ erase_at i (held q)
    rest =
        let back : suc (q.count - 1) ≡ q.count = omega (arith, in_range) in
        take-close i (q.count - 1 - i) (q.count - 1) q.messages (omega (arith, in_range))
          (omega (arith, v.array, v.fits, in_range))
        ∙ ap (λ k. erase_at i (take k q.messages)) back

-- msgrcv on a valid queue leaves a valid queue. It returns -1 and changes nothing where no message held has the type
-- (for 0, where none is held) or the first one of the type is larger than the caller's size; otherwise it takes out
-- the first held message of the type (of any type for 0), and the others keep their order.
pub receive-Received :
    (q : MessageQueue) (size type : ℕ)
    → IsValid q
    → let (out, q') = receive q size type in
      IsValid q'
      × ((out ≡ none) × (q' ≡ q) × Refused size type (held q)
          ⊎ ((m : Message) × (out ≡ some m) × (m.size ≤ size) × Received type (held q) (held q') m))
receive-Received q size type v = elim (receive_cases q size type v) [
  | inl (e, why) ↦ rw e (v, inl (refl, refl, why))
  | inr (i, e, h) ↦
      let (r, got) = receive-taken q size type i v e h in
      rw r (
        taken-IsValid q i v,
        inr (get_or q.messages i no_message, refl, small i h (in_count i e), got),
      )
]
  where
    in_count :
        (i : ℕ) → find_from (λ j. matches type (candidate q j)) q.count 0 ≡ some i → i < q.count
    in_count i e =
        omega (arith, (find_from_sound (λ j. matches type (candidate q j)) q.count 0 e).2)

    small :
        (i : ℕ)
        → (candidate q i).size ≤ size
        → i < q.count
        → (get_or q.messages i no_message).size ≤ size
    small i h l =
        subst (λ k. (get_or q.messages k no_message).size ≤ size)
          (slot-eq q i v (omega (arith, v.fits))) h

get_or-close_behind :
    (n j k : ℕ) (ms : List Message)
    → j + n ≤ k
    → get_or (close n j ms) k no_message ≡ get_or ms k no_message
get_or-close_behind zero j k ms h = refl
get_or-close_behind (suc n) j k ms h =
    get_or-close_behind n (suc j) k (set ms j (get_or ms (suc j) no_message)) (omega arith)
    ∙ get_or-set_ne ms j k _ no_message (λ e. omega arith)

-- msgrcv does not move tail back. So on a valid queue in step that is not full, a send that follows a
-- successful msgrcv returns 0, but the queue then holds the last message from before the receive once
-- more in place of the message sent.
pub send-after_receive :
    (q : MessageQueue) (size type : ℕ) (got m : Message)
    → IsValid q
    → InStep q
    → q.count < q.max_size
    → (receive q size type).0 ≡ some got
    → let q' = (receive q size type).1 in
      let (done, q'') = send q' m in
      (done ≡ true) × (held q'' ≡ held q' ++ (get_or q.messages (q.count - 1) no_message ∷ []))
send-after_receive q size type got m v s h e = elim (receive_cases q size type v) [
  | inl (n, why) ↦ absurd (cc)
  | inr (i, f, l) ↦
      let (r, w) = receive-taken q size type i v f l in
      rw r (
        lost i (omega (arith, (find_from_sound (λ j. matches type (candidate q j)) q.count 0 f).2)))
]
  where
    lost :
        (i : ℕ)
        → i < q.count
        → let (done, q'') = send (taken q i) m in
          (done ≡ true)
          × (held q'' ≡ held (taken q i) ++ (get_or q.messages (q.count - 1) no_message ∷ []))
    lost i l =
        let v' = taken-IsValid q i v in
        let tail : q.tail ≡ q.count = s ∙ mod-eq_of_lt h in
        rw (send-eq (taken q i) m v' (omega arith))
          (refl, rw tail (one_more (q.count - 1 + 1) (omega arith)))
      where
        one_more :
            (k : ℕ)
            → k ≡ suc (q.count - 1)
            → take k (set (taken q i).messages q.count m)
              ≡ held (taken q i) ++ (get_or q.messages (q.count - 1) no_message ∷ [])
        one_more k e =
            let ms = close (q.count - 1 - i) i q.messages in
            rw e (
              take-set_behind ms (suc (q.count - 1)) q.count m (omega arith)
              ∙ (take-snoc ms (q.count - 1) no_message
                    (omega (arith, length-close (q.count - 1 - i) i q.messages, v.array))
                  ∙ ap (λ x. held (taken q i) ++ (x ∷ []))
                      (get_or-close_behind (q.count - 1 - i) i (q.count - 1) q.messages
                        (omega arith))))
