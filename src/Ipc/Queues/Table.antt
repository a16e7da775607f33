-- ===== src/Ipc/Queues/Table.antt =====
-- kernel/proc/ipc.c: the table of message queues.
use trade_kernel.Base.{
  ℕ, ◌+◌, ◌≤◌, ◌<◌, ◌≡◌, ◌≢◌, ◌∙◌, sym, ap, inl, inr, Bool, true, not, ◌&&◌, none, some, ◌==◌, set,
  length, get_or-set_self, get_or-set_ne, arith, Bool-cases, Option-cases, ==-refl, ==→eq,
  find_from_sound, find_from-none, minus_one32, test_bit, add32, find_from,
}
use trade_kernel.Ipc.Queues.{Queues, no_queue, queue_at, created, find_key, find_unused, msgget}

abbrev has_key : Queues → ℕ → ℕ → Bool
has_key s key i = (queue_at s i).in_use && (queue_at s i).key == key

-- A search by key that succeeds makes msgget return the id found, whatever the flags.
msgget-found :
    (key flags pid i : ℕ) (s : Queues)
    → find_key s key ≡ some i
    → msgget key flags pid s ≡ ((queue_at s i).id, s)
unfolding msgget
msgget-found key flags pid i s e = rw (e, msgget)

-- The table after msgget has filled entry `i`.
abbrev with_created : ℕ → ℕ → ℕ → ℕ → Queues → Queues
with_created key flags pid i s = record {
  message_queues = set s.message_queues i (created s.next_msgq_id key flags pid (queue_at s i));
  next_msgq_id = add32 s.next_msgq_id 1;
}

find_key-created :
    (key flags pid i : ℕ) (s : Queues)
    → 32 ≤ length s.message_queues
    → i < 32
    → find_key s key ≡ none
    → find_key (with_created key flags pid i s) key ≡ some i
unfolding find_key
find_key-created key flags pid i s room l n = elim (Option-cases (find_from (has_key t key) 32 0)) [
  | inl e ↦ absurd (no_none e)
  | inr (j, e) ↦ e ∙ ap some (only j (find_from_sound (has_key t key) 32 0 e))
]
  where
    t : Queues
    t = with_created key flags pid i s

    there : has_key t key i ≡ true
    there =
        rw
          (get_or-set_self s.message_queues i (created s.next_msgq_id key flags pid (queue_at s i))
            no_queue (omega arith))
          (==-refl key)

    no_none : find_from (has_key t key) 32 0 ≡ none → ⊥
    no_none e =
        let f = find_from-none (has_key t key) 32 0 i e (omega arith) (omega arith) in cc (there, f)

    only : (j : ℕ) → (has_key t key j ≡ true) × (0 ≤ j) × (j < 0 + 32) → j ≡ i
    only j (h, z, k) = elim (Bool-cases (i == j)) [
      | inl q ↦ sym (==→eq i j q)
      | inr q ↦
          let same : queue_at t j ≡ queue_at s j =
            get_or-set_ne s.message_queues i j _ no_queue (λ p. ground arith) in
          let f = find_from-none (has_key s key) 32 0 j n z k in absurd (cc (rw same at h, f))
    ]

find_unused-lt : (s : Queues) (i : ℕ) → find_unused s ≡ some i → i < 32
unfolding find_unused
find_unused-lt s i e = omega (arith, (find_from_sound (λ i. not (queue_at s i).in_use) 32 0 e).2)

-- When msgget makes a queue, it fills an entry that was not in use.
msgget-fresh :
    (key flags pid : ℕ) (s : Queues)
    → find_key s key ≡ none
    → (msgget key flags pid s).0 ≢ minus_one32
    → (i : ℕ) × (find_unused s ≡ some i)
      × (msgget key flags pid s ≡ (s.next_msgq_id, with_created key flags pid i s))
unfolding msgget
msgget-fresh key flags pid s e n = elim (Bool-cases (test_bit flags 9)) [
  | inl t ↦ elim (Option-cases (find_unused s)) [
    | inl u ↦ absurd (n (rw (e, msgget, t, u)))
    | inr (i, u) ↦ (i, u, rw (e, msgget, t, u))
  ]
  | inr f ↦ absurd (n (rw (e, msgget, f)))
]

-- msgget with a key returns the same id again, whatever the flags of the second call, and the second
-- call changes nothing, if the first one did not return -1.
pub msgget-again :
    (key flags flags' pid pid' : ℕ) (s : Queues)
    → 32 ≤ length s.message_queues
    → (msgget key flags pid s).0 ≢ minus_one32
    → let (id, s') = msgget key flags pid s in msgget key flags' pid' s' ≡ (id, s')
msgget-again key flags flags' pid pid' s room n = elim (Option-cases (find_key s key)) [
  | inr (i, e) ↦ rw (msgget-found key flags pid i s e) (msgget-found key flags' pid' i s e)
  | inl e ↦
      let (i, u, r) = msgget-fresh key flags pid s e n in
      let l : i < 32 = omega (arith, find_unused-lt s i u) in
      rw r (
        msgget-found key flags' pid' i (with_created key flags pid i s)
          (find_key-created key flags pid i s room l e)
        ∙ ap (λ q. (q.id, with_created key flags pid i s))
            (get_or-set_self s.message_queues i
              (created s.next_msgq_id key flags pid (queue_at s i)) no_queue (omega arith)))
]
