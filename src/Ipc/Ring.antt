-- ===== src/Ipc/Ring.antt =====
-- kernel/proc/ipc.c: ringbuf_init, ringbuf_push, ringbuf_pop, ringbuf_count. The buffer is a list of
-- slots of `element_size` bytes each; an element is what one slot holds. The arguments are not NULL.
pub mod Index
pub mod Refine
pub mod Start
use trade_kernel.Base.{
  ℕ, zero, suc, ◌+◌, ◌-◌, ◌*◌, ◌/◌, ◌≤◌, Bool, List, Option, none, some, ltb, ◌==◌, if◌then◌else◌,
  get_or, set, replicate, bit_and, add32, sub32, mul32, true, false, [],
}
use trade_kernel.Mm.Heap.Blocks.{Heap}
use trade_kernel.Mm.Pool.{kmalloc}

-- lockfree_ringbuf_t
pub record RingBuf : Type 0 where
  pub head : ℕ
  pub tail : ℕ
  pub size : ℕ
  pub mask : ℕ
  pub buffer : List (List ℕ)
  pub element_size : ℕ

-- `while (power_of_two < size) power_of_two <<= 1;` with fuel; `none` when the fuel runs out.
unfoldable pub round_up : ℕ → ℕ → ℕ → Option ℕ
round_up zero size p = none
round_up (suc fuel) size p =
    let rest = round_up fuel size (mul32 p 2) in if ltb p size then rest else some p

-- The ring that ringbuf_init makes with `size` = `p`. The buffer has the slots that fit into the memory asked for,
-- which is `p * element_size` modulo 2 ^ 32.
abbrev pub fresh_ring : ℕ → ℕ → RingBuf
fresh_ring p element_size = record {
  head = 0;
  tail = 0;
  size = p;
  mask = sub32 p 1;
  buffer = replicate (mul32 p element_size / element_size) (replicate element_size 0);
  element_size = element_size;
}

-- How a call of ringbuf_init ends: with -1, with 0 and a ring, or not within the fuel.
pub data Setup : Type 0 where
  refused : Setup
  ready : RingBuf → Setup
  out_of_fuel : Setup

-- The first two arguments are the addresses of the literals of memory.c.
unfoldable pub ringbuf_init : ℕ → ℕ → ℕ → ℕ → ℕ → Heap → Setup × Heap
ringbuf_init split_file unknown_file fuel size element_size h =
    if size == 0
    then (refused, h)
    else (if element_size == 0 then (refused, h) else elim (round_up fuel size 1) [
      | none ↦ (out_of_fuel, h)
      | some p ↦
          let (buffer, h') = kmalloc split_file unknown_file (mul32 p element_size) h in
          if buffer == 0 then (refused, h') else (ready (fresh_ring p element_size), h')
    ])

-- The index behind `i`.
unfoldable pub next_index : RingBuf → ℕ → ℕ
next_index r i = bit_and (add32 i 1) r.mask

-- `true` is the result 0.
unfoldable pub ringbuf_push : RingBuf → List ℕ → RingBuf × Bool
ringbuf_push r x =
    if next_index r r.tail == r.head
    then (r, false)
    else (record r { buffer = set r.buffer r.tail x; tail = next_index r r.tail }, true)

-- `none` is the result -1.
unfoldable pub ringbuf_pop : RingBuf → RingBuf × Option (List ℕ)
ringbuf_pop r =
    if r.head == r.tail
    then (r, none)
    else (record r { head = next_index r r.head }, some (get_or r.buffer r.head []))

unfoldable pub ringbuf_count : RingBuf → ℕ
ringbuf_count r = bit_and (sub32 r.tail r.head) r.mask
