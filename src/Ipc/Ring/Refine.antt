-- ===== src/Ipc/Ring/Refine.antt =====
-- kernel/proc/ipc.c: a valid ring buffer behaves as a bounded FIFO of `size - 1` elements.
use trade_kernel.Base.{
  ℕ, zero, suc, ◌+◌, ◌-◌, ◌<◌, ◌≡◌, ◌≢◌, ◌∙◌, ap, ap₂, sym, refl, inl, inr, true, Bool-cases, List,
  [], ◌∷◌, ◌++◌, length, ltb, ◌==◌, if◌then◌else◌, arith, get_or, set, get_or-set_self,
  get_or-set_ne, length-set,
}
use trade_kernel.Ipc.Fifo
use trade_kernel.Ipc.Ring.{RingBuf, next_index, ringbuf_push, ringbuf_pop, ringbuf_count}
use trade_kernel.Ipc.Ring.Index.{IsValid, after_index, distance, next_index-eq, ringbuf_count-eq}

-- The `n` elements from index `h` on.
abbrev pub slots : List (List ℕ) → ℕ → ℕ → ℕ → List (List ℕ)
slots buffer size h zero = []
slots buffer size h (suc n) = get_or buffer h [] ∷ slots buffer size (after_index size h) n

length-slots : (b : List (List ℕ)) (s h n : ℕ) → length (slots b s h n) ≡ n
length-slots b s h zero = refl
length-slots b s h (suc n) = ap suc (length-slots b s (after_index s h) n)

-- What the ring holds, oldest first.
abbrev pub contents : RingBuf → List (List ℕ)
contents r = slots r.buffer r.size r.head (ringbuf_count r)

-- The index `n` steps behind `h`.
abbrev place : ℕ → ℕ → ℕ → ℕ
place s h n = if ltb (h + n) s then h + n else h + n - s

-- A write one step behind `n` elements adds one at the end.
slots-set :
    (b : List (List ℕ)) (s h n i : ℕ) (x : List ℕ)
    → length b ≡ s
    → h < s
    → n < s
    → i ≡ place s h n
    → slots (set b i x) s h (suc n) ≡ slots b s h n ++ (x ∷ [])
slots-set b s h zero i x e l k q =
    let here : i ≡ h = ground arith in
    rw here (ap (λ y. y ∷ []) (get_or-set_self b h x [] (omega arith)))
slots-set b s h (suc n) i x e l k q =
    ap₂ ◌∷◌ (get_or-set_ne b i h x [] (λ z. ground arith))
      (slots-set b s (after_index s h) n i x e (ground arith) (omega arith) (ground arith))

-- The ring after an accepted push, and after a pop.
abbrev pushed : RingBuf → List ℕ → RingBuf
pushed r x = record r { buffer = set r.buffer r.tail x; tail = next_index r r.tail }

abbrev popped : RingBuf → RingBuf
popped r = record r { head = next_index r r.head }

pushed-IsValid : (r : RingBuf) (x : List ℕ) → IsValid r → IsValid (pushed r x)
pushed-IsValid r x v = record {
  bits = v.bits;
  few_bits = v.few_bits;
  sized = v.sized;
  masked = v.masked;
  room = length-set r.buffer r.tail x ∙ v.room;
  head_in = v.head_in;
  tail_in = rw (next_index-eq r r.tail v v.tail_in) (ground (arith, v.tail_in));
}

popped-IsValid : (r : RingBuf) → IsValid r → IsValid (popped r)
popped-IsValid r v = record {
  bits = v.bits;
  few_bits = v.few_bits;
  sized = v.sized;
  masked = v.masked;
  room = v.room;
  head_in = rw (next_index-eq r r.head v v.head_in) (ground (arith, v.head_in));
  tail_in = v.tail_in;
}

contents-pushed :
    (r : RingBuf) (x : List ℕ)
    → IsValid r
    → next_index r r.tail ≢ r.head
    → (contents (pushed r x) ≡ contents r ++ (x ∷ [])) × (ringbuf_count r < r.size - 1)
contents-pushed r x v ne =
    let c = ringbuf_count-eq r v in
    let ix = next_index-eq r r.tail v v.tail_in in
    let c' : ringbuf_count (pushed r x) ≡ suc (ringbuf_count r) =
      ringbuf_count-eq (pushed r x) (pushed-IsValid r x v) ∙ (more ix ∙ ap suc (sym c)) in
    let at : r.tail ≡ place r.size r.head (ringbuf_count r) =
      rw c (ground (arith, v.head_in, v.tail_in)) in
    (
      rw c' (
          slots-set r.buffer r.size r.head (ringbuf_count r) r.tail x v.room v.head_in
            (rw c (ground (arith, v.head_in, v.tail_in))) at),
      rw c (ground (arith, v.head_in, v.tail_in, ix)),
    )
  where
    more :
        next_index r r.tail ≡ after_index r.size r.tail
        → distance r.size r.head (next_index r r.tail) ≡ suc (distance r.size r.head r.tail)
    more ix = ground (arith, v.head_in, v.tail_in)

-- ringbuf_push keeps a valid ring valid and does what a push on a FIFO of `size - 1` elements does to
-- the contents: with room it appends the element and returns 0, without room it changes nothing and
-- returns -1.
pub ringbuf_push-refines :
    (r : RingBuf) (x : List ℕ)
    → IsValid r
    → let (r', done) = ringbuf_push r x in
      IsValid r' × ((contents r', done) ≡ Fifo.push (r.size - 1) (contents r) x)
unfolding ringbuf_push Fifo.push
ringbuf_push-refines r x v = elim (Bool-cases (next_index r r.tail == r.head)) [
  | inl t ↦
      let same : next_index r r.tail ≡ r.head = ground arith in
      let full : ringbuf_count r ≡ r.size - 1 =
        ringbuf_count-eq r v
        ∙ ground (arith, v.head_in, v.tail_in, next_index-eq r r.tail v v.tail_in) in
      rw (t, ringbuf_push)
        (v, ground (arith, full, length-slots r.buffer r.size r.head (ringbuf_count r)))
  | inr f ↦
      let c = contents-pushed r x v (λ e. ground arith) in
      let room : ltb (length (contents r)) (r.size - 1) ≡ true =
        ground (arith, c.1, length-slots r.buffer r.size r.head (ringbuf_count r)) in
      rw (f, ringbuf_push) (pushed-IsValid r x v, rw (room, c.0))
]

contents-popped :
    (r : RingBuf)
    → IsValid r
    → r.head ≢ r.tail
    → contents r ≡ get_or r.buffer r.head [] ∷ contents (popped r)
contents-popped r v ne =
    let ix = next_index-eq r r.head v v.head_in in
    let c : ringbuf_count r ≡ suc (ringbuf_count (popped r)) =
      ringbuf_count-eq r v
      ∙ (less ix ∙ ap suc (sym (ringbuf_count-eq (popped r) (popped-IsValid r v)))) in
    rw (c, ix) refl
  where
    less :
        next_index r r.head ≡ after_index r.size r.head
        → distance r.size r.head r.tail ≡ suc (distance r.size (next_index r r.head) r.tail)
    less ix = ground (arith, v.head_in, v.tail_in)

-- ringbuf_pop keeps a valid ring valid and does what a pop on a FIFO does to the contents: it takes
-- out the oldest element, and with no element it changes nothing and returns -1.
pub ringbuf_pop-refines :
    (r : RingBuf)
    → IsValid r
    → let (r', out) = ringbuf_pop r in IsValid r' × ((contents r', out) ≡ Fifo.pop (contents r))
unfolding ringbuf_pop Fifo.pop
ringbuf_pop-refines r v = elim (Bool-cases (r.head == r.tail)) [
  | inl t ↦
      let none_held : ringbuf_count r ≡ 0 = ringbuf_count-eq r v ∙ ground (arith, v.head_in) in
      rw (t, ringbuf_pop) (v, rw none_held refl)
  | inr f ↦
      rw (f, ringbuf_pop) (popped-IsValid r v, rw (contents-popped r v (λ e. ground arith)) refl)
]
