-- ===== src/Ipc/Ring/Index.antt =====
-- kernel/proc/ipc.c: the indices of the ring buffer. With a power of two for the size, the masks are
-- remainders, and the bytes between head and tail are counted without overflow.
use trade_kernel.Base.{
  ℕ, zero, suc, ◌+◌, ◌-◌, ◌*◌, ◌%◌, ◌^◌, ◌≤◌, ◌<◌, ◌≡◌, ◌∙◌, ap, ap₂, sym, inl, inr, Bool-cases,
  ==→eq, length, leb, ◌==◌, if◌then◌else◌, arith, bit_and, bit_and-mask, pow-add, sub32,
}
use native.Mathlib.Nat.{mod-eq_of_lt, mod_self, mul-add-mod_self_left, one-le-pow}
use trade_kernel.Ipc.Ring.{RingBuf, next_index, ringbuf_count}

pub record IsValid (r : RingBuf) : Type 0 where
  pub bits : ℕ
  pub few_bits : bits ≤ 31
  pub sized : r.size ≡ 2 ^ bits
  pub masked : r.mask ≡ r.size - 1
  pub room : length r.buffer ≡ r.size
  pub head_in : r.head < r.size
  pub tail_in : r.tail < r.size

-- The index behind `i`, with the wrap written out.
abbrev pub after_index : ℕ → ℕ → ℕ
after_index size i = if i + 1 == size then 0 else i + 1

pow_small : (k : ℕ) → k ≤ 31 → (m : ℕ) × (2 ^ k * m ≡ 2 ^ 32) × (2 ^ k < 2 ^ 32)
pow_small k h =
    let m = 2 ^ (32 - k) in
    let back : k + (32 - k) ≡ 32 = omega arith in
    let one_more : 32 - k ≡ 1 + (31 - k) = omega arith in
    let e : 2 ^ k * m ≡ 2 ^ 32 = sym (pow-add k (32 - k)) ∙ ap (λ n. 2 ^ n) back in
    let d : 2 ^ (32 - k) ≡ 2 * 2 ^ (31 - k) = ap (λ n. 2 ^ n) one_more ∙ pow-add 1 (31 - k) in
    (m, e, grind (arith, e, d, one-le-pow (31 - k) 2 (omega arith), one-le-pow k 2 (omega arith)))

pub next_index-eq :
    (r : RingBuf) (i : ℕ) → IsValid r → i < r.size → next_index r i ≡ after_index r.size i
unfolding next_index
next_index-eq r i v h =
    let small = (pow_small v.bits v.few_bits).2 in
    let e : next_index r i ≡ (i + 1) % r.size =
      ap₂ bit_and (omega arith) (v.masked ∙ ap (λ s. s - 1) v.sized)
      ∙ (bit_and-mask v.bits (i + 1) ∙ ap (λ s. (i + 1) % s) (sym v.sized)) in
    elim (Bool-cases (i + 1 == r.size)) [
      | inl t ↦ rw (e, t) (ap (λ n. n % r.size) (==→eq (i + 1) r.size t) ∙ mod_self r.size)
      | inr f ↦ rw (e, f) (mod-eq_of_lt (ground arith))
    ]

-- The number of steps from index `h` on to index `t`.
abbrev pub distance : ℕ → ℕ → ℕ → ℕ
distance size h t = if leb h t then t - h else t + size - h

distance_mod :
    (k m h t : ℕ)
    → 2 ^ k * m ≡ 2 ^ 32
    → h < 2 ^ k
    → t < h
    → (t + 2 ^ 32 - h) % 2 ^ k ≡ t + 2 ^ k - h
distance_mod k zero h t e a b = absurd (omega arith)
distance_mod k (suc m) h t e a b =
    let split : t + 2 ^ 32 - h ≡ 2 ^ k * m + (t + 2 ^ k - h) = omega arith in
    rw split (mul-add-mod_self_left (2 ^ k) m (t + 2 ^ k - h) ∙ mod-eq_of_lt (omega arith))

-- ringbuf_count is the number of steps from head to tail, in spite of the wrap of the subtraction.
pub ringbuf_count-eq : (r : RingBuf) → IsValid r → ringbuf_count r ≡ distance r.size r.head r.tail
unfolding ringbuf_count
ringbuf_count-eq r v =
    let (m, e, small) = pow_small v.bits v.few_bits in
    let c : ringbuf_count r ≡ sub32 r.tail r.head % 2 ^ v.bits =
      ap (bit_and (sub32 r.tail r.head)) (v.masked ∙ ap (λ s. s - 1) v.sized)
      ∙ bit_and-mask v.bits (sub32 r.tail r.head) in
    elim (Bool-cases (leb r.head r.tail)) [
      | inl t ↦
          let wrapped : sub32 r.tail r.head ≡ r.tail - r.head = ground (arith, v.sized) in
          c ∙ (rw (wrapped, t) (mod-eq_of_lt (omega (arith, v.sized))))
      | inr f ↦
          let behind : r.tail < r.head = ground arith in
          let wrapped : sub32 r.tail r.head ≡ r.tail + 2 ^ 32 - r.head = omega (arith, v.sized) in
          c
          ∙ (rw (wrapped, f, v.sized) (distance_mod v.bits m r.head r.tail e (omega arith) behind))
    ]
