-- ===== src/Proc/Lifecycle/Dispatch.antt =====
-- kernel/proc/syscalls.c: the table of the system calls as a map.
use trade_kernel.Base.{
  ℕ, ◌+◌, ◌<◌, ◌≤◌, ◌≡◌, ◌≢◌, ◌∙◌, refl, sym, inl, inr, false, none, some, if◌then◌else◌, ltb, leb,
  ◌==◌, ==→eq, Bool-cases, length, get_or, set, length-set, get_or-set_self, get_or-set_ne, arith,
}
use trade_kernel.Proc.Lifecycle.{Handler, SyscallTable, register_syscall, handler_of, max_syscalls}

-- Nothing is registered from num_syscalls on.
pub record IsTable (t : SyscallTable) : Type 0 where
  pub size : length t.handlers ≡ max_syscalls
  pub low : t.num_syscalls ≤ max_syscalls
  pub empty : (m : ℕ) → t.num_syscalls ≤ m → get_or t.handlers m none ≡ none

-- Registering a handler keeps the table well formed, and changes the handler of its own number only; a number from 32 on
-- is refused.
pub handler_of-register_syscall :
    (num m : ℕ) (h : Handler) (t : SyscallTable)
    → IsTable t
    → IsTable (register_syscall num h t)
      × (handler_of m (register_syscall num h t) ≡ (
          if ltb num max_syscalls
          then (if m == num then some h else handler_of m t)
          else handler_of m t))
unfolding register_syscall handler_of
handler_of-register_syscall num m h t v = elim (Bool-cases (ltb num max_syscalls)) [
  | inr f ↦ rw f (v, refl)
  | inl f ↦
      let room : num < length t.handlers = let z = v.size in ground arith in
      let size = length-set t.handlers num (some h) ∙ v.size in
      let low = v.low in
      let other : (k : ℕ)
          → k ≢ num
          → get_or (set t.handlers num (some h)) k none ≡ get_or t.handlers k none =
        λ k ne. get_or-set_ne t.handlers num k (some h) none (λ e. ne (sym e)) in
      let self = get_or-set_self t.handlers num (some h) none room in
      elim (Bool-cases (leb t.num_syscalls num)) [
        | inl g ↦
            rw (f, g)
              (
                record {
                  size = size;
                  low = ground arith;
                  empty = λ k l. other k (λ e. omega arith) ∙ v.empty k (ground arith);
                },
                elim (Bool-cases (m == num)) [
                  | inl e ↦
                      let q : m ≡ num = ==→eq m num e in
                      let n : leb (num + 1) m ≡ false = ground arith in rw (n, e, q) self
                  | inr e ↦
                      let o = other m (λ q. ground arith) in
                      let z = v.empty m in
                      elim (Bool-cases (leb t.num_syscalls m)) [
                        | inl a ↦ let gone = z (ground arith) in rw (e, a) (ground arith)
                        | inr a ↦ let n : leb (num + 1) m ≡ false = ground arith in rw (e, a, n) o
                      ]
                ],
              )
        | inr g ↦
            rw (f, g)
              (
                record {
                  size = size;
                  low = low;
                  empty = λ k l. other k (λ e. ground arith) ∙ v.empty k l;
                },
                elim (Bool-cases (m == num)) [
                  | inl e ↦
                      let q : m ≡ num = ==→eq m num e in
                      let n : leb t.num_syscalls m ≡ false = ground arith in rw (n, e, q) self
                  | inr e ↦ rw (e, other m (λ q. ground arith)) refl
                ],
              )
      ]
]
