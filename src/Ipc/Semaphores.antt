-- ===== src/Ipc/Semaphores.antt =====
-- kernel/proc/ipc.c: semget, semop, semctl. A value is its 32-bit pattern; `nsems` and `semnum` are
-- ignored by the code.
use trade_kernel.Base.{
  ℕ, ◌%◌, Bool, true, false, not, ◌&&◌, List, Option, none, some, ◌==◌, if◌then◌else◌, get_or, set,
  add32, minus_one32, find_from, test_bit,
}

abbrev pub max_semaphores : ℕ
max_semaphores = 64

-- semaphore_t
pub record Semaphore : Type 0 where
  pub id : ℕ
  pub key : ℕ
  pub value : ℕ
  pub max_value : ℕ
  pub wait_count : ℕ
  pub permissions : ℕ
  pub creator_pid : ℕ
  pub in_use : Bool

pub record Semaphores : Type 0 where
  pub semaphores : List Semaphore
  pub next_sem_id : ℕ

abbrev pub no_semaphore : Semaphore
no_semaphore = record {
  id = 0;
  key = 0;
  value = 0;
  max_value = 0;
  wait_count = 0;
  permissions = 0;
  creator_pid = 0;
  in_use = false;
}

abbrev pub sem_at : Semaphores → ℕ → Semaphore
sem_at s i = get_or s.semaphores i no_semaphore

abbrev pub store_sem : Semaphores → ℕ → Semaphore → Semaphores
store_sem s i v = record s { semaphores = set s.semaphores i v }

unfoldable pub semget : ℕ → ℕ → ℕ → Semaphores → ℕ × Semaphores
semget key flags pid s =
    elim (find_from (λ i. (sem_at s i).in_use && (sem_at s i).key == key) max_semaphores 0) [
      | some i ↦ ((sem_at s i).id, s)
      | none ↦
          if test_bit flags 9
          then elim (find_from (λ i. not (sem_at s i).in_use) max_semaphores 0) [
            | some i ↦ (
              s.next_sem_id,
              record {
                semaphores = set s.semaphores i (record {
                  id = s.next_sem_id;
                  key = key;
                  value = 0;
                  max_value = 1;
                  wait_count = 0;
                  permissions = flags % 512;
                  creator_pid = pid;
                  in_use = true;
                });
                next_sem_id = add32 s.next_sem_id 1;
              },
            )
            | none ↦ (minus_one32, s)
          ]
          else (minus_one32, s)
    ]

-- semop is not implemented in the code: it returns -1 on every input.
unfoldable pub semop : Semaphores → ℕ × Semaphores
semop s = (minus_one32, s)

unfoldable pub find_sem : Semaphores → ℕ → Option ℕ
find_sem s id = find_from (λ i. (sem_at s i).in_use && (sem_at s i).id == id) max_semaphores 0

-- Commands: 0 is IPC_RMID, 16 SETVAL with the value behind `arg`, 12 GETVAL.
unfoldable pub semctl : ℕ → ℕ → ℕ → Semaphores → ℕ × Semaphores
semctl semid cmd arg s = elim (find_sem s semid) [
  | none ↦ (minus_one32, s)
  | some i ↦
      if cmd == 0
      then (0, store_sem s i (record (sem_at s i) { in_use = false }))
      else (if cmd == 16
          then (0, store_sem s i (record (sem_at s i) { value = arg }))
          else (if cmd == 12 then ((sem_at s i).value, s) else (minus_one32, s)))
]
