-- ===== src/Ipc/Fifo.antt =====
-- A first-in first-out queue of at most `cap` elements, oldest first: what the ring buffer and the
-- message queues of kernel/proc/ipc.c are for.
use trade_kernel.Base.{ℕ, Bool, true, false, List, [], ◌∷◌, ◌++◌, Option, none, some, length, ltb}
use trade_kernel.Base.{if◌then◌else◌}

module _ {ℓ} {A : Type ℓ} where
  -- The second component says whether there was room.
  unfoldable pub push : ℕ → List A → A → List A × Bool
  push cap q x = if ltb (length q) cap then (q ++ (x ∷ []), true) else (q, false)

  unfoldable pub pop : List A → List A × Option A
  pop [] = ([], none)
  pop (x ∷ q) = (q, some x)
