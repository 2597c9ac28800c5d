-- ===== src/Ocf/AsyncLock/Invariant.antt =====
-- The states of `struct ocf_async_lock` that can occur.
use dadi_fast_cdc.Prelude.{ℕ, ◌+◌, ◌-◌, ◌≤◌, ◌≡◌, ◌⊎◌, refl, inr, arith}
use dadi_fast_cdc.Prelude.{true, false, some, List, [], ◌∷◌, ◌++◌}
use dadi_fast_cdc.Ocf.AsyncLock.{
  Waiter, Lock, Completion, Collected, collect_waiters, init, wake, step, Op, write_op, read_op,
  try_write_op, try_read_op, unlock_op, read_unlock_op,
}

abbrev pub WriterFirst : List Waiter → Type 0
WriterFirst [] = Unit
WriterFirst (w ∷ ws) = w.write_lock ≡ true

-- At most one writer, never beside readers; nobody waits for a free lock, and behind readers the
-- first to wait is a writer.
pub record IsValid (l : Lock) : Type 0 where
  pub one_writer : l.wr ≤ 1
  pub exclusive : (l.rd ≡ 0) ⊎ (l.wr ≡ 0)
  pub idle : l.rd ≡ 0 → l.wr ≡ 0 → l.waiters ≡ []
  pub writer_first : l.wr ≡ 0 → WriterFirst l.waiters

abbrev pub readers : List Waiter → ℕ
readers [] = 0
readers (w ∷ ws) = (elim w.write_lock [ true ↦ 0 | false ↦ 1 ]) + readers ws

abbrev pub writers : List Waiter → ℕ
writers [] = 0
writers (w ∷ ws) = (elim w.write_lock [ true ↦ 1 | false ↦ 0 ]) + writers ws

-- What collecting from a lock with `rd` readers and no writer does with the waiters `ws`.
pub record GoodCollect (rd : ℕ) (ws : List Waiter) (c : Collected) : Type 0 where
  pub split : c.taken ++ c.left ≡ ws
  pub rd_count : c.rd ≡ rd + readers c.taken
  pub wr_count : c.wr ≡ writers c.taken
  pub one_writer : c.wr ≤ 1
  pub exclusive : (c.rd ≡ 0) ⊎ (c.wr ≡ 0)
  pub idle : c.rd ≡ 0 → c.wr ≡ 0 → c.left ≡ []
  pub writer_first : c.wr ≡ 0 → WriterFirst c.left

pub collect_waiters-GoodCollect :
    (rd : ℕ) (ws : List Waiter) → GoodCollect rd ws (collect_waiters rd 0 ws)
unfolding collect_waiters
collect_waiters-GoodCollect rd [] = record {
  split = refl;
  rd_count = omega arith;
  wr_count = refl;
  one_writer = omega arith;
  exclusive = inr refl;
  idle = λ a b. refl;
  writer_first = λ a. tt;
}
collect_waiters-GoodCollect rd (w ∷ ws) = ground (arith, collect_waiters-GoodCollect (rd + 1) ws)

-- The end of both unlock operations, from a lock with no writer.
wake-IsValid : (l : Lock) → l.wr ≡ 0 → IsValid (wake l).0
unfolding wake
wake-IsValid l e = ground (arith, collect_waiters-GoodCollect l.rd l.waiters)

WriterFirst-snoc :
    (ws : List Waiter) (w : Waiter)
    → WriterFirst ws
    → (ws ≡ [] → w.write_lock ≡ true)
    → WriterFirst (ws ++ (w ∷ []))
WriterFirst-snoc [] w h k = k refl
WriterFirst-snoc (x ∷ xs) w h k = h

-- Every call that the code admits keeps the invariant.
pub step-IsValid :
    (l : Lock) (op : Op) {l' : Lock} {cs : List Completion}
    → IsValid l
    → step l op ≡ some (l', cs)
    → IsValid l'
unfolding step
step-IsValid l (write_op name) v h =
    ground (arith, WriterFirst-snoc l.waiters (record { name = name; write_lock = true }))
step-IsValid l (read_op name) v h =
    ground (arith, WriterFirst-snoc l.waiters (record { name = name; write_lock = false }))
step-IsValid l try_write_op v h = ground arith
step-IsValid l try_read_op v h = ground arith
step-IsValid l unlock_op v h = ground (arith, wake-IsValid (record l { wr = 0 }))
step-IsValid l read_unlock_op v h = ground (arith, wake-IsValid (record l { rd = l.rd - 1 }))

-- The lock as `ocf_async_lock_init` leaves it, and what calls lead to.
pub data Reach : Lock → Type 0 where
  initial : {l : Lock} → init 0 ≡ some l → Reach l
  called :
      {l l' : Lock} (op : Op) (cs : List Completion)
      → Reach l
      → step l op ≡ some (l', cs)
      → Reach l'

-- In every state that calls lead to, at most one writer holds the lock, never beside readers;
-- nobody waits for a free lock; and behind readers the first waiter is a writer.
pub Reach-IsValid : {l : Lock} → Reach l → IsValid l
unfolding init
Reach-IsValid (initial e) = ground arith
Reach-IsValid (called {l = l} op cs r e) = step-IsValid l op (Reach-IsValid r) e
