-- ===== src/Ocf/AsyncLock/Fifo.antt =====
-- The order in which `struct ocf_async_lock` serves its waiters, and how it counts them.
use dadi_fast_cdc.Prelude.{◌-◌, ◌≡◌, ◌≢◌, refl, ap, arith}
use dadi_fast_cdc.Prelude.{true, false, some, List, [], ◌∷◌, ◌++◌, map}
use mathlib.Core.List.{append-nil}
use dadi_fast_cdc.Ocf.AsyncLock.{
  Waiter, Lock, Status, ok, Completion, collect_waiters, run_waiters, wake, unlock, step, Op,
  write_op, read_op, try_write_op, try_read_op, unlock_op, read_unlock_op,
}
use dadi_fast_cdc.Ocf.AsyncLock.Invariant.{IsValid, readers, writers, collect_waiters-GoodCollect}

-- Whom a call puts behind the waiters.
abbrev pub newcomer : Op → List Waiter
newcomer (write_op name) = record { name = name; write_lock = true } ∷ []
newcomer (read_op name) = record { name = name; write_lock = false } ∷ []
newcomer try_write_op = []
newcomer try_read_op = []
newcomer unlock_op = []
newcomer read_unlock_op = []

abbrev pub served : List Completion → List Waiter
served cs = map (λ c. c.waiter) cs

served-run_waiters : (ws : List Waiter) (s : Status) → served (run_waiters ws s) ≡ ws
unfolding run_waiters
served-run_waiters [] s = refl
served-run_waiters (w ∷ ws) s = ap (λ t. w ∷ t) (served-run_waiters ws s)

-- Both ends of a release: the served and those left are the waiters, in order.
wake-split : (l : Lock) → l.wr ≡ 0 → served (wake l).1 ++ (wake l).0.waiters ≡ l.waiters
unfolding wake
wake-split l e = ground (
  arith,
  served-run_waiters (collect_waiters l.rd 0 l.waiters).taken ok,
  collect_waiters-GoodCollect l.rd l.waiters,
)

-- First come, first served: whom a call that meets no `ENV_BUG_ON` serves from a valid state, followed by those who wait after it, are those who
-- waited before it followed by the caller who asks for the lock. Nobody is lost or passed by.
pub step-fifo :
    (l : Lock) (op : Op) {l' : Lock} {cs : List Completion}
    → IsValid l
    → step l op ≡ some (l', cs)
    → served cs ++ l'.waiters ≡ l.waiters ++ newcomer op
unfolding step
step-fifo l (write_op name) v h = ground (arith, append-nil l.waiters)
step-fifo l (read_op name) v h = ground (arith, append-nil l.waiters)
step-fifo l try_write_op v h = ground (arith, append-nil l.waiters)
step-fifo l try_read_op v h = ground (arith, append-nil l.waiters)
step-fifo l unlock_op v h = ground (arith, append-nil l.waiters, wake-split (record l { wr = 0 }))
step-fifo l read_unlock_op v h =
    ground (arith, append-nil l.waiters, wake-split (record l { rd = l.rd - 1 }))

-- A release by the writer serves as many readers, or the one writer, as it then counts; and it
-- serves somebody if anybody waits.
pub unlock-served :
    (l : Lock) {l' : Lock} {cs : List Completion}
    → unlock l ≡ some (l', cs)
    → (l'.rd ≡ readers (served cs))
      × (l'.wr ≡ writers (served cs))
      × (l.waiters ≢ [] → served cs ≢ [])
unfolding unlock wake
unlock-served l h = ground (
  arith,
  served-run_waiters (collect_waiters 0 0 l.waiters).taken ok,
  collect_waiters-GoodCollect 0 l.waiters,
)
