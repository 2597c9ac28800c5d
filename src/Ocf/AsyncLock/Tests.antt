-- ===== src/Ocf/AsyncLock/Tests.antt =====
-- Runs of the asynchronous lock.
use dadi_fast_cdc.Prelude.{◌≡◌, ◌≢◌, refl, arith, true, false, some, List, [], ◌∷◌, ◌++◌}
use dadi_fast_cdc.Ocf.AsyncLock.{
  Waiter, Lock, Completion, ok, init, collect_waiters, run_waiters, trylock, lock, wake, unlock,
  step, write_op, unlock_op,
}
use dadi_fast_cdc.Ocf.AsyncLock.Invariant.{
  IsValid, readers, writers, Reach, initial, called, Reach-IsValid,
}
use dadi_fast_cdc.Ocf.AsyncLock.Fifo.{newcomer, served, step-fifo, unlock-served}

abbrev first_reader : Waiter
first_reader = record { name = 1; write_lock = false }

abbrev second_reader : Waiter
second_reader = record { name = 2; write_lock = false }

abbrev next_writer : Waiter
next_writer = record { name = 3; write_lock = true }

-- A writer holds the lock; two readers and a writer wait.
abbrev contended : Lock
contended = record { rd = 0; wr = 1; waiters = first_reader ∷ second_reader ∷ next_writer ∷ [] }

contended-IsValid : IsValid contended
contended-IsValid = ground arith

abbrev handed_over : Lock
handed_over = record { rd = 2; wr = 0; waiters = next_writer ∷ [] }

abbrev calls : List Completion
calls =
    record { waiter = first_reader; status = ok }
    ∷ record { waiter = second_reader; status = ok }
    ∷ []

contended-unlock : unlock contended ≡ some (handed_over, calls)
unfolding unlock wake collect_waiters run_waiters
contended-unlock = refl

contended-step : step contended unlock_op ≡ some (handed_over, calls)
unfolding step
contended-step = contended-unlock

step-fifo_example : served calls ++ handed_over.waiters ≡ contended.waiters ++ newcomer unlock_op
step-fifo_example = step-fifo contended unlock_op contended-IsValid contended-step

unlock-served_example :
    (handed_over.rd ≡ readers (served calls))
    × (handed_over.wr ≡ writers (served calls))
    × (contended.waiters ≢ [] → served calls ≢ [])
unlock-served_example = unlock-served contended contended-unlock

abbrev fresh : Lock
fresh = record { rd = 0; wr = 0; waiters = [] }

abbrev taken : Lock
taken = record { rd = 0; wr = 1; waiters = [] }

fresh-init : init 0 ≡ some fresh
unfolding init
fresh-init = refl

fresh-step :
    step fresh (write_op 3) ≡ some (taken, record { waiter = next_writer; status = ok } ∷ [])
unfolding step lock trylock
fresh-step = refl

taken-Reach : Reach taken
taken-Reach =
    called (write_op 3) (record { waiter = next_writer; status = ok } ∷ []) (initial fresh-init)
      fresh-step

Reach-IsValid_example : IsValid taken
Reach-IsValid_example = Reach-IsValid taken-Reach
